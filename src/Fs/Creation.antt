-- ===== src/Fs/Creation.antt =====
-- `file_create` of fs/file.c, with its rollback. The switch of `pgdir` is seen where it is not
-- undone.
use tinykernel.Base.{ℕ, List, none, some, ◌==◌, if◌then◌else◌, Outcome, ok, ◌>>=◌}
use tinykernel.Bitmap.{bitmap_set}
use tinykernel.Thread.Pcb.{Task}
use tinykernel.Fs.{
  File, FileSystem, malloc_buffer, malloc_inode, set_disk, set_part, set_inode, set_file,
}
use tinykernel.Fs.Inodes.{inode_init, inode_sync, push_open}
use tinykernel.Fs.Blocks.{inode_bitmap_type, inode_bitmap_alloc, sync_bitmap, set_inode_bitmap}
use tinykernel.Fs.Files.{Opened, new_file, get_free_slot_in_global, install}
use tinykernel.Fs.Dirs.{Dir, DirEntry, ft_regular, create_dir_entry}
use tinykernel.Fs.Entries.{sync_dir_entry}

-- A `struct dir_entry` that `memset` has cleared, and a `struct file`.
abbrev pub no_entry : DirEntry
no_entry = record { filename = λ k. 0; i_no = 0; f_type = 0 }

abbrev pub no_file : File
no_file = record { fd_pos = 0; fd_flag = 0; fd_inode = none }

-- What every step of the rollback ends with: the bit of the inode.
unfoldable pub roll_back : ℕ → Task → FileSystem → Outcome Opened
roll_back inode_no cur fs = do
  b ← bitmap_set fs.part.inode_bitmap inode_no 0
  ok (none, cur, set_part (set_inode_bitmap b fs.part) fs)

-- The bitmap of inodes goes to the disk.
abbrev pub sync_inodes : ℕ → FileSystem → Outcome FileSystem
sync_inodes inode_no fs = sync_bitmap inode_no inode_bitmap_type fs

-- The part of `file_create` that follows `sync_dir_entry`.
unfoldable pub publish : Dir → ℕ → ℕ → ℕ → Task → FileSystem → Outcome Opened
publish parent_dir inode_no address fd_idx cur fs = do
  disk1 ← inode_sync fs.part (fs.inodes parent_dir.inode) fs.disk
  disk2 ← inode_sync fs.part (fs.inodes address) disk1
  fs1 ← sync_inodes inode_no (set_disk disk2 fs)
  let fs2 = set_part (push_open address fs1.part) fs1
  ok (install fd_idx cur (set_inode address (record (fs2.inodes address) { i_open_cnts = 1 }) fs2))

-- The entry of `file_table` and that of the directory.
unfoldable pub enter_file : Dir → List ℕ → ℕ → ℕ → ℕ → ℕ → Task → FileSystem → Outcome Opened
enter_file parent_dir filename flag inode_no address fd_idx cur fs = do
  let fs1 = set_file fd_idx (new_file flag address) fs
  e ← create_dir_entry filename inode_no ft_regular no_entry
  (stored, fs2) ← sync_dir_entry parent_dir e fs1
  if stored
      then publish parent_dir inode_no address fd_idx cur fs2
      else roll_back inode_no cur (set_file fd_idx no_file fs2)

-- `file_create` from the allocation of the inode's memory on.
unfoldable pub create_inode : Dir → List ℕ → ℕ → ℕ → Task → FileSystem → Outcome Opened
create_inode parent_dir filename flag inode_no cur fs = do
  let (address, fs1) = malloc_inode fs
  let fs2 = set_inode address (inode_init inode_no (fs1.inodes address)) fs1
  let go_on : Outcome Opened = elim (get_free_slot_in_global fs2) [
    | none ↦ roll_back inode_no cur fs2
    | some fd_idx ↦ enter_file parent_dir filename flag inode_no address fd_idx cur fs2
  ]
  if address == 0 then roll_back inode_no (record cur { pgdir = 0 }) fs1 else go_on

unfoldable pub file_create : Dir → List ℕ → ℕ → Task → FileSystem → Outcome Opened
file_create parent_dir filename flag cur fs = do
  let (io_buf, fs1) = malloc_buffer fs
  let allocate = do
    new ← inode_bitmap_alloc fs1.part
    elim new [
      | none ↦ ok (none, cur, fs1)
      | some (inode_no, part) ↦
          create_inode parent_dir filename flag inode_no cur (set_part part fs1)
    ]
  elim io_buf [ none ↦ ok (none, cur, fs1) | some b ↦ allocate ]
