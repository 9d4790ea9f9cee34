-- ===== src/Fs/DirCalls.antt =====
-- System calls of fs/fs.c on names and directories. A result that is `none` is -1, or NULL.
use tinykernel.Base.{
  ℕ, zero, suc, ◌+◌, ◌*◌, Bool, true, false, not, ◌&&◌, List, [], ◌∷◌, Option, none, some, ltb,
  ◌==◌, if◌then◌else◌, length, update, Outcome, ok, panic, assert, ◌>>=◌, ◌>>◌,
}
use tinykernel.Bitmap.{bitmap_set}
use tinykernel.Thread.Pcb.{Task}
use tinykernel.Fs.{
  Inode, FileSystem, patch, on_disk, write_sectors, malloc_buffer, set_disk, set_part,
}
use tinykernel.Fs.Paths.{slash}
use tinykernel.Fs.Inodes.{inode_init, inode_sync, inode_open, inode_close}
use tinykernel.Fs.Blocks.{inode_bitmap_alloc, set_inode_bitmap, inode_release}
use tinykernel.Fs.Dirs.{
  Dir, DirEntry, ft_regular, ft_directory, entry_byte, entry_size, create_dir_entry, dir_open,
  dir_close, dir_read, dir_is_empty, root,
}
use tinykernel.Fs.Entries.{take_block, sync_dir_entry}
use tinykernel.Fs.Removal.{delete_dir_entry, dir_remove}
use tinykernel.Fs.Search.{SearchRecord, is_root_path, search_file}
use tinykernel.Fs.Creation.{no_entry, sync_inodes}
use tinykernel.Fs.Calls.{last_name, same_depth}

-- A call that returns 0 or -1.
abbrev pub Done : Type 0
Done = Option ℕ × FileSystem

-- The loop of `sys_unlink` over `file_table`; the first number is `MAX_FILE_OPEN - file_idx`.
unfoldable pub in_use : ℕ → FileSystem → ℕ → ℕ → Bool
in_use zero fs file_idx inode_no = false
in_use (suc left) fs file_idx inode_no =
    let rest = in_use left fs (file_idx + 1) inode_no in
    elim (fs.file_table file_idx).fd_inode [
      | none ↦ rest
      | some address ↦ if (fs.inodes address).i_no == inode_no then true else rest
    ]

-- `sys_unlink` behind its guards.
unfoldable pub unlink_found : (fuel : ℕ) → ℕ → SearchRecord → FileSystem → Outcome Done
unlink_found fuel inode_no r fs = do
  let (io_buf, fs1) = malloc_buffer fs
  let remove = do
    (deleted, fs2) ← delete_dir_entry fuel r.parent_dir inode_no fs1
    fs3 ← inode_release inode_no fs2
    ok (some 0, dir_close r.parent_dir fs3)
  elim io_buf [ none ↦ ok (none, dir_close r.parent_dir fs1) | some b ↦ remove ]

unfoldable pub sys_unlink : (fuel : ℕ) → ℕ → List ℕ → FileSystem → Outcome Done
sys_unlink fuel garbage pathname fs = do
  assert (ltb (length pathname) 512)
  (inode_no, r, fs1) ← search_file garbage pathname fs
  let refused : Outcome Done = ok (none, dir_close r.parent_dir fs1)
  elim inode_no [
    | none ↦ refused
    | some n ↦ do
      assert (not (n == 0))
      if r.file_type == ft_directory
          then refused
          else if in_use 32 fs1 0 n
          then refused
          else unlink_found fuel n r fs1
  ]

-- The sector of a new directory: `.` and `..`, written over a sector of zeros.
unfoldable pub dot_entries : ℕ → ℕ → ℕ → ℕ
dot_entries inode_no parent_no =
    let dot : DirEntry = record {
      filename = λ k. if k == 0 then 46 else 0;
      i_no = inode_no;
      f_type = ft_directory;
    } in
    let dotdot : DirEntry = record {
      filename = λ k. if ltb k 2 then 46 else 0;
      i_no = parent_no;
      f_type = ft_directory;
    } in
    patch entry_size entry_size (entry_byte dotdot) (patch 0 entry_size (entry_byte dot) (λ i. 0))

-- The rollback of `sys_mkdir`, from step 2 and from step 1 on.
unfoldable pub mkdir_failed : Dir → FileSystem → Done
mkdir_failed parent_dir fs = (none, dir_close parent_dir fs)

unfoldable pub mkdir_roll_back : Dir → ℕ → FileSystem → Outcome Done
mkdir_roll_back parent_dir inode_no fs = do
  b ← bitmap_set fs.part.inode_bitmap inode_no 0
  ok (mkdir_failed parent_dir (set_part (set_inode_bitmap b fs.part) fs))

-- The end of `sys_mkdir`: the inodes of the parent and of the new directory, which is a local
-- variable, and the bitmap of inodes go to the disk.
unfoldable pub mkdir_publish : Dir → Inode → FileSystem → Outcome Done
mkdir_publish parent_dir new_dir_inode fs = do
  disk1 ← inode_sync fs.part (fs.inodes parent_dir.inode) fs.disk
  disk2 ← inode_sync fs.part new_dir_inode disk1
  fs1 ← sync_inodes new_dir_inode.i_no (set_disk disk2 fs)
  ok (some 0, dir_close parent_dir fs1)

-- `sys_mkdir` with an inode number: the block of the directory and its entry in the parent. What
-- stands behind the thirteen sectors of the new inode is not looked at.
unfoldable pub mkdir_with : List ℕ → Dir → ℕ → FileSystem → Outcome Done
mkdir_with dirname parent_dir inode_no fs = do
  let cleared : Inode = inode_init inode_no (fs.inodes parent_dir.inode)
  new ← take_block fs
  elim new [
    | none ↦ mkdir_roll_back parent_dir inode_no fs
    | some (lba, fs1) ↦ do
      assert (not (lba == fs.part.sb.data_start_lba))
      let dots = dot_entries inode_no (fs1.inodes parent_dir.inode).i_no
      assert (on_disk lba 1)
      let fs2 = set_disk (write_sectors lba dots 1 fs1.disk) fs1
      let inode : Inode = record cleared {
        i_sectors = update cleared.i_sectors 0 lba;
        i_size = 2 * fs.part.sb.dir_entry_size;
      }
      e ← create_dir_entry dirname inode_no ft_directory no_entry
      (stored, fs3) ← sync_dir_entry parent_dir e fs2
      if stored then mkdir_publish parent_dir inode fs3 else mkdir_roll_back parent_dir inode_no fs3
  ]

unfoldable pub mkdir_searched : ℕ → List ℕ → SearchRecord → FileSystem → Outcome Done
mkdir_searched garbage pathname r fs = do
  let create = do
    new ← inode_bitmap_alloc fs.part
    elim new [
      | none ↦ ok (mkdir_failed r.parent_dir fs)
      | some (inode_no, part) ↦
          mkdir_with (last_name r.searched_path) r.parent_dir inode_no (set_part part fs)
    ]
  if same_depth garbage pathname r.searched_path then create else ok (mkdir_failed r.parent_dir fs)

unfoldable pub sys_mkdir : ℕ → List ℕ → FileSystem → Outcome Done
sys_mkdir garbage pathname fs = do
  let (io_buf, fs1) = malloc_buffer fs
  let search = do
    (inode_no, r, fs2) ← search_file garbage pathname fs1
    elim inode_no [
      | none ↦ mkdir_searched garbage pathname r fs2
      | some n ↦ ok (mkdir_failed r.parent_dir fs2)
    ]
  elim io_buf [ none ↦ ok (none, fs1) | some b ↦ search ]

-- "/" and what begins with "/." are the root directory for `sys_opendir`.
unfoldable pub names_root : List ℕ → Bool
names_root (c ∷ []) = c == slash
names_root (c ∷ d ∷ ds) = (c == slash) && (d == 46)
names_root [] = false

unfoldable pub sys_opendir : ℕ → List ℕ → FileSystem → Outcome (Option Dir × FileSystem)
sys_opendir garbage name fs = do
  assert (ltb (length name) 512)
  let search = do
    (inode_no, r, fs1) ← search_file garbage name fs
    let failed : Option Dir × FileSystem = (none, dir_close r.parent_dir fs1)
    elim inode_no [
      | none ↦ ok failed
      | some n ↦ do
        let opened_dir = do (dir, fs2) ← dir_open n fs1; ok (some dir, dir_close r.parent_dir fs2)
        if r.file_type == ft_directory then opened_dir else ok failed
    ]
  if names_root name then ok (some (root fs), fs) else search

unfoldable pub sys_closedir : Option Dir → FileSystem → Done
sys_closedir none fs = (none, fs)
sys_closedir (some dir) fs = (some 0, dir_close dir fs)

unfoldable pub sys_readdir : Option Dir → FileSystem → Outcome (Option DirEntry × Dir)
sys_readdir none fs = panic
sys_readdir (some dir) fs = dir_read dir fs

unfoldable pub sys_rewinddir : Dir → Dir
sys_rewinddir dir = record dir { dir_pos = 0 }

-- The directory is opened, removed if it is empty, and closed.
unfoldable pub rmdir_opened : (fuel : ℕ) → ℕ → Dir → FileSystem → Outcome Done
rmdir_opened fuel inode_no parent_dir fs = do
  (dir, fs1) ← dir_open inode_no fs
  let remove = do (r, fs2) ← dir_remove fuel parent_dir dir fs1; ok (r, dir_close dir fs2)
  if dir_is_empty dir fs1 then remove else ok (none, dir_close dir fs1)

unfoldable pub sys_rmdir : (fuel : ℕ) → ℕ → List ℕ → FileSystem → Outcome Done
sys_rmdir fuel garbage pathname fs = do
  (inode_no, r, fs1) ← search_file garbage pathname fs
  elim inode_no [
    | none ↦ ok (none, dir_close r.parent_dir fs1)
    | some n ↦ do
      assert (not (n == 0))
      (ret, fs2) ←
          if r.file_type == ft_regular then ok (none, fs1) else rmdir_opened fuel n r.parent_dir fs1
      ok (ret, dir_close r.parent_dir fs2)
  ]

unfoldable pub sys_chdir : ℕ → List ℕ → Task → FileSystem → Outcome (Option ℕ × Task × FileSystem)
sys_chdir garbage path cur fs = do
  (inode_no, r, fs1) ← search_file garbage path fs
  let failed : Option ℕ × Task × FileSystem = (none, cur, dir_close r.parent_dir fs1)
  elim inode_no [
    | none ↦ ok failed
    | some n ↦
        if r.file_type == ft_directory
        then ok (some 0, record cur { cwd_inode_nr = n }, dir_close r.parent_dir fs1)
        else ok failed
  ]

-- `struct stat`
pub record Stat : Type 0 where
  pub st_ino : ℕ
  pub st_size : ℕ
  pub st_filetype : ℕ

-- `none` is the -1, with the buffer as it was.
unfoldable pub sys_stat : ℕ → List ℕ → FileSystem → Outcome (Option Stat × FileSystem)
sys_stat garbage path fs = do
  let at_root : Stat = record {
    st_ino = 0;
    st_size = (fs.inodes fs.root_dir).i_size;
    st_filetype = ft_directory;
  }
  let search = do
    (inode_no, r, fs1) ← search_file garbage path fs
    elim inode_no [
      | none ↦ ok (none, dir_close r.parent_dir fs1)
      | some n ↦ do
        (address, fs2) ← inode_open n fs1
        let st : Stat = record {
          st_ino = n;
          st_size = (fs2.inodes address).i_size;
          st_filetype = r.file_type;
        }
        ok (some st, dir_close r.parent_dir (inode_close address fs2))
    ]
  if is_root_path path then ok (some at_root, fs) else search
