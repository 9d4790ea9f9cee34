-- ===== src/Fs.antt =====
-- The file system: what fs/inode.h, fs/file.h, fs/dir.h, fs/super_block.h and device/ide.h declare,
-- as a disk of sectors and the structures in memory. A structure on the disk is its bytes, and a
-- word is four of them, the lowest first.
mod Example
mod Tests
pub mod Paths
pub mod Inodes
pub mod Blocks
pub mod Files
pub mod Reading
pub mod Growth
pub mod Writing
pub mod Dirs
pub mod Entries
pub mod Removal
pub mod Search
pub mod Creation
pub mod Calls
pub mod DirCalls
pub mod Cwd
pub mod Format
use tinykernel.Base.{
  ℕ, ◌+◌, ◌-◌, ◌*◌, ◌/◌, ◌%◌, ◌^◌, Bool, ◌&&◌, List, Option, none, some, ltb, leb, if◌then◌else◌,
  update,
}
use tinykernel.Bitmap.{Bitmap}

-- The bytes of each sector.
abbrev pub Disk : Type 0
Disk = ℕ → ℕ → ℕ

-- `SECTOR_SIZE`, which is also `BLOCK_SIZE`, and `MAX_FILES_PER_PART`.
abbrev pub sector_size : ℕ
sector_size = 512

abbrev pub max_files_per_part : ℕ
max_files_per_part = 4096

-- `struct inode` without `inode_tag`: the list of open inodes holds their addresses.
pub record Inode : Type 0 where
  pub i_no : ℕ
  pub i_size : ℕ
  pub i_open_cnts : ℕ
  pub write_deny : Bool
  pub i_sectors : ℕ → ℕ

-- `struct super_block` without its padding.
pub record SuperBlock : Type 0 where
  pub magic : ℕ
  pub sec_cnt : ℕ
  pub inode_cnt : ℕ
  pub part_lba_base : ℕ
  pub block_bitmap_lba : ℕ
  pub block_bitmap_sects : ℕ
  pub inode_bitmap_lba : ℕ
  pub inode_bitmap_sects : ℕ
  pub inode_table_lba : ℕ
  pub inode_table_sects : ℕ
  pub data_start_lba : ℕ
  pub root_inode_no : ℕ
  pub dir_entry_size : ℕ

-- `struct partition` without `my_disk`, `part_tag` and `name`.
pub record Partition : Type 0 where
  pub start_lba : ℕ
  pub sec_cnt : ℕ
  pub sb : SuperBlock
  pub block_bitmap : Bitmap
  pub inode_bitmap : Bitmap
  pub open_inodes : List ℕ

-- `struct file`; `none` is an `fd_inode` that is NULL.
pub record File : Type 0 where
  pub fd_pos : ℕ
  pub fd_flag : ℕ
  pub fd_inode : Option ℕ

-- The state of the file system: the disk, `*cur_part`, the inodes in memory by their addresses, the
-- inode of `root_dir`, and `file_table`. `addresses` are those that the calls of `sys_malloc` for an inode will return, in
-- their order (0 is NULL), and `buffers` what its calls for a buffer will find there, with `none` for NULL.
pub record FileSystem : Type 0 where
  pub disk : Disk
  pub part : Partition
  pub inodes : ℕ → Inode
  pub root_dir : ℕ
  pub file_table : ℕ → File
  pub addresses : ℕ → ℕ
  pub buffers : ℕ → Option (ℕ → ℕ)

-- Byte `k` of a word, and the word at the offset `p`.
abbrev pub word_byte : ℕ → ℕ → ℕ
word_byte v k = v / 256 ^ k % 256

abbrev pub word_at : (ℕ → ℕ) → ℕ → ℕ
word_at mem p = mem p + 2 ^ 8 * mem (p + 1) + 2 ^ 16 * mem (p + 2) + 2 ^ 24 * mem (p + 3)

-- A copy of `len` bytes from `src` to the offset `off` of a buffer.
abbrev pub patch : ℕ → ℕ → (ℕ → ℕ) → (ℕ → ℕ) → ℕ → ℕ
patch off len src buf i = if leb off i && ltb i (off + len) then src (i - off) else buf i

-- The largest sector number that the disk driver accepts.
abbrev pub max_lba : ℕ
max_lba = 80 * 1024 * 1024 / 512 - 1

-- The `ASSERT`s of `ide_read` and `ide_write`: there is a sector to transfer, and each round of 256
-- sectors starts at a number that is accepted. A call of either is this test, which a caller
-- asserts, and then one of the functions below.
abbrev pub on_disk : ℕ → ℕ → Bool
on_disk lba sec_cnt = ltb 0 sec_cnt && leb (lba + (sec_cnt - 1) / 256 * 256) max_lba

-- What `ide_read` of `sec_cnt` sectors leaves in a buffer.
unfoldable pub read_sectors : ℕ → ℕ → Disk → (ℕ → ℕ) → ℕ → ℕ
read_sectors lba sec_cnt disk buf i =
    if ltb i (sec_cnt * 512) then disk (lba + i / 512) (i % 512) else buf i

-- The disk after `ide_write` of `sec_cnt` sectors of a buffer.
unfoldable pub write_sectors : ℕ → (ℕ → ℕ) → ℕ → Disk → Disk
write_sectors lba buf sec_cnt disk sector off =
    if leb lba sector && ltb sector (lba + sec_cnt)
    then buf ((sector - lba) * 512 + off)
    else disk sector off

-- `ide_read` of an indirect table to `all_blocks + 12`, and `ide_write` of it from there.
unfoldable pub read_table : Disk → ℕ → (ℕ → ℕ) → ℕ → ℕ
read_table disk lba all_blocks i =
    if leb 12 i && ltb i 140 then word_at (disk lba) (4 * (i - 12)) else all_blocks i

unfoldable pub write_table : ℕ → (ℕ → ℕ) → Disk → Disk
write_table lba all_blocks =
    write_sectors lba (λ off. word_byte (all_blocks (12 + off / 4)) (off % 4)) 1

-- The next buffer, and the next address, from `sys_malloc`.
abbrev pub malloc_buffer : FileSystem → Option (ℕ → ℕ) × FileSystem
malloc_buffer fs = (fs.buffers 0, record fs { buffers = λ k. fs.buffers (k + 1) })

abbrev pub malloc_inode : FileSystem → ℕ × FileSystem
malloc_inode fs = (fs.addresses 0, record fs { addresses = λ k. fs.addresses (k + 1) })

abbrev pub set_disk : Disk → FileSystem → FileSystem
set_disk d fs = record fs { disk = d }

abbrev pub set_part : Partition → FileSystem → FileSystem
set_part p fs = record fs { part = p }

-- An assignment to a field of the inode at an address.
abbrev pub set_inode : ℕ → Inode → FileSystem → FileSystem
set_inode address i fs = record fs { inodes = update fs.inodes address i }

abbrev pub set_file : ℕ → File → FileSystem → FileSystem
set_file fd f fs = record fs { file_table = update fs.file_table fd f }
