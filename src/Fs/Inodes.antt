-- ===== src/Fs/Inodes.antt =====
-- fs/inode.c: inodes in the table on the disk, and open inodes in memory. The switches of `pgdir`
-- around `sys_malloc` and `sys_free`, which choose the kernel's heap, are left out, and so is the
-- critical section of `inode_close`, which restores the interrupt flag.
pub mod Table
pub mod Stored
pub mod Cache
use tinykernel.Base.{
  ℕ, zero, suc, ◌+◌, ◌-◌, ◌*◌, ◌/◌, ◌%◌, ◌^◌, Bool, true, false, not, List, [], ◌∷◌, Option, none,
  some, ltb, leb, ◌==◌, if◌then◌else◌, u8, u32, Outcome, ok, assert, ◌>>=◌, ◌>>◌,
}
use tinykernel.Bitmap.{Bitmap, bitmap_set}
use tinykernel.Fs.{
  Disk, Inode, SuperBlock, Partition, FileSystem, word_byte, word_at, patch, on_disk, read_sectors,
  write_sectors, read_table, malloc_inode, set_disk, set_part, set_inode,
}

-- `struct inode_position`
pub record InodePosition : Type 0 where
  pub two_sec : Bool
  pub sec_lba : ℕ
  pub off_size : ℕ

-- `sizeof(struct inode)`: `bool` is an enumeration of four bytes.
abbrev pub inode_size : ℕ
inode_size = 76

unfoldable pub inode_locate : Partition → ℕ → Outcome InodePosition
inode_locate part inode_no = do
  assert (ltb inode_no 4096)
  let off_size = inode_no * inode_size
  let off_size_in_sec = off_size % 512
  ok (record {
    two_sec = ltb (512 - off_size_in_sec) inode_size;
    sec_lba = part.sb.inode_table_lba + off_size / 512;
    off_size = off_size_in_sec;
  })

-- The nineteen words of `struct inode`; the last two are the pointers of `inode_tag`, both NULL.
unfoldable pub inode_word : Inode → ℕ → ℕ
inode_word inode zero = inode.i_no
inode_word inode (suc zero) = inode.i_size
inode_word inode (suc (suc zero)) = inode.i_open_cnts
inode_word inode (suc (suc (suc zero))) = if inode.write_deny then 1 else 0
inode_word inode (suc (suc (suc (suc w)))) = if ltb w 13 then inode.i_sectors w else 0

abbrev pub inode_byte : Inode → ℕ → ℕ
inode_byte inode k = word_byte (inode_word inode (k / 4)) (k % 4)

-- The inode whose bytes stand at the offset `off` of a buffer.
unfoldable pub inode_of : (ℕ → ℕ) → ℕ → Inode
inode_of buf off = record {
  i_no = word_at buf off;
  i_size = word_at buf (off + 4);
  i_open_cnts = word_at buf (off + 8);
  write_deny = not (word_at buf (off + 12) == 0);
  i_sectors = λ j. word_at buf (off + 16 + 4 * j);
}

-- `pure_inode` of `inode_sync`
abbrev pub pure_inode : Inode → Inode
pure_inode inode = record inode { i_open_cnts = 0; write_deny = false }

abbrev pub sectors_of : InodePosition → ℕ
sectors_of inode_pos = if inode_pos.two_sec then 2 else 1

-- The bytes of one inode in the table are replaced: read, copy, write.
unfoldable pub replace_inode : InodePosition → (ℕ → ℕ) → Disk → Disk
replace_inode inode_pos bytes disk =
    let n = sectors_of inode_pos in
    let inode_buf = read_sectors inode_pos.sec_lba n disk (λ i. 0) in
    write_sectors inode_pos.sec_lba (patch inode_pos.off_size inode_size bytes inode_buf) n disk

-- `inode_sync`; the number of the inode is kept in a `uint8_t`. `io_buf` only holds what goes from
-- the disk back to the disk; it has room for two sectors where the inode lies across two.
unfoldable pub inode_sync : Partition → Inode → Disk → Outcome Disk
inode_sync part inode disk = do
  let inode_no = u8 inode.i_no
  inode_pos ← inode_locate part inode_no
  assert (leb inode_pos.sec_lba (part.start_lba + part.sec_cnt))
  assert (on_disk inode_pos.sec_lba (sectors_of inode_pos))
  ok (replace_inode inode_pos (inode_byte (pure_inode inode)) disk)

unfoldable pub inode_delete : Partition → ℕ → Disk → Outcome Disk
inode_delete part inode_no disk = do
  assert (ltb inode_no 4096)
  inode_pos ← inode_locate part inode_no
  assert (leb inode_pos.sec_lba (part.start_lba + part.sec_cnt))
  assert (on_disk inode_pos.sec_lba (sectors_of inode_pos))
  ok (replace_inode inode_pos (λ k. 0) disk)

-- `inode_init`; the loop sets the thirteen sectors.
unfoldable pub inode_init : ℕ → Inode → Inode
inode_init inode_no new_inode = record {
  i_no = inode_no;
  i_size = 0;
  i_open_cnts = 0;
  write_deny = false;
  i_sectors = λ sec_idx. if ltb sec_idx 13 then 0 else new_inode.i_sectors sec_idx;
}

-- The loop of `inode_open` over the open inodes.
unfoldable pub find_open : (ℕ → Inode) → List ℕ → ℕ → Option ℕ
find_open inodes [] inode_no = none
find_open inodes (elem ∷ rest) inode_no =
    let later = find_open inodes rest inode_no in
    if (inodes elem).i_no == inode_no then some elem else later

-- The inode `inode_no` as it stands in the table.
unfoldable pub load_inode : Partition → ℕ → Disk → Outcome Inode
load_inode part inode_no disk = do
  inode_pos ← inode_locate part inode_no
  assert (on_disk inode_pos.sec_lba (sectors_of inode_pos))
  let inode_buf = read_sectors inode_pos.sec_lba (sectors_of inode_pos) disk (λ i. 0)
  ok (inode_of inode_buf inode_pos.off_size)

abbrev pub push_open : ℕ → Partition → Partition
push_open address part = record part { open_inodes = address ∷ part.open_inodes }

-- What `inode_open` does with an inode that is open, and with one that is not.
unfoldable pub open_again : ℕ → FileSystem → ℕ × FileSystem
open_again address fs =
    let inode = fs.inodes address in
    (address, set_inode address (record inode { i_open_cnts = u32 (inode.i_open_cnts + 1) }) fs)

unfoldable pub open_first : ℕ → FileSystem → Outcome (ℕ × FileSystem)
open_first inode_no fs = do
  inode ← load_inode fs.part inode_no fs.disk
  let (address, fs1) = malloc_inode fs
  let fs2 = set_inode address (record inode { i_open_cnts = 1 }) fs1
  ok (address, set_part (push_open address fs.part) fs2)

unfoldable pub inode_open : ℕ → FileSystem → Outcome (ℕ × FileSystem)
inode_open inode_no fs = elim (find_open fs.inodes fs.part.open_inodes inode_no) [
  | some address ↦ ok (open_again address fs)
  | none ↦ open_first inode_no fs
]

-- `list_remove` of an inode's element.
unfoldable pub without : ℕ → List ℕ → List ℕ
without a [] = []
without a (x ∷ xs) = let rest = without a xs in if x == a then xs else x ∷ rest

-- `inode_close`. What `sys_free` makes of the memory is not looked at again.
unfoldable pub inode_close : ℕ → FileSystem → FileSystem
inode_close address fs =
    let inode = fs.inodes address in
    let left = u32 (inode.i_open_cnts + 2 ^ 32 - 1) in
    let fs1 = set_inode address (record inode { i_open_cnts = left }) fs in
    let part : Partition = record fs.part { open_inodes = without address fs.part.open_inodes } in
    if left == 0 then set_part part fs1 else fs1
