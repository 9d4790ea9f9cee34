-- ===== src/Fs/Blocks.antt =====
-- Inodes and blocks are taken and given back in the bitmaps of the partition: `inode_bitmap_alloc`,
-- `block_bitmap_alloc` and `bitmap_sync` of fs/file.c, and `inode_release` of fs/inode.c. The part
-- that a function is given is `cur_part` in every call.
pub mod Alloc
pub mod Release
use tinykernel.Base.{
  ℕ, zero, suc, ◌+◌, ◌-◌, ◌*◌, ◌/◌, ◌^◌, Bool, true, false, not, Option, none, some, ltb, ◌==◌,
  if◌then◌else◌, u32, Outcome, ok, assert, ◌>>=◌, ◌>>◌,
}
use tinykernel.Bitmap.{Bitmap, bitmap_scan, bitmap_set}
use tinykernel.Fs.{
  Disk, Inode, Partition, FileSystem, on_disk, write_sectors, read_table, set_disk, set_part,
}
use tinykernel.Fs.Inodes.{inode_open, inode_close}

-- `enum bitmap_type`
pub data BitmapType : Type 0 where
  inode_bitmap_type block_bitmap_type : BitmapType

abbrev pub set_block_bitmap : Bitmap → Partition → Partition
set_block_bitmap b part = record part { block_bitmap = b }

abbrev pub set_inode_bitmap : Bitmap → Partition → Partition
set_inode_bitmap b part = record part { inode_bitmap = b }

-- `none` is the -1.
unfoldable pub inode_bitmap_alloc : Partition → Outcome (Option (ℕ × Partition))
inode_bitmap_alloc part = do
  found ← bitmap_scan part.inode_bitmap 1
  elim found [
    | none ↦ ok none
    | some bit_idx ↦ do
      b ← bitmap_set part.inode_bitmap bit_idx 1
      ok (some (bit_idx, set_inode_bitmap b part))
  ]

unfoldable pub block_bitmap_alloc : Partition → Outcome (Option (ℕ × Partition))
block_bitmap_alloc part = do
  found ← bitmap_scan part.block_bitmap 1
  elim found [
    | none ↦ ok none
    | some bit_idx ↦ do
      b ← bitmap_set part.block_bitmap bit_idx 1
      ok (some (part.sb.data_start_lba + bit_idx, set_block_bitmap b part))
  ]

-- The sector of a bitmap that holds the bit.
abbrev pub bitmap_lba : Partition → ℕ → BitmapType → ℕ
bitmap_lba part bit_idx inode_bitmap_type = part.sb.inode_bitmap_lba + bit_idx / 4096
bitmap_lba part bit_idx block_bitmap_type = part.sb.block_bitmap_lba + bit_idx / 4096

-- That sector goes to the disk; the `ASSERT` of `ide_write` is with the callers.
unfoldable pub bitmap_sync : Partition → ℕ → BitmapType → Disk → Disk
bitmap_sync part bit_idx inode_bitmap_type =
    write_sectors (part.sb.inode_bitmap_lba + bit_idx / 4096)
      (λ i. part.inode_bitmap.bits (bit_idx / 4096 * 512 + i)) 1
bitmap_sync part bit_idx block_bitmap_type =
    write_sectors (part.sb.block_bitmap_lba + bit_idx / 4096)
      (λ i. part.block_bitmap.bits (bit_idx / 4096 * 512 + i)) 1

-- `block_lba - data_start_lba` in `uint32_t`.
abbrev pub block_bit : Partition → ℕ → ℕ
block_bit part lba = u32 (lba + 2 ^ 32 - part.sb.data_start_lba)

abbrev pub sync_bitmap : ℕ → BitmapType → FileSystem → Outcome FileSystem
sync_bitmap bit_idx btmp_type fs = do
  assert (on_disk (bitmap_lba fs.part bit_idx btmp_type) 1)
  ok (set_disk (bitmap_sync fs.part bit_idx btmp_type fs.disk) fs)

abbrev pub sync_blocks : ℕ → FileSystem → Outcome FileSystem
sync_blocks bit_idx fs = sync_bitmap bit_idx block_bitmap_type fs

-- A bit of the bitmap of blocks is cleared, in memory and on the disk.
unfoldable pub clear_block_bit : ℕ → FileSystem → Outcome FileSystem
clear_block_bit bit_idx fs = do
  b ← bitmap_set fs.part.block_bitmap bit_idx 0
  sync_blocks bit_idx (set_part (set_block_bitmap b fs.part) fs)

-- One block in the loop of `inode_release`, and its table of blocks before that.
unfoldable pub release_block : ℕ → FileSystem → Outcome FileSystem
release_block lba fs = do
  let block_bitmap_idx = block_bit fs.part lba
  assert (ltb 0 block_bitmap_idx)
  clear_block_bit block_bitmap_idx fs

-- The second loop of `inode_release`; the first number is `block_cnt - block_idx`.
unfoldable pub release_blocks : ℕ → (ℕ → ℕ) → ℕ → FileSystem → Outcome FileSystem
release_blocks zero all_blocks block_idx fs = ok fs
release_blocks (suc left) all_blocks block_idx fs = do
  fs' ← if not (all_blocks block_idx == 0) then release_block (all_blocks block_idx) fs else ok fs
  release_blocks left all_blocks (block_idx + 1) fs'

-- The first loop: the direct blocks; the others are 0.
abbrev pub direct_blocks : Inode → ℕ → ℕ
direct_blocks inode i = if ltb i 12 then inode.i_sectors i else 0

-- What `inode_release` does with the blocks of an inode.
unfoldable pub release_all : Inode → FileSystem → Outcome FileSystem
release_all inode fs = do
  let table = inode.i_sectors 12
  let both = do
    assert (on_disk table 1)
    let all_blocks = read_table fs.disk table (direct_blocks inode)
    fs' ← release_block table fs
    release_blocks 140 all_blocks 0 fs'
  let direct = release_blocks 12 (direct_blocks inode) 0 fs
  if not (table == 0) then both else direct

unfoldable pub inode_release : ℕ → FileSystem → Outcome FileSystem
inode_release inode_no fs = do
  (inode_to_del, fs1) ← inode_open inode_no fs
  assert ((fs1.inodes inode_to_del).i_no == inode_no)
  fs2 ← release_all (fs1.inodes inode_to_del) fs1
  b ← bitmap_set fs2.part.inode_bitmap inode_no 0
  let fs3 = set_part (set_inode_bitmap b fs2.part) fs2
  fs4 ← sync_bitmap inode_no inode_bitmap_type fs3
  ok (inode_close inode_to_del fs4)
