-- ===== src/Fs/Growth.antt =====
-- The first half of `file_write` of fs/file.c: the blocks of a file before and after it grows.
use tinykernel.Base.{
  ℕ, zero, suc, ◌+◌, ◌-◌, ◌^◌, Bool, true, false, not, Option, none, some, ltb, leb, ◌==◌,
  if◌then◌else◌, update, u32, Outcome, ok, assert, ◌>>=◌, ◌>>◌,
}
use tinykernel.Fs.{FileSystem, read_table, write_table, set_disk, set_part, set_inode, on_disk}
use tinykernel.Fs.Blocks.{block_bitmap_alloc, block_bit, sync_blocks}

-- The table of blocks that a part of `file_write` has collected, or `none` if it returns -1, and
-- the state.
abbrev pub Blocks : Type 0
Blocks = Option (ℕ → ℕ) × FileSystem

-- A direct block of the inode is entered, behind its `ASSERT`.
unfoldable pub enter_direct : ℕ → ℕ → ℕ → FileSystem → Outcome FileSystem
enter_direct address block_idx block_lba fs = do
  let inode = fs.inodes address
  assert (inode.i_sectors block_idx == 0)
  ok (
      set_inode address (record inode { i_sectors = update inode.i_sectors block_idx block_lba })
        fs)

-- The loop that allocates blocks, in the three situations of `file_write`; the first number is the
-- count of rounds left. A block below `limit` is entered in the inode, and `base` is the sector
-- that is subtracted for the bit that `bitmap_sync` is given.
unfoldable pub add_blocks : ℕ → (limit base : ℕ) → ℕ → ℕ → (ℕ → ℕ) → FileSystem → Outcome Blocks
add_blocks zero limit base address block_idx all_blocks fs = ok (some all_blocks, fs)
add_blocks (suc left) limit base address block_idx all_blocks fs = do
  new ← block_bitmap_alloc fs.part
  elim new [
    | none ↦ ok (none, fs)
    | some (block_lba, part) ↦ do
      let fs1 = set_part part fs
      fs2 ← if ltb block_idx limit then enter_direct address block_idx block_lba fs1 else ok fs1
      fs3 ← sync_blocks (u32 (block_lba + 2 ^ 32 - base)) fs2
      add_blocks left limit base address (block_idx + 1) (update all_blocks block_idx block_lba) fs3
  ]

-- The first block of a file that has none.
unfoldable pub first_block : ℕ → FileSystem → Outcome (Bool × FileSystem)
first_block address fs = do
  let inode = fs.inodes address
  let allocate = do
    new ← block_bitmap_alloc fs.part
    elim new [
      | none ↦ ok (false, fs)
      | some (block_lba, part) ↦ do
        let fs1 = set_part part fs
        let sectors = update inode.i_sectors 0 block_lba
        let fs2 = set_inode address (record inode { i_sectors = sectors }) fs1
        assert (not (block_bit part block_lba == 0))
        fs3 ← sync_blocks (block_bit part block_lba) fs2
        ok (true, fs3)
    ]
  if inode.i_sectors 0 == 0 then allocate else ok (true, fs)

-- Where the file does not grow by a block.
unfoldable pub same_blocks : ℕ → ℕ → (ℕ → ℕ) → FileSystem → Outcome Blocks
same_blocks address used all_blocks fs = do
  let inode = fs.inodes address
  let table = inode.i_sectors 12
  let direct = ok (some (update all_blocks (used - 1) (inode.i_sectors (used - 1))), fs)
  let indirect = do
    assert (not (table == 0))
    assert (on_disk table 1)
    ok (some (read_table fs.disk table all_blocks), fs)
  if leb used 12 then direct else indirect

-- Situation 1: direct blocks only.
unfoldable pub add_direct : ℕ → (used will : ℕ) → (ℕ → ℕ) → FileSystem → Outcome Blocks
add_direct address used will all_blocks fs = do
  let last = (fs.inodes address).i_sectors (used - 1)
  assert (not (last == 0))
  add_blocks (will - used) 12 fs.part.sb.block_bitmap_lba address used
      (update all_blocks (used - 1) last) fs

-- The table goes to the disk if all blocks have been allocated.
unfoldable pub store_table : ℕ → Blocks → Outcome Blocks
store_table table (none, fs) = ok (none, fs)
store_table table (some all_blocks, fs) = do
  assert (on_disk table 1)
  ok (some all_blocks, set_disk (write_table table all_blocks fs.disk) fs)

-- Situation 2: the indirect table is created.
unfoldable pub add_table : ℕ → (used will : ℕ) → (ℕ → ℕ) → FileSystem → Outcome Blocks
add_table address used will all_blocks fs = do
  let inode = fs.inodes address
  let collected = update all_blocks (used - 1) (inode.i_sectors (used - 1))
  new ← block_bitmap_alloc fs.part
  elim new [
    | none ↦ ok (none, fs)
    | some (table, part) ↦ do
      assert (inode.i_sectors 12 == 0)
      let base = fs.part.sb.block_bitmap_lba
      let sectors = update inode.i_sectors 12 table
      let fs1 = set_inode address (record inode { i_sectors = sectors }) (set_part part fs)
      fs2 ← sync_blocks (u32 (table + 2 ^ 32 - base)) fs1
      added ← add_blocks (will - used) 12 base address used collected fs2
      store_table table added
  ]

-- Situation 3: indirect blocks only.
unfoldable pub add_indirect : ℕ → (used will : ℕ) → (ℕ → ℕ) → FileSystem → Outcome Blocks
add_indirect address used will all_blocks fs = do
  let table = (fs.inodes address).i_sectors 12
  assert (not (table == 0))
  assert (on_disk table 1)
  let collected = read_table fs.disk table all_blocks
  added ← add_blocks (will - used) 0 fs.part.sb.data_start_lba address used collected fs
  store_table table added

unfoldable pub blocks_to_write : ℕ → (used will : ℕ) → (ℕ → ℕ) → FileSystem → Outcome Blocks
blocks_to_write address used will all_blocks fs =
    if used == will
    then same_blocks address used all_blocks fs
    else if leb will 12
    then add_direct address used will all_blocks fs
    else if leb used 12
    then add_table address used will all_blocks fs
    else add_indirect address used will all_blocks fs
