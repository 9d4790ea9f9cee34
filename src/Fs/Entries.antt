-- ===== src/Fs/Entries.antt =====
-- `sync_dir_entry` of fs/dir.c: a new entry is written to a sector of a directory.
use tinykernel.Base.{
  ℕ, zero, suc, ◌+◌, ◌*◌, ◌/◌, ◌%◌, Bool, true, false, Option, none, some, ltb, ◌==◌, if◌then◌else◌,
  update, u32, Outcome, ok, assert, ◌>>=◌, ◌>>◌, not, ◌||◌,
}
use tinykernel.Fs.{
  Disk, FileSystem, patch, on_disk, read_sectors, write_sectors, read_table, write_table, set_disk,
  set_part, set_inode,
}
use tinykernel.Fs.Blocks.{
  block_bitmap_alloc, block_bit, sync_blocks, clear_block_bit, direct_blocks,
}
use tinykernel.Fs.Dirs.{Dir, DirEntry, entry_size, entry_byte, entry_at, ft_unknown}

abbrev pub io_sector : Disk → ℕ → ℕ → ℕ
io_sector disk lba = read_sectors lba 1 disk (λ i. 0)

-- An assignment to a field of the inode of a directory.
abbrev grow : ℕ → ℕ → FileSystem → FileSystem
grow address size fs =
    let inode = fs.inodes address in
    set_inode address (record inode { i_size = u32 (inode.i_size + size) }) fs

abbrev pub set_sector : ℕ → ℕ → ℕ → FileSystem → FileSystem
set_sector address i lba fs =
    let inode = fs.inodes address in
    set_inode address (record inode { i_sectors = update inode.i_sectors i lba }) fs

-- The loop over the entries of a sector for one that is not in use.
unfoldable pub free_entry : ℕ → (ℕ → ℕ) → ℕ → Option ℕ
free_entry zero buf idx = none
free_entry (suc left) buf idx =
    let rest = free_entry left buf (idx + 1) in
    if (entry_at buf idx).f_type == ft_unknown then some idx else rest

-- The entry is stored in a sector that has room.
unfoldable pub put_entry : ℕ → ℕ → ℕ → DirEntry → FileSystem → Outcome FileSystem
put_entry address lba idx p_de fs = do
  assert (on_disk lba 1)
  let size = fs.part.sb.dir_entry_size
  let io_buf = patch (entry_size * idx) size (entry_byte p_de) (io_sector fs.disk lba)
  ok (grow address size (set_disk (write_sectors lba io_buf 1 fs.disk) fs))

-- The entry is stored in a sector that is new.
unfoldable pub put_first : ℕ → ℕ → DirEntry → FileSystem → Outcome FileSystem
put_first address lba p_de fs = do
  assert (on_disk lba 1)
  let size = fs.part.sb.dir_entry_size
  let io_buf = patch 0 size (entry_byte p_de) (λ i. 0)
  ok (grow address size (set_disk (write_sectors lba io_buf 1 fs.disk) fs))

-- `block_bitmap_alloc`, and `bitmap_sync` of its bit.
unfoldable pub take_block : FileSystem → Outcome (Option (ℕ × FileSystem))
take_block fs = do
  new ← block_bitmap_alloc fs.part
  elim new [
    | none ↦ ok none
    | some (lba, part) ↦ do
      fs' ← sync_blocks (block_bit part lba) (set_part part fs)
      ok (some (lba, fs'))
  ]

-- The new block 12: the indirect table and the block behind it. The second part of the result is
-- `false` where the call returns false.
unfoldable pub link_table : ℕ → (ℕ → ℕ) → ℕ → FileSystem → Outcome (Option ℕ × FileSystem)
link_table address all_blocks table fs = do
  let fs1 = set_sector address 12 table fs
  second ← take_block fs1
  elim second [
    | none ↦ do
      fs2 ← clear_block_bit (block_bit fs1.part table) fs1
      ok (none, set_sector address 12 0 fs2)
    | some (lba, fs2) ↦ do
      assert (on_disk table 1)
      ok (some lba, set_disk (write_table table (update all_blocks 12 lba) fs2.disk) fs2)
  ]

-- The three cases of a block that is new; the result is the sector of the entry.
unfoldable pub link_block : ℕ → (ℕ → ℕ) → ℕ → ℕ → FileSystem → Outcome (Option ℕ × FileSystem)
link_block address all_blocks block_idx lba fs = do
  let table = (fs.inodes address).i_sectors 12
  let linked = do
    assert (on_disk table 1)
    ok (some lba, set_disk (write_table table (update all_blocks block_idx lba) fs.disk) fs)
  let create = link_table address all_blocks lba fs
  if ltb block_idx 12
      then ok (some lba, set_sector address block_idx lba fs)
      else if block_idx == 12
      then create
      else linked

-- What `sync_dir_entry` does at a block that does not exist.
unfoldable pub add_block : ℕ → (ℕ → ℕ) → ℕ → DirEntry → FileSystem → Outcome (Bool × FileSystem)
add_block address all_blocks block_idx p_de fs = do
  new ← take_block fs
  elim new [
    | none ↦ ok (false, fs)
    | some (lba, fs1) ↦ do
      (place, fs2) ← link_block address all_blocks block_idx lba fs1
      elim place [
        | none ↦ ok (false, fs2)
        | some sector ↦ do fs3 ← put_first address sector p_de fs2; ok (true, fs3)
      ]
  ]

-- Its loop over the blocks; the first number is `140 - block_idx`. The indirect table is read when
-- the loop has gone past block 12.
unfoldable pub sync_loop : ℕ → ℕ → (ℕ → ℕ) → ℕ → DirEntry → FileSystem → Outcome (Bool × FileSystem)
sync_loop zero address all_blocks block_idx p_de fs = ok (false, fs)
sync_loop (suc left) address all_blocks block_idx p_de fs = do
  let table = (fs.inodes address).i_sectors 12
  let next = block_idx + 1
  let known : ℕ → ℕ = if ltb 12 next then read_table fs.disk table all_blocks else all_blocks
  let rest = do
    assert (not (ltb 12 next) || on_disk table 1)
    sync_loop left address known next p_de fs
  let lba = all_blocks block_idx
  let here = free_entry (512 / fs.part.sb.dir_entry_size) (io_sector fs.disk lba) 0
  let add = add_block address all_blocks block_idx p_de fs
  if lba == 0 then add else do
    assert (on_disk lba 1)
    elim here [
      | none ↦ rest
      | some idx ↦ do fs' ← put_entry address lba idx p_de fs; ok (true, fs')
    ]

unfoldable pub sync_dir_entry : Dir → DirEntry → FileSystem → Outcome (Bool × FileSystem)
sync_dir_entry parent_dir p_de fs = do
  let inode = fs.inodes parent_dir.inode
  assert (inode.i_size % fs.part.sb.dir_entry_size == 0)
  sync_loop 140 parent_dir.inode (direct_blocks inode) 0 p_de fs
