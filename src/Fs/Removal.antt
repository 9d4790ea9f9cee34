-- ===== src/Fs/Removal.antt =====
-- `delete_dir_entry` and `dir_remove` of fs/dir.c: an entry is cleared in its sector, or the sector
-- is given back.
pub mod Endless
use tinykernel.Base.{
  ℕ, zero, suc, ◌+◌, ◌-◌, ◌*◌, ◌/◌, ◌%◌, ◌^◌, Bool, true, false, not, ◌&&◌, ◌||◌, List, [], ◌∷◌,
  Option, none, some, ltb, leb, ◌==◌, if◌then◌else◌, update, u32, Outcome, ok, panic, assert, ◌>>=◌,
  ◌>>◌,
}
use tinykernel.Bitmap.{bitmap_set}
use tinykernel.Fs.{
  Disk, Inode, FileSystem, patch, read_sectors, write_sectors, read_table, write_table,
  malloc_buffer, set_disk, set_part, set_inode, on_disk,
}
use tinykernel.Fs.Inodes.{inode_sync}
use tinykernel.Fs.Blocks.{
  block_bitmap_alloc, block_bit, sync_blocks, clear_block_bit, inode_release, direct_blocks,
}
use tinykernel.Fs.Dirs.{
  Dir, DirEntry, entry_size, entry_byte, entry_at, has_name, ft_unknown, dir_blocks,
}
use tinykernel.Fs.Entries.{io_sector, set_sector}

-- What the loop of `delete_dir_entry` over the entries of a sector has seen.
pub record Seen : Type 0 where
  pub is_dir_first_block : Bool
  pub dir_entry_cnt : ℕ
  pub dir_entry_found : Option ℕ

-- `.` and `..`
abbrev pub dot : List ℕ
dot = 46 ∷ []

abbrev pub dotdot : List ℕ
dotdot = 46 ∷ 46 ∷ []

-- One entry, and all; the `ASSERT` allows one entry with the number.
unfoldable pub see_entry : (ℕ → ℕ) → ℕ → ℕ → Seen → Outcome Seen
see_entry buf idx inode_no s = do
  let counted : Seen = record s { dir_entry_cnt = s.dir_entry_cnt + 1 }
  let found : Outcome Seen = elim s.dir_entry_found [
    | none ↦ ok (record counted { dir_entry_found = some idx })
    | some other ↦ panic
  ]
  if (entry_at buf idx).f_type == ft_unknown
      then ok s
      else if has_name buf idx dot
      then ok (record s { is_dir_first_block = true })
      else if has_name buf idx dotdot
      then ok s
      else if (entry_at buf idx).i_no == inode_no
      then found
      else ok counted

unfoldable pub see_entries : ℕ → (ℕ → ℕ) → ℕ → ℕ → Seen → Outcome Seen
see_entries zero buf idx inode_no s = ok s
see_entries (suc left) buf idx inode_no s = do
  s' ← see_entry buf idx inode_no s
  see_entries left buf (idx + 1) inode_no s'

-- The loop that counts the indirect blocks, on fuel. It does not move on, so it ends only if the
-- index is 140 at its start; `none` means that it ran out.
unfoldable pub count_indirect : (fuel : ℕ) → (ℕ → ℕ) → ℕ → ℕ → Option ℕ
count_indirect zero all_blocks indirect_block_idx indirect_blocks = none
count_indirect (suc fuel) all_blocks indirect_block_idx indirect_blocks =
    let more =
      if not (all_blocks indirect_block_idx == 0)
      then u32 (indirect_blocks + 1)
      else indirect_blocks in
    let rest = count_indirect fuel all_blocks indirect_block_idx more in
    if ltb indirect_block_idx 140 then rest else some indirect_blocks

-- The block of the entry is given back as a whole. A loop that does not end counts as a stop.
unfoldable pub drop_block : (fuel : ℕ) → ℕ → (ℕ → ℕ) → ℕ → FileSystem → Outcome FileSystem
drop_block fuel address all_blocks block_idx fs = do
  fs1 ← clear_block_bit (block_bit fs.part (all_blocks block_idx)) fs
  let table = (fs1.inodes address).i_sectors 12
  let keep = do
    assert (on_disk table 1)
    ok (set_disk (write_table table (update all_blocks block_idx 0) fs1.disk) fs1)
  let give_back = do
    fs2 ← clear_block_bit (block_bit fs1.part table) fs1
    ok (set_sector address 12 0 fs2)
  let indirect : Outcome FileSystem = elim (count_indirect fuel all_blocks 12 0) [
    | none ↦ panic
    | some n ↦ do assert (leb 1 n); if ltb 1 n then keep else give_back
  ]
  if ltb block_idx 12 then ok (set_sector address block_idx 0 fs1) else indirect

-- Only the entry is cleared.
unfoldable pub clear_entry : ℕ → ℕ → FileSystem → Outcome FileSystem
clear_entry lba idx fs = do
  assert (on_disk lba 1)
  let io_buf = patch (entry_size * idx) fs.part.sb.dir_entry_size (λ k. 0) (io_sector fs.disk lba)
  ok (set_disk (write_sectors lba io_buf 1 fs.disk) fs)

-- The end of `delete_dir_entry`.
unfoldable pub shrink : ℕ → FileSystem → Outcome (Bool × FileSystem)
shrink address fs = do
  let inode = fs.inodes address
  let size = fs.part.sb.dir_entry_size
  assert (leb size inode.i_size)
  let smaller : Inode = record inode { i_size = inode.i_size - size }
  disk ← inode_sync fs.part smaller fs.disk
  ok (true, set_disk disk (set_inode address smaller fs))

-- The loop of `delete_dir_entry` over the blocks.
unfoldable pub delete_loop :
    (fuel : ℕ) → ℕ → ℕ → (ℕ → ℕ) → ℕ → ℕ → FileSystem → Outcome (Bool × FileSystem)
delete_loop fuel zero address all_blocks block_idx inode_no fs = ok (false, fs)
delete_loop fuel (suc left) address all_blocks block_idx inode_no fs = do
  let lba = all_blocks block_idx
  let rest = delete_loop fuel left address all_blocks (block_idx + 1) inode_no fs
  let nothing : Seen = record {
    is_dir_first_block = false;
    dir_entry_cnt = 0;
    dir_entry_found = none;
  }
  let here = do
    assert (on_disk lba 1)
    s ← see_entries (512 / fs.part.sb.dir_entry_size) (io_sector fs.disk lba) 0 inode_no nothing
    elim s.dir_entry_found [
      | none ↦ rest
      | some idx ↦ do
        assert (leb 1 s.dir_entry_cnt)
        fs1 ←
            if (s.dir_entry_cnt == 1) && not s.is_dir_first_block
            then drop_block fuel address all_blocks block_idx fs
            else clear_entry lba idx fs
        shrink address fs1
    ]
  if lba == 0 then rest else here

unfoldable pub delete_dir_entry : (fuel : ℕ) → Dir → ℕ → FileSystem → Outcome (Bool × FileSystem)
delete_dir_entry fuel dir inode_no fs = do
  all_blocks ← dir_blocks (fs.inodes dir.inode) fs.disk (λ i. 0)
  delete_loop fuel 140 dir.inode all_blocks 0 inode_no fs

-- The `ASSERT`s of `dir_remove`: the sectors 1 to 12 are 0.
unfoldable pub only_first : ℕ → (ℕ → ℕ) → ℕ → Bool
only_first zero i_sectors block_idx = true
only_first (suc left) i_sectors block_idx =
    (i_sectors block_idx == 0) && only_first left i_sectors (block_idx + 1)

-- `dir_remove`; `none` is the -1.
unfoldable pub dir_remove : (fuel : ℕ) → Dir → Dir → FileSystem → Outcome (Option ℕ × FileSystem)
dir_remove fuel parent_dir child_dir fs = do
  let child = fs.inodes child_dir.inode
  assert (only_first 12 child.i_sectors 1)
  let (io_buf, fs1) = malloc_buffer fs
  elim io_buf [
    | none ↦ ok (none, fs1)
    | some b ↦ do
      (deleted, fs2) ← delete_dir_entry fuel parent_dir child.i_no fs1
      fs3 ← inode_release (fs2.inodes child_dir.inode).i_no fs2
      ok (some 0, fs3)
  ]
