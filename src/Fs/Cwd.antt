-- ===== src/Fs/Cwd.antt =====
-- `sys_getcwd` of fs/fs.c: the path of the working directory is found from the end.
use tinykernel.Base.{
  ℕ, zero, suc, ◌+◌, ◌/◌, not, ◌&&◌, List, [], ◌∷◌, ◌++◌, Option, none, some, ltb, leb, ◌==◌,
  if◌then◌else◌, length, Outcome, ok, panic, assert, ◌>>=◌, ◌>>◌,
}
use tinykernel.Thread.Pcb.{Task}
use tinykernel.Fs.{Disk, FileSystem, malloc_buffer, on_disk}
use tinykernel.Fs.Paths.{slash}
use tinykernel.Fs.Inodes.{inode_open, inode_close}
use tinykernel.Fs.Dirs.{DirEntry, ft_directory, entry_at, dir_blocks}
use tinykernel.Fs.Entries.{io_sector}

-- The second entry of a directory is "..".
unfoldable pub get_parent_dir_inode_nr : ℕ → FileSystem → Outcome (ℕ × FileSystem)
get_parent_dir_inode_nr child_inode_nr fs = do
  (address, fs1) ← inode_open child_inode_nr fs
  let block_lba = (fs1.inodes address).i_sectors 0
  assert (leb fs1.part.sb.data_start_lba block_lba)
  assert (on_disk block_lba 1)
  let up = entry_at (io_sector fs1.disk block_lba) 1
  assert (ltb up.i_no 4096 && (up.f_type == ft_directory))
  ok (up.i_no, inode_close address fs1)

-- The loops of `get_child_dir_name`: the entry with a number in a sector, and in all blocks.
unfoldable pub find_number : ℕ → (ℕ → ℕ) → ℕ → ℕ → Option DirEntry
find_number zero buf idx inode_no = none
find_number (suc left) buf idx inode_no =
    let rest = find_number left buf (idx + 1) inode_no in
    if (entry_at buf idx).i_no == inode_no then some (entry_at buf idx) else rest

unfoldable pub find_in_blocks : ℕ → ℕ → Disk → (ℕ → ℕ) → ℕ → ℕ → Outcome (Option DirEntry)
find_in_blocks zero cnt disk all_blocks block_idx inode_no = ok none
find_in_blocks (suc left) cnt disk all_blocks block_idx inode_no =
    let rest = find_in_blocks left cnt disk all_blocks (block_idx + 1) inode_no in
    let here = do
      assert (on_disk (all_blocks block_idx) 1)
      elim (find_number cnt (io_sector disk (all_blocks block_idx)) 0 inode_no) [
        | none ↦ rest
        | some e ↦ ok (some e)
      ]
    in if not (all_blocks block_idx == 0) then here else rest

-- The characters of an entry's name in front of the 0; the name has at most sixteen.
unfoldable pub name_of : ℕ → DirEntry → ℕ → List ℕ
name_of zero e k = []
name_of (suc left) e k =
    let rest = name_of left e (k + 1) in if e.filename k == 0 then [] else e.filename k ∷ rest

-- `none` is the -1; the path has "/" and the name behind it otherwise.
unfoldable pub get_child_dir_name :
    ℕ → ℕ → List ℕ → FileSystem → Outcome (Option (List ℕ) × FileSystem)
get_child_dir_name p_inode_nr c_inode_nr path fs = do
  (address, fs1) ← inode_open p_inode_nr fs
  let inode = fs1.inodes address
  let block_cnt : ℕ = if not (inode.i_sectors 12 == 0) then 140 else 12
  all_blocks ← dir_blocks inode fs1.disk (λ i. 0)
  child ←
      find_in_blocks block_cnt (512 / fs1.part.sb.dir_entry_size) fs1.disk all_blocks 0 c_inode_nr
  elim child [
    | none ↦ ok (none, inode_close address fs1)
    | some e ↦ ok (some (path ++ slash ∷ name_of 16 e 0), inode_close address fs1)
  ]

-- The loop of `sys_getcwd` up to the root directory, on fuel; `none` is NULL.
unfoldable pub climb : (fuel : ℕ) → ℕ → List ℕ → FileSystem → Outcome (Option (List ℕ) × FileSystem)
climb zero child_inode_nr path fs = panic
climb (suc fuel) child_inode_nr path fs = do
  let up = do
    (parent_inode_nr, fs1) ← get_parent_dir_inode_nr child_inode_nr fs
    (longer, fs2) ← get_child_dir_name parent_inode_nr child_inode_nr path fs1
    elim longer [ none ↦ ok (none, fs2) | some p ↦ climb fuel parent_inode_nr p fs2 ]
  if child_inode_nr == 0 then ok (some path, fs) else up

-- The last part of a path, from its last slash on, and what is in front of it.
unfoldable pub split_last : List ℕ → Option (List ℕ × List ℕ)
split_last [] = none
split_last (c ∷ cs) = elim (split_last cs) [
  | some (front, last) ↦ some (c ∷ front, last)
  | none ↦ if c == slash then some ([], c ∷ cs) else none
]

-- The loop that turns the path round: the last part goes behind `buf`. The fuel is the length.
unfoldable pub turn_round : (fuel : ℕ) → List ℕ → List ℕ → List ℕ
turn_round zero full_path_reverse buf = buf
turn_round (suc fuel) full_path_reverse buf = elim (split_last full_path_reverse) [
  | none ↦ buf
  | some (front, last) ↦ turn_round fuel front (buf ++ last)
]

-- `sys_getcwd` with a buffer of `size` bytes; the string that it stores, or `none` for NULL.
unfoldable pub sys_getcwd :
    (fuel : ℕ) → ℕ → Task → FileSystem → Outcome (Option (List ℕ) × FileSystem)
sys_getcwd fuel size cur fs = do
  let (io_buf, fs1) = malloc_buffer fs
  let find = do
    assert (ltb cur.cwd_inode_nr 4096)
    (found, fs2) ← climb fuel cur.cwd_inode_nr [] fs1
    elim found [
      | none ↦ ok (none, fs2)
      | some path ↦ do
        assert (leb (length path) size)
        ok (some (turn_round (length path) path []), fs2)
    ]
  let at_root : Outcome (Option (List ℕ) × FileSystem) = ok (some (slash ∷ []), fs1)
  elim io_buf [ none ↦ ok (none, fs1) | some b ↦ if cur.cwd_inode_nr == 0 then at_root else find ]
