-- ===== src/Fs/Dirs.antt =====
-- Directories: fs/dir.c but for the functions that change entries. `struct dir` is the address of
-- its inode, its position, and whether it is `root_dir`; `sys_malloc` of one is taken to succeed,
-- since the code looks at no result of it.
use tinykernel.Base.{
  ℕ, zero, suc, ◌+◌, ◌-◌, ◌*◌, ◌/◌, Bool, true, false, not, ◌&&◌, List, [], ◌∷◌, Option, none, some,
  ltb, leb, ◌==◌, if◌then◌else◌, length, u32, Outcome, ok, panic, assert, ◌>>=◌, ◌>>◌,
}
use tinykernel.Fs.{
  Disk, Inode, FileSystem, word_at, word_byte, patch, on_disk, read_table, malloc_buffer,
}
use tinykernel.Fs.Inodes.{inode_open, inode_close}

-- `struct dir`
pub record Dir : Type 0 where
  pub is_root : Bool
  pub inode : ℕ
  pub dir_pos : ℕ

-- `enum file_types`
abbrev pub ft_unknown : ℕ
ft_unknown = 0

abbrev pub ft_regular : ℕ
ft_regular = 1

abbrev pub ft_directory : ℕ
ft_directory = 2

-- `struct dir_entry`, with the sixteen bytes of its name.
pub record DirEntry : Type 0 where
  pub filename : ℕ → ℕ
  pub i_no : ℕ
  pub f_type : ℕ

-- `sizeof(struct dir_entry)`, by which `p_de++` moves.
abbrev pub entry_size : ℕ
entry_size = 24

unfoldable pub entry_byte : DirEntry → ℕ → ℕ
entry_byte e k =
    if ltb k 16
    then e.filename k
    else if ltb k 20
    then word_byte e.i_no (k - 16)
    else word_byte e.f_type (k - 20)

-- The entry at an index of a buffer.
abbrev pub entry_at : (ℕ → ℕ) → ℕ → DirEntry
entry_at buf idx = record {
  filename = λ k. buf (entry_size * idx + k);
  i_no = word_at buf (entry_size * idx + 16);
  f_type = word_at buf (entry_size * idx + 20);
}

-- `!strcmp(str, name)` for the characters from `str` on.
unfoldable pub is_string : (ℕ → ℕ) → ℕ → List ℕ → Bool
is_string str p [] = str p == 0
is_string str p (c ∷ cs) = (str p == c) && is_string str (p + 1) cs

-- The name of the entry at `idx` of a sector; the comparison may run on behind its sixteen bytes.
abbrev pub has_name : (ℕ → ℕ) → ℕ → List ℕ → Bool
has_name buf idx name = is_string buf (entry_size * idx) name

unfoldable pub create_dir_entry : List ℕ → ℕ → ℕ → DirEntry → Outcome DirEntry
create_dir_entry filename inode_no file_type p_de = do
  assert (leb (length filename) 16)
  ok (record {
    filename = patch 0 (length filename) (name_char filename) p_de.filename;
    i_no = inode_no;
    f_type = file_type;
  })
  where
    name_char : List ℕ → ℕ → ℕ
    name_char [] i = 0
    name_char (c ∷ cs) i = if i == 0 then c else name_char cs (i - 1)

abbrev pub root : FileSystem → Dir
root fs = record { is_root = true; inode = fs.root_dir; dir_pos = 0 }

abbrev pub opened : ℕ → Dir
opened address = record { is_root = false; inode = address; dir_pos = 0 }

unfoldable pub dir_open : ℕ → FileSystem → Outcome (Dir × FileSystem)
dir_open inode_no fs = do (address, fs') ← inode_open inode_no fs; ok (opened address, fs')

unfoldable pub open_root_dir : FileSystem → Outcome FileSystem
open_root_dir fs = do
  (address, fs') ← inode_open fs.part.sb.root_inode_no fs
  ok (record fs' { root_dir = address })

unfoldable pub dir_close : Dir → FileSystem → FileSystem
dir_close dir fs = if dir.is_root then fs else inode_close dir.inode fs

-- The numbers of the blocks of a directory, with what `all_blocks` held before.
unfoldable pub dir_blocks : Inode → Disk → (ℕ → ℕ) → Outcome (ℕ → ℕ)
dir_blocks inode disk before =
    let direct : ℕ → ℕ = λ i. if ltb i 12 then inode.i_sectors i else before i in
    let both = do
      assert (on_disk (inode.i_sectors 12) 1)
      ok (read_table disk (inode.i_sectors 12) direct)
    in if not (inode.i_sectors 12 == 0) then both else ok direct

-- The loop of `search_dir_entry` over the entries of a sector; the first number is
-- `dir_entry_cnt - dir_entry_idx`.
unfoldable pub find_name : ℕ → (ℕ → ℕ) → ℕ → List ℕ → Option DirEntry
find_name zero buf idx name = none
find_name (suc left) buf idx name =
    let rest = find_name left buf (idx + 1) name in
    if has_name buf idx name then some (entry_at buf idx) else rest

-- Its loop over the blocks.
unfoldable pub search_blocks : ℕ → ℕ → Disk → (ℕ → ℕ) → ℕ → List ℕ → Outcome (Option DirEntry)
search_blocks zero cnt disk all_blocks block_idx name = ok none
search_blocks (suc left) cnt disk all_blocks block_idx name =
    let rest = search_blocks left cnt disk all_blocks (block_idx + 1) name in
    let here = do
      assert (on_disk (all_blocks block_idx) 1)
      elim (find_name cnt (disk (all_blocks block_idx)) 0 name) [
        | none ↦ rest
        | some e ↦ ok (some e)
      ]
    in if all_blocks block_idx == 0 then rest else here

-- `search_dir_entry`. The buffer of a sector is written whole before it is read.
unfoldable pub search_dir_entry : Dir → List ℕ → FileSystem → Outcome (Option DirEntry × FileSystem)
search_dir_entry pdir name fs = elim (fs.buffers 0) [
  | none ↦ ok (none, (malloc_buffer fs).1)
  | some before ↦ do
    let fs2 = (malloc_buffer (malloc_buffer fs).1).1
    all_blocks ← dir_blocks (fs.inodes pdir.inode) fs.disk before
    found ← search_blocks 140 (512 / fs.part.sb.dir_entry_size) fs.disk all_blocks 0 name
    ok (found, fs2)
]

-- The loop of `dir_read` over the entries of a sector: the entry at the position, or the number of
-- bytes that the entries so far take. `none` means that the `ASSERT` failed.
pub data Listed : Type 0 where
  entry : DirEntry → Listed
  passed : ℕ → Listed
  astray : Listed

unfoldable pub list_entries : ℕ → (ℕ → ℕ) → ℕ → (size dir_pos pos : ℕ) → Listed
list_entries zero buf idx size dir_pos pos = passed pos
list_entries (suc left) buf idx size dir_pos pos =
    let skip = list_entries left buf (idx + 1) size dir_pos pos in
    let count = list_entries left buf (idx + 1) size dir_pos (u32 (pos + size)) in
    let found : Listed = if pos == dir_pos then entry (entry_at buf idx) else astray in
    if (entry_at buf idx).f_type == ft_unknown
    then skip
    else if ltb pos dir_pos
    then count
    else found

-- Its loop over the blocks; `none` is NULL.
unfoldable pub list_blocks :
    ℕ → Disk → (ℕ → ℕ) → ℕ → (size dir_pos i_size pos : ℕ) → Outcome (Option DirEntry)
list_blocks zero disk all_blocks block_idx size dir_pos i_size pos = ok none
list_blocks (suc left) disk all_blocks block_idx size dir_pos i_size pos =
    let next = λ (p : ℕ). list_blocks left disk all_blocks (block_idx + 1) size dir_pos i_size p in
    let sector = list_entries (512 / size) (disk (all_blocks block_idx)) 0 size dir_pos pos in
    let here = do
      assert (on_disk (all_blocks block_idx) 1)
      elim sector [ entry e ↦ ok (some e) | passed p ↦ next p | astray ↦ panic ]
    in if leb i_size dir_pos then ok none else if all_blocks block_idx == 0 then next pos else here

-- `dir_read`: the entry, and the directory with its position behind it.
unfoldable pub dir_read : Dir → FileSystem → Outcome (Option DirEntry × Dir)
dir_read dir fs = do
  let inode = fs.inodes dir.inode
  let size = fs.part.sb.dir_entry_size
  let block_cnt : ℕ = if not (inode.i_sectors 12 == 0) then 140 else 12
  all_blocks ← dir_blocks inode fs.disk (λ i. 0)
  found ← list_blocks block_cnt fs.disk all_blocks 0 size dir.dir_pos inode.i_size 0
  elim found [
    | none ↦ ok (none, dir)
    | some e ↦ ok (some e, record dir { dir_pos = u32 (dir.dir_pos + size) })
  ]

unfoldable pub dir_is_empty : Dir → FileSystem → Bool
dir_is_empty dir fs = (fs.inodes dir.inode).i_size == fs.part.sb.dir_entry_size * 2
