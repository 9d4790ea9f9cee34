-- ===== src/Fs/Search.antt =====
-- `search_file` of fs/fs.c: a path is followed from the root directory.
use tinykernel.Base.{
  ℕ, zero, suc, ◌+◌, Bool, true, false, ◌&&◌, ◌||◌, List, [], ◌∷◌, ◌++◌, Option, none, some, ltb,
  ◌==◌, if◌then◌else◌, length, Outcome, ok, panic, assert, ◌>>=◌, ◌>>◌, leb,
}
use tinykernel.Fs.{FileSystem}
use tinykernel.Fs.Paths.{slash, path_parse, max_file_name_len}
use tinykernel.Fs.Dirs.{
  Dir, DirEntry, ft_unknown, ft_regular, ft_directory, root, dir_open, dir_close, search_dir_entry,
}

-- `struct path_search_record`
pub record SearchRecord : Type 0 where
  pub searched_path : List ℕ
  pub parent_dir : Dir
  pub file_type : ℕ

-- The answer: the number of the inode, or `none` for -1, and what has been searched.
abbrev pub Searched : Type 0
Searched = Option ℕ × SearchRecord × FileSystem

-- `!strcmp`
unfoldable pub same_string : List ℕ → List ℕ → Bool
same_string [] [] = true
same_string [] (d ∷ ds) = false
same_string (c ∷ cs) [] = false
same_string (c ∷ cs) (d ∷ ds) = (c == d) && same_string cs ds

-- "/", "/." and "/.."
unfoldable pub is_root_path : List ℕ → Bool
is_root_path p =
    same_string p (slash ∷ [])
    || same_string p (slash ∷ 46 ∷ [])
    || same_string p (slash ∷ 46 ∷ 46 ∷ [])

-- The variables of the loop; `last` is `dir_e.i_no`.
pub record Walk : Type 0 where
  pub name : List ℕ
  pub sub_path : Option (List ℕ)
  pub searched_path : List ℕ
  pub parent_dir : Dir
  pub parent_inode_no : ℕ
  pub last : ℕ

abbrev walked : Walk → ℕ → SearchRecord
walked w file_type = record {
  searched_path = w.searched_path;
  parent_dir = w.parent_dir;
  file_type = file_type;
}

-- The next name of the path.
unfoldable pub next_name : Walk → Walk
next_name w = elim w.sub_path [
  | none ↦ record w { name = [] }
  | some p ↦ record w { name = (path_parse p).0; sub_path = (path_parse p).1 }
]

-- The end of the walk, when the path has no more names: the last directory's parent is opened.
unfoldable pub arrive : Walk → FileSystem → Outcome Searched
arrive w fs = do
  (parent, fs') ← dir_open w.parent_inode_no (dir_close w.parent_dir fs)
  ok (some w.last, walked (record w { parent_dir = parent }) ft_directory, fs')

-- A directory on the way.
unfoldable pub enter : Walk → DirEntry → FileSystem → Outcome (Walk × FileSystem)
enter w e fs = do
  let parent_inode_no = (fs.inodes w.parent_dir.inode).i_no
  (dir, fs') ← dir_open e.i_no (dir_close w.parent_dir fs)
  ok (record w { parent_dir = dir; parent_inode_no = parent_inode_no; last = e.i_no }, fs')

-- The loop, on fuel; to run out of it would be a stop. `name` has 16 bytes: a name that leaves no
-- room for its 0, or does not fit, counts as a stop.
unfoldable pub search_loop : (fuel : ℕ) → Walk → FileSystem → Outcome Searched
search_loop zero w fs = panic
search_loop (suc fuel) w fs = do
  let path = w.searched_path ++ slash ∷ w.name
  (found, fs1) ← search_dir_entry w.parent_dir w.name fs
  let further = do
    assert (ltb (length w.searched_path) 512)
    assert (ltb (length w.name) max_file_name_len)
    elim found [
      | none ↦ ok (none, walked (record w { searched_path = path }) ft_unknown, fs1)
      | some e ↦ do
        let next = next_name (record w { searched_path = path; last = e.i_no })
        assert (leb (length next.name) max_file_name_len)
        let regular = ok (some e.i_no, walked next ft_regular, fs1)
        let other = search_loop fuel next fs1
        let directory = do (w', fs2) ← enter next e fs1; search_loop fuel w' fs2
        if e.f_type == ft_directory
            then directory
            else if e.f_type == ft_regular
            then regular
            else other
    ]
  elim w.name [ [] ↦ arrive w fs | _ ∷ _ ↦ further ]

-- The first name, and the `ASSERT` on the path; `garbage` is what `dir_e.i_no` happens to be.
unfoldable pub search_file : ℕ → List ℕ → FileSystem → Outcome Searched
search_file garbage pathname fs = do
  let at_root : SearchRecord = record {
    searched_path = [];
    parent_dir = root fs;
    file_type = ft_directory;
  }
  let first = path_parse pathname
  let start : Walk = record {
    name = first.0;
    sub_path = first.1;
    searched_path = [];
    parent_dir = root fs;
    parent_inode_no = 0;
    last = garbage;
  }
  let follow = do
    assert (starts_with_slash pathname && ltb 1 (length pathname) && ltb (length pathname) 512)
    search_loop (length pathname + 1) start fs
  if is_root_path pathname then ok (some 0, at_root, fs) else follow
  where
    starts_with_slash : List ℕ → Bool
    starts_with_slash [] = false
    starts_with_slash (c ∷ cs) = c == slash
