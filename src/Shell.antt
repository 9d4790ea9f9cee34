-- ===== src/Shell.antt =====
-- `wash_path` of shell/buildin_cmd.c. A string is the list of its characters in front of the 0, as
-- in Fs.Paths, and the arrays are taken to be long enough.
pub mod Washing
pub mod Tests
use tinykernel.Base.{
  ℕ, zero, suc, ◌+◌, Bool, true, false, ◌&&◌, List, [], ◌∷◌, ◌++◌, Option, none, some, ◌==◌,
  if◌then◌else◌, ltb, length, Outcome, ok, panic, assert, ◌>>=◌, ◌>>◌,
}
use tinykernel.Fs.Paths.{slash, path_parse, max_file_name_len}

-- `!strcmp`
abbrev pub same_text : List ℕ → List ℕ → Bool
same_text [] [] = true
same_text [] (d ∷ ds) = false
same_text (c ∷ cs) [] = false
same_text (c ∷ cs) (d ∷ ds) = c == d && same_text cs ds

-- "/", "." and ".."
abbrev pub root : List ℕ
root = 47 ∷ []

abbrev pub here : List ℕ
here = 46 ∷ []

abbrev pub above : List ℕ
above = 46 ∷ 46 ∷ []

-- What stands in front of the last '/', where `strrchr` finds one.
unfoldable pub before_slash : List ℕ → Option (List ℕ)
before_slash [] = none
before_slash (c ∷ cs) = elim (before_slash cs) [
  | some front ↦ some (c ∷ front)
  | none ↦ if c == slash then some [] else none
]

-- A step up; without a '/' the code writes to NULL.
unfoldable pub cut : List ℕ → Outcome (List ℕ)
cut path = elim (before_slash path) [
  | none ↦ panic
  | some [] ↦ ok root
  | some (c ∷ cs) ↦ ok (c ∷ cs)
]

-- What a name does to `new_abs_path`.
unfoldable pub wash_name : List ℕ → List ℕ → Outcome (List ℕ)
wash_name name path =
    let longer = (if same_text path root then path else path ++ root) ++ name in
    if same_text above name then cut path else if same_text here name then ok path else ok longer

-- The loop, on fuel, for `name` and `sub_path`; to run out of it would be a stop,
-- and so is a name that leaves no room for its 0 in the array `name`.
unfoldable pub wash_loop : (fuel : ℕ) → List ℕ → Option (List ℕ) → List ℕ → Outcome (List ℕ)
wash_loop zero name sub_path path = panic
wash_loop (suc fuel) [] sub_path path = ok path
wash_loop (suc fuel) (c ∷ cs) sub_path path = do
  assert (ltb (length (c ∷ cs)) max_file_name_len)
  path' ← wash_name (c ∷ cs) path
  elim sub_path [
    | none ↦ wash_loop fuel [] none path'
    | some p ↦ wash_loop fuel (path_parse p).0 (path_parse p).1 path'
  ]

abbrev pub starts_with_slash : List ℕ → Bool
starts_with_slash [] = false
starts_with_slash (c ∷ cs) = c == slash

-- A path without a name is "/".
unfoldable pub wash_names : (fuel : ℕ) → List ℕ → Option (List ℕ) → Outcome (List ℕ)
wash_names fuel [] sub_path = ok root
wash_names fuel (c ∷ cs) sub_path = wash_loop fuel (c ∷ cs) sub_path root

unfoldable pub wash_path : (fuel : ℕ) → List ℕ → Outcome (List ℕ)
wash_path fuel old_abs_path = do
  assert (starts_with_slash old_abs_path)
  let (name, sub_path) = path_parse old_abs_path
  wash_names fuel name sub_path
