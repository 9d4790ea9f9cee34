-- ===== src/Fs/Paths.antt =====
-- `path_parse` and `path_depth_cnt` of fs/fs.c. A string is the list of its characters in front of
-- the 0.
pub mod Components
use tinykernel.Base.{
  ℕ, zero, suc, ◌+◌, Bool, true, false, not, ◌&&◌, List, [], ◌∷◌, Option, none, some, ◌==◌,
  if◌then◌else◌, length, leb,
}

-- '/'
abbrev pub slash : ℕ
slash = 47

-- The loop over the slashes at the beginning.
unfoldable pub skip_slashes : List ℕ → List ℕ
skip_slashes [] = []
skip_slashes (c ∷ cs) = let rest = skip_slashes cs in if c == slash then rest else c ∷ cs

-- The loop that copies a name: what it copies, and where it ends.
unfoldable pub parse_name : List ℕ → List ℕ × List ℕ
parse_name [] = ([], [])
parse_name (c ∷ cs) =
    let (name, rest) = parse_name cs in if c == slash then ([], c ∷ cs) else (c ∷ name, rest)

-- `none` is NULL.
abbrev pub rest_of_path : List ℕ → Option (List ℕ)
rest_of_path [] = none
rest_of_path (c ∷ cs) = some (c ∷ cs)

-- The name that `path_parse` stores, which gets no 0 behind it, and the pointer that it returns.
unfoldable pub path_parse : List ℕ → List ℕ × Option (List ℕ)
path_parse pathname =
    let (name, rest) = parse_name (skip_slashes pathname) in (name, rest_of_path rest)

-- `name[0]` after a name has been stored in a buffer in which it was `before`.
abbrev pub first_char : ℕ → List ℕ → ℕ
first_char before [] = before
first_char before (c ∷ cs) = c

-- MAX_FILE_NAME_LEN
abbrev pub max_file_name_len : ℕ
max_file_name_len = 16

-- `path_parse` into `name`, whose first byte was `before`; `none` is a write behind the array.
unfoldable pub store_name : ℕ → List ℕ → Option (ℕ × Option (List ℕ))
store_name before pathname =
    let (name, rest) = path_parse pathname in
    if leb (length name) max_file_name_len then some (first_char before name, rest) else none

-- The loop of `path_depth_cnt`, on fuel, for `name[0]` and `p`; `none` means that it ran out, or
-- wrote behind `name`.
unfoldable pub depth_loop : (fuel : ℕ) → ℕ → Option (List ℕ) → ℕ → Option ℕ
depth_loop zero name0 p depth = none
depth_loop (suc fuel) name0 p depth =
    let next : Option (ℕ × Option (List ℕ)) = elim p [
      | none ↦ some (0, none)
      | some path ↦ store_name 0 path
    ] in
    let rest : Option ℕ = elim next [
      | none ↦ none
      | some q ↦ depth_loop fuel q.0 q.1 (depth + 1)
    ] in
    if not (name0 == 0) then rest else some depth

-- `path_depth_cnt`; `garbage` is what the first byte of `name` happens to be, which nothing sets.
unfoldable pub path_depth_cnt : (fuel : ℕ) → ℕ → List ℕ → Option ℕ
path_depth_cnt fuel garbage pathname = elim (store_name garbage pathname) [
  | none ↦ none
  | some q ↦ depth_loop fuel q.0 q.1 0
]
