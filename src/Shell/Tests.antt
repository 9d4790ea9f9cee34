-- ===== src/Shell/Tests.antt =====
-- `wash_path` on a concrete path.
use tinykernel.Base.{ℕ, ◌≡◌, refl, List, [], ◌∷◌, arith, ok}
use tinykernel.Fs.Paths.{path_parse, skip_slashes, parse_name}
use tinykernel.Fs.Paths.Components.{components}
use tinykernel.Shell.{wash_path, wash_names, wash_loop, wash_name, cut, before_slash}
use tinykernel.Shell.Washing.{path_of, walk, wash_path-walk}

-- "/a/./b/../../../c"
abbrev path : List ℕ
path = 47 ∷ 97 ∷ 47 ∷ 46 ∷ 47 ∷ 98 ∷ 47 ∷ 46 ∷ 46 ∷ 47 ∷ 46 ∷ 46 ∷ 47 ∷ 46 ∷ 46 ∷ 47 ∷ 99 ∷ []

wash_path-walk_example : wash_path 9 path ≡ ok (path_of (walk (components path) []))
wash_path-walk_example =
    wash_path-walk 9 path refl
      (
        omega arith,
        (
          omega arith,
          (omega arith, (omega arith, (omega arith, (omega arith, (omega arith, tt))))),
        ),
      )
      (omega arith)

-- "/c"
washed : wash_path 9 path ≡ ok (47 ∷ 99 ∷ [])
unfolding wash_path wash_names wash_loop wash_name cut before_slash path_parse skip_slashes
    parse_name
washed = refl
