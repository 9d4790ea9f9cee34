-- ===== src/Fs/Paths/Components.antt =====
-- What a path is made of, and that `path_depth_cnt` counts it.
use tinykernel.Base.{
  ℕ, zero, suc, ◌+◌, ◌≤◌, ◌<◌, ◌≡◌, ◌≢◌, refl, sym, ◌∙◌, ap, false, List, [], ◌∷◌, Option, none,
  some, arith, leb, true, ◌==◌, if◌then◌else◌, length, inl, inr, Bool-cases, subst,
}
use tinykernel.Fs.Paths.{
  slash, skip_slashes, parse_name, rest_of_path, path_parse, first_char, store_name, depth_loop,
  path_depth_cnt,
}

-- The characters of a string are not 0.
abbrev pub IsText : List ℕ → Type 0
IsText [] = Unit {0}
IsText (c ∷ cs) = (c ≢ 0) × IsText cs

-- The names between the slashes of a path, from its end: the name that has begun, and those behind it.
abbrev pub begun : List ℕ → List (List ℕ) → List (List ℕ)
begun [] names = names
begun (c ∷ cs) names = (c ∷ cs) ∷ names

abbrev pub split : List ℕ → List ℕ × List (List ℕ)
split [] = ([], [])
split (c ∷ cs) =
    if c == slash then ([], begun (split cs).0 (split cs).1) else (c ∷ (split cs).0, (split cs).1)

abbrev pub components : List ℕ → List (List ℕ)
components p = begun (split p).0 (split p).1

-- Names behind a pointer that may be NULL.
abbrev pub behind : Option (List ℕ) → List (List ℕ)
behind none = []
behind (some p) = components p

skip_slashes-stop : (c : ℕ) (cs : List ℕ) → (c == slash) ≡ false → skip_slashes (c ∷ cs) ≡ c ∷ cs
unfolding skip_slashes
skip_slashes-stop c cs other = rw other refl

components-skip_slashes : (p : List ℕ) → components (skip_slashes p) ≡ components p
unfolding skip_slashes
components-skip_slashes [] = refl
components-skip_slashes (c ∷ cs) = elim (Bool-cases (c == slash)) [
  | inl is ↦ rw is (components-skip_slashes cs)
  | inr other ↦ ap components (skip_slashes-stop c cs other)
]

split-parse_name :
    (p : List ℕ)
    → ((split p).0 ≡ (parse_name p).0) × ((split p).1 ≡ behind (rest_of_path (parse_name p).1))
unfolding parse_name
split-parse_name [] = (refl, refl)
split-parse_name (c ∷ cs) = elim (Bool-cases (c == slash)) [
  | inl is ↦ rw is (refl, rw is refl)
  | inr other ↦ let (name, rest) = split-parse_name cs in rw other (ap (λ n. c ∷ n) name, rest)
]

-- `path_parse` splits off the first name.
pub components-path_parse :
    (p : List ℕ) → components p ≡ begun (path_parse p).0 (behind (path_parse p).1)
unfolding path_parse
components-path_parse p =
    let (name, rest) = split-parse_name (skip_slashes p) in
    sym (components-skip_slashes p) ∙ rw (name, rest) refl

-- Without a name there is nothing behind it.
pub path_parse-end : (p : List ℕ) → (path_parse p).0 ≡ [] → (path_parse p).1 ≡ none
unfolding path_parse skip_slashes parse_name
path_parse-end [] e = refl
path_parse-end (c ∷ cs) e = elim (Bool-cases (c == slash)) [
  | inl is ↦ rw is (path_parse-end cs (rw is at e))
  | inr other ↦ absurd (
      let same = skip_slashes-stop c cs other in
      let named = rw same at e in cons_not_nil c (parse_name cs).0 (rw other at named))
]
  where
    cons_not_nil : (x : ℕ) (xs : List ℕ) → ¬ ((x ∷ xs) ≡ [])
    cons_not_nil x xs e = cc

-- The parts of a text are texts.
path_parse-IsText : (p : List ℕ) → IsText p → IsText (path_parse p).0
unfolding path_parse skip_slashes parse_name
path_parse-IsText p t = name (skip_slashes p) (skipped p t)
  where
    skipped : (p : List ℕ) → IsText p → IsText (skip_slashes p)
    skipped [] t = t
    skipped (c ∷ cs) t = elim (Bool-cases (c == slash)) [
      | inl is ↦ rw is (skipped cs t.1)
      | inr other ↦ rw other t
    ]

    name : (p : List ℕ) → IsText p → IsText (parse_name p).0
    name [] t = t
    name (c ∷ cs) t = elim (Bool-cases (c == slash)) [
      | inl is ↦ rw is tt
      | inr other ↦ rw other (t.0, name cs t.1)
    ]

none_not_some : {path : List ℕ} → ¬ (none ≡ some path)
none_not_some e = cc

some_injective : {a b : List ℕ} → some a ≡ some b → a ≡ b
some_injective e = cc

path_parse-rest_IsText :
    (p : List ℕ) → IsText p → (path : List ℕ) → (path_parse p).1 ≡ some path → IsText path
unfolding path_parse skip_slashes parse_name
path_parse-rest_IsText p t path e =
    later (parse_name (skip_slashes p)).1 path (rest (skip_slashes p) (skipped p t)) e
  where
    skipped : (p : List ℕ) → IsText p → IsText (skip_slashes p)
    skipped [] t = t
    skipped (c ∷ cs) t = elim (Bool-cases (c == slash)) [
      | inl is ↦ rw is (skipped cs t.1)
      | inr other ↦ rw other t
    ]

    rest : (p : List ℕ) → IsText p → IsText (parse_name p).1
    rest [] t = t
    rest (c ∷ cs) t = elim (Bool-cases (c == slash)) [
      | inl is ↦ rw is t
      | inr other ↦ rw other (rest cs t.1)
    ]

    later : (q path : List ℕ) → IsText q → rest_of_path q ≡ some path → IsText path
    later [] path t e = absurd (none_not_some e)
    later (c ∷ cs) path t e = subst IsText (some_injective e) t

-- No name is longer than `n`.
abbrev pub Fit : ℕ → List (List ℕ) → Type 0
Fit n [] = Unit {0}
Fit n (name ∷ names) = (length name ≤ n) × Fit n names

pub begun-Fit :
    (n : ℕ) (name : List ℕ) (names : List (List ℕ))
    → Fit n (begun name names)
    → (length name ≤ n) × Fit n names
begun-Fit n [] names h = (omega arith, h)
begun-Fit n (c ∷ cs) names h = h

-- The first name of a path, and those behind it.
pub path_parse-Fit :
    (n : ℕ) (path : List ℕ)
    → Fit n (components path)
    → (length (path_parse path).0 ≤ n) × Fit n (behind (path_parse path).1)
path_parse-Fit n path h =
    begun-Fit n (path_parse path).0 (behind (path_parse path).1)
      (subst (Fit n) (components-path_parse path) h)

-- The loop counts the name that is stored and those that are behind the pointer.
depth_loop-counts :
    (fuel : ℕ) (name : List ℕ) (p : Option (List ℕ)) (depth : ℕ)
    → IsText name
    → ((path : List ℕ) → p ≡ some path → IsText path)
    → (name ≡ [] → p ≡ none)
    → Fit 16 (behind p)
    → length (begun name (behind p)) < fuel
    → depth_loop fuel (first_char 0 name) p depth ≡ some (depth + length (begun name (behind p)))
unfolding depth_loop store_name
depth_loop-counts zero name p depth t ts stop fit enough = absurd (omega arith)
depth_loop-counts (suc fuel) [] p depth t ts stop fit enough =
    let none_left = stop refl in rw none_left (ap some (omega arith))
depth_loop-counts (suc fuel) (c ∷ cs) none depth t ts stop fit enough =
    let named : (c == 0) ≡ false = ground (arith, t.0) in
    rw named (
      depth_loop-counts fuel [] none (depth + 1) tt ts (λ e. refl) tt (omega (arith, enough))
      ∙ ap some (omega arith))
depth_loop-counts (suc fuel) (c ∷ cs) (some path) depth t ts stop fit enough =
    let named : (c == 0) ≡ false = ground (arith, t.0) in
    let text = ts path refl in
    let same : length (begun (path_parse path).0 (behind (path_parse path).1))
        ≡ length (components path) =
      ap length (sym (components-path_parse path)) in
    let (short, later) = path_parse-Fit 16 path fit in
    let room : leb (length (path_parse path).0) 16 ≡ true = ground (arith, short) in
    rw (named, room)
      (depth_loop-counts fuel (path_parse path).0 (path_parse path).1 (depth + 1)
          (path_parse-IsText path text) (path_parse-rest_IsText path text) (path_parse-end path)
          later (omega (arith, same, enough))
        ∙ ap some (omega (arith, same)))

-- A path has no more names than characters.
pub components-length : (p : List ℕ) → length (components p) ≤ length p
components-length [] = omega arith
components-length (c ∷ cs) = elim (Bool-cases (c == slash)) [
  | inl is ↦ rw is (omega (arith, components-length cs))
  | inr other ↦ rw other (omega (arith, shorter (split cs).0 (split cs).1, components-length cs))
]
  where
    shorter : (name : List ℕ) (names : List (List ℕ)) → length names ≤ length (begun name names)
    shorter [] names = omega arith
    shorter (c ∷ cs) names = omega arith

-- The depth that `path_depth_cnt` computes.
abbrev pub depth_of : ℕ → List (List ℕ) → ℕ
depth_of garbage [] = if garbage == 0 then 0 else 1
depth_of garbage (name ∷ names) = length (name ∷ names)

-- With more fuel than one for each character and one, `path_depth_cnt` of a string ends in which no name is longer than the 16 bytes of the array `name`. The answer is the number of names between the slashes of the path; but for a path without a name it is 0 or 1, by whether the first byte of the array, which is not initialised, happens to be 0.
pub path_depth_cnt-depth :
    (fuel garbage : ℕ) (p : List ℕ)
    → IsText p
    → Fit 16 (components p)
    → length p + 1 < fuel
    → path_depth_cnt fuel garbage p ≡ some (depth_of garbage (components p))
unfolding path_depth_cnt depth_loop store_name
path_depth_cnt-depth fuel garbage p t fit enough =
    let (short, later) = path_parse-Fit 16 p fit in
    let room : leb (length (path_parse p).0) 16 ≡ true = ground (arith, short) in
    let stored : store_name garbage p
        ≡ some (first_char garbage (path_parse p).0, (path_parse p).1) =
      rw room refl in
    ap
      (λ (o : Option (ℕ × Option (List ℕ))).
        elim o as (λ (x : Option (ℕ × Option (List ℕ))). Option ℕ) [
          | none ↦ none
          | some q ↦ depth_loop fuel q.0 q.1 0
        ])
      stored
    ∙ (go fuel (path_parse p).0 (path_parse p).1 (path_parse-IsText p t)
          (path_parse-rest_IsText p t) (path_parse-end p) later
          (subst (λ (names : List (List ℕ)). length names + 1 < fuel) (components-path_parse p)
            (omega (arith, enough, components-length p)))
        ∙ ap (λ names. some (depth_of garbage names)) (sym (components-path_parse p)))
  where
    go :
        (fuel : ℕ) (name : List ℕ) (q : Option (List ℕ))
        → IsText name
        → ((path : List ℕ) → q ≡ some path → IsText path)
        → (name ≡ [] → q ≡ none)
        → Fit 16 (behind q)
        → length (begun name (behind q)) + 1 < fuel
        → depth_loop fuel (first_char garbage name) q 0
          ≡ some (depth_of garbage (begun name (behind q)))
    go zero name q t ts stop fit enough = absurd (omega arith)
    go (suc zero) [] q t ts stop fit enough = absurd (omega (arith, enough))
    go (suc (suc fuel)) [] q t ts stop fit enough =
        let none_left = stop refl in
        elim (Bool-cases (garbage == 0)) [
          | inl empty ↦ rw (none_left, empty) refl
          | inr other ↦ rw (none_left, other) refl
        ]
    go (suc fuel) (c ∷ cs) q t ts stop fit enough =
        depth_loop-counts (suc fuel) (c ∷ cs) q 0 t ts stop fit (omega arith)
        ∙ ap some (omega arith)
