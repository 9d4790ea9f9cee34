-- ===== src/Shell/Washing.antt =====
-- What `wash_path` of shell/buildin_cmd.c makes of a path.
use tinykernel.Base.{
  ℕ, zero, suc, ◌<◌, ltb, subst, ◌≡◌, ◌≢◌, refl, sym, ap, ◌∙◌, true, false, List, [], ◌∷◌, ◌++◌,
  Option, none, some, ◌==◌, if◌then◌else◌, length, arith, Bool-cases, inl, inr, Outcome, ok, panic,
}
use tinykernel.Fs.Paths.{slash, skip_slashes, parse_name, path_parse}
use tinykernel.Fs.Paths.Components.{
  begun, components, behind, components-path_parse, path_parse-end, Fit,
}
use tinykernel.Shell.{
  same_text, root, here, above, before_slash, cut, wash_name, wash_loop, wash_names,
  starts_with_slash, wash_path,
}

abbrev up : List (List ℕ) → List (List ℕ)
up [] = []
up (n ∷ ns) = ns

-- The names of a path, the last one first, and what they become: ".." takes the name in front of it away, "." nothing.
abbrev pub enter : List ℕ → List (List ℕ) → List (List ℕ)
enter name names =
    if same_text above name then up names else if same_text here name then names else name ∷ names

abbrev pub walk : List (List ℕ) → List (List ℕ) → List (List ℕ)
walk [] names = names
walk (n ∷ ns) names = walk ns (enter n names)

-- The path of such names, and "/" for none.
abbrev pub joined : List (List ℕ) → List ℕ
joined [] = []
joined (n ∷ ns) = joined ns ++ (slash ∷ n)

abbrev pub path_of : List (List ℕ) → List ℕ
path_of [] = root
path_of (n ∷ ns) = joined (n ∷ ns)

-- A name has a character, and no slash.
abbrev NoSlash : List ℕ → Type 0
NoSlash [] = Unit {0}
NoSlash (c ∷ cs) = ((c == slash) ≡ false) × NoSlash cs

abbrev IsName : List ℕ → Type 0
IsName n = (n ≢ []) × NoSlash n

abbrev AreNames : List (List ℕ) → Type 0
AreNames [] = Unit {0}
AreNames (n ∷ ns) = IsName n × AreNames ns

before_slash-none : (n : List ℕ) → NoSlash n → before_slash n ≡ none
unfolding before_slash
before_slash-none [] h = refl
before_slash-none (c ∷ cs) h = rw (before_slash-none cs h.1, h.0) refl

before_slash-joined : (xs n : List ℕ) → NoSlash n → before_slash (xs ++ (slash ∷ n)) ≡ some xs
unfolding before_slash
before_slash-joined [] n h = rw (before_slash-none n h) refl
before_slash-joined (x ∷ xs) n h = rw (before_slash-joined xs n h) refl

-- A path with a name is not "/".
not_root : (xs n : List ℕ) → n ≢ [] → same_text (xs ++ (slash ∷ n)) root ≡ false
not_root [] [] h = absurd (h refl)
not_root [] (c ∷ cs) h = refl
not_root (x ∷ []) n h = ground arith
not_root (x ∷ y ∷ ys) n h = ground arith

append_append : (xs ys zs : List ℕ) → (xs ++ ys) ++ zs ≡ xs ++ (ys ++ zs)
append_append [] ys zs = refl
append_append (x ∷ xs) ys zs = ap (λ l. x ∷ l) (append_append xs ys zs)

joined_cut :
    (n : List ℕ) (ns : List (List ℕ))
    → AreNames ns
    → (elim (some (joined ns)) as (λ (x : Option (List ℕ)). Outcome (List ℕ)) [
      | none ↦ panic
      | some [] ↦ ok root
      | some (c ∷ cs) ↦ ok (c ∷ cs)
    ])
      ≡ ok (path_of ns)
joined_cut n [] h = refl
joined_cut n (m ∷ ms) h = go (joined ms) m
  where
    go :
        (xs m : List ℕ)
        → (elim (some (xs ++ (slash ∷ m))) as (λ (x : Option (List ℕ)). Outcome (List ℕ)) [
          | none ↦ panic
          | some [] ↦ ok root
          | some (c ∷ cs) ↦ ok (c ∷ cs)
        ])
          ≡ ok (xs ++ (slash ∷ m))
    go [] m = refl
    go (x ∷ xs) m = refl

cut-path_of :
    (n : List ℕ) (ns : List (List ℕ))
    → IsName n
    → AreNames ns
    → cut (path_of (n ∷ ns)) ≡ ok (path_of ns)
unfolding cut
cut-path_of n ns h hs =
    ap
      (λ (o : Option (List ℕ)). elim o as (λ (x : Option (List ℕ)). Outcome (List ℕ)) [
        | none ↦ panic
        | some [] ↦ ok root
        | some (c ∷ cs) ↦ ok (c ∷ cs)
      ])
      (before_slash-joined (joined ns) n h.1)
    ∙ joined_cut n ns hs

AreNames-enter : (n : List ℕ) (ns : List (List ℕ)) → IsName n → AreNames ns → AreNames (enter n ns)
AreNames-enter n ns h hs = elim (Bool-cases (same_text above n)) [
  | inl is ↦ rw is (popped ns hs)
  | inr other ↦ elim (Bool-cases (same_text here n)) [
    | inl is ↦ rw (other, is) hs
    | inr name ↦ rw (other, name) (h, hs)
  ]
]
  where
    popped : (ns : List (List ℕ)) → AreNames ns → AreNames (up ns)
    popped [] hs = tt
    popped (m ∷ ms) hs = hs.1

wash_name-enter :
    (n : List ℕ) (ns : List (List ℕ))
    → IsName n
    → AreNames ns
    → wash_name n (path_of ns) ≡ ok (path_of (enter n ns))
unfolding wash_name cut before_slash
wash_name-enter n [] h hs = elim (Bool-cases (same_text above n)) [
  | inl is ↦ rw is refl
  | inr other ↦ elim (Bool-cases (same_text here n)) [
    | inl is ↦ rw (other, is) refl
    | inr name ↦ rw (other, name) refl
  ]
]
wash_name-enter n (m ∷ ms) h hs = elim (Bool-cases (same_text above n)) [
  | inl is ↦ rw is (cut-path_of m ms hs.0 hs.1)
  | inr other ↦ elim (Bool-cases (same_text here n)) [
    | inl is ↦ rw (other, is) refl
    | inr name ↦
        rw (other, name, not_root (joined ms) m hs.0.0)
          (ap ok (append_append (joined (m ∷ ms)) root n))
  ]
]

NoSlash-parse_name : (p : List ℕ) → NoSlash (parse_name p).0
unfolding parse_name
NoSlash-parse_name [] = tt
NoSlash-parse_name (c ∷ cs) = elim (Bool-cases (c == slash)) [
  | inl is ↦ rw is tt
  | inr other ↦ rw other (other, NoSlash-parse_name cs)
]

NoSlash-path_parse : (p : List ℕ) → NoSlash (path_parse p).0
unfolding path_parse
NoSlash-path_parse p = NoSlash-parse_name (skip_slashes p)

not_nil : (c : ℕ) (cs : List ℕ) → (c ∷ cs) ≢ []
not_nil c cs e = cc e

wash_loop-walk :
    (fuel : ℕ) (name : List ℕ) (sub_path : Option (List ℕ)) (ns : List (List ℕ))
    → NoSlash name
    → (name ≡ [] → sub_path ≡ none)
    → AreNames ns
    → Fit 15 (begun name (behind sub_path))
    → length (begun name (behind sub_path)) < fuel
    → wash_loop fuel name sub_path (path_of ns)
      ≡ ok (path_of (walk (begun name (behind sub_path)) ns))
unfolding wash_loop
wash_loop-walk zero name sub_path ns h end hs fit enough = absurd (omega (arith, enough))
wash_loop-walk (suc fuel) [] sub_path ns h end hs fit enough = rw (end refl) refl
wash_loop-walk (suc fuel) (c ∷ cs) none ns h end hs fit enough =
    let n : IsName (c ∷ cs) = (not_nil c cs, h) in
    let room : ltb (length (c ∷ cs)) 16 ≡ true = ground (arith, fit.0) in
    rw (room, wash_name-enter (c ∷ cs) ns n hs)
      (wash_loop-walk fuel [] none (enter (c ∷ cs) ns) tt (λ e. refl)
        (AreNames-enter (c ∷ cs) ns n hs) tt (omega (arith, enough)))
wash_loop-walk (suc fuel) (c ∷ cs) (some p) ns h end hs fit enough =
    let n : IsName (c ∷ cs) = (not_nil c cs, h) in
    let parts = components-path_parse p in
    let fewer : length (begun (path_parse p).0 (behind (path_parse p).1)) < fuel =
      rw (← parts) (omega (arith, enough)) in
    let room : ltb (length (c ∷ cs)) 16 ≡ true = ground (arith, fit.0) in
    rw (room, wash_name-enter (c ∷ cs) ns n hs)
      (wash_loop-walk fuel (path_parse p).0 (path_parse p).1 (enter (c ∷ cs) ns)
          (NoSlash-path_parse p) (path_parse-end p) (AreNames-enter (c ∷ cs) ns n hs)
          (subst (Fit 15) parts fit.1) fewer
        ∙ ap (λ (l : List (List ℕ)). ok (path_of (walk l (enter (c ∷ cs) ns)))) (sym parts))

wash_names-walk :
    (fuel : ℕ) (name : List ℕ) (sub_path : Option (List ℕ))
    → NoSlash name
    → (name ≡ [] → sub_path ≡ none)
    → Fit 15 (begun name (behind sub_path))
    → length (begun name (behind sub_path)) < fuel
    → wash_names fuel name sub_path ≡ ok (path_of (walk (begun name (behind sub_path)) []))
unfolding wash_names
wash_names-walk fuel [] sub_path h end fit enough = rw (end refl) refl
wash_names-walk fuel (c ∷ cs) sub_path h end fit enough =
    wash_loop-walk fuel (c ∷ cs) sub_path [] h end tt fit enough

-- `wash_path` of a path that begins with a slash and has no name of more than 15 characters, with room for a path of that length behind `new_abs_path`, on fuel above the number of its names: it returns its names in their order, each behind one slash, where ".." has taken the name in front of it away, if there was one, and "." is left out; if no name is left, it returns "/".
pub wash_path-walk :
    (fuel : ℕ) (path : List ℕ)
    → starts_with_slash path ≡ true
    → Fit 15 (components path)
    → length (components path) < fuel
    → wash_path fuel path ≡ ok (path_of (walk (components path) []))
unfolding wash_path
wash_path-walk fuel path absolute fit enough =
    let parts = components-path_parse path in
    let fewer : length (begun (path_parse path).0 (behind (path_parse path).1)) < fuel =
      rw (← parts) enough in
    rw absolute (
      wash_names-walk fuel (path_parse path).0 (path_parse path).1 (NoSlash-path_parse path)
        (path_parse-end path) (subst (Fit 15) parts fit) fewer
      ∙ ap (λ (l : List (List ℕ)). ok (path_of (walk l []))) (sym parts))
