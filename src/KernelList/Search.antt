-- ===== src/KernelList/Search.antt =====
-- The loops of lib/kernel/list.c that walk along a list: `elem_find`, `list_len`,
-- `list_traversal`, and the test `list_empty`. A round of fuel for each element and one more is
-- enough.
use tinykernel.Base.{
  ℕ, zero, suc, ◌+◌, ◌^◌, ◌<◌, ◌≡◌, refl, ap, inl, inr, Bool, true, false, List, [], ◌∷◌, ◌++◌,
  Option, none, some, arith, length, mem, mem-append, Distinct, Bool-cases, ◌↔◌, ◌∙◌, if◌then◌else◌,
  ==_refl, u32,
}
use tinykernel.KernelList.{
  Heap, Sentinels, find_from, elem_find, len_from, list_len, list_empty, traverse_from,
  list_traversal,
}
use tinykernel.KernelList.Chain.{Links, Holds}

-- What `list_traversal` does on a sequence: it calls `func` up to the first element that `func`
-- accepts.
module _ {S : Type 0} (func : ℕ → S → Bool × S) where
  unfoldable pub traverse : List ℕ → S → Option ℕ × S
  traverse [] s = (none, s)
  traverse (x ∷ xs) s =
      let (found, s') = func x s in
      let rest = traverse xs s' in if found then (some x, s') else rest

tail_not_in : (tail : ℕ) (xs : List ℕ) → Distinct (xs ++ tail ∷ []) → mem tail xs ≡ false
tail_not_in tail [] d = refl
tail_not_in tail (x ∷ xs) d = ground (arith, tail_not_in tail xs d.1, mem-append x xs (tail ∷ []))

module _ (h : Heap) (tail : ℕ) where
  find_from-mem :
      (obj fuel a : ℕ) (xs : List ℕ)
      → Links h a (xs ++ tail ∷ [])
      → mem tail xs ≡ false
      → length xs < fuel
      → find_from h tail obj fuel (h.next a) ≡ some (mem obj xs)
  unfolding find_from
  find_from-mem obj zero a xs c out enough = absurd (omega arith)
  find_from-mem obj (suc fuel) a [] c out enough = rw (c.0, ==_refl)
  find_from-mem obj (suc fuel) a (x ∷ xs) c out enough =
      rw c.0 (ground (arith, find_from-mem obj fuel x xs c.2))

  len_from-length :
      (fuel a n : ℕ) (xs : List ℕ)
      → Links h a (xs ++ tail ∷ [])
      → mem tail xs ≡ false
      → length xs < fuel
      → n + length xs < 2 ^ 32
      → len_from h tail fuel (h.next a) n ≡ some (n + length xs)
  unfolding len_from
  len_from-length zero a n xs c out enough small = absurd (omega arith)
  len_from-length (suc fuel) a n [] c out enough small = rw (c.0, ==_refl) (ap some (omega arith))
  len_from-length (suc fuel) a n (x ∷ xs) c out enough small =
      let next : u32 (n + 1) ≡ n + 1 = omega arith in
      rw (c.0, next) (ground (arith, len_from-length fuel x (n + 1) xs c.2))

  module _ {S : Type 0} (func : ℕ → S → Bool × S) where
    traverse_from-traverse :
        (fuel a : ℕ) (xs : List ℕ) (s : S)
        → Links h a (xs ++ tail ∷ [])
        → mem tail xs ≡ false
        → length xs < fuel
        → traverse_from func h tail fuel (h.next a) s ≡ some (traverse func xs s)
    unfolding traverse_from traverse
    traverse_from-traverse zero a xs s c out enough = absurd (omega arith)
    traverse_from-traverse (suc fuel) a [] s c out enough = rw (c.0, ==_refl)
    traverse_from-traverse (suc fuel) a (x ∷ xs) s c out enough =
        rw c.0 (ground (arith, traverse_from-traverse fuel x xs (func x s).1 c.2))

empty_iff :
    (h : Heap) (l : Sentinels) (xs : List ℕ) → Holds h l xs → (list_empty l h ≡ true) ↔ (xs ≡ [])
unfolding list_empty
empty_iff h l [] c = (λ e. refl, λ e. rw (c.links.0, ==_refl))
empty_iff h l (x ∷ xs) c =
    (λ e. ground (arith, tail_not_in l.tail (x ∷ xs) c.distinct.1, c.links.0), λ e. cc)

traversal_by :
    {S : Type 0} (func : ℕ → S → Bool × S) (fuel : ℕ) (h : Heap) (l : Sentinels) (xs : List ℕ)
    (s : S)
    → Holds h l xs
    → length xs < fuel
    → list_traversal func fuel l h s ≡ some (traverse func xs s)
unfolding list_traversal traverse
traversal_by func fuel h l [] s c enough = rw (empty_iff h l [] c).1 refl
traversal_by func fuel h l (x ∷ xs) s c enough = elim (Bool-cases (list_empty l h)) [
  | inl e ↦ absurd (cc ((empty_iff h l (x ∷ xs) c).0 e))
  | inr e ↦ rw e (
      traverse_from-traverse h l.tail func fuel l.head (x ∷ xs) s c.links
        (tail_not_in l.tail (x ∷ xs) c.distinct.1) enough)
]

module _ (h : Heap) (l : Sentinels) (xs : List ℕ) (c : Holds h l xs) where
  -- `list_empty` tells whether the list holds no element.
  pub list_empty-Holds : (list_empty l h ≡ true) ↔ (xs ≡ [])
  unfolding list_empty
  list_empty-Holds = empty_iff h l xs c

  -- `elem_find` ends within one round more than there are elements, and tells whether `obj` is
  -- one of them.
  pub elem_find-mem : (fuel obj : ℕ) → length xs < fuel → elem_find fuel l obj h ≡ some (mem obj xs)
  unfolding elem_find
  elem_find-mem fuel obj enough =
      find_from-mem h l.tail obj fuel l.head xs c.links (tail_not_in l.tail xs c.distinct.1) enough

  -- `list_len` ends as soon, and returns the number of elements if it fits a `uint32_t`.
  pub list_len-length :
      (fuel : ℕ) → length xs < fuel → length xs < 2 ^ 32 → list_len fuel l h ≡ some (length xs)
  unfolding list_len
  list_len-length fuel enough small =
      len_from-length h l.tail fuel l.head 0 xs c.links (tail_not_in l.tail xs c.distinct.1) enough
        (omega arith)
      ∙ ap some (omega arith)

  -- `list_traversal` ends within one round more than there are elements. It hands the elements to
  -- `func` in order until one is accepted, which it returns with the state that the calls leave.
  pub list_traversal-traverse :
      {S : Type 0} (func : ℕ → S → Bool × S) (fuel : ℕ) (s : S)
      → length xs < fuel
      → list_traversal func fuel l h s ≡ some (traverse func xs s)
  list_traversal-traverse func fuel s enough = traversal_by func fuel h l xs s c enough
