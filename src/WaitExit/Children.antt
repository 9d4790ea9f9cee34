-- ===== src/WaitExit/Children.antt =====
-- Which child `sys_wait` and `sys_exit` of userprog/wait_exit.c find.
use tinykernel.Base.{
  ℕ, ◌≡◌, ◌≢◌, ◌⊎◌, inl, inr, refl, Bool, true, false, List, [], ◌∷◌, Option, none, some, ◌==◌,
  ==→eq, ==_refl, mem, arith, Bool-cases,
}
use tinykernel.KernelList.Search.{traverse}
use tinykernel.Thread.{Kernel, set_task}
use tinykernel.WaitExit.{is_child, init_adopt_a_child, adopt}

-- The first element of a list that passes a test, if one does.
abbrev pub First : (ℕ → Bool) → List ℕ → Option ℕ → Type 0
First test xs none = (t : ℕ) → mem t xs ≡ true → test t ≡ false
First test xs (some t) = (mem t xs ≡ true) × (test t ≡ true)

-- A traversal by a test that changes nothing.
pub traverse-First :
    (test : ℕ → Bool) (func : ℕ → Kernel → Bool × Kernel) (k : Kernel)
    → ((t : ℕ) → func t k ≡ (test t, k))
    → (xs : List ℕ) → First test xs (traverse func xs k).0
unfolding traverse
traverse-First test func k same [] = λ t h. ground (arith, h)
traverse-First test func k same (x ∷ xs) = elim (Bool-cases (test x)) [
  | inl found ↦ rw (same x, found) (rw (==_refl x) refl, found)
  | inr other ↦
      rw (same x, other) (step (traverse func xs k).0 (traverse-First test func k same xs) other)
]
  where
    step : (o : Option ℕ) → First test xs o → test x ≡ false → First test (x ∷ xs) o
    step none f other = λ t h. elim (Bool-cases (x == t)) [
      | inl is ↦ (let e = ==→eq x t is in rw (← e) other)
      | inr later ↦ f t (rw later at h)
    ]
    step (some t) (inside, passes) other = (ground (arith, inside), passes)

-- What the traversal of `sys_exit` does to the tasks.
abbrev pub Adopted : ℕ → Kernel → Kernel → Type 0
Adopted pid k k' =
    ((k' ≡ k) × ((t : ℕ) → mem t k.all ≡ true → is_child pid (k.task t) ≡ false))
    ⊎ ((c : ℕ) × (mem c k.all ≡ true)
        × (is_child pid (k.task c) ≡ true)
        × (k' ≡ set_task c (record (k.task c) { parent_pid = some 1 }) k))

pub traverse-Adopted :
    (pid : ℕ) (k : Kernel) (xs : List ℕ)
    → let k' = (traverse (init_adopt_a_child pid) xs k).1 in
      ((k' ≡ k) × ((t : ℕ) → mem t xs ≡ true → is_child pid (k.task t) ≡ false))
      ⊎ ((c : ℕ) × (mem c xs ≡ true)
          × (is_child pid (k.task c) ≡ true)
          × (k' ≡ set_task c (record (k.task c) { parent_pid = some 1 }) k))
unfolding traverse init_adopt_a_child
traverse-Adopted pid k [] = inl (refl, λ t h. ground (arith, h))
traverse-Adopted pid k (x ∷ xs) = elim (Bool-cases (is_child pid (k.task x))) [
  | inl found ↦ rw found (inr (x, rw (==_refl x) refl, found, refl))
  | inr other ↦ rw other (elim (traverse-Adopted pid k xs) [
    | inl (same, f) ↦ inl (
      same,
      λ t h. elim (Bool-cases (x == t)) [
        | inl is ↦ (let e = ==→eq x t is in rw (← e) other)
        | inr later ↦ f t (rw later at h)
      ],
    )
    | inr (c, inside, child, done) ↦ inr (c, ground (arith, inside), child, done)
  ])
]

-- The traversal in `sys_exit` hands one child of the process to init, if it has one, and changes nothing else: of two children, at least one keeps the process as its parent.
pub adopt-leaves :
    (pid t u : ℕ) (k : Kernel)
    → t ≢ u
    → is_child pid (k.task t) ≡ true
    → is_child pid (k.task u) ≡ true
    → Adopted pid k (adopt pid k)
      × ((is_child pid ((adopt pid k).task t) ≡ true)
          ⊎ (is_child pid ((adopt pid k).task u) ≡ true))
unfolding adopt
adopt-leaves pid t u k apart is_t is_u = go (adopt pid k) (traverse-Adopted pid k k.all)
  where
    go :
        (k' : Kernel)
        → Adopted pid k k'
        → Adopted pid k k' × ((is_child pid (k'.task t) ≡ true) ⊎ (is_child pid (k'.task u) ≡ true))
    go k' (inl (same, f)) = (inl (same, f), inl (rw same is_t))
    go k' (inr (c, inside, child, done)) = (
      inr (c, inside, child, done),
      elim (Bool-cases (c == t)) [
        | inl is ↦ (let e = ==→eq c t is in inr (rw done (ground (arith, e, apart, is_u))))
        | inr other ↦ inl (rw done (rw other is_t))
      ],
    )
