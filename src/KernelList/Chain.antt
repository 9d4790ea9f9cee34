-- ===== src/KernelList/Chain.antt =====
-- What it means that `next` and `prev` link a sequence of elements.
use tinykernel.Base.{ℕ, ◌≡◌, true, false, List, [], ◌∷◌, ◌++◌, arith, ◌==◌, mem, Distinct}
use tinykernel.KernelList.{Heap, Sentinels}

-- From `a` on, `next` leads through `zs`, and `prev` back.
abbrev pub Links : Heap → ℕ → List ℕ → Type 0
Links h a [] = Unit {0}
Links h a (z ∷ zs) = (h.next a ≡ z) × (h.prev z ≡ a) × Links h z zs

-- The list holds the elements `xs`, in order.
pub record Holds (h : Heap) (l : Sentinels) (xs : List ℕ) : Type 0 where
  pub links : Links h l.head (xs ++ l.tail ∷ [])
  pub distinct : Distinct (l.head ∷ xs ++ l.tail ∷ [])

-- A chain only depends on `next` at all but its last element and `prev` at all but its first.
pub Links-frame :
    (h g : Heap) (a : ℕ) (zs : List ℕ)
    → ((p : ℕ) → mem p (a ∷ zs) ≡ true → g.next p ≡ h.next p)
    → ((p : ℕ) → mem p zs ≡ true → g.prev p ≡ h.prev p)
    → Links h a zs
    → Links g a zs
Links-frame h g a [] n p l = tt
Links-frame h g a (z ∷ zs) n p (e, e', l) = (
  ground (arith, n a),
  ground (arith, p z),
  Links-frame h g z zs (λ x m. n x (ground arith)) (λ x m. p x (ground arith)) l,
)

-- The element before `q` is in the chain.
pub mem-prev :
    (h : Heap) (a q : ℕ) (us vs : List ℕ)
    → Links h a (us ++ q ∷ vs)
    → mem (h.prev q) (a ∷ us) ≡ true
mem-prev h a q [] vs (e, e', l) = ground arith
mem-prev h a q (u ∷ us) vs (e, e', l) = ground (arith, mem-prev h u q us vs l)

pub next_in_chain :
    (h : Heap) (a y z : ℕ) (us vs : List ℕ) → Links h a (us ++ y ∷ z ∷ vs) → h.next y ≡ z
next_in_chain h a y z [] vs (e, e', (n, p, l)) = n
next_in_chain h a y z (u ∷ us) vs (e, e', l) = next_in_chain h u y z us vs l

pub ne_of_mem : (a b : ℕ) (xs : List ℕ) → mem a xs ≡ false → mem b xs ≡ true → (b == a) ≡ false
ne_of_mem a b [] out is = cc
ne_of_mem a b (x ∷ xs) out is = ground (arith, ne_of_mem a b xs)
