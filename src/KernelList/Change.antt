-- ===== src/KernelList/Change.antt =====
-- Inserting into a chain and removing from it (`list_insert_before`, `list_remove`).
use tinykernel.Base.{ℕ, ◌≡◌, false, List, [], ◌∷◌, ◌++◌, arith, mem, mem-append, Distinct}
use tinykernel.KernelList.{Heap, link_before, unlink}
use tinykernel.KernelList.Chain.{Links, Links-frame, mem-prev, next_in_chain, ne_of_mem}

module _ (h : Heap) (q e : ℕ) (vs : List ℕ) where
  pub link_before-Links :
      (a : ℕ) (us : List ℕ)
      → Distinct (a ∷ us ++ q ∷ vs)
      → mem e (a ∷ us ++ q ∷ vs) ≡ false
      → Links h a (us ++ q ∷ vs)
      → Links (link_before q e h) a (us ++ e ∷ q ∷ vs)
  unfolding link_before
  link_before-Links a [] d out (n, p, l) =
      let behind =
        Links-frame h (link_before q e h) q vs
          (λ x m. ground (arith, ne_of_mem e x (q ∷ vs), ne_of_mem a x (q ∷ vs)))
          (λ x m. ground (arith, ne_of_mem q x vs, ne_of_mem e x vs)) l in
      (ground arith, ground arith, (ground arith, ground arith, behind))
  link_before-Links a (u ∷ us) d out (n, p, l) = (
    ground
        (arith, mem-prev h u q us vs l, ne_of_mem a (h.prev q) (u ∷ us), mem-append a us (q ∷ vs)),
    ground (arith, mem-append u us (q ∷ vs), mem-append e us (q ∷ vs)),
    link_before-Links u us d.1 (ground arith) l,
  )

module _ (h : Heap) (y z : ℕ) (vs : List ℕ) where
  pub unlink-Links :
      (a : ℕ) (us : List ℕ)
      → Distinct (a ∷ us ++ y ∷ z ∷ vs)
      → Links h a (us ++ y ∷ z ∷ vs)
      → Links (unlink y h) a (us ++ z ∷ vs)
  unfolding unlink
  unlink-Links a [] d (n, p, (n', p', l)) =
      let behind =
        Links-frame h (unlink y h) z vs (λ x m. ground (arith, ne_of_mem a x (z ∷ vs)))
          (λ x m. ground (arith, ne_of_mem z x vs)) l in
      (ground arith, ground arith, behind)
  unlink-Links a (u ∷ us) d (n, p, l) = (
    ground (
      arith,
      mem-prev h u y us (z ∷ vs) l,
      ne_of_mem a (h.prev y) (u ∷ us),
      mem-append a us (y ∷ z ∷ vs),
    ),
    ground (arith, next_in_chain h u y z us vs l, mem-append u us (y ∷ z ∷ vs)),
    unlink-Links u us d.1 l,
  )
