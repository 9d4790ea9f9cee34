-- ===== src/KernelList/Contents.antt =====
-- What each operation of lib/kernel/list.c does to the sequence that a list holds.
use tinykernel.Base.{
  ℕ, ◌≡◌, refl, ◌≢◌, true, false, List, [], ◌∷◌, ◌++◌, arith, mem, mem-append, Distinct,
}
use mathlib.Core.List.{append_assoc}
use tinykernel.Interrupt.{intr_disable, critical_section}
use tinykernel.KernelList.{
  Heap, Sentinels, link_before, unlink, list_init, list_insert_before, list_push, list_append,
  list_remove, list_pop, list_empty,
}
use tinykernel.KernelList.Chain.{Links, Holds, Links-frame, mem-prev, next_in_chain, ne_of_mem}
use tinykernel.KernelList.Change.{link_before-Links, unlink-Links}

-- The elements that a list owns.
abbrev pub nodes : Sentinels → List ℕ → List ℕ
nodes l xs = l.head ∷ xs ++ l.tail ∷ []

-- `g` is `h` but for the links of elements in `zs`; the interrupt flag is the same.
pub record ChangesOnly (zs : List ℕ) (h g : Heap) : Type 0 where
  pub next_same : (p : ℕ) → mem p zs ≡ false → g.next p ≡ h.next p
  pub prev_same : (p : ℕ) → mem p zs ≡ false → g.prev p ≡ h.prev p
  pub intr_same : g.intr ≡ h.intr

-- `list_init` makes an empty list of two different sentinels, and touches nothing else.
pub list_init-Holds :
    (h : Heap) (l : Sentinels)
    → l.head ≢ l.tail
    → Holds (list_init l h) l [] × ChangesOnly (nodes l []) h (list_init l h)
unfolding list_init
list_init-Holds h l ne = (
  record { links = (ground arith, ground arith, tt); distinct = (ground arith, (refl, tt)) },
  record { next_same = λ p out. ground arith; prev_same = λ p out. ground arith; intr_same = refl },
)

Distinct-insert :
    (e : ℕ) (us ws : List ℕ)
    → Distinct (us ++ ws)
    → mem e (us ++ ws) ≡ false
    → Distinct (us ++ e ∷ ws)
Distinct-insert e [] ws d out = (out, d)
Distinct-insert e (u ∷ us) ws d out = (
  ground (arith, mem-append u us ws, mem-append u us (e ∷ ws)),
  Distinct-insert e us ws d.1 (ground arith),
)

Distinct-remove : (y : ℕ) (us ws : List ℕ) → Distinct (us ++ y ∷ ws) → Distinct (us ++ ws)
Distinct-remove y [] ws d = d.1
Distinct-remove y (u ∷ us) ws d =
    (ground (arith, mem-append u us ws, mem-append u us (y ∷ ws)), Distinct-remove y us ws d.1)

module _ (h : Heap) (e : ℕ) where
  insert_Links :
      (q a : ℕ) (us vs : List ℕ)
      → Distinct (a ∷ us ++ q ∷ vs)
      → mem e (a ∷ us ++ q ∷ vs) ≡ false
      → Links h a (us ++ q ∷ vs)
      → Links (list_insert_before q e h) a (us ++ e ∷ q ∷ vs)
  unfolding list_insert_before link_before
  insert_Links q a us vs d out c =
      Links-frame (link_before q e h) (list_insert_before q e h) a (us ++ e ∷ q ∷ vs) (λ p m. refl)
        (λ p m. refl) (link_before-Links h q e vs a us d out c)

  insert_ChangesOnly :
      (q a : ℕ) (us vs : List ℕ)
      → Links h a (us ++ q ∷ vs)
      → ChangesOnly (e ∷ a ∷ us ++ q ∷ vs) h (list_insert_before q e h)
  unfolding list_insert_before link_before
  insert_ChangesOnly q a us vs c = record {
    next_same = λ p out.
        ground (
          arith,
          mem-prev h a q us vs c,
          ne_of_mem p (h.prev q) (a ∷ us),
          mem-append p us (q ∷ vs),
        );
    prev_same = λ p out. ground (arith, mem-append p us (q ∷ vs));
    intr_same = (critical_section h.intr (intr_disable h.intr).1).1;
  }

remove_Links :
    (h : Heap) (y z a : ℕ) (us vs : List ℕ)
    → Distinct (a ∷ us ++ y ∷ z ∷ vs)
    → Links h a (us ++ y ∷ z ∷ vs)
    → Links (list_remove y h) a (us ++ z ∷ vs)
unfolding list_remove unlink
remove_Links h y z a us vs d c =
    Links-frame (unlink y h) (list_remove y h) a (us ++ z ∷ vs) (λ p m. refl) (λ p m. refl)
      (unlink-Links h y z vs a us d c)

remove_ChangesOnly :
    (h : Heap) (y z a : ℕ) (us vs : List ℕ)
    → Links h a (us ++ y ∷ z ∷ vs)
    → ChangesOnly (a ∷ us ++ y ∷ z ∷ vs) h (list_remove y h)
unfolding list_remove unlink
remove_ChangesOnly h y z a us vs c = record {
  next_same = λ p out. ground (
    arith,
    mem-prev h a y us (z ∷ vs) c,
    ne_of_mem p (h.prev y) (a ∷ us),
    mem-append p us (y ∷ z ∷ vs),
  );
  prev_same = λ p out. ground (arith, next_in_chain h a y z us vs c, mem-append p us (y ∷ z ∷ vs));
  intr_same = (critical_section h.intr (intr_disable h.intr).1).1;
}

-- Inserting before `q` in a list that is cut there.
insert_Holds :
    (h : Heap) (l : Sentinels) (e q : ℕ) (us vs xs ys : List ℕ)
    → xs ++ l.tail ∷ [] ≡ us ++ q ∷ vs
    → ys ++ l.tail ∷ [] ≡ us ++ e ∷ q ∷ vs
    → Holds h l xs
    → mem e (nodes l xs) ≡ false
    → Holds (list_insert_before q e h) l ys
      × ChangesOnly (e ∷ nodes l xs) h (list_insert_before q e h)
insert_Holds h l e q us vs xs ys before after c out = (
  record {
    links = rw after (insert_Links h e q l.head us vs d o k);
    distinct = rw after (Distinct-insert e (l.head ∷ us) (q ∷ vs) d o);
  },
  rw before (insert_ChangesOnly h e q l.head us vs k),
)
  where
    d : Distinct (l.head ∷ us ++ q ∷ vs)
    d = rw before at c.distinct

    o : mem e (l.head ∷ us ++ q ∷ vs) ≡ false
    o = rw before at out

    k : Links h l.head (us ++ q ∷ vs)
    k = rw before at c.links

push_Holds :
    (h : Heap) (l : Sentinels) (e : ℕ) (xs : List ℕ)
    → Holds h l xs
    → mem e (nodes l xs) ≡ false
    → Holds (list_push l e h) l (e ∷ xs) × ChangesOnly (e ∷ nodes l xs) h (list_push l e h)
unfolding list_push
push_Holds h l e [] c new =
    rw c.links.0 (insert_Holds h l e l.tail [] [] [] (e ∷ []) refl refl c new)
push_Holds h l e (x ∷ xs) c new =
    rw c.links.0 (insert_Holds h l e x [] (xs ++ l.tail ∷ []) (x ∷ xs) (e ∷ x ∷ xs) refl refl c new)

-- Removing `y` from a list that is cut there.
cut_Holds :
    (h : Heap) (l : Sentinels) (y z : ℕ) (us vs xs ys : List ℕ)
    → xs ++ l.tail ∷ [] ≡ us ++ y ∷ z ∷ vs
    → ys ++ l.tail ∷ [] ≡ us ++ z ∷ vs
    → Holds h l xs
    → Holds (list_remove y h) l ys × ChangesOnly (nodes l xs) h (list_remove y h)
cut_Holds h l y z us vs xs ys before after c = (
  record {
    links = rw after (remove_Links h y z l.head us vs d k);
    distinct = rw after (Distinct-remove y (l.head ∷ us) (z ∷ vs) d);
  },
  rw before (remove_ChangesOnly h y z l.head us vs k),
)
  where
    d : Distinct (l.head ∷ us ++ y ∷ z ∷ vs)
    d = rw before at c.distinct

    k : Links h l.head (us ++ y ∷ z ∷ vs)
    k = rw before at c.links

remove_Holds :
    (h : Heap) (l : Sentinels) (y : ℕ) (xs ys : List ℕ)
    → Holds h l (xs ++ y ∷ ys)
    → Holds (list_remove y h) l (xs ++ ys)
      × ChangesOnly (nodes l (xs ++ y ∷ ys)) h (list_remove y h)
remove_Holds h l y xs [] c =
    cut_Holds h l y l.tail xs [] (xs ++ y ∷ []) (xs ++ []) (append_assoc xs (y ∷ []) (l.tail ∷ []))
      (append_assoc xs [] (l.tail ∷ [])) c
remove_Holds h l y xs (z ∷ ys) c =
    cut_Holds h l y z xs (ys ++ l.tail ∷ []) (xs ++ y ∷ z ∷ ys) (xs ++ z ∷ ys)
      (append_assoc xs (y ∷ z ∷ ys) (l.tail ∷ [])) (append_assoc xs (z ∷ ys) (l.tail ∷ [])) c

module _ (h : Heap) (l : Sentinels) (e : ℕ) (xs : List ℕ) (c : Holds h l xs)
    (new : mem e (nodes l xs) ≡ false) where
  -- `list_push` of an element that is not in the list puts it first. Only links of the list's
  -- elements and of the new one change, and the interrupt flag is as before.
  pub list_push-Holds :
      Holds (list_push l e h) l (e ∷ xs) × ChangesOnly (e ∷ nodes l xs) h (list_push l e h)
  list_push-Holds = push_Holds h l e xs c new

  -- `list_append` of an element that is not in the list puts it last. Only links of the list's
  -- elements and of the new one change, and the interrupt flag is as before.
  pub list_append-Holds :
      Holds (list_append l e h) l (xs ++ e ∷ [])
      × ChangesOnly (e ∷ nodes l xs) h (list_append l e h)
  unfolding list_append
  list_append-Holds =
      insert_Holds h l e l.tail xs [] xs (xs ++ e ∷ []) refl
        (append_assoc xs (e ∷ []) (l.tail ∷ [])) c new

module _ (h : Heap) (l : Sentinels) where
  -- `list_remove` of an element of a list takes it out and keeps the order of the others. Only
  -- links of the list's elements change, and the interrupt flag is as before.
  pub list_remove-Holds :
      (y : ℕ) (xs ys : List ℕ)
      → Holds h l (xs ++ y ∷ ys)
      → Holds (list_remove y h) l (xs ++ ys)
        × ChangesOnly (nodes l (xs ++ y ∷ ys)) h (list_remove y h)
  list_remove-Holds y xs ys c = remove_Holds h l y xs ys c

  -- `list_pop` of a list that is not empty returns its first element and leaves the others in their
  -- order. Only links of the list's elements change, and the interrupt flag is as before.
  pub list_pop-Holds :
      (x : ℕ) (xs : List ℕ)
      → Holds h l (x ∷ xs)
      → ((list_pop l h).0 ≡ x)
        × Holds (list_pop l h).1 l xs
        × ChangesOnly (nodes l (x ∷ xs)) h (list_pop l h).1
  unfolding list_pop
  list_pop-Holds x xs c =
      let (holds, changes) = remove_Holds h l x [] xs c in
      (c.links.0, rw c.links.0 holds, rw c.links.0 changes)

-- A list is unharmed by a change of links that are not its own.
pub Holds-frame :
    (h g : Heap) (l : Sentinels) (xs zs : List ℕ)
    → Holds h l xs
    → ChangesOnly zs h g
    → ((p : ℕ) → mem p (nodes l xs) ≡ true → mem p zs ≡ false)
    → Holds g l xs
Holds-frame h g l xs zs c changes apart = record {
  links =
      Links-frame h g l.head (xs ++ l.tail ∷ []) (λ p m. changes.next_same p (apart p m))
        (λ p m. changes.prev_same p (apart p (ground arith))) c.links;
  distinct = c.distinct;
}

-- `list_pop` does not look whether the list is empty: on one that `list_init` has made it returns
-- the tail sentinel, and leaves a head that is its own successor, so that `list_empty` says that
-- the list is not empty.
pub list_pop_empty :
    (h : Heap) (l : Sentinels)
    → l.head ≢ l.tail
    → let (elem, g) = list_pop l (list_init l h) in
      (elem ≡ l.tail) × (g.next l.head ≡ l.head) × (list_empty l g ≡ false)
unfolding list_pop list_init list_remove unlink list_empty
list_pop_empty h l ne = (ground arith, ground arith, ground arith)
