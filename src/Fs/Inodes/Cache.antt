-- ===== src/Fs/Inodes/Cache.antt =====
-- The list of open inodes: one copy in memory for each number, for as long as it is open.
use tinykernel.Base.{
  not, ℕ, ◌+◌, ◌-◌, ◌^◌, ◌<◌, ◌≡◌, ◌≢◌, refl, ◌∙◌, Bool, true, false, List, [], ◌∷◌, Option, none,
  some, arith, ◌==◌, if◌then◌else◌, ==→eq, ==_refl, mem, Distinct, u32, Outcome, ok, Bool-cases,
  inl, inr,
}
use tinykernel.Fs.{Inode, FileSystem, malloc_inode, set_inode, set_part}
use tinykernel.Fs.Inodes.{
  find_open, load_inode, open_again, open_first, inode_open, without, inode_close, push_open,
}

-- The inode at `a` is open.
abbrev pub is_open : FileSystem → ℕ → Bool
is_open fs a = mem a fs.part.open_inodes

-- No address is in the list twice, no number belongs to two open inodes, and each is open at least once and fewer than 2 ^ 32 times.
pub record IsCache (fs : FileSystem) : Type 0 where
  pub distinct : Distinct fs.part.open_inodes
  pub unique :
      (a b : ℕ)
      → is_open fs a ≡ true
      → is_open fs b ≡ true
      → (fs.inodes a).i_no ≡ (fs.inodes b).i_no
      → a ≡ b
  pub counted : (a : ℕ) → is_open fs a ≡ true → 0 < (fs.inodes a).i_open_cnts
  pub bounded : (a : ℕ) → is_open fs a ≡ true → (fs.inodes a).i_open_cnts < 2 ^ 32

-- The answer of the search in the list.
abbrev Searched : (ℕ → Inode) → List ℕ → ℕ → Option ℕ → Type 0
Searched inodes xs inode_no none = (a : ℕ) → mem a xs ≡ true → (inodes a).i_no ≢ inode_no
Searched inodes xs inode_no (some a) = (mem a xs ≡ true) × ((inodes a).i_no ≡ inode_no)

find_open-Searched :
    (inodes : ℕ → Inode) (xs : List ℕ) (inode_no : ℕ)
    → Searched inodes xs inode_no (find_open inodes xs inode_no)
unfolding find_open
find_open-Searched inodes [] inode_no = λ a h. ground (arith, h)
find_open-Searched inodes (x ∷ xs) inode_no = elim (Bool-cases ((inodes x).i_no == inode_no)) [
  | inl here ↦ rw here (rw (==_refl x) refl, ==→eq (inodes x).i_no inode_no here)
  | inr other ↦
      rw other (step (find_open inodes xs inode_no) (find_open-Searched inodes xs inode_no) other)
]
  where
    step :
        (o : Option ℕ)
        → Searched inodes xs inode_no o
        → ((inodes x).i_no == inode_no) ≡ false
        → Searched inodes (x ∷ xs) inode_no o
    step none s other = λ a h e. elim (Bool-cases (x == a)) [
      | inl is ↦ (let same = ==→eq x a is in ground (arith, other, same, e))
      | inr later ↦ s a (rw later at h) e
    ]
    step (some a) (inside, number) other = (ground (arith, inside), number)

-- What `inode_open` has done: the inode with the number is open at the address, once more than before, and the others are as they were.
pub record Opened (fs : FileSystem) (inode_no address : ℕ) (fs' : FileSystem) : Type 0 where
  pub opened : is_open fs' address ≡ true
  pub number : (fs'.inodes address).i_no ≡ inode_no
  pub counts :
      (fs'.inodes address).i_open_cnts
      ≡ (if is_open fs address then (fs.inodes address).i_open_cnts + 1 else 1)
  pub others : (a : ℕ) → a ≢ address → (is_open fs' a ≡ is_open fs a) × (fs'.inodes a ≡ fs.inodes a)
  pub cache : IsCache fs'

module _ (fs : FileSystem) (v : IsCache fs) where
  open_again-Opened :
      (inode_no a : ℕ)
      → is_open fs a ≡ true
      → (fs.inodes a).i_no ≡ inode_no
      → (fs.inodes a).i_open_cnts + 1 < 2 ^ 32
      → Opened fs inode_no a (open_again a fs).1
  unfolding open_again
  open_again-Opened inode_no a inside number room =
      let here = ==_refl a in
      record {
        opened = inside;
        number = rw here number;
        counts = rw (here, inside) (omega (arith, room));
        others = λ b other. (refl, ground (arith, other));
        cache = record {
          distinct = v.distinct;
          unique = λ b c hb hc e. v.unique b c hb hc (ground (arith, e));
          counted = λ b hb. ground (arith, v.counted b hb, room);
          bounded = λ b hb. ground (arith, v.bounded b hb, room);
        };
      }

  open_first-Opened :
      (inode_no : ℕ) (inode : Inode)
      → ((a : ℕ) → is_open fs a ≡ true → (fs.inodes a).i_no ≢ inode_no)
      → load_inode fs.part inode_no fs.disk ≡ ok inode
      → inode.i_no ≡ inode_no
      → is_open fs (fs.addresses 0) ≡ false
      → (fs' : FileSystem) × (open_first inode_no fs ≡ ok (fs.addresses 0, fs'))
        × Opened fs inode_no (fs.addresses 0) fs'
  unfolding open_first
  open_first-Opened inode_no inode none_open loads number fresh =
      let new = fs.addresses 0 in
      let here = ==_refl new in
      let there : Inode = record inode { i_open_cnts = 1 } in
      (
        set_part (push_open new fs.part) (set_inode new there (malloc_inode fs).1),
        rw loads refl,
        record {
          opened = rw here refl;
          number = rw here number;
          counts = rw (here, fresh) refl;
          others = λ b other. (ground (arith, other), ground (arith, other));
          cache = record {
            distinct = (fresh, v.distinct);
            unique = λ b c hb hc e.
                ground (arith, v.unique b c, none_open b, none_open c, number, hb, hc, e);
            counted = λ b hb. ground (arith, v.counted b, hb);
            bounded = λ b hb. ground (arith, v.bounded b, hb);
          };
        },
      )

  -- In a cache of open inodes, `inode_open` of a number for which the table holds an inode with that number, that is not open 2 ^ 32 - 1 times, and with memory for it that no open inode has. It returns the address of the only open inode with that number, whose count is 1 or one more than before; the other open inodes are as they were, and it is a cache again.
  pub inode_open-Opened :
      (inode_no : ℕ) (inode : Inode)
      → load_inode fs.part inode_no fs.disk ≡ ok inode
      → inode.i_no ≡ inode_no
      → is_open fs (fs.addresses 0) ≡ false
      → ((a : ℕ) → is_open fs a ≡ true → (fs.inodes a).i_open_cnts + 1 < 2 ^ 32)
      → (address : ℕ) × (fs' : FileSystem) × (inode_open inode_no fs ≡ ok (address, fs'))
        × Opened fs inode_no address fs'
  unfolding inode_open open_again
  inode_open-Opened inode_no inode loads number fresh room =
      go (find_open fs.inodes fs.part.open_inodes inode_no)
        (find_open-Searched fs.inodes fs.part.open_inodes inode_no)
    where
      go :
          (o : Option ℕ)
          → Searched fs.inodes fs.part.open_inodes inode_no o
          → (address : ℕ) × (fs' : FileSystem) × ((elim o
                as (λ (x : Option ℕ). Outcome (ℕ × FileSystem)) [
                  | some a ↦ ok (open_again a fs)
                  | none ↦ open_first inode_no fs
                ])
              ≡ ok (address, fs'))
            × Opened fs inode_no address fs'
      go none none_open =
          let (fs', done, o) = open_first-Opened inode_no inode none_open loads number fresh in
          (fs.addresses 0, fs', done, o)
      go (some a) (inside, same) =
          (a, (open_again a fs).1, refl, open_again-Opened inode_no a inside same (room a inside))

-- Taking an address out of a list that holds it once.
pub mem-without :
    (a b : ℕ) (xs : List ℕ)
    → Distinct xs
    → mem b (without a xs) ≡ (if a == b then false else mem b xs)
unfolding without
mem-without a b [] d = ground arith
mem-without a b (x ∷ xs) d = elim (Bool-cases (x == a)) [
  | inl is ↦ let same = ==→eq x a is in ground (arith, is, same, d.0)
  | inr other ↦ ground (arith, other, mem-without a b xs d.1)
]

Distinct-without : (a : ℕ) (xs : List ℕ) → Distinct xs → Distinct (without a xs)
unfolding without
Distinct-without a [] d = d
Distinct-without a (x ∷ xs) d = elim (Bool-cases (x == a)) [
  | inl is ↦ rw is d.1
  | inr other ↦
      rw other (mem-without a x xs d.1 ∙ ground (arith, other, d.0), Distinct-without a xs d.1)
]

in-without :
    (a b : ℕ) (xs : List ℕ)
    → Distinct xs
    → mem b (without a xs) ≡ true
    → ((a == b) ≡ false) × (mem b xs ≡ true)
in-without a b xs d h = ground (arith, mem-without a b xs d, h)

-- What `inode_close` has done: the inode is open once less, and no more if it was open once.
pub record Closed (fs : FileSystem) (address : ℕ) (fs' : FileSystem) : Type 0 where
  pub still : is_open fs' address ≡ not ((fs.inodes address).i_open_cnts == 1)
  pub counts : (fs'.inodes address).i_open_cnts + 1 ≡ (fs.inodes address).i_open_cnts
  pub number : (fs'.inodes address).i_no ≡ (fs.inodes address).i_no
  pub denied : (fs'.inodes address).write_deny ≡ (fs.inodes address).write_deny
  pub others : (a : ℕ) → a ≢ address → (is_open fs' a ≡ is_open fs a) × (fs'.inodes a ≡ fs.inodes a)
  pub cache : IsCache fs'

-- In a cache of open inodes, `inode_close` of one of them takes one from its count and takes it off the list if that was 1; the others are as they were, and it is a cache again.
pub inode_close-Closed :
    (fs : FileSystem)
    → IsCache fs
    → (address : ℕ) → is_open fs address ≡ true
    → Closed fs address (inode_close address fs)
unfolding inode_close
inode_close-Closed fs v a inside =
    let some_count = v.counted a inside in
    let few = v.bounded a inside in
    let here = ==_refl a in
    let left : u32 ((fs.inodes a).i_open_cnts + 2 ^ 32 - 1) ≡ (fs.inodes a).i_open_cnts - 1 =
      omega (arith, some_count, few) in
    elim (Bool-cases ((fs.inodes a).i_open_cnts - 1 == 0)) [
      | inl last ↦
          rw (left, last)
            (record {
              still =
                  mem-without a a fs.part.open_inodes v.distinct
                  ∙ (ground (arith, last, some_count));
              counts = rw here (omega (arith, some_count));
              number = rw here refl;
              denied = rw here refl;
              others = λ b other. (
                mem-without a b fs.part.open_inodes v.distinct ∙ (ground (arith, other)),
                ground (arith, other),
              );
              cache = record {
                distinct = Distinct-without a fs.part.open_inodes v.distinct;
                unique = λ b c hb hc e.
                    (let (ob, ib) = in-without a b fs.part.open_inodes v.distinct hb in
                      let (oc, ic) = in-without a c fs.part.open_inodes v.distinct hc in
                      v.unique b c ib ic (rw (ob, oc) at e));
                counted = λ b hb.
                    (let (ob, ib) = in-without a b fs.part.open_inodes v.distinct hb in
                      rw ob (v.counted b ib));
                bounded = λ b hb.
                    (let (ob, ib) = in-without a b fs.part.open_inodes v.distinct hb in
                      rw ob (v.bounded b ib));
              };
            })
      | inr more ↦
          rw (left, more)
            (record {
              still = ground (arith, inside, more);
              counts = rw here (omega (arith, some_count));
              number = rw here refl;
              denied = rw here refl;
              others = λ b other. (refl, ground (arith, other));
              cache = record {
                distinct = v.distinct;
                unique = λ b c hb hc e. v.unique b c hb hc (ground (arith, e));
                counted = λ b hb. ground (arith, v.counted b hb, more);
                bounded = λ b hb. ground (arith, v.bounded b hb, few);
              };
            })
    ]
