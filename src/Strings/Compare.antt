-- ===== src/Strings/Compare.antt =====
-- `strlen` and `strcmp`.
use tinykernel.Base.{
  ℕ, suc, ◌+◌, ◌≡◌, ◌≢◌, ◌↔◌, refl, ap, ◌∙◌, true, false, List, [], ◌∷◌, Option, some, arith, ◌==◌,
  length, ok, ℕ_discrete,
}
use tinykernel.Strings.{compare_strings, strcmp, find_end, strlen}
use tinykernel.Strings.Contents.{HoldsString}

find_end-length :
    (cs : List ℕ) (p : ℕ) (mem : ℕ → ℕ)
    → HoldsString mem p cs
    → find_end (suc (length cs)) p mem ≡ some (p + length cs + 1)
unfolding find_end
find_end-length [] p mem h = rw h (ap some (omega arith))
find_end-length (c ∷ cs) p mem (here, some_char, rest) =
    let more : (mem p == 0) ≡ false = ground arith in
    rw more (find_end-length cs (p + 1) mem rest ∙ ap some (omega arith))

-- `strlen` of a string ends after its characters and returns their number.
pub strlen-length :
    (cs : List ℕ) (s : ℕ) (mem : ℕ → ℕ)
    → s ≢ 0
    → HoldsString mem s cs
    → strlen (suc (length cs)) s mem ≡ ok (some (length cs))
unfolding strlen
strlen-length cs s mem at h =
    let is_pointer : (s == 0) ≡ false = ground arith in
    rw (is_pointer, find_end-length cs s mem h) (ap (λ n. ok (some n)) (omega arith))

-- The two characters are equal exactly if the strings are.
record Compared (cs ds : List ℕ) (r : Option (ℕ × ℕ)) : Type 0 where
  left : ℕ
  right : ℕ
  done : r ≡ some (left, right)
  same : cs ≡ ds → left ≡ right
  equal : left ≡ right → cs ≡ ds

compare_strings-Compared :
    (cs ds : List ℕ) (p q : ℕ) (mem : ℕ → ℕ)
    → HoldsString mem p cs
    → HoldsString mem q ds
    → Compared cs ds (compare_strings (suc (length cs)) p q mem)
unfolding compare_strings
compare_strings-Compared [] [] p q mem h k = record {
  left = mem p;
  right = mem q;
  done = ground arith;
  same = λ e. cc;
  equal = λ e. refl;
}
compare_strings-Compared [] (d ∷ ds) p q mem h (here, some_char, rest) = record {
  left = mem p;
  right = mem q;
  done = ground arith;
  same = λ e. absurd cc;
  equal = λ e. absurd (some_char cc);
}
compare_strings-Compared (c ∷ cs) [] p q mem (here, some_char, rest) k = record {
  left = mem p;
  right = mem q;
  done = ground arith;
  same = λ e. absurd cc;
  equal = λ e. absurd (some_char cc);
}
compare_strings-Compared (c ∷ cs) (d ∷ ds) p q mem (here, some_char, rest) (there, _, rest') =
    elim (ℕ_discrete c d) [
      | yes e ↦
          let r = compare_strings-Compared cs ds (p + 1) (q + 1) mem rest rest' in
          let match : (mem p == mem q) ≡ true = ground arith in
          let more : (mem p == 0) ≡ false = ground arith in
          record {
            left = r.left;
            right = r.right;
            done = rw (match, more, r.done);
            same = λ all. r.same cc;
            equal = λ l. let tails = r.equal l in cc;
          }
      | no ne ↦
          let differ : (mem p == mem q) ≡ false = ground arith in
          record {
            left = mem p;
            right = mem q;
            done = rw differ;
            same = λ all. absurd (ne cc);
            equal = λ l. absurd (ne cc);
          }
    ]

-- `strcmp` of two strings ends, and returns 0, the difference of two equal characters, exactly if
-- the strings are equal.
pub strcmp-equal :
    (cs ds : List ℕ) (p q : ℕ) (mem : ℕ → ℕ)
    → p ≢ 0
    → HoldsString mem p cs
    → HoldsString mem q ds
    → (left right : ℕ) × (strcmp (suc (length cs)) p q mem ≡ ok (some (left, right)))
      × ((left ≡ right) ↔ (cs ≡ ds))
unfolding strcmp
strcmp-equal cs ds p q mem at h k =
    let r = compare_strings-Compared cs ds p q mem h k in
    let is_pointer : (p == 0) ≡ false = ground arith in
    (r.left, r.right, rw (is_pointer, r.done), (r.equal, r.same))
