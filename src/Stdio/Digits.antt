-- ===== src/Stdio/Digits.antt =====
-- `itoa` writes the digits of the number.
use tinykernel.Base.{
  ℕ, zero, suc, ◌+◌, ◌*◌, ◌/◌, ◌%◌, ◌^◌, ◌<◌, ◌≡◌, refl, sym, ap, subst, ◌⊎◌, ◌∙◌, inl, inr, true,
  List, [], ◌∷◌, ◌++◌, map, Option, some, arith, ◌==◌, update, length, length-append, Bool-cases,
}
use native.Mathlib.Nat.{div-add-mod', div-lt_iff_lt-mul, mod-lt}
use tinykernel.Screen.Numbers.{power, value, value_after, AreDigits}
use tinykernel.Stdio.{Output, digit, put_digit, itoa}

-- The bytes of a text from `p` on.
abbrev pub Holds : (ℕ → ℕ) → ℕ → List ℕ → Type 0
Holds mem p [] = Unit {0}
Holds mem p (c ∷ cs) = (mem p ≡ c) × Holds mem (p + 1) cs

-- The digits of `n` stand behind each other from the old end of the output on, and nothing before
-- them has changed.
pub record Prints (base n : ℕ) (o : Output) (r : Option Output) : Type 0 where
  pub digits : List ℕ
  pub memory : ℕ → ℕ
  pub done : r ≡ some (o.0 + length digits, memory)
  pub text : Holds memory o.0 (map digit digits)
  pub same : value base digits ≡ n
  pub below : AreDigits base digits
  pub before : (a : ℕ) → a < o.0 → memory a ≡ o.1 a

value_after-snoc :
    (base n d : ℕ) (ds : List ℕ)
    → value_after base n (ds ++ d ∷ []) ≡ value_after base n ds * base + d
value_after-snoc base n d [] = refl
value_after-snoc base n d (c ∷ ds) = value_after-snoc base (n * base + c) d ds

AreDigits-snoc :
    (base d : ℕ) (ds : List ℕ) → AreDigits base ds → d < base → AreDigits base (ds ++ d ∷ [])
AreDigits-snoc base d [] all lt = (lt, tt)
AreDigits-snoc base d (c ∷ ds) (first, all) lt = (first, AreDigits-snoc base d ds all lt)

Holds-snoc :
    (ds : List ℕ) (mem : ℕ → ℕ) (p d : ℕ)
    → Holds mem p (map digit ds)
    → Holds (update mem (p + length ds) (digit d)) p (map digit (ds ++ d ∷ []))
Holds-snoc [] mem p d h = let at : p + 0 ≡ p = omega arith in (rw at (ground arith), tt)
Holds-snoc (c ∷ ds) mem p d (first, h) =
    let at : p + 1 + length ds ≡ p + suc (length ds) = omega arith in
    (
      ground arith,
      subst (λ q. Holds (update mem q (digit d)) (p + 1) (map digit (ds ++ d ∷ []))) at
          (Holds-snoc ds mem (p + 1) d h),
    )

itoa-step :
    (base n : ℕ) (o : Output) (r : Option Output)
    → 0 < base
    → Prints base (n / base) o r
    → Prints base n o (put_digit (n % base) r)
itoa-step base n o r pos q = record {
  digits = q.digits ++ n % base ∷ [];
  memory = update q.memory (o.0 + length q.digits) (digit (n % base));
  done =
      ap (put_digit (n % base)) q.done
      ∙ ap (λ l. some (l, update q.memory (o.0 + length q.digits) (digit (n % base))))
          (omega (arith, length-append q.digits (n % base ∷ [])));
  text = Holds-snoc q.digits q.memory o.0 (n % base) q.text;
  same =
      value_after-snoc base 0 (n % base) q.digits
      ∙ ap (λ m. m * base + n % base) q.same
      ∙ div-add-mod' n base;
  below = AreDigits-snoc base (n % base) q.digits q.below (mod-lt n pos);
  before = λ a lt. ground (arith, q.before a lt);
}

itoa_last :
    (fuel base n : ℕ) (o : Output)
    → 0 < base
    → n / base ≡ 0
    → Prints base n o (itoa (suc fuel) n o base)
unfolding itoa
itoa_last fuel base n o pos done =
    let empty : Prints base (n / base) o (some o) = record {
      digits = [];
      memory = o.1;
      done = ap (λ p. some (p, o.1)) (omega arith);
      text = tt;
      same = sym done;
      below = tt;
      before = λ a lt. refl;
    } in
    let last : (n / base == 0) ≡ true = ground arith in
    rw last (itoa-step base n o (some o) pos empty)

itoa-fuel :
    (fuel base n : ℕ) (o : Output)
    → 0 < base
    → n < power base (suc fuel)
    → Prints base n o (itoa (suc fuel) n o base)
unfolding itoa
itoa-fuel zero base n o pos small =
    let none_left : n / base < 1 = (div-lt_iff_lt-mul pos).1 small in
    itoa_last zero base n o pos (omega (arith, none_left))
itoa-fuel (suc fuel) base n o pos small = elim (Bool-cases (n / base == 0)) [
  | inl last ↦ itoa_last (suc fuel) base n o pos (ground arith)
  | inr more ↦ rw more (
      itoa-step base n o (itoa (suc fuel) (n / base) o base) pos
        (itoa-fuel fuel base (n / base) o pos ((div-lt_iff_lt-mul pos).1 small)))
]

-- `itoa` of any `uint32_t` in base 10 or 16 ends after at most 10 digits. The characters that it
-- writes are those of digits whose value is the number, and nothing before them has changed.
pub itoa-Prints :
    (base n : ℕ) (o : Output)
    → (base ≡ 10) ⊎ (base ≡ 16)
    → n < 2 ^ 32
    → Prints base n o (itoa 10 n o base)
itoa-Prints base n o (inl ten) small =
    itoa-fuel 9 base n o (omega (arith, ten)) (rw ten (omega (arith, small)))
itoa-Prints base n o (inr sixteen) small =
    itoa-fuel 9 base n o (omega (arith, sixteen)) (rw sixteen (omega (arith, small)))
