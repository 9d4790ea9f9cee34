-- ===== src/Screen/Numbers.antt =====
-- The digits that `put_int` and `console_write_dec` write.
use tinykernel.Base.{
  ℕ, zero, suc, ◌+◌, ◌*◌, ◌/◌, ◌%◌, ◌^◌, ◌<◌, ◌≡◌, ap, ◌∙◌, inl, inr, List, [], ◌∷◌, Option, some,
  arith, ◌==◌, Bool-cases, table, table-entry, ==→eq, refl, ◌≤◌, true,
}
use native.Mathlib.Nat.{div-add-mod', div-lt_iff_lt-mul, mod-lt}
use tinykernel.Screen.{
  Screen, collect, put_digits, put_number, console_write_dec, put_char_color, digit_char,
}

abbrev pub power : ℕ → ℕ → ℕ
power base zero = 1
power base (suc k) = power base k * base

-- The number that a list of digits stands for, after the digits of `n`.
abbrev pub value_after : ℕ → ℕ → List ℕ → ℕ
value_after base n [] = n
value_after base n (d ∷ ds) = value_after base (n * base + d) ds

abbrev pub value : ℕ → List ℕ → ℕ
value base ds = value_after base 0 ds

abbrev pub AreDigits : ℕ → List ℕ → Type 0
AreDigits base [] = Unit {0}
AreDigits base (d ∷ ds) = (d < base) × AreDigits base ds

-- The digits before those in `arr`.
record Collected (base n : ℕ) (arr : List ℕ) (r : Option (List ℕ)) : Type 0 where
  digits : List ℕ
  done : r ≡ some digits
  same : value base digits ≡ value_after base n arr
  below : AreDigits base digits

collect-Collected :
    (base left n : ℕ) (arr : List ℕ)
    → 0 < base
    → n < power base left
    → AreDigits base arr
    → Collected base n arr (collect base left n arr)
unfolding collect
collect-Collected base zero n arr pos small ds =
    let none_left : n ≡ 0 = omega (arith, small) in
    record { digits = arr; done = rw none_left; same = rw none_left; below = ds }
collect-Collected base (suc left) n arr pos small ds = elim (Bool-cases (n == 0)) [
  | inl done ↦
      let none_left : n ≡ 0 = ground arith in
      record { digits = arr; done = rw done; same = rw none_left; below = ds }
  | inr more ↦
      let fewer : n / base < power base left = (div-lt_iff_lt-mul pos).1 small in
      let r =
        collect-Collected base left (n / base) (n % base ∷ arr) pos fewer (mod-lt n pos, ds) in
      record {
        digits = r.digits;
        done = rw more r.done;
        same = r.same ∙ ap (λ m. value_after base m arr) (div-add-mod' n base);
        below = r.below;
      }
]

-- The characters of the digits in ASCII, '0' to '9' and 'A' to 'F', and the one of a digit.
abbrev hex_digits : List ℕ
hex_digits = 48 ∷ 49 ∷ 50 ∷ 51 ∷ 52 ∷ 53 ∷ 54 ∷ 55 ∷ 56 ∷ 57 ∷ 65 ∷ 66 ∷ 67 ∷ 68 ∷ 69 ∷ 70 ∷ []

abbrev char_at : List ℕ → ℕ → ℕ
char_at [] d = 0
char_at (c ∷ cs) zero = c
char_at (c ∷ cs) (suc d) = char_at cs d

-- These characters one behind another, white (15) on black (0).
abbrev pub shown : List ℕ → Screen → Screen
shown [] s = s
shown (d ∷ ds) s = shown ds (put_char_color (char_at hex_digits d) 0 15 s)

chars_ok : table (λ d. digit_char d == char_at hex_digits d) 16 ≡ true
unfolding table
chars_ok = refl

digit_char-char_at : (d : ℕ) → d < 16 → digit_char d ≡ char_at hex_digits d
digit_char-char_at d small = ==→eq _ _ (table-entry _ 16 chars_ok d small)

put_digits-shown :
    (base : ℕ) (ds : List ℕ) (s : Screen)
    → base ≤ 16
    → AreDigits base ds
    → put_digits ds s ≡ shown ds s
unfolding put_digits
put_digits-shown base [] s narrow all = refl
put_digits-shown base (d ∷ ds) s narrow (small, all) =
    ap (λ c. put_digits ds (put_char_color c 0 15 s))
      (digit_char-char_at d (omega (arith, small, narrow)))
    ∙ put_digits-shown base ds (put_char_color (char_at hex_digits d) 0 15 s) narrow all

-- What is written is digits of the base, and their value is the number.
pub record Shows (base n : ℕ) (s : Screen) (r : Option Screen) : Type 0 where
  pub digits : List ℕ
  pub done : r ≡ some (shown digits s)
  pub same : value base digits ≡ n
  pub below : AreDigits base digits

put_number-Shows :
    (base n : ℕ) (s : Screen)
    → 9 < base
    → base ≤ 16
    → n < power base 16
    → Shows base n s (put_number base n s)
unfolding put_number put_digits
put_number-Shows base n s wide narrow small = elim (Bool-cases (n == 0)) [
  | inl none_left ↦
      let zero_now : n ≡ 0 = ground arith in
      record {
        digits = 0 ∷ [];
        done = rw none_left refl;
        same = omega (arith, zero_now);
        below = (omega arith, tt);
      }
  | inr more ↦
      let c = collect-Collected base 16 n [] (omega arith) small tt in
      record {
        digits = c.digits;
        done = rw (more, c.done) (ap some (put_digits-shown base c.digits s narrow c.below));
        same = c.same;
        below = c.below;
      }
]

-- The same of `console_write_dec` in base 10.
pub console_write_dec-Shows :
    (n : ℕ) (s : Screen) → n < 2 ^ 32 → Shows 10 n s (console_write_dec n s)
unfolding console_write_dec
console_write_dec-Shows n s small =
    put_number-Shows 10 n s (omega arith) (omega arith) (omega (arith, small))
