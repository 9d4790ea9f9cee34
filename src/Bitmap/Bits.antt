-- ===== src/Bitmap/Bits.antt =====
-- How the bits of one byte change, checked over every byte and every bit position.
use tinykernel.Base.{
  ℕ, ◌+◌, ◌<◌, ◌≡◌, refl, Bool, true, false, ◌||◌, not, arith, ltb, ◌==◌, if◌then◌else◌, zero, suc,
  ◌≤◌, ◌≢◌, inl, inr, Bool-cases, table, table-entry,
}
use tinykernel.Bitmap.{bit_is_set, set_bit, clear_bit, skip_set_bits}

abbrev pub eqb : Bool → Bool → Bool
eqb true b = b
eqb false b = not b

pub eqb→eq : (a b : Bool) → eqb a b ≡ true → a ≡ b
eqb→eq a b h = ground arith

byte_set_ok : ℕ → ℕ → ℕ → Bool
unfolding bit_is_set set_bit
byte_set_ok x j k = eqb (bit_is_set (set_bit x j) k) (if j == k then true else bit_is_set x k)

byte_clear_ok : ℕ → ℕ → ℕ → Bool
unfolding bit_is_set clear_bit
byte_clear_ok x j k = eqb (bit_is_set (clear_bit x j) k) (if j == k then false else bit_is_set x k)

set_table : table (λ x. table (λ j. table (λ k. byte_set_ok x j k) 8) 8) 256 ≡ true
unfolding table byte_set_ok
set_table = refl

clear_table : table (λ x. table (λ j. table (λ k. byte_clear_ok x j k) 8) 8) 256 ≡ true
unfolding table byte_clear_ok
clear_table = refl

module _ (x j k : ℕ) (hx : x < 256) (hj : j < 8) (hk : k < 8) where
  pub bit_is_set-set_bit : bit_is_set (set_bit x j) k ≡ (if j == k then true else bit_is_set x k)
  unfolding byte_set_ok
  bit_is_set-set_bit =
      eqb→eq _ _ (table-entry _ 8 (table-entry _ 8 (table-entry _ 256 set_table x hx) j hj) k hk)

  pub bit_is_set-clear_bit :
      bit_is_set (clear_bit x j) k ≡ (if j == k then false else bit_is_set x k)
  unfolding byte_clear_ok
  bit_is_set-clear_bit =
      eqb→eq _ _ (table-entry _ 8 (table-entry _ 8 (table-entry _ 256 clear_table x hx) j hj) k hk)

pub set_bit-lt : (x j : ℕ) → set_bit x j < 256
unfolding set_bit
set_bit-lt x j = omega arith

pub clear_bit-lt : (x j : ℕ) → clear_bit x j < 256
unfolding clear_bit
clear_bit-lt x j = omega arith

full_bits : table (λ k. bit_is_set 255 k) 8 ≡ true
unfolding table bit_is_set
full_bits = refl

pub bit_is_set_full : (k : ℕ) → k < 8 → bit_is_set 255 k ≡ true
bit_is_set_full k h = table-entry _ 8 full_bits k h

zero_bits : table (λ k. not (bit_is_set 0 k)) 8 ≡ true
unfolding table bit_is_set
zero_bits = refl

pub bit_is_set_zero : (k : ℕ) → k < 8 → bit_is_set 0 k ≡ false
bit_is_set_zero k h = ground (arith, table-entry _ 8 zero_bits k h)

-- The second loop of `bitmap_scan` stops at the first clear bit, or at 8.
pub record FirstClear (byte i r : ℕ) : Type 0 where
  pub above : i ≤ r
  pub below : r ≤ 8
  pub clear : r < 8 → bit_is_set byte r ≡ false
  pub set : (k : ℕ) → i ≤ k → k < r → bit_is_set byte k ≡ true

pub skip_set_bits-FirstClear :
    (byte left i : ℕ) → i + left ≡ 8 → FirstClear byte i (skip_set_bits byte left i)
unfolding skip_set_bits
skip_set_bits-FirstClear byte zero i e = record {
  above = omega arith;
  below = omega arith;
  clear = λ h. absurd (omega arith);
  set = λ k h h'. absurd (omega arith);
}
skip_set_bits-FirstClear byte (suc left) i e = elim (Bool-cases (bit_is_set byte i)) [
  | inl is_set ↦ rw is_set (later (skip_set_bits-FirstClear byte left (i + 1) (omega arith)) is_set)
  | inr clear ↦ rw clear (record {
    above = omega arith;
    below = omega arith;
    clear = λ _. clear;
    set = λ k h h'. absurd (omega arith);
  })
]
  where
    later : {r : ℕ} → FirstClear byte (i + 1) r → bit_is_set byte i ≡ true → FirstClear byte i r
    later {r} f is_set = record {
      above = omega arith;
      below = f.below;
      clear = f.clear;
      set = λ k h h'. ground (arith, f.set k);
    }

-- So it stops below 8 at a byte that is not 0xff.
lt_table : table (λ x. (x == 255) || ltb (skip_set_bits x 8 0) 8) 256 ≡ true
unfolding table skip_set_bits bit_is_set
lt_table = refl

pub skip_set_bits-lt : (byte : ℕ) → byte < 256 → byte ≢ 255 → skip_set_bits byte 8 0 < 8
skip_set_bits-lt byte h ne = ground (arith, table-entry _ 256 lt_table byte h)
