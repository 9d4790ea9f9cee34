-- ===== src/Bitmap/Scan/First.antt =====
-- The first two loops of `bitmap_scan` find the first clear bit.
use tinykernel.Base.{
  ℕ, zero, suc, ◌+◌, ◌-◌, ◌*◌, ◌/◌, ◌%◌, ◌^◌, ◌<◌, ◌≤◌, ◌≡◌, refl, ◌≢◌, ◌⊎◌, inl, inr, true, false,
  Option, some, arith, ◌==◌, if◌then◌else◌, Bool-cases, ok, panic, u32, dec_lt, lt→ltb,
  ltb_of_not_lt,
}
use tinykernel.Bitmap.{
  Bitmap, bit_is_set, bitmap_scan_test, skip_full_bytes, skip_set_bits, scan_run, bitmap_scan,
}
use tinykernel.Bitmap.Access.{HasBytes}
use tinykernel.Bitmap.Bits.{FirstClear, skip_set_bits-FirstClear, skip_set_bits-lt, bit_is_set_full}

-- The number of bits of a bitmap.
abbrev pub size : Bitmap → ℕ
size b = b.btmp_bytes_len * 8

-- No sum that `bitmap_scan` forms wraps.
abbrev pub IsSmall : Bitmap → Type 0
IsSmall b = size b + 8 ≤ 2 ^ 31

record SkipsFull (bits : ℕ → ℕ) (i len r : ℕ) : Type 0 where
  above : i ≤ r
  below : r ≤ len
  stops : r < len → bits r ≢ 255
  full : (j : ℕ) → i ≤ j → j < r → bits j ≡ 255

skip_full_bytes-SkipsFull :
    (bits : ℕ → ℕ) (left i len : ℕ)
    → i + left ≡ len
    → SkipsFull bits i len (skip_full_bytes bits left i)
unfolding skip_full_bytes
skip_full_bytes-SkipsFull bits zero i len e = record {
  above = omega arith;
  below = omega arith;
  stops = λ h. absurd (omega arith);
  full = λ j h h'. absurd (omega arith);
}
skip_full_bytes-SkipsFull bits (suc left) i len e = elim (Bool-cases (bits i == 0xff)) [
  | inl is_full ↦
      rw is_full (later (skip_full_bytes-SkipsFull bits left (i + 1) len (omega arith)) is_full)
  | inr not_full ↦ rw not_full (record {
    above = omega arith;
    below = omega arith;
    stops = λ h. ground arith;
    full = λ j h h'. absurd (omega arith);
  })
]
  where
    later :
        {r : ℕ} → SkipsFull bits (i + 1) len r → (bits i == 0xff) ≡ true → SkipsFull bits i len r
    later {r} f is_full = record {
      above = omega arith;
      below = f.below;
      stops = f.stops;
      full = λ j h h'. ground (arith, f.full j);
    }

-- `s` is the first clear bit of the bitmap.
pub record FirstFree (b : Bitmap) (s : ℕ) : Type 0 where
  pub in_range : s < size b
  pub clear : bitmap_scan_test b s ≡ false
  pub set_before : (j : ℕ) → j < s → bitmap_scan_test b j ≡ true

abbrev pub AllSet : Bitmap → Type 0
AllSet b = (j : ℕ) → j < size b → bitmap_scan_test b j ≡ true

set_in_full : (b : Bitmap) (j : ℕ) → b.bits (j / 8) ≡ 255 → bitmap_scan_test b j ≡ true
unfolding bitmap_scan_test
set_in_full b j e = rw e (bit_is_set_full (j % 8) (omega arith))

set_in_byte :
    (b : Bitmap) (j r : ℕ)
    → j / 8 ≡ r
    → bit_is_set (b.bits r) (j % 8) ≡ true
    → bitmap_scan_test b j ≡ true
unfolding bitmap_scan_test
set_in_byte b j r e t = rw e t

clear_in_byte :
    (b : Bitmap) (j r k : ℕ)
    → j / 8 ≡ r
    → j % 8 ≡ k
    → bit_is_set (b.bits r) k ≡ false
    → bitmap_scan_test b j ≡ false
unfolding bitmap_scan_test
clear_in_byte b j r k e e' t = rw (e, e') t

-- What is left of `bitmap_scan` when the first clear bit is known.
abbrev pub scan_from : Bitmap → ℕ → ℕ → Option ℕ
scan_from b cnt s =
    let run = scan_run b cnt (size b - s) (s + 1) 1 in if cnt == 1 then some s else run

abbrev pub FindsFirst : Bitmap → ℕ → Type 0
FindsFirst b cnt =
    (AllSet b × (bitmap_scan b cnt ≡ panic))
    ⊎ ((s : ℕ) × FirstFree b s × (bitmap_scan b cnt ≡ ok (scan_from b cnt s)))

module _ (b : Bitmap) (h : HasBytes b) (small : IsSmall b) (cnt : ℕ) where
  found_byte :
      (r : ℕ)
      → r ≡ skip_full_bytes b.bits b.btmp_bytes_len 0
      → SkipsFull b.bits 0 b.btmp_bytes_len r
      → r < b.btmp_bytes_len
      → FindsFirst b cnt
  unfolding bitmap_scan
  found_byte r e f lt = inr (s, first, rw (← e, lt→ltb _ _ lt, no_wrap, no_wrap_left, no_wrap_next))
    where
      byte : ℕ
      byte = b.bits r

      k : ℕ
      k = skip_set_bits byte 8 0

      c : FirstClear byte 0 k
      c = skip_set_bits-FirstClear byte 8 0 (omega arith)

      k_lt : k < 8
      k_lt = skip_set_bits-lt byte (h r) (f.stops lt)

      s : ℕ
      s = r * 8 + k

      s_byte : s / 8 ≡ r
      s_byte = omega (arith, k_lt)

      s_bit : s % 8 ≡ k
      s_bit = omega (arith, k_lt)

      no_wrap : u32 s ≡ s
      no_wrap = omega (arith, k_lt)

      no_wrap_left : u32 (size b + 2 ^ 32 - s) ≡ size b - s
      no_wrap_left = omega (arith, k_lt)

      no_wrap_next : u32 (s + 1) ≡ s + 1
      no_wrap_next = omega (arith, k_lt)

      earlier : (j : ℕ) → j < s → bitmap_scan_test b j ≡ true
      earlier j lt_s = elim (dec_lt (j / 8) r) [
        | yes p ↦ set_in_full b j (f.full (j / 8) (omega arith) p)
        | no p ↦
            let same : j / 8 ≡ r = omega (arith, k_lt) in
            set_in_byte b j r same (c.set (j % 8) (omega arith) (omega (arith, k_lt, same)))
      ]

      first : FirstFree b s
      first = record {
        in_range = omega (arith, k_lt);
        clear = clear_in_byte b s r k s_byte s_bit (c.clear k_lt);
        set_before = earlier;
      }

  pub bitmap_scan-FindsFirst : FindsFirst b cnt
  unfolding bitmap_scan
  bitmap_scan-FindsFirst =
      let f = skip_full_bytes-SkipsFull b.bits b.btmp_bytes_len 0 b.btmp_bytes_len (omega arith) in
      elim (dec_lt (skip_full_bytes b.bits b.btmp_bytes_len 0) b.btmp_bytes_len) [
        | yes lt ↦ found_byte _ refl f lt
        | no ge ↦ inl (
          λ j lt. set_in_full b j (f.full (j / 8) (omega arith) (omega arith)),
          rw (ltb_of_not_lt _ _ ge),
        )
      ]

-- For a single bit the result is the first clear bit.
pub bitmap_scan_one :
    (b : Bitmap)
    → HasBytes b
    → IsSmall b
    → (AllSet b × (bitmap_scan b 1 ≡ panic))
      ⊎ ((s : ℕ) × FirstFree b s × (bitmap_scan b 1 ≡ ok (some s)))
bitmap_scan_one b h small = bitmap_scan-FindsFirst b h small 1
