-- ===== src/Bitmap.antt =====
-- lib/kernel/bitmap.c and lib/kernel/bitmap.h.
pub mod Bits
mod Tests
pub mod Access
pub mod Scan
use tinykernel.Base.{
  ℕ, zero, suc, ◌+◌, ◌-◌, ◌*◌, ◌/◌, ◌%◌, ◌^◌, Bool, true, false, not, ◌||◌, Option, none, some,
  bit_and, bit_or, ltb, ◌==◌, if◌then◌else◌, update, Outcome, ok, assert, ◌>>=◌, ◌>>◌, u32, u8,
}

-- `struct bitmap`. `bits` is the memory from the pointer on, so an index that is not below
-- `btmp_bytes_len` reads or writes what stands behind the bitmap.
pub record Bitmap : Type 0 where
  pub btmp_bytes_len : ℕ
  pub bits : ℕ → ℕ

-- `BITMAP_MASK << k`
abbrev pub mask : ℕ → ℕ
mask k = 2 ^ k

-- The truth value of `byte & (BITMAP_MASK << k)`.
unfoldable pub bit_is_set : ℕ → ℕ → Bool
bit_is_set byte k = not (bit_and byte (mask k) == 0)

-- `byte | (uint8_t)(BITMAP_MASK << k)` and `byte & ~(uint8_t)(BITMAP_MASK << k)`; `~` works on an
-- `int`, and the assignment keeps the low eight bits.
unfoldable pub set_bit : ℕ → ℕ → ℕ
set_bit byte k = u8 (bit_or byte (u8 (mask k)))

unfoldable pub clear_bit : ℕ → ℕ → ℕ
clear_bit byte k = u8 (bit_and byte (2 ^ 32 - 1 - u8 (mask k)))

-- `memset(btmap->bits, 0, btmap->btmp_bytes_len)`
pub bitmap_init : Bitmap → Bitmap
bitmap_init btmap = record btmap {
  bits = λ i. if ltb i btmap.btmp_bytes_len then 0 else btmap.bits i;
}

unfoldable pub bitmap_scan_test : Bitmap → ℕ → Bool
bitmap_scan_test btmap bit_idx = bit_is_set (btmap.bits (bit_idx / 8)) (bit_idx % 8)

-- The assignment in `bitmap_set`.
unfoldable pub store_bit : Bitmap → ℕ → ℕ → Bitmap
store_bit btmp bit_idx value = record btmp { bits = update btmp.bits byte_idx byte }
  where
    byte_idx : ℕ
    byte_idx = bit_idx / 8

    byte : ℕ
    byte =
        if value == 0
        then clear_bit (btmp.bits byte_idx) (bit_idx % 8)
        else set_bit (btmp.bits byte_idx) (bit_idx % 8)

-- `value` is an `int8_t`; the two values that pass the `ASSERT` are 0 and 1.
unfoldable pub bitmap_set : Bitmap → ℕ → ℕ → Outcome Bitmap
bitmap_set btmp bit_idx value = do
  assert ((value == 0) || (value == 1))
  ok (store_bit btmp bit_idx value)

-- The first loop of `bitmap_scan`, from `idx_byte` on; the first number is
-- `btmp_bytes_len - idx_byte`, and at 0 the loop ends by its second test.
unfoldable pub skip_full_bytes : (ℕ → ℕ) → ℕ → ℕ → ℕ
skip_full_bytes bits zero idx_byte = idx_byte
skip_full_bytes bits (suc left) idx_byte =
    let next = skip_full_bytes bits left (idx_byte + 1) in
    if bits idx_byte == 0xff then next else idx_byte

-- The second loop; the first number is `8 - idx_bit`, and at 0 `(uint8_t)(BITMAP_MASK << 8)` is 0.
unfoldable pub skip_set_bits : ℕ → ℕ → ℕ → ℕ
skip_set_bits byte zero idx_bit = idx_bit
skip_set_bits byte (suc left) idx_bit =
    let next = skip_set_bits byte left (idx_bit + 1) in
    if bit_is_set byte idx_bit then next else idx_bit

-- The third loop, with `bit_left` rounds to go; `none` is the -1 that `bit_idx_start` holds.
unfoldable pub scan_run : Bitmap → ℕ → (bit_left next_bit count : ℕ) → Option ℕ
scan_run btmp cnt zero next_bit count = none
scan_run btmp cnt (suc bit_left) next_bit count =
    let count' : ℕ = if bitmap_scan_test btmp next_bit then 0 else u32 (count + 1) in
    let rest = scan_run btmp cnt bit_left (u32 (next_bit + 1)) count' in
    if count' == cnt then some (u32 (next_bit + 2 ^ 32 - cnt + 1)) else rest

-- `none` is the -1 of a failure. The return of -1 behind the `ASSERT` is never reached.
unfoldable pub bitmap_scan : Bitmap → ℕ → Outcome (Option ℕ)
bitmap_scan btmp cnt = do
  let idx_byte = skip_full_bytes btmp.bits btmp.btmp_bytes_len 0
  assert (ltb idx_byte btmp.btmp_bytes_len)
  let bit_idx_start = u32 (idx_byte * 8 + skip_set_bits (btmp.bits idx_byte) 8 0)
  let bit_left = u32 (btmp.btmp_bytes_len * 8 + 2 ^ 32 - bit_idx_start)
  let run = scan_run btmp cnt bit_left (u32 (bit_idx_start + 1)) 1
  ok (if cnt == 1 then some bit_idx_start else run)
