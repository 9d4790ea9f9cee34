-- ===== src/Bitmap/Access.antt =====
-- Reading and writing single bits: `bitmap_init`, `bitmap_scan_test` and `bitmap_set`.
use tinykernel.Base.{
  ℕ, ◌*◌, ◌/◌, ◌%◌, ◌<◌, ◌≡◌, refl, Bool, false, zero, suc, not, arith, ltb, ◌==◌, if◌then◌else◌,
  ok, panic,
}
use tinykernel.Bitmap.{Bitmap, store_bit, bitmap_init, bitmap_scan_test, bitmap_set}
use tinykernel.Bitmap.Bits.{
  bit_is_set-set_bit, bit_is_set-clear_bit, set_bit-lt, clear_bit-lt, bit_is_set_zero,
}

-- Every cell of the memory holds a byte.
abbrev pub HasBytes : Bitmap → Type 0
HasBytes b = (i : ℕ) → b.bits i < 256

-- What a write of `value` at `bit_idx` makes of the bitmap.
pub record Wrote (b : Bitmap) (bit_idx : ℕ) (value : Bool) (b' : Bitmap) : Type 0 where
  pub test :
      (j : ℕ) → bitmap_scan_test b' j ≡ (if bit_idx == j then value else bitmap_scan_test b j)
  pub same_len : b'.btmp_bytes_len ≡ b.btmp_bytes_len
  pub bytes : HasBytes b'

module _ (b : Bitmap) (i : ℕ) (h : HasBytes b) where
  pub store_bit-Wrote : (value : ℕ) → Wrote b i (not (value == 0)) (store_bit b i value)
  unfolding bitmap_scan_test store_bit
  store_bit-Wrote value = record {
    test = λ j. ground (
      arith,
      bit_is_set-set_bit byte (i % 8) (j % 8) (h (i / 8)) (omega arith) (omega arith),
      bit_is_set-clear_bit byte (i % 8) (j % 8) (h (i / 8)) (omega arith) (omega arith),
    );
    same_len = refl;
    bytes = λ j. ground (arith, h j, set_bit-lt byte (i % 8), clear_bit-lt byte (i % 8));
  }
    where
      byte : ℕ
      byte = b.bits (i / 8)

  -- `bitmap_set` with 0 or 1 does not stop in its `ASSERT`. Afterwards `bitmap_scan_test` reads the
  -- value at that bit and the old value at every other, also behind the end of the bitmap, the
  -- length is the same, and every cell still holds a byte.
  pub bitmap_set-Wrote :
      (value : ℕ)
      → value < 2
      → (b' : Bitmap) × (bitmap_set b i value ≡ ok b') × Wrote b i (value == 1) b'
  unfolding bitmap_set
  bitmap_set-Wrote zero lt = (store_bit b i 0, refl, store_bit-Wrote 0)
  bitmap_set-Wrote (suc zero) lt = (store_bit b i 1, refl, store_bit-Wrote 1)
  bitmap_set-Wrote (suc (suc v)) lt = absurd (omega arith)

-- Any other value stops the kernel.
pub bitmap_set-panic : (b : Bitmap) (i value : ℕ) → 1 < value → bitmap_set b i value ≡ panic
unfolding bitmap_set
bitmap_set-panic b i value h = ground arith

-- After `bitmap_init` the bits of the bitmap are clear, and those behind it are as they were.
pub bitmap_init-test :
    (b : Bitmap) (j : ℕ)
    → bitmap_scan_test (bitmap_init b) j
      ≡ (if ltb j (8 * b.btmp_bytes_len) then false else bitmap_scan_test b j)
unfolding bitmap_init bitmap_scan_test
bitmap_init-test b j = ground (arith, bit_is_set_zero (j % 8))

pub bitmap_init-HasBytes : (b : Bitmap) → HasBytes b → HasBytes (bitmap_init b)
unfolding bitmap_init
bitmap_init-HasBytes b h i = ground (arith, h i)

pub len-bitmap_init : (b : Bitmap) → (bitmap_init b).btmp_bytes_len ≡ b.btmp_bytes_len
unfolding bitmap_init
len-bitmap_init b = refl

-- Where a byte is 0, its bits are clear.
pub bitmap_scan_test_zero : (b : Bitmap) (j : ℕ) → b.bits (j / 8) ≡ 0 → bitmap_scan_test b j ≡ false
unfolding bitmap_scan_test
bitmap_scan_test_zero b j e = rw e (bit_is_set_zero (j % 8) (omega arith))
