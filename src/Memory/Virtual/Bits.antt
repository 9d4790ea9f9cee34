-- ===== src/Memory/Virtual/Bits.antt =====
-- The bits of a run of pages.
use tinykernel.Base.{
  ℕ, zero, suc, ◌+◌, ◌<◌, ◌≡◌, refl, ◌∙◌, Bool, arith, ◌==◌, ltb, leb, ◌&&◌, if◌then◌else◌, ok,
}
use tinykernel.Bitmap.{Bitmap, bitmap_scan_test}
use tinykernel.Bitmap.Access.{HasBytes, bitmap_set-Wrote}
use tinykernel.Memory.Virtual.{set_run}

-- A bitmap after a write of `value` to the `n` bits from `i` on.
pub record WroteRun (b : Bitmap) (i n : ℕ) (value : Bool) (b' : Bitmap) : Type 0 where
  pub test :
      (j : ℕ)
      → bitmap_scan_test b' j ≡ (if leb i j && ltb j (i + n) then value else bitmap_scan_test b j)
  pub same_len : b'.btmp_bytes_len ≡ b.btmp_bytes_len
  pub bytes : HasBytes b'

pub set_run-WroteRun :
    (n : ℕ) (b : Bitmap) (i value : ℕ)
    → HasBytes b
    → value < 2
    → (b' : Bitmap) × (set_run n b i value ≡ ok b') × WroteRun b i n (value == 1) b'
unfolding set_run
set_run-WroteRun zero b i value h small =
    (b, refl, record { test = λ j. ground arith; same_len = refl; bytes = h })
set_run-WroteRun (suc n) b i value h small =
    let (b1, sets, w) = bitmap_set-Wrote b i h value small in
    let (b', rest, r) = set_run-WroteRun n b1 (i + 1) value w.bytes small in
    (
      b',
      rw (sets, rest),
      record {
        test = λ j. r.test j ∙ (ground (arith, w.test j));
        same_len = r.same_len ∙ w.same_len;
        bytes = r.bytes;
      },
    )
