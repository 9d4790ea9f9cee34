-- ===== src/Bitmap/Scan.antt =====
-- `bitmap_scan` of lib/kernel/bitmap.c: the search for `cnt` clear bits in a row.
pub mod First
pub mod Run
use tinykernel.Base.{
  ℕ, ◌+◌, ◌-◌, ◌*◌, ◌^◌, ◌<◌, ◌≤◌, ◌≡◌, refl, ◌⊎◌, ◌≢◌, inl, inr, true, false, Option, none, some,
  arith, ◌==◌, if◌then◌else◌, Outcome, ok, panic, dec_lt, dec_le, Bool-cases, ==→eq, subst, ap,
}
use tinykernel.Bitmap.{Bitmap, bitmap_scan_test, scan_run, bitmap_scan}
use tinykernel.Bitmap.Access.{HasBytes}
use First.{size, IsSmall, FirstFree, AllSet, FindsFirst, scan_from, bitmap_scan-FindsFirst}
use Run.{FreeRun, FirstFit, Counting, scan_run-FirstFit}

-- How many bits the search looks at: for more than one bit, one more than the bitmap has.
abbrev pub limit : Bitmap → ℕ → ℕ
limit b cnt = if cnt == 1 then size b else size b + 1

-- The kernel stops where every bit is set; otherwise a first-fit search answers.
abbrev pub ScanOutcome : Bitmap → ℕ → Type 0
ScanOutcome b cnt =
    (AllSet b × (bitmap_scan b cnt ≡ panic))
    ⊎ ((o : Option ℕ) × (bitmap_scan b cnt ≡ ok o) × (¬ AllSet b) × FirstFit b cnt (limit b cnt) o)

module _ (b : Bitmap) (small : IsSmall b) (cnt : ℕ) (pos : 0 < cnt) (fits : cnt < 2 ^ 32) where
  not-AllSet : (s : ℕ) → FirstFree b s → ¬ AllSet b
  not-AllSet s f all = cc (all s f.in_range, f.clear)

  single : (s : ℕ) → FirstFree b s → cnt ≡ 1 → FirstFit b cnt (size b) (some s)
  single s f e = (
    (λ j above below. let e' : j ≡ s = omega arith in rw e' f.clear),
    (λ i lt run. cc (run i (omega arith) (omega arith), f.set_before i lt)),
    omega (arith, f.in_range),
  )

  counting : (s : ℕ) → FirstFree b s → cnt ≢ 1 → Counting b cnt (s + 1) 1
  counting s f ne =
      let e : s + 1 - 1 ≡ s = omega arith in
      record {
        less = omega arith;
        fits = omega arith;
        run = λ j above below. let e' : j ≡ s = omega arith in rw e' f.clear;
        none_before = rw e (λ i lt run. cc (run i (omega arith) (omega arith), f.set_before i lt));
      }

  scan_from-FirstFit : (s : ℕ) → FirstFree b s → FirstFit b cnt (limit b cnt) (scan_from b cnt s)
  scan_from-FirstFit s f = elim (Bool-cases (cnt == 1)) [
    | inl one ↦ rw one (single s f (==→eq _ _ one))
    | inr more ↦ rw more (
        scan_run-FirstFit b cnt (size b - s) (s + 1) 1 (size b + 1) (omega (arith, f.in_range))
          (omega arith) fits (counting s f (ground arith)))
  ]

  -- For a positive count, over memory that holds bytes and a bitmap small enough that no index
  -- wraps: `bitmap_scan` stops in its `ASSERT` if every bit of the bitmap is set. Otherwise some
  -- bit is clear, and it returns the start of the first run of `cnt` clear bits among the bits
  -- that it looks at, or -1 if there is no such run. For `cnt` of 1 it looks at the bits of the
  -- bitmap, for more at one bit behind them too.
  pub bitmap_scan-FirstFit : HasBytes b → ScanOutcome b cnt
  bitmap_scan-FirstFit h = elim (bitmap_scan-FindsFirst b h small cnt) [
    | inl full ↦ inl full
    | inr (s, f, e) ↦ inr (scan_from b cnt s, e, not-AllSet s f, scan_from-FirstFit s f)
  ]

module _ (b : Bitmap) (h : HasBytes b) (small : IsSmall b) (cnt : ℕ) where
  -- If the bit behind the bitmap is set, or `cnt` is 1, every run that `bitmap_scan` finds for a
  -- positive count lies within the bitmap and is clear.
  pub bitmap_scan_in_range :
      0 < cnt
      → cnt < 2 ^ 32
      → (cnt ≡ 1) ⊎ (bitmap_scan_test b (size b) ≡ true)
      → (r : ℕ) → bitmap_scan b cnt ≡ ok (some r)
      → FreeRun b r cnt × (r + cnt ≤ size b)
  bitmap_scan_in_range pos fits guard r e = elim (bitmap_scan-FirstFit b small cnt pos fits h) [
    | inl (_, stops) ↦ cc
    | inr (o, e', _, fit) ↦
        let same : o ≡ some r = cc in
        let fit' = subst (FirstFit b cnt (limit b cnt)) same fit in inside fit'.0 fit'.2 guard
  ]
    where
      inside :
          FreeRun b r cnt
          → r + cnt ≤ limit b cnt
          → (cnt ≡ 1) ⊎ (bitmap_scan_test b (size b) ≡ true)
          → FreeRun b r cnt × (r + cnt ≤ size b)
      inside run le (inl one) = (run, ground arith)
      inside run le (inr set) = elim (dec_le (r + cnt) (size b)) [
        | yes p ↦ (run, p)
        | no p ↦ absurd (cc (run (size b) (ground arith) (omega arith), set))
      ]

  only_fit :
      (s : ℕ)
      → FirstFree b s
      → FreeRun b s cnt
      → s + cnt ≤ limit b cnt
      → 0 < cnt
      → (o : Option ℕ) → FirstFit b cnt (limit b cnt) o
      → o ≡ some s
  only_fit s f run le pos none fit = absurd (fit s le run)
  only_fit s f run le pos (some r) (free, first, in_reach) =
      let not_after : ¬ (s < r) = λ lt. first s lt run in
      let not_before : ¬ (r < s) =
        λ lt. cc (free r (omega arith) (omega arith), f.set_before r lt) in
      ap some (omega arith)

  -- Where the first clear bit starts a run up to the end of the bitmap, and the bit behind the end
  -- happens to be clear, a call for one bit more than the run has returns a run that leaves the
  -- bitmap.
  pub bitmap_scan_past_end :
      (s : ℕ)
      → FirstFree b s
      → FreeRun b s cnt
      → s + cnt ≡ size b + 1
      → bitmap_scan b cnt ≡ ok (some s)
  bitmap_scan_past_end s f run e =
      let positive : 0 < cnt = omega (arith, f.in_range) in
      elim (bitmap_scan-FirstFit b small cnt positive (omega arith) h) [
        | inl (all, stops) ↦ absurd (cc (all s f.in_range, f.clear))
        | inr (o, e', _, fit) ↦ rw e' (
            let several : cnt ≢ 1 = omega (arith, f.in_range) in
            let in_reach : s + cnt ≤ limit b cnt = ground arith in
            ap ok (only_fit s f run in_reach positive o fit))
      ]
