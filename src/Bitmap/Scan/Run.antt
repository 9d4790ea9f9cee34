-- ===== src/Bitmap/Scan/Run.antt =====
-- The third loop of `bitmap_scan`, which counts clear bits in a row.
use tinykernel.Base.{
  ℕ, zero, suc, ◌+◌, ◌-◌, ◌^◌, ◌<◌, ◌≤◌, ◌≡◌, ◌≢◌, inl, inr, true, false, Option, none, some, arith,
  ◌==◌, Bool-cases, u32, dec_lt, ==→eq,
}
use tinykernel.Bitmap.{Bitmap, bitmap_scan_test, scan_run}

-- The bits from `i` up to `i + cnt` are clear.
abbrev pub FreeRun : Bitmap → ℕ → ℕ → Type 0
FreeRun b i cnt = (j : ℕ) → i ≤ j → j < i + cnt → bitmap_scan_test b j ≡ false

-- No run of `cnt` clear bits starts below `q`.
abbrev pub NoRunBelow : Bitmap → ℕ → ℕ → Type 0
NoRunBelow b cnt q = (i : ℕ) → i < q → ¬ FreeRun b i cnt

-- The outcome of a first-fit search for `cnt` clear bits among the first `limit` bits.
abbrev pub FirstFit : Bitmap → ℕ → ℕ → Option ℕ → Type 0
FirstFit b cnt limit none = (i : ℕ) → i + cnt ≤ limit → ¬ FreeRun b i cnt
FirstFit b cnt limit (some r) = FreeRun b r cnt × NoRunBelow b cnt r × (r + cnt ≤ limit)

-- The state of the loop: the `count` bits before `next_bit` are clear, and no run starts before them.
pub record Counting (b : Bitmap) (cnt next_bit count : ℕ) : Type 0 where
  pub less : count < cnt
  pub fits : count ≤ next_bit
  pub run : FreeRun b (next_bit - count) count
  pub none_before : NoRunBelow b cnt (next_bit - count)

module _ (b : Bitmap) (cnt : ℕ) where
  -- A set bit in reach of the count ends every run that could start up to it.
  none_before_set :
      (p c : ℕ) → Counting b cnt p c → bitmap_scan_test b p ≡ true → NoRunBelow b cnt (p + 1)
  none_before_set p c s set i lt run = elim (dec_lt i (p - c)) [
    | yes before ↦ s.none_before i before run
    | no after ↦ cc (run p (omega arith) (omega arith))
  ]

  extended :
      (p c : ℕ) → Counting b cnt p c → bitmap_scan_test b p ≡ false → FreeRun b (p - c) (c + 1)
  extended p c s clear j above below = elim (dec_lt j p) [
    | yes lt ↦ s.run j above (omega arith)
    | no ge ↦ let e : j ≡ p = omega arith in rw e clear
  ]

  -- The step for a clear bit: the run is complete, or the count goes on.
  completed :
      (p c : ℕ) (limit : ℕ)
      → Counting b cnt p c
      → p < limit
      → c + 1 ≡ cnt
      → bitmap_scan_test b p ≡ false
      → FirstFit b cnt limit (some (p - c))
  completed p c limit s lt e clear = (
    (let e' : cnt ≡ c + 1 = omega arith in rw e' (extended p c s clear)),
    s.none_before,
    omega arith,
  )

  counted :
      (p c : ℕ)
      → Counting b cnt p c
      → c + 1 ≢ cnt
      → bitmap_scan_test b p ≡ false
      → Counting b cnt (p + 1) (c + 1)
  counted p c s ne clear =
      let e : p + 1 - (c + 1) ≡ p - c = omega arith in
      record {
        less = omega arith;
        fits = omega arith;
        run = rw e (extended p c s clear);
        none_before = rw e s.none_before;
      }

  reset : (p c : ℕ) → Counting b cnt p c → bitmap_scan_test b p ≡ true → Counting b cnt (p + 1) 0
  reset p c s set =
      let e : p + 1 - 0 ≡ p + 1 = omega arith in
      record {
        less = omega arith;
        fits = omega arith;
        run = λ j above below. absurd (omega arith);
        none_before = rw e (none_before_set p c s set);
      }

  pub scan_run-FirstFit :
      (n p c limit : ℕ)
      → p + n ≡ limit
      → limit + 2 ≤ 2 ^ 31
      → cnt < 2 ^ 32
      → Counting b cnt p c
      → FirstFit b cnt limit (scan_run b cnt n p c)
  unfolding scan_run
  scan_run-FirstFit zero p c limit e small ok s = λ i le run. s.none_before i (omega arith) run
  scan_run-FirstFit (suc n) p c limit e small ok s = elim (Bool-cases (bitmap_scan_test b p)) [
    | inl set ↦
        let positive : (0 == cnt) ≡ false = ground arith in
        rw (set, positive, next)
          (scan_run-FirstFit n (p + 1) 0 limit (omega arith) small ok (reset p c s set))
    | inr clear ↦ elim (Bool-cases (c + 1 == cnt)) [
      | inl full ↦
          let c_full : c + 1 ≡ cnt = ==→eq _ _ full in
          let start : u32 (p + 2 ^ 32 - cnt + 1) ≡ p - c = omega arith in
          rw (clear, count, full, start) (completed p c limit s (omega arith) c_full clear)
      | inr more ↦
          rw (clear, count, more, next)
            (scan_run-FirstFit n (p + 1) (c + 1) limit (omega arith) small ok
              (counted p c s (ground arith) clear))
    ]
  ]
    where
      next : u32 (p + 1) ≡ p + 1
      next = omega arith

      count : u32 (c + 1) ≡ c + 1
      count = omega arith
