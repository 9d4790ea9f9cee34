-- ===== src/Thread/Pid.antt =====
-- The pool of process ids in thread/thread.c: `pid_pool_init`, `allocate_pid`, `release_pid`. Each
-- runs between `lock_acquire` and `lock_release` of the pool's lock, so alone (Sync).
use tinykernel.Base.{
  ℕ, ◌+◌, ◌-◌, ◌*◌, ◌^◌, ◌<◌, ◌≤◌, ◌≡◌, refl, ◌⊎◌, inl, inr, Bool, true, false, none, some, arith,
  ◌∙◌, ◌==◌, if◌then◌else◌, Outcome, ok, panic, ◌>>=◌, u32, lt→ltb,
}
use tinykernel.Bitmap.{Bitmap, bitmap_init, bitmap_scan_test, bitmap_scan, bitmap_set}
use tinykernel.Bitmap.Access.{
  HasBytes, bitmap_set-Wrote, bitmap_init-test, bitmap_init-HasBytes, len-bitmap_init,
}
use tinykernel.Bitmap.Scan.First.{bitmap_scan_one}

-- `struct pid_pool` without its lock.
pub record PidPool : Type 0 where
  pub pid_bitmap : Bitmap
  pub pid_start : ℕ

-- `bits` is the memory from `pid_bitmap_bits` on, which is statically zero.
pub pid_pool_init : (ℕ → ℕ) → PidPool
pid_pool_init bits = record {
  pid_bitmap = bitmap_init (record { btmp_bytes_len = 128; bits = bits });
  pid_start = 1;
}

-- A failure of `bitmap_scan` is not looked at: -1 goes on to `bitmap_set` as an index.
pub allocate_pid : PidPool → Outcome (ℕ × PidPool)
allocate_pid pool = do
  found ← bitmap_scan pool.pid_bitmap 1
  let bit_idx : ℕ = elim found [ none ↦ 2 ^ 32 - 1 | some i ↦ i ]
  b ← bitmap_set pool.pid_bitmap bit_idx 1
  ok (u32 (bit_idx + pool.pid_start), record pool { pid_bitmap = b })

pub release_pid : ℕ → PidPool → Outcome PidPool
release_pid pid pool = do
  let bit_idx : ℕ = u32 (pid + 2 ^ 32 - pool.pid_start)
  b ← bitmap_set pool.pid_bitmap bit_idx 0
  ok (record pool { pid_bitmap = b })

-- The ids are 1 to 1024.
pub record IsPidPool (pool : PidPool) : Type 0 where
  pub bytes : HasBytes pool.pid_bitmap
  pub len : pool.pid_bitmap.btmp_bytes_len ≡ 128
  pub start : pool.pid_start ≡ 1

abbrev pub in_use : PidPool → ℕ → Bool
in_use pool pid = bitmap_scan_test pool.pid_bitmap (pid - 1)

-- What a call that hands out `pid` does.
pub record Allocated (pool : PidPool) (pid : ℕ) (pool' : PidPool) : Type 0 where
  pub in_range : (1 ≤ pid) × (pid ≤ 1024)
  pub was_free : in_use pool pid ≡ false
  pub lowest : (q : ℕ) → 1 ≤ q → q < pid → in_use pool q ≡ true
  pub now_used : (q : ℕ) → 1 ≤ q → in_use pool' q ≡ (if pid == q then true else in_use pool q)
  pub still_pool : IsPidPool pool'

module _ (pool : PidPool) (v : IsPidPool pool) where
  -- `allocate_pid` hands out the lowest id that is not in use and marks it, and no other; if all
  -- 1024 ids are in use, the kernel stops in an `ASSERT`.
  pub allocate_pid-Allocated :
      (((q : ℕ) → 1 ≤ q → q ≤ 1024 → in_use pool q ≡ true) × (allocate_pid pool ≡ panic))
      ⊎ ((pid : ℕ) × (pool' : PidPool) × (allocate_pid pool ≡ ok (pid, pool'))
          × Allocated pool pid pool')
  unfolding allocate_pid
  allocate_pid-Allocated = elim (bitmap_scan_one pool.pid_bitmap v.bytes (omega arith)) [
    | inl (all, stops) ↦ inl ((λ q lo hi. all (q - 1) (omega arith)), rw stops)
    | inr (s, f, finds) ↦
        let (b, sets, w) = bitmap_set-Wrote pool.pid_bitmap s v.bytes 1 (omega arith) in
        let number : u32 (s + pool.pid_start) ≡ s + 1 = omega (arith, f.in_range) in
        let back : s + 1 - 1 ≡ s = omega arith in
        inr (
          s + 1,
          record pool { pid_bitmap = b },
          rw (finds, sets, number),
          record {
            in_range = omega (arith, f.in_range);
            was_free = rw back f.clear;
            lowest = λ q lo lt. f.set_before (q - 1) (omega arith);
            now_used = λ q lo. w.test (q - 1) ∙ ground arith;
            still_pool = record { bytes = w.bytes; len = w.same_len ∙ v.len; start = v.start };
          },
        )
  ]

  -- `release_pid` of an id from the pool makes it free again, and no other.
  pub release_pid-frees :
      (pid : ℕ)
      → 1 ≤ pid
      → pid ≤ 1024
      → (pool' : PidPool) × (release_pid pid pool ≡ ok pool')
        × ((q : ℕ) → 1 ≤ q → in_use pool' q ≡ (if pid == q then false else in_use pool q))
        × IsPidPool pool'
  unfolding release_pid
  release_pid-frees pid lo hi =
      let (b, sets, w) = bitmap_set-Wrote pool.pid_bitmap (pid - 1) v.bytes 0 (omega arith) in
      let index : u32 (pid + 2 ^ 32 - pool.pid_start) ≡ pid - 1 = omega arith in
      (
        record pool { pid_bitmap = b },
        rw (index, sets),
        (λ q above. w.test (q - 1) ∙ ground arith),
        record { bytes = w.bytes; len = w.same_len ∙ v.len; start = v.start },
      )

-- A new pool has no id in use, whatever the array held.
pub pid_pool_init-empty :
    (bits : ℕ → ℕ)
    → ((i : ℕ) → bits i < 256)
    → IsPidPool (pid_pool_init bits)
      × ((q : ℕ) → 1 ≤ q → q ≤ 1024 → in_use (pid_pool_init bits) q ≡ false)
unfolding pid_pool_init
pid_pool_init-empty bits small = (
  record { bytes = bitmap_init-HasBytes _ small; len = len-bitmap_init _; start = refl },
  λ q lo hi.
      bitmap_init-test (record { btmp_bytes_len = 128; bits = bits }) (q - 1)
      ∙ rw (lt→ltb (q - 1) (8 * 128) (omega arith)),
)
