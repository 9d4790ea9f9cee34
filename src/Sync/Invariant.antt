-- ===== src/Sync/Invariant.antt =====
-- The invariant of a lock among the threads that use it.
use tinykernel.Base.{
  ℕ, ◌≤◌, ◌≡◌, ◌≢◌, Outcome, ok, Bool, true, false, List, [], none, arith, mem, Distinct,
}
use tinykernel.Thread.{Kernel}
use tinykernel.Thread.Pcb.{task_ready, task_blocked}
use tinykernel.Thread.Invariant.{status_of, IsSound}
use tinykernel.Thread.Frame.{rest, Frame}
use tinykernel.Sync.{Lock, Place, outside, waiting, taking, holding, leaving, System, is_holder}

-- The thread has come through `sema_down` and not through `sema_up` yet.
abbrev pub is_inside : Place → Bool
is_inside taking = true
is_inside holding = true
is_inside leaving = true
is_inside _ = false

abbrev pub is_waiting : Place → Bool
is_waiting (waiting old_status) = true
is_waiting _ = false

abbrev pub is_holding : Place → Bool
is_holding holding = true
is_holding _ = false

-- The lock against the places of the threads.
pub record Guards (lock : Lock) (place : ℕ → Place) : Type 0 where
  pub binary : lock.semaphore.value ≤ 1
  pub exclusive : (t u : ℕ) → is_inside (place t) ≡ true → is_inside (place u) ≡ true → t ≡ u
  pub closed : (t : ℕ) → is_inside (place t) ≡ true → lock.semaphore.value ≡ 0
  pub owned : lock.semaphore.value ≡ 0 → (t : ℕ) × (is_inside (place t) ≡ true)
  pub holds : (t : ℕ) → is_holding (place t) ≡ is_holder lock.holder t
  pub repeated : (t : ℕ) → is_holder lock.holder t ≡ true → 1 ≤ lock.holder_repeat_nr
  pub unheld : lock.holder ≡ none → lock.holder_repeat_nr ≡ 0

-- The waiters against the scheduler. A thread that waits is asleep while it is in the list, and can
-- run once it is not; when the semaphore is up and threads wait, one of them can run.
pub record Queues (waiters : List ℕ) (value : ℕ) (place : ℕ → Place) (k : Kernel) : Type 0 where
  pub distinct : Distinct waiters
  pub in_place : (t : ℕ) → mem t waiters ≡ true → is_waiting (place t) ≡ true
  pub asleep : (t : ℕ) → mem t waiters ≡ true → rest (status_of k t) ≡ task_blocked
  pub known : (t : ℕ) → mem t waiters ≡ true → mem t k.all ≡ true
  pub woken :
      (t : ℕ)
      → is_waiting (place t) ≡ true
      → mem t waiters ≡ false
      → rest (status_of k t) ≡ task_ready
  pub no_lost_wakeup :
      value ≢ 0 → waiters ≢ [] → (t : ℕ) × (is_waiting (place t) ≡ true) × (mem t waiters ≡ false)
  pub idle_outside : place k.idle ≡ outside

pub record IsLocked (s : System) : Type 0 where
  pub sound : IsSound s.kernel
  pub guards : Guards s.lock s.place
  pub queues : Queues s.lock.semaphore.waiters s.lock.semaphore.value s.place s.kernel

-- An operation that succeeds and keeps the invariant.
pub record Keeps (r : Outcome System) : Type 0 where
  pub after : System
  pub done : r ≡ ok after
  pub still : IsLocked after

-- The scheduler may do whatever puts no thread to sleep or wakes one.
pub Queues-Frame :
    {waiters : List ℕ} {value : ℕ} {place : ℕ → Place} {k g : Kernel}
    → Frame k g
    → Queues waiters value place k
    → Queues waiters value place g
Queues-Frame {waiters} {value} {place} {k} {g} f q = record {
  distinct = q.distinct;
  in_place = q.in_place;
  asleep = λ t is. ground (arith, f.keeps t, q.asleep t, q.in_place t, q.idle_outside);
  known = λ t. ground (arith, q.known t, f.all);
  woken = λ t is out. ground (arith, f.keeps t, q.woken t, q.idle_outside);
  no_lost_wakeup = q.no_lost_wakeup;
  idle_outside = ground (arith, q.idle_outside, f.idle);
}
