-- ===== src/Sync/Steps.antt =====
-- The runs of a system of threads that share a lock, and what holds in all of them.
use tinykernel.Base.{ℕ, ◌+◌, ◌<◌, ◌^◌, ◌≡◌, ◌≢◌, true, false, arith, mem, ok, Outcome, ◌>>=◌}
use tinykernel.Interrupt.{IntrStatus, intr_on}
use tinykernel.Thread.{
  Kernel, set_status, thread_block, thread_yield, thread_unblock, queue_first, intr_timer_handler,
}
use tinykernel.Thread.Pcb.{TaskStatus, can_wake}
use tinykernel.Thread.Invariant.{status_of, IsSound}
use tinykernel.Thread.Frame.{Moved}
use tinykernel.Thread.Operations.{
  thread_block-Moved, thread_unblock-IsSound, thread_yield-Moved, intr_timer_handler-Moved,
}
use tinykernel.Sync.{
  lock_init, outside, waiting, taking, holding, leaving, System, current, sema_turn, sema_up,
  lock_acquire, take_lock, lock_release,
}
use tinykernel.Sync.Invariant.{is_waiting, Queues, IsLocked, Keeps, Queues-Frame}
use tinykernel.Sync.Down.{sema_turn-Keeps}
use tinykernel.Sync.Up.{sema_up-Keeps}
use tinykernel.Sync.Owner.{
  lock_acquire_first-Keeps, lock_acquire_again-Keeps, take_lock-Keeps, lock_release-Keeps,
}

-- The same lock with the scheduler in another state.
abbrev pub run : (Kernel → Outcome Kernel) → System → Outcome System
run f s = f s.kernel >>= λ k. ok (record s { kernel = k })

-- What may happen next. The current thread goes on with `lock_acquire` or `lock_release` where it
-- stands in them; one that is in neither may also sleep, yield, or wake a thread that sleeps for
-- another reason than the lock; and the clock may interrupt any of them. The idle thread takes no
-- lock.
pub data Next (s : System) : Outcome System → Type 0 where
  first : s.place (current s) ≡ outside → current s ≢ s.kernel.idle → Next s (lock_acquire s)
  again :
      s.place (current s) ≡ holding → s.lock.holder_repeat_nr + 1 < 2 ^ 32 → Next s (lock_acquire s)
  turn : (old : IntrStatus) → s.place (current s) ≡ waiting old → Next s (sema_turn old s)
  take : s.place (current s) ≡ taking → Next s (take_lock s)
  release : s.place (current s) ≡ holding → Next s (lock_release s)
  up : s.place (current s) ≡ leaving → Next s (sema_up s)
  sleep :
      (stat : TaskStatus)
      → is_waiting (s.place (current s)) ≡ false
      → can_wake stat ≡ true
      → Next s (run (thread_block stat) s)
  yield : is_waiting (s.place (current s)) ≡ false → Next s (run thread_yield s)
  wake :
      (t : ℕ)
      → is_waiting (s.place t) ≡ false
      → mem t s.kernel.all ≡ true
      → can_wake (status_of s.kernel t) ≡ true
      → Next s (run (thread_unblock t) s)
  clock :
      s.kernel.intr ≡ intr_on
      → (s.kernel.task (current s)).stack_magic ≡ 0x19870916
      → Next s (run intr_timer_handler s)

module _ (s : System) (l : IsLocked s) where
  run-Keeps :
      (f : Kernel → Outcome Kernel) (k : Kernel)
      → Moved k (f s.kernel)
      → Queues s.lock.semaphore.waiters s.lock.semaphore.value s.place k
      → Keeps (run f s)
  run-Keeps f k m q = record {
    after = record s { kernel = m.after };
    done = rw m.done;
    still = record { sound = m.sound; guards = l.guards; queues = Queues-Frame m.frame q };
  }

  asleep-Queues :
      (stat : TaskStatus)
      → is_waiting (s.place (current s)) ≡ false
      → Queues s.lock.semaphore.waiters s.lock.semaphore.value s.place
          (set_status (current s) stat s.kernel)
  asleep-Queues stat off =
      let q = l.queues in
      record {
        distinct = q.distinct;
        in_place = q.in_place;
        asleep = λ t. ground (arith, q.asleep t, q.in_place t);
        known = q.known;
        woken = λ t. ground (arith, q.woken t);
        no_lost_wakeup = q.no_lost_wakeup;
        idle_outside = q.idle_outside;
      }

  awake-Queues :
      (t : ℕ)
      → is_waiting (s.place t) ≡ false
      → Queues s.lock.semaphore.waiters s.lock.semaphore.value s.place (queue_first t s.kernel)
  unfolding queue_first
  awake-Queues t off =
      let q = l.queues in
      record {
        distinct = q.distinct;
        in_place = q.in_place;
        asleep = λ u. ground (arith, q.asleep u, q.in_place u);
        known = q.known;
        woken = λ u. ground (arith, q.woken u);
        no_lost_wakeup = q.no_lost_wakeup;
        idle_outside = q.idle_outside;
      }

  wake-Keeps :
      (t : ℕ)
      → is_waiting (s.place t) ≡ false
      → mem t s.kernel.all ≡ true
      → can_wake (status_of s.kernel t) ≡ true
      → Keeps (run (thread_unblock t) s)
  wake-Keeps t off is wakes =
      let (done, h) = thread_unblock-IsSound s.kernel l.sound t is wakes in
      record {
        after = record s { kernel = queue_first t s.kernel };
        done = rw done;
        still = record { sound = h; guards = l.guards; queues = awake-Queues t off };
      }

-- Whatever happens next in a state in which the invariant of the lock holds, it does not stop the
-- kernel, and the invariant holds after it.
pub Next-Keeps : (s : System) {r : Outcome System} → IsLocked s → Next s r → Keeps r
Next-Keeps s l (first new busy) = lock_acquire_first-Keeps s l new busy
Next-Keeps s l (again mine small) = lock_acquire_again-Keeps s l mine small
Next-Keeps s l (turn old at) =
    sema_turn-Keeps s l old (ground arith) (λ e. ground (arith, l.queues.idle_outside))
Next-Keeps s l (take at) = take_lock-Keeps s l at
Next-Keeps s l (release at) = lock_release-Keeps s l at
Next-Keeps s l (up at) = sema_up-Keeps s l at
Next-Keeps s l (sleep stat off admitted) =
    run-Keeps s l (thread_block stat) _ (thread_block-Moved s.kernel l.sound stat admitted)
      (asleep-Queues s l stat off)
Next-Keeps s l (yield off) =
    run-Keeps s l thread_yield s.kernel (thread_yield-Moved s.kernel l.sound) l.queues
Next-Keeps s l (wake t off is wakes) = wake-Keeps s l t off is wakes
Next-Keeps s l (clock on magic) =
    run-Keeps s l intr_timer_handler s.kernel (intr_timer_handler-Moved s.kernel l.sound magic)
      l.queues

-- The states that can come from `s`.
pub data Reachable (s : System) : System → Type 0 where
  start : Reachable s s
  step : {f g : System} {r : Outcome System} → Reachable s f → Next f r → r ≡ ok g → Reachable s g

-- The lock is new, no thread uses it, and the scheduler is sound.
pub record IsNew (s : System) : Type 0 where
  pub lock : s.lock ≡ lock_init
  pub place : (t : ℕ) → s.place t ≡ outside
  pub sound : IsSound s.kernel
