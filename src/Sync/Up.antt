-- ===== src/Sync/Up.antt =====
-- `sema_up` neither stops the kernel nor loses a thread that waits.
use tinykernel.Base.{ℕ, ◌≡◌, refl, subst, true, List, [], ◌∷◌, arith, mem, Distinct, ok}
use tinykernel.Interrupt.{IntrStatus, intr_disable}
use tinykernel.Thread.{Kernel, leave_critical, queue_first}
use tinykernel.Thread.Invariant.{MayLeave, IsSound}
use tinykernel.Thread.Frame.{leave_critical-IsSound}
use tinykernel.Thread.Operations.{thread_unblock-IsSound}
use tinykernel.Sync.{leaving, System, current, give, wake_first, sema_up}
use tinykernel.Sync.Invariant.{Guards, Queues, IsLocked, Keeps, Queues-Frame}
use tinykernel.Sync.Down.{leave_critical-Frame}

abbrev masked : Kernel → Kernel
masked k = record k { intr = (intr_disable k.intr).1 }

masked-IsSound : (k : Kernel) → IsSound k → IsSound (masked k)
masked-IsSound k h = record { may_leave = again h.may_leave; running = h.running }
  where
    again : MayLeave k → MayLeave (masked k)
    again m = assumption

module _ (s : System) (l : IsLocked s) (last : s.place (current s) ≡ leaving) where
  down : s.lock.semaphore.value ≡ 0
  down = ground (arith, l.guards.closed (current s))

  give-Guards :
      (old : IntrStatus) (waiters : List ℕ) (k : Kernel)
      → Guards (give old waiters k s).lock (give old waiters k s).place
  unfolding give
  give-Guards old waiters k =
      let h = l.guards in
      record {
        binary = ground (arith, down);
        exclusive =
            λ t u. ground (arith, last, h.exclusive (current s) t, h.exclusive (current s) u);
        closed = λ t. ground (arith, last, h.exclusive (current s) t);
        owned = λ e. absurd (ground (arith, down));
        holds = λ t. ground (arith, h.holds t, last);
        repeated = λ t. ground (arith, h.repeated t);
        unheld = h.unheld;
      }

  -- What is left to show of the waiters once the first of them is awake.
  abbrev Left : List ℕ → Kernel → Type 0
  Left waiters k =
      (old : IntrStatus)
      → Queues waiters (give old waiters k s).lock.semaphore.value (give old waiters k s).place
          (leave_critical old k)

  give-none : s.lock.semaphore.waiters ≡ [] → Left [] (masked s.kernel)
  unfolding give
  give-none e old =
      let q = l.queues in
      Queues-Frame (leave_critical-Frame old (masked s.kernel)) (record {
        distinct = tt;
        in_place = λ t is. ground arith;
        asleep = λ t is. ground arith;
        known = λ t is. ground arith;
        woken = λ t is out. ground (arith, q.woken t, e);
        no_lost_wakeup = λ up some_left. absurd (some_left refl);
        idle_outside = ground (arith, q.idle_outside, last);
      })

  module _ (t : ℕ) (others : List ℕ) (e : s.lock.semaphore.waiters ≡ t ∷ others) where
    give_first : Left others (queue_first t (masked s.kernel))
    unfolding give queue_first
    give_first old =
        let q = l.queues in
        let first : mem t s.lock.semaphore.waiters ≡ true = ground (arith, e) in
        let d : Distinct (t ∷ others) = subst Distinct e q.distinct in
        Queues-Frame (leave_critical-Frame old (queue_first t (masked s.kernel))) (record {
          distinct = d.1;
          in_place = λ u. ground (arith, q.in_place u, e, last);
          asleep = λ u. ground (arith, q.asleep u, e, d.0);
          known = λ u. ground (arith, q.known u, e);
          woken = λ u is out. ground (arith, q.woken u, e, last);
          no_lost_wakeup = λ up some_left. (t, ground (arith, q.in_place t, first, last), d.0);
          idle_outside = ground (arith, q.idle_outside, last);
        })

  sema_up_with :
      (waiters : List ℕ) (k : Kernel)
      → wake_first s.lock.semaphore.waiters (masked s.kernel) ≡ ok (waiters, k)
      → IsSound k
      → Left waiters k
      → Keeps (sema_up s)
  unfolding sema_up give
  sema_up_with waiters k e h left =
      let old = (intr_disable s.kernel.intr).0 in
      record {
        after = give old waiters k s;
        done = rw (down, e);
        still = record {
          sound = leave_critical-IsSound old k h;
          guards = give-Guards old waiters k;
          queues = left old;
        };
      }

  wake-cases : (xs : List ℕ) → s.lock.semaphore.waiters ≡ xs → Keeps (sema_up s)
  unfolding wake_first
  wake-cases [] e =
      sema_up_with [] (masked s.kernel) (rw e) (masked-IsSound s.kernel l.sound) (give-none e)
  wake-cases (t ∷ others) e =
      let q = l.queues in
      let first : mem t s.lock.semaphore.waiters ≡ true = ground (arith, e) in
      let (wakes, h) =
        thread_unblock-IsSound (masked s.kernel) (masked-IsSound s.kernel l.sound) t
          (q.known t first) (ground (arith, q.asleep t first)) in
      sema_up_with others (queue_first t (masked s.kernel)) (rw (e, wakes)) h
        (give_first t others e)

  -- `sema_up`, called by the thread that is inside, succeeds and keeps the invariant of the lock.
  pub sema_up-Keeps : Keeps (sema_up s)
  sema_up-Keeps = wake-cases s.lock.semaphore.waiters refl
