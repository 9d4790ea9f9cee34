-- ===== src/Sync/Down.antt =====
-- `sema_down` neither stops the kernel nor breaks the invariant of the lock.
use tinykernel.Base.{
  ℕ, ◌≡◌, ◌≢◌, refl, inl, inr, false, [], ◌∷◌, arith, ◌==◌, mem, mem-append, Bool-cases,
}
use tinykernel.Interrupt.{IntrStatus, intr_disable}
use tinykernel.Thread.{Kernel, set_status, leave_critical}
use tinykernel.Thread.Pcb.{task_blocked}
use tinykernel.Thread.Invariant.{MayLeave, IsSound, Distinct-snoc}
use tinykernel.Thread.Frame.{Frame, leave_critical-IsSound}
use tinykernel.Thread.Operations.{thread_block-Moved}
use tinykernel.Sync.{System, current, enqueue, pass, sema_turn, sema_down}
use tinykernel.Sync.Invariant.{is_inside, Guards, Queues, IsLocked, Keeps, Queues-Frame}

pub leave_critical-Frame : (s : IntrStatus) (k : Kernel) → Frame k (leave_critical s k)
leave_critical-Frame s k = record { keeps = λ t out. refl; idle = refl; all = refl }

module _ (s : System) (l : IsLocked s) where
  -- The running thread is not on the list.
  pub current_off : mem (current s) s.lock.semaphore.waiters ≡ false
  current_off = ground (arith, l.queues.asleep (current s), l.sound.running)

  module _ (old : IntrStatus) (entering : is_inside (s.place (current s)) ≡ false)
      (busy : current s ≢ s.kernel.idle) where
    sleeping : Kernel
    sleeping = set_status (current s) task_blocked s.kernel

    enqueue-Queues :
        s.lock.semaphore.value ≡ 0
        → (g : Kernel) → Frame sleeping g
        → Queues
            (enqueue old g s).lock.semaphore.waiters
            (enqueue old g s).lock.semaphore.value
            (enqueue old g s).place
            g
    unfolding enqueue sleeping
    enqueue-Queues zero_now g f =
        let q = l.queues in
        let cur = current s in
        let snoc = λ (t : ℕ). mem-append t s.lock.semaphore.waiters (cur ∷ []) in
        Queues-Frame f (record {
          distinct = Distinct-snoc s.lock.semaphore.waiters cur q.distinct current_off;
          in_place = λ t. ground (arith, q.in_place t, snoc t);
          asleep = λ t. ground (arith, q.asleep t, snoc t);
          known = λ t. ground (arith, q.known t, snoc t, l.sound.may_leave.current_known);
          woken = λ t is out. ground (arith, q.woken t, snoc t);
          no_lost_wakeup = λ up. absurd (up zero_now);
          idle_outside = ground (arith, q.idle_outside);
        })

    enqueue-IsSound : (g : Kernel) → IsSound g → IsSound (enqueue old g s).kernel
    unfolding enqueue
    enqueue-IsSound g h = h

    pass-IsSound : IsSound (pass old s).kernel
    unfolding pass
    pass-IsSound = leave_critical-IsSound old s.kernel l.sound

    enqueue-Guards : (g : Kernel) → Guards (enqueue old g s).lock (enqueue old g s).place
    unfolding enqueue
    enqueue-Guards g =
        let h = l.guards in
        record {
          binary = h.binary;
          exclusive = λ t u. ground (arith, h.exclusive t u);
          closed = λ t. ground (arith, h.closed t);
          owned = λ e. let (t, is) = h.owned e in (t, ground (arith));
          holds = λ t. ground (arith, h.holds t);
          repeated = λ t. ground (arith, h.repeated t);
          unheld = h.unheld;
        }

    pass-Guards : s.lock.semaphore.value ≡ 1 → Guards (pass old s).lock (pass old s).place
    unfolding pass
    pass-Guards up =
        let h = l.guards in
        record {
          binary = ground arith;
          exclusive = λ t u. ground (arith, h.closed t, h.closed u);
          closed = λ t is. ground arith;
          owned = λ e. (current s, ground arith);
          holds = λ t. ground (arith, h.holds t);
          repeated = λ t. ground (arith, h.repeated t);
          unheld = h.unheld;
        }

    pass-Queues :
        s.lock.semaphore.value ≡ 1
        → Queues
            (pass old s).lock.semaphore.waiters
            (pass old s).lock.semaphore.value
            (pass old s).place
            (pass old s).kernel
    unfolding pass
    pass-Queues up =
        let q = l.queues in
        Queues-Frame (leave_critical-Frame old s.kernel) (record {
          distinct = q.distinct;
          in_place = λ t. ground (arith, q.in_place t, current_off);
          asleep = q.asleep;
          known = q.known;
          woken = λ t is out. ground (arith, q.woken t);
          no_lost_wakeup = λ still. absurd (ground arith);
          idle_outside = ground (arith, q.idle_outside);
        })

    pub sema_turn-Keeps : Keeps (sema_turn old s)
    unfolding sema_turn sleeping enqueue
    sema_turn-Keeps = elim (Bool-cases (s.lock.semaphore.value == 0)) [
      | inl down ↦
          let m = thread_block-Moved s.kernel l.sound task_blocked refl in
          record {
            after = enqueue old m.after s;
            done = rw (down, current_off, m.done);
            still = record {
              sound = enqueue-IsSound m.after m.sound;
              guards = enqueue-Guards m.after;
              queues = enqueue-Queues (ground arith) m.after m.frame;
            };
          }
      | inr up ↦
          let one : s.lock.semaphore.value ≡ 1 = ground (arith, l.guards.binary) in
          record {
            after = pass old s;
            done = rw (up, one);
            still = record {
              sound = pass-IsSound;
              guards = pass-Guards one;
              queues = pass-Queues one;
            };
          }
    ]

masked : System → System
masked s = record s { kernel = record s.kernel { intr = (intr_disable s.kernel.intr).1 } }

masked-IsLocked : (s : System) → IsLocked s → IsLocked (masked s)
unfolding masked
masked-IsLocked s l = record {
  sound = record { may_leave = again l.sound.may_leave; running = l.sound.running };
  guards = l.guards;
  queues = Queues-Frame (record { keeps = λ t out. refl; idle = refl; all = refl }) l.queues;
}
  where
    again : MayLeave s.kernel → MayLeave (masked s).kernel
    again m = assumption

-- `sema_down`, called by a thread that is not inside and is not the idle thread, comes through or
-- falls asleep; neither stops the kernel or breaks the invariant of the lock.
pub sema_down-Keeps :
    (s : System)
    → IsLocked s
    → is_inside (s.place (current s)) ≡ false
    → current s ≢ s.kernel.idle
    → Keeps (sema_down s)
unfolding sema_down masked
sema_down-Keeps s l entering busy =
    sema_turn-Keeps (masked s) (masked-IsLocked s l) (intr_disable s.kernel.intr).0 entering busy
