-- ===== src/Thread/Operations.antt =====
-- `thread_block`, `thread_unblock`, `thread_yield` and the clock interrupt keep the scheduler sound.
use tinykernel.Base.{
  ℕ, ◌≡◌, ◌++◌, refl, inl, inr, true, false, [], ◌∷◌, arith, ◌==◌, mem, mem-append, Bool-cases, ok,
}
use tinykernel.Interrupt.{intr_off, intr_on, intr_disable, critical_section}
use tinykernel.Thread.Pcb.{task_ready, TaskStatus, can_wake}
use tinykernel.Thread.{
  Kernel, queue_first, set_status, thread_block, thread_unblock, thread_yield, count_tick,
  spend_tick, intr_timer_handler,
}
use tinykernel.Thread.Invariant.{
  status_of, MayLeave, IsSound, SameSchedule, IsSound-same, Distinct-snoc,
}
use tinykernel.Thread.Frame.{Frame, Frame-trans, Moved, switch_away-Moved}
use tinykernel.Thread.Scheduling.{thread_unblock-ok, queue_first-MayLeave}

module _ (k : Kernel) (h : IsSound k) where
  -- The state in which `thread_block` gives the processor up.
  asleep : TaskStatus → Kernel
  asleep stat = set_status k.current stat (record k { intr = (intr_disable k.intr).1 })

  asleep-MayLeave : (stat : TaskStatus) → can_wake stat ≡ true → MayLeave (asleep stat)
  unfolding asleep
  asleep-MayLeave stat admitted =
      let m = h.may_leave in
      record {
        alone = λ t. ground (arith, m.alone t);
        queued = λ t. ground (arith, m.queued t);
        in_queue = λ t. ground (arith, m.in_queue t);
        distinct = m.distinct;
        known = m.known;
        current_known = m.current_known;
        idle_known = m.idle_known;
        idle_lives = ground (arith, m.idle_lives);
      }

  -- `thread_block` with one of the three statuses that its `ASSERT` admits hands the processor to
  -- another thread, and does not stop the kernel. The state that it leaves is sound, and only the
  -- current thread has fallen asleep.
  pub thread_block-Moved :
      (stat : TaskStatus)
      → can_wake stat ≡ true
      → Moved (set_status k.current stat k) (thread_block stat k)
  unfolding thread_block asleep
  thread_block-Moved stat admitted =
      let m =
        switch_away-Moved (intr_disable k.intr).0 (asleep stat) (asleep-MayLeave stat admitted)
          (critical_section k.intr k.intr).0 in
      record {
        after = m.after;
        done = rw admitted m.done;
        sound = m.sound;
        frame = record { keeps = m.frame.keeps; idle = m.frame.idle; all = m.frame.all };
      }

  -- `thread_unblock` of a known thread that sleeps puts it in front of the ready list, in the
  -- status TASK_READY, and the scheduler is sound after it; the current thread goes on.
  pub thread_unblock-IsSound :
      (t : ℕ)
      → mem t k.all ≡ true
      → can_wake (status_of k t) ≡ true
      → (thread_unblock t k ≡ ok (queue_first t k)) × IsSound (queue_first t k)
  unfolding queue_first
  thread_unblock-IsSound t is wakes = (
    thread_unblock-ok k t h.may_leave is wakes,
    record {
      may_leave = queue_first-MayLeave k h.may_leave t is wakes;
      running = ground (arith, h.running);
    },
  )

  current_out : mem k.current k.ready ≡ false
  current_out = ground (arith, h.may_leave.queued k.current, h.running)

  -- The state in which `thread_yield` gives the processor up.
  yielding : Kernel
  yielding =
      set_status k.current task_ready
        (record k { intr = (intr_disable k.intr).1; ready = k.ready ++ k.current ∷ [] })

  yielding-MayLeave : MayLeave yielding
  unfolding yielding
  yielding-MayLeave =
      let m = h.may_leave in
      record {
        alone = λ t. ground (arith, m.alone t);
        queued = λ t. ground (arith, m.queued t, mem-append t k.ready (k.current ∷ []));
        in_queue = λ t. ground (arith, m.in_queue t, mem-append t k.ready (k.current ∷ []));
        distinct = Distinct-snoc k.ready k.current m.distinct current_out;
        known =
            λ t. ground (arith, m.known t, m.current_known, mem-append t k.ready (k.current ∷ []));
        current_known = m.current_known;
        idle_known = m.idle_known;
        idle_lives = ground (arith, m.idle_lives);
      }

  yielding-Frame : Frame k yielding
  unfolding yielding
  yielding-Frame = record { keeps = λ t out. ground (arith, h.running); idle = refl; all = refl }

  -- `thread_yield` succeeds, leaves the scheduler sound, and puts no thread to sleep.
  pub thread_yield-Moved : Moved k (thread_yield k)
  unfolding thread_yield yielding
  thread_yield-Moved =
      let m =
        switch_away-Moved (intr_disable k.intr).0 yielding yielding-MayLeave
          (critical_section k.intr k.intr).0 in
      record {
        after = m.after;
        done = rw current_out m.done;
        sound = m.sound;
        frame = Frame-trans k yielding m.after yielding-Frame m.frame;
      }

  pub count_tick-IsSound : IsSound (count_tick k)
  unfolding count_tick
  count_tick-IsSound =
      let same : SameSchedule k (count_tick k) = record {
        status = λ t. ground arith;
        current = refl;
        ready = refl;
        all = refl;
        idle = refl;
      } in
      IsSound-same k (count_tick k) same h

  pub spend_tick-IsSound : IsSound (spend_tick k)
  unfolding spend_tick
  spend_tick-IsSound =
      let same : SameSchedule k (spend_tick k) = record {
        status = λ t. ground arith;
        current = refl;
        ready = refl;
        all = refl;
        idle = refl;
      } in
      IsSound-same k (spend_tick k) same h

pub intr-count_tick : (k : Kernel) → (count_tick k).intr ≡ intr_off
unfolding count_tick
intr-count_tick k = refl

count_tick-Frame : (k : Kernel) → Frame k (count_tick k)
unfolding count_tick
count_tick-Frame k = record { keeps = λ t out. ground arith; idle = refl; all = refl }

spend_tick-Frame : (k : Kernel) → Frame k (spend_tick k)
unfolding spend_tick
spend_tick-Frame k = record { keeps = λ t out. ground arith; idle = refl; all = refl }

-- A clock interrupt succeeds while the magic number behind the stack of the running thread is
-- intact. It leaves the scheduler sound and puts no thread to sleep.
pub intr_timer_handler-Moved :
    (k : Kernel)
    → IsSound k
    → (k.task k.current).stack_magic ≡ 0x19870916
    → Moved k (intr_timer_handler k)
unfolding intr_timer_handler
intr_timer_handler-Moved k h magic =
    let h' = count_tick-IsSound k h in
    let k1 = count_tick k in
    elim (Bool-cases ((k1.task k1.current).ticks == 0)) [
      | inl used_up ↦
          let m = switch_away-Moved intr_on k1 h'.may_leave (intr-count_tick k) in
          record {
            after = m.after;
            done = rw (magic, used_up) m.done;
            sound = m.sound;
            frame = Frame-trans k k1 m.after (count_tick-Frame k) m.frame;
          }
      | inr left ↦ record {
        after = spend_tick k1;
        done = rw (magic, left);
        sound = spend_tick-IsSound k1 h';
        frame = Frame-trans k k1 (spend_tick k1) (count_tick-Frame k) (spend_tick-Frame k1);
      }
    ]
