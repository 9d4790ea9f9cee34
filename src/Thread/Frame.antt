-- ===== src/Thread/Frame.antt =====
-- What `schedule` and the operations that end in it leave alone: apart from the idle thread, a
-- thread sleeps after them if it slept before, and a thread that could run can run.
use tinykernel.Base.{
  ℕ, ◌≡◌, refl, ◌∙◌, sym, ◌≢◌, inl, inr, false, List, [], ◌∷◌, arith, mem, Bool-cases, update, ok,
  ok_injective, subst, ap, Outcome,
}
use tinykernel.Interrupt.{IntrStatus, intr_off}
use tinykernel.Thread.Pcb.{
  TaskStatus, task_running, task_ready, task_blocked, task_waiting, task_hanging, task_died,
  is_running,
}
use tinykernel.Thread.{
  Kernel, queue_last, queue_first, switch_to, pick_next, schedule, leave_critical, switch_away,
}
use tinykernel.Thread.Invariant.{status_of, MayLeave, IsSound, Vacant}
use tinykernel.Thread.Scheduling.{
  pick_next_ready, pick_next_idle, schedule_running, schedule_left, thread_unblock-ok,
  queue_last-Vacant, schedule-Succeeds, idle_sleeps, queue_first-Vacant,
}

-- A status, where it makes no difference whether the thread has the processor.
abbrev pub rest : TaskStatus → TaskStatus
rest task_running = task_ready
rest task_ready = task_ready
rest task_blocked = task_blocked
rest task_waiting = task_waiting
rest task_hanging = task_hanging
rest task_died = task_died

pub record Frame (k g : Kernel) : Type 0 where
  pub keeps : (t : ℕ) → t ≢ k.idle → rest (status_of g t) ≡ rest (status_of k t)
  pub idle : g.idle ≡ k.idle
  pub all : g.all ≡ k.all

pub Frame-trans : (k g h : Kernel) → Frame k g → Frame g h → Frame k h
Frame-trans k g h a b = record {
  keeps = λ t out. ground (arith, a.keeps t, b.keeps t, a.idle);
  idle = b.idle ∙ a.idle;
  all = b.all ∙ a.all;
}

switch_to-Frame :
    (k : Kernel) (next : ℕ) (others : List ℕ)
    → MayLeave k
    → k.ready ≡ next ∷ others
    → Frame k (switch_to next others k)
unfolding switch_to
switch_to-Frame k next others m e = record {
  keeps = λ t out. ground (arith, m.queued next);
  idle = refl;
  all = refl;
}

queue_first-Frame : (k : Kernel) → Frame k (queue_first k.idle k)
unfolding queue_first
queue_first-Frame k = record { keeps = λ t out. ground arith; idle = refl; all = refl }

queue_first-ready :
    (k : Kernel) (t : ℕ) (xs : List ℕ) → k.ready ≡ xs → (queue_first t k).ready ≡ t ∷ xs
unfolding queue_first
queue_first-ready k t xs e = ap (◌∷◌ t) e

queue_last-Frame : (k : Kernel) → status_of k k.current ≡ task_running → Frame k (queue_last k)
unfolding queue_last
queue_last-Frame k runs = record { keeps = λ t out. ground arith; idle = refl; all = refl }

pick_next-Frame :
    (k : Kernel) (xs : List ℕ)
    → k.ready ≡ xs
    → Vacant k
    → (g : Kernel) → pick_next k ≡ ok g
    → Frame k g
pick_next-Frame k [] e v g done =
    let m = v.may_leave in
    let woken : Kernel = queue_first k.idle k in
    let unblocks = thread_unblock-ok k k.idle m m.idle_known (idle_sleeps k v e) in
    let moved = ok_injective (sym (pick_next_idle k e unblocks) ∙ done) in
    let v' = queue_first-Vacant k k.idle v m.idle_known (idle_sleeps k v e) in
    subst (Frame k) moved (
      Frame-trans k woken _ (queue_first-Frame k)
        (switch_to-Frame woken k.idle [] v'.may_leave (queue_first-ready k k.idle [] e)))
pick_next-Frame k (x ∷ xs) e v g done =
    subst (Frame k) (ok_injective (sym (pick_next_ready k x xs e) ∙ done))
      (switch_to-Frame k x xs v.may_leave e)

schedule-Frame :
    (k : Kernel) → MayLeave k → k.intr ≡ intr_off → (g : Kernel) → schedule k ≡ ok g → Frame k g
schedule-Frame k m off g done = elim (Bool-cases (is_running (status_of k k.current))) [
  | inl runs ↦
      let runs' : status_of k k.current ≡ task_running = ground arith in
      let out : mem k.current k.ready ≡ false = ground (arith, m.queued k.current) in
      let last : Kernel = queue_last k in
      Frame-trans k last g (queue_last-Frame k runs') (
        pick_next-Frame last last.ready refl (queue_last-Vacant k m runs') g
          (sym (schedule_running k off runs' out) ∙ done))
  | inr left ↦
      let left' : status_of k k.current ≢ task_running = ground arith in
      let v : Vacant k = record { may_leave = m; vacant = λ t is. ground (arith, m.alone t) } in
      pick_next-Frame k k.ready refl v g (sym (schedule_left k off left') ∙ done)
]

pub leave_critical-IsSound :
    (s : IntrStatus) (k : Kernel) → IsSound k → IsSound (leave_critical s k)
leave_critical-IsSound s k h = record { may_leave = again h.may_leave; running = h.running }
  where
    again : MayLeave k → MayLeave (leave_critical s k)
    again m = assumption

-- A call that ends in `schedule` succeeds, and moves only the processor.
pub record Moved (k : Kernel) (r : Outcome Kernel) : Type 0 where
  pub after : Kernel
  pub done : r ≡ ok after
  pub sound : IsSound after
  pub frame : Frame k after

pub switch_away-Moved :
    (s : IntrStatus) (k : Kernel) → MayLeave k → k.intr ≡ intr_off → Moved k (switch_away s k)
unfolding switch_away
switch_away-Moved s k m off =
    let saved : Kernel = record k { resume = update k.resume k.current s } in
    let m' : MayLeave saved = assumption in
    let (g, e, h, _) = schedule-Succeeds saved m' off in
    let f = schedule-Frame saved m' off g e in
    record {
      after = leave_critical (g.resume g.current) g;
      done = rw e;
      sound = leave_critical-IsSound (g.resume g.current) g h;
      frame = record { keeps = f.keeps; idle = f.idle; all = f.all };
    }
