-- ===== src/Thread/Scheduling.antt =====
-- `schedule` finds the next thread without stopping the kernel, and keeps the invariant; so do the
-- operations that end in it.
use tinykernel.Base.{
  ℕ, ◌≡◌, refl, ◌≢◌, inl, inr, true, false, List, [], ◌∷◌, arith, mem, mem-append, Distinct,
  Bool-cases, ok, Outcome, subst, ap, ◌∙◌,
}
use tinykernel.Interrupt.{IntrStatus, intr_off, intr_disable, intr_get_status, critical_section}
use tinykernel.Thread.Pcb.{task_running, is_running, can_wake, is_ready}
use tinykernel.Thread.{
  Kernel, queue_last, queue_first, switch_to, wake, thread_unblock, requeue, dispatch, pick_next,
  schedule,
}
use tinykernel.Thread.Invariant.{status_of, MayLeave, IsSound, Vacant, Distinct-snoc}

module _ (k : Kernel) (m : MayLeave k) where
  pub queue_last-Vacant : status_of k k.current ≡ task_running → Vacant (queue_last k)
  unfolding queue_last
  queue_last-Vacant run = record {
    may_leave = record {
      alone = λ t. ground (arith, m.alone t);
      queued = λ t. ground (arith, m.queued t, mem-append t k.ready (k.current ∷ []));
      in_queue = λ t. ground (arith, m.in_queue t, mem-append t k.ready (k.current ∷ []));
      distinct = Distinct-snoc k.ready k.current m.distinct (ground (arith, m.queued k.current));
      known = λ t. ground (arith, m.known t, mem-append t k.ready (k.current ∷ []));
      current_known = m.current_known;
      idle_known = m.idle_known;
      idle_lives = ground (arith, m.idle_lives);
    };
    vacant = λ t is. ground (arith, m.alone t);
  }

  -- A thread that `thread_unblock` accepts.
  pub queue_first-MayLeave :
      (t : ℕ) → mem t k.all ≡ true → can_wake (status_of k t) ≡ true → MayLeave (queue_first t k)
  unfolding queue_first
  queue_first-MayLeave t is wakes = record {
    alone = λ u. ground (arith, m.alone u);
    queued = λ u. ground (arith, m.queued u);
    in_queue = λ u. ground (arith, m.in_queue u);
    distinct = (ground (arith, m.queued t), m.distinct);
    known = λ u. ground (arith, m.known u);
    current_known = m.current_known;
    idle_known = m.idle_known;
    idle_lives = ground (arith, m.idle_lives);
  }

switch_to-IsSound :
    (k : Kernel) (next : ℕ) (rest : List ℕ)
    → Vacant k
    → k.ready ≡ next ∷ rest
    → IsSound (switch_to next rest k)
unfolding switch_to
switch_to-IsSound k next rest v e = record {
  may_leave = record {
    alone = λ t. ground (arith, v.vacant t);
    queued = λ t. ground (arith, v.may_leave.queued t, v.may_leave.distinct);
    in_queue = λ t. ground (arith, v.may_leave.in_queue t);
    distinct = (subst Distinct e v.may_leave.distinct).1;
    known = λ t. ground (arith, v.may_leave.known t);
    current_known = ground (arith, v.may_leave.known next);
    idle_known = v.may_leave.idle_known;
    idle_lives = ground (arith, v.may_leave.idle_lives);
  };
  running = ground arith;
}

-- `thread_unblock` of a thread that sleeps puts it in front of the ready list, and gives the
-- interrupt status back.
pub thread_unblock-ok :
    (k : Kernel) (t : ℕ)
    → MayLeave k
    → mem t k.all ≡ true
    → can_wake (status_of k t) ≡ true
    → thread_unblock t k ≡ ok (queue_first t k)
unfolding thread_unblock wake queue_first
thread_unblock-ok k t m is wakes =
    let out : mem t k.ready ≡ false = ground (arith, m.queued t) in
    let asleep : is_ready (status_of k t) ≡ false = ground arith in
    rw (wakes, asleep, out, (critical_section k.intr (intr_disable k.intr).1).1)

pub pick_next_ready :
    (k : Kernel) (x : ℕ) (xs : List ℕ) → k.ready ≡ x ∷ xs → pick_next k ≡ ok (switch_to x xs k)
unfolding pick_next dispatch
pick_next_ready k x xs e = ground arith

pub pick_next_idle :
    (k : Kernel)
    → k.ready ≡ []
    → thread_unblock k.idle k ≡ ok (queue_first k.idle k)
    → pick_next k ≡ ok (switch_to k.idle [] (queue_first k.idle k))
unfolding pick_next dispatch queue_first
pick_next_idle k e e' = ground arith

pub queue_first-Vacant :
    (k : Kernel) (t : ℕ)
    → Vacant k
    → mem t k.all ≡ true
    → can_wake (status_of k t) ≡ true
    → Vacant (queue_first t k)
unfolding queue_first
queue_first-Vacant k t v is wakes = record {
  may_leave = queue_first-MayLeave k v.may_leave t is wakes;
  vacant = λ u. ground (arith, v.vacant u);
}

-- A call of `schedule` or of an operation that ends in it succeeds, and leaves a sound state.
abbrev pub Succeeds : Outcome Kernel → IntrStatus → Type 0
Succeeds r flag = (k' : Kernel) × (r ≡ ok k') × IsSound k' × (k'.intr ≡ flag)

pub idle_sleeps : (k : Kernel) → Vacant k → k.ready ≡ [] → can_wake (status_of k k.idle) ≡ true
idle_sleeps k v e =
    let m = v.may_leave in
    ground (arith, v.vacant k.idle, m.idle_lives, m.in_queue k.idle, m.idle_known)

pick_next-Succeeds :
    (k : Kernel) (xs : List ℕ) → k.ready ≡ xs → Vacant k → Succeeds (pick_next k) k.intr
unfolding switch_to queue_first
pick_next-Succeeds k [] e v =
    let m = v.may_leave in
    let sleeps = idle_sleeps k v e in
    let v' = queue_first-Vacant k k.idle v m.idle_known sleeps in
    (
      switch_to k.idle [] (queue_first k.idle k),
      pick_next_idle k e (thread_unblock-ok k k.idle m m.idle_known sleeps),
      switch_to-IsSound (queue_first k.idle k) k.idle [] v' (ap (◌∷◌ k.idle) e),
      refl,
    )
pick_next-Succeeds k (x ∷ xs) e v =
    (switch_to x xs k, pick_next_ready k x xs e, switch_to-IsSound k x xs v e, refl)

pub schedule_running :
    (k : Kernel)
    → k.intr ≡ intr_off
    → status_of k k.current ≡ task_running
    → mem k.current k.ready ≡ false
    → schedule k ≡ pick_next (queue_last k)
unfolding schedule requeue intr_get_status
schedule_running k off runs out = ground arith

pub schedule_left :
    (k : Kernel)
    → k.intr ≡ intr_off
    → status_of k k.current ≢ task_running
    → schedule k ≡ pick_next k
unfolding schedule intr_get_status
schedule_left k off left = ground arith

intr-queue_last : (k : Kernel) → (queue_last k).intr ≡ k.intr
unfolding queue_last
intr-queue_last k = refl

-- `schedule`, called with interrupts off in a state that a thread may leave, does not stop the
-- kernel, not even where nothing is ready. The state that it leaves is sound, and interrupts are
-- still off.
pub schedule-Succeeds :
    (k : Kernel) → MayLeave k → k.intr ≡ intr_off → Succeeds (schedule k) intr_off
schedule-Succeeds k m off = elim (Bool-cases (is_running (status_of k k.current))) [
  | inl runs ↦
      let runs' : status_of k k.current ≡ task_running = ground arith in
      let out : mem k.current k.ready ≡ false = ground (arith, m.queued k.current) in
      let same : (queue_last k).intr ≡ intr_off = intr-queue_last k ∙ off in
      rw (schedule_running k off runs' out) (
        subst (Succeeds (pick_next (queue_last k))) same (
          pick_next-Succeeds (queue_last k) (queue_last k).ready refl
            (queue_last-Vacant k m runs')))
  | inr left ↦
      let left' : status_of k k.current ≢ task_running = ground arith in
      let v : Vacant k = record { may_leave = m; vacant = λ t is. ground (arith, m.alone t) } in
      rw (schedule_left k off left')
        (subst (Succeeds (pick_next k)) off (pick_next-Succeeds k k.ready refl v))
]
