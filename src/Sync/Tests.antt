-- ===== src/Sync/Tests.antt =====
-- A run in which two threads contend for a lock.
use tinykernel.Base.{ℕ, ◌≡◌, refl, true, arith, ok, panic, Outcome}
use tinykernel.Interrupt.{intr_enable, intr_get_status, intr_disable, intr_set_status}
use tinykernel.Thread.{
  intr_timer_handler, count_tick, switch_away, schedule, requeue, queue_last, pick_next, dispatch,
  switch_to, thread_block, thread_unblock, wake, queue_first,
}
use tinykernel.Thread.Pcb.{task_ready}
use tinykernel.Thread.Invariant.{status_of}
use tinykernel.Thread.Frame.{rest}
use tinykernel.Thread.Example.{busy, busy-IsSound}
use tinykernel.Sync.{
  lock_init, sema_init, outside, is_holder, System, lock_acquire, take_lock, lock_release, sema_up,
  sema_down, sema_turn, enqueue, pass, hold, let_go, wake_first, give,
}
use tinykernel.Sync.Invariant.{is_inside, is_waiting, is_holding}
use tinykernel.Sync.Steps.{run, first, take, clock, release, up, Reachable, start, step, IsNew}
use tinykernel.Sync.Exclusion.{Reachable-excludes, Reachable-succeeds, Reachable-wakes}

abbrev new_lock : System
new_lock = record { lock = lock_init; kernel = busy; place = λ t. outside }

new_lock-IsNew : IsNew new_lock
new_lock-IsNew = record { lock = refl; place = λ t. refl; sound = busy-IsSound }

abbrev result : Outcome System → System
result (ok s) = s
result panic = new_lock

-- Thread 5 takes the lock, the clock gives the processor to 6, and 6 waits for the lock.
abbrev acquired : System
acquired = result (lock_acquire new_lock)

abbrev held : System
held = result (take_lock acquired)

abbrev preempted : System
preempted = result (run intr_timer_handler held)

abbrev contended : System
contended = result (lock_acquire preempted)

-- Thread 5 releases the lock, which wakes 6.
abbrev released : System
released = result (lock_release contended)

abbrev handed_over : System
handed_over = result (sema_up released)

to_held : Reachable new_lock held
unfolding lock_init sema_init lock_acquire sema_down sema_turn pass take_lock hold intr_disable
to_held = step (step start (first refl (λ e. ground arith)) refl) (take refl) refl

to_handed_over : Reachable new_lock handed_over
unfolding lock_init sema_init lock_acquire sema_down sema_turn enqueue pass take_lock hold
    lock_release let_go sema_up wake_first give intr_disable intr_enable intr_set_status
    intr_get_status intr_timer_handler count_tick switch_away schedule requeue queue_last pick_next
    dispatch switch_to thread_block thread_unblock wake queue_first
to_handed_over =
    let to_preempted = step to_held (clock refl refl) refl in
    let to_contended = step to_preempted (first refl (λ e. ground arith)) refl in
    let to_released = step to_contended (release refl) refl in step to_released (up refl) refl

Reachable-excludes_example :
    ((t u : ℕ) → is_inside (held.place t) ≡ true → is_inside (held.place u) ≡ true → t ≡ u)
    × ((t : ℕ) → is_holding (held.place t) ≡ is_holder held.lock.holder t)
unfolding lock_init sema_init lock_acquire sema_down sema_turn pass take_lock hold intr_disable
Reachable-excludes_example = Reachable-excludes new_lock held new_lock-IsNew to_held

Reachable-succeeds_example : (s : System) × (lock_release held ≡ ok s) × Reachable new_lock s
unfolding lock_init sema_init lock_acquire sema_down sema_turn pass take_lock hold intr_disable
Reachable-succeeds_example = Reachable-succeeds new_lock held new_lock-IsNew to_held (release refl)

Reachable-wakes_example :
    (u : ℕ) × (is_waiting (handed_over.place u) ≡ true)
    × (rest (status_of handed_over.kernel u) ≡ task_ready)
unfolding lock_init sema_init lock_acquire sema_down sema_turn enqueue pass take_lock hold
    lock_release let_go sema_up wake_first give intr_disable intr_enable intr_set_status
    intr_get_status intr_timer_handler count_tick switch_away schedule requeue queue_last pick_next
    dispatch switch_to thread_block thread_unblock wake queue_first
Reachable-wakes_example =
    Reachable-wakes new_lock handed_over new_lock-IsNew to_handed_over 6 (λ u. ground arith) refl
