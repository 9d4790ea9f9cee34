-- ===== src/WaitExit/Waiting.antt =====
-- A round of `sys_wait` of userprog/wait_exit.c.
use tinykernel.Base.{
  ℕ, ◌≡◌, ◌≢◌, ◌⊎◌, inl, inr, refl, ap, ◌∙◌, Bool, true, false, ◌&&◌, Option, none, some, mem,
  arith, Outcome, ok, ◌>>=◌,
}
use tinykernel.KernelList.Search.{traverse}
use tinykernel.Thread.{Kernel, set_status, thread_block}
use tinykernel.Thread.Pcb.{
  TaskStatus, task_running, task_ready, task_blocked, task_waiting, task_hanging, task_died,
}
use tinykernel.Thread.Frame.{rest}
use tinykernel.Thread.Invariant.{status_of, IsSound}
use tinykernel.Thread.Operations.{thread_block-Moved}
use tinykernel.WaitExit.{
  is_child, is_hanging, find_child, find_hanging_child, Waited, ends, no_child, waits, sys_wait,
}
use tinykernel.WaitExit.Children.{First, traverse-First}

-- The thread is a child of the process, and has called `sys_exit`.
abbrev pub is_over : ℕ → Kernel → ℕ → Bool
is_over pid k t = is_child pid (k.task t) && is_hanging (k.task t).status

rest-waiting : (s : TaskStatus) → rest s ≡ task_waiting → s ≡ task_waiting
rest-waiting task_waiting e = refl
rest-waiting task_running e = absurd (cc e)
rest-waiting task_ready e = absurd (cc e)
rest-waiting task_blocked e = absurd (cc e)
rest-waiting task_hanging e = absurd (cc e)
rest-waiting task_died e = absurd (cc e)

-- The current process waits in a sound scheduler, and apart from the idle thread no other thread has fallen asleep or woken.
pub record Waiting (k : Kernel) (r : Outcome Waited) : Type 0 where
  pub k' : Kernel
  pub done : r ≡ ok (waits k')
  pub sound : IsSound k'
  pub asleep : k.current ≢ k.idle → status_of k' k.current ≡ task_waiting
  pub others : (t : ℕ) → t ≢ k.current → t ≢ k.idle → rest (status_of k' t) ≡ rest (status_of k t)

blocked-Waiting :
    (k : Kernel) → IsSound k → Waiting k (thread_block task_waiting k >>= (λ k'. ok (waits k')))
blocked-Waiting k v =
    let m = thread_block-Moved k v task_waiting refl in
    record {
      k' = m.after;
      done = rw m.done refl;
      sound = m.sound;
      asleep = λ busy.
          rest-waiting (status_of m.after k.current)
            (m.frame.keeps k.current busy ∙ ap rest (here k));
      others = λ t other busy. m.frame.keeps t busy ∙ ap rest (there k t other);
    }
  where
    here : (k : Kernel) → status_of (set_status k.current task_waiting k) k.current ≡ task_waiting
    here k = ground arith

    there :
        (k : Kernel) (t : ℕ)
        → t ≢ k.current
        → status_of (set_status k.current task_waiting k) t ≡ status_of k t
    there k t other = ground (arith, other)

-- What a round leads to.
abbrev pub Waits : Kernel → Outcome Waited → Type 0
Waits k r =
    let pid = (k.task k.current).pid in
    ((c : ℕ) × (mem c k.all ≡ true)
      × (is_over pid k c ≡ true)
      × (r ≡ ok (ends c (k.task c).pid (k.task c).exit_status)))
    ⊎ (((t : ℕ) → mem t k.all ≡ true → is_over pid k t ≡ false)
        × (((c : ℕ) × (mem c k.all ≡ true) × (is_child pid (k.task c) ≡ true) × Waiting k r)
            ⊎ (((t : ℕ) → mem t k.all ≡ true → is_child pid (k.task t) ≡ false)
                × (r ≡ ok no_child))))

-- A round of `sys_wait` on a sound scheduler. If a child of the current process hangs, one that does is handed to `thread_exit`, and its pid and exit status are what is returned; if children are there and none hangs, the process waits in the status TASK_WAITING, unless it is the idle thread, and another thread goes on, while no other thread but the idle one falls asleep or wakes; without children the call returns -1.
pub sys_wait-Waits : (k : Kernel) → IsSound k → Waits k (sys_wait k)
unfolding sys_wait find_child find_hanging_child
sys_wait-Waits k v =
    let pid = (k.task k.current).pid in
    go (traverse (find_hanging_child pid) k.all k).0
      (traverse-First (is_over pid k) (find_hanging_child pid) k (λ t. refl) k.all)
  where
    children :
        (o : Option ℕ)
        → First (λ t. is_child (k.task k.current).pid (k.task t)) k.all o
        → let r : Outcome Waited = elim o as (λ (x : Option ℕ). Outcome Waited) [
          | none ↦ ok no_child
          | some child ↦ thread_block task_waiting k >>= (λ k'. ok (waits k'))
        ] in
          (((c : ℕ) × (mem c k.all ≡ true)
              × (is_child (k.task k.current).pid (k.task c) ≡ true)
              × Waiting k r)
            ⊎ (((t : ℕ) → mem t k.all ≡ true → is_child (k.task k.current).pid (k.task t) ≡ false)
                × (r ≡ ok no_child)))
    children none nobody = inr (nobody, refl)
    children (some c) (inside, child) = inl (c, inside, child, blocked-Waiting k v)

    go :
        (o : Option ℕ)
        → First (is_over (k.task k.current).pid k) k.all o
        → Waits k (elim o as (λ (x : Option ℕ). Outcome Waited) [
          | some child ↦ ok (ends child (k.task child).pid (k.task child).exit_status)
          | none ↦
              elim (traverse (find_child (k.task k.current).pid) k.all k).0
                as (λ (x : Option ℕ). Outcome Waited) [
                  | none ↦ ok no_child
                  | some child ↦ thread_block task_waiting k >>= (λ k'. ok (waits k'))
                ]
        ])
    go (some c) (inside, over) = inl (c, inside, over, refl)
    go none nobody = inr (
      nobody,
      children (traverse (find_child (k.task k.current).pid) k.all k).0 (
          traverse-First (λ t. is_child (k.task k.current).pid (k.task t))
            (find_child (k.task k.current).pid) k (λ t. refl) k.all),
    )
