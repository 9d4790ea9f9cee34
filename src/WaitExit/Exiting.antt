-- ===== src/WaitExit/Exiting.antt =====
-- The end of `sys_exit` of userprog/wait_exit.c on a sound scheduler.
use tinykernel.Base.{
  ℕ, ◌≡◌, ◌≢◌, inl, inr, refl, sym, ap, ◌∙◌, true, false, Option, none, some, ◌==◌, ==→eq, ==_refl,
  mem, if◌then◌else◌, arith, Bool-cases, Outcome, ok, panic, ◌>>=◌,
}
use tinykernel.KernelList.Search.{traverse}
use tinykernel.Thread.{Kernel, set_status, thread_block, thread_unblock, queue_first}
use tinykernel.Thread.Pcb.{
  TaskStatus, task_running, task_ready, task_blocked, task_waiting, task_hanging, task_died,
}
use tinykernel.Thread.Invariant.{status_of, IsSound}
use tinykernel.Thread.Frame.{rest, Moved}
use tinykernel.Thread.Operations.{thread_block-Moved, thread_unblock-IsSound}
use tinykernel.WaitExit.{is_waiting, pid_check, pid2thread, wake_parent, leave}
use tinykernel.WaitExit.Children.{First, traverse-First, traverse-First}

-- The parent has been woken, if it waited, and the scheduler is sound.
record Woken (ppid : ℕ) (k : Kernel) (r : Outcome Kernel) : Type 0 where
  after : Kernel
  done : r ≡ ok after
  sound : IsSound after
  current : after.current ≡ k.current
  idle : after.idle ≡ k.idle
  parent : ℕ
  known : mem parent k.all ≡ true
  pid : (k.task parent).pid ≡ ppid
  ready : status_of k parent ≡ task_waiting → status_of after parent ≡ task_ready

waiting_only : (s : TaskStatus) → is_waiting s ≡ true → s ≡ task_waiting
waiting_only task_waiting e = refl
waiting_only task_running e = absurd (cc e)
waiting_only task_ready e = absurd (cc e)
waiting_only task_blocked e = absurd (cc e)
waiting_only task_hanging e = absurd (cc e)
waiting_only task_died e = absurd (cc e)

clash : true ≢ false
clash e = cc e

wake_parent-Woken :
    (ppid p : ℕ) (k : Kernel)
    → IsSound k
    → mem p k.all ≡ true
    → (k.task p).pid ≡ ppid
    → Woken ppid k (wake_parent ppid k)
unfolding wake_parent pid2thread pid_check queue_first
wake_parent-Woken ppid p k v inside number =
    go (traverse (pid_check ppid) k.all k).0
      (traverse-First (λ t. (k.task t).pid == ppid) (pid_check ppid) k (λ t. refl) k.all)
  where
    go :
        (o : Option ℕ)
        → First (λ t. (k.task t).pid == ppid) k.all o
        → Woken ppid k (elim o as (λ (x : Option ℕ). Outcome Kernel) [
          | none ↦ panic
          | some parent ↦
              if is_waiting (k.task parent).status then thread_unblock parent k else ok k
        ])
    go none nobody = absurd (ground (arith, nobody p inside, number))
    go (some q) (known, found) = elim (Bool-cases (is_waiting (k.task q).status)) [
      | inr busy ↦ rw busy (record {
        after = k;
        done = refl;
        sound = v;
        current = refl;
        idle = refl;
        parent = q;
        known = known;
        pid = ==→eq (k.task q).pid ppid found;
        ready = λ e. absurd (clash (sym (ap is_waiting e) ∙ busy));
      })
      | inl waits ↦
          (let e = waiting_only (k.task q).status waits in
            let u = thread_unblock-IsSound k v q known (rw e refl) in
            rw waits (record {
              after = queue_first q k;
              done = u.0;
              sound = u.1;
              current = refl;
              idle = refl;
              parent = q;
              known = known;
              pid = ==→eq (k.task q).pid ppid found;
              ready = λ h. rw (status_of, ==_refl q) refl;
            }))
    ]

rest-hanging : (s : TaskStatus) → rest s ≡ task_hanging → s ≡ task_hanging
rest-hanging task_hanging e = refl
rest-hanging task_running e = absurd (cc e)
rest-hanging task_ready e = absurd (cc e)
rest-hanging task_blocked e = absurd (cc e)
rest-hanging task_waiting e = absurd (cc e)
rest-hanging task_died e = absurd (cc e)

status_of-set : (t u : ℕ) (s : TaskStatus) (g : Kernel) → t ≡ u → status_of (set_status t s g) u ≡ s
status_of-set t u s g e = ground (arith, e)

status_of-other :
    (t u : ℕ) (s : TaskStatus) (g : Kernel) → t ≢ u → status_of (set_status t s g) u ≡ status_of g u
status_of-other t u s g e = ground (arith, e)

-- What the end of `sys_exit` has done.
pub record Exited (ppid : ℕ) (k k' : Kernel) : Type 0 where
  pub sound : IsSound k'
  pub hanging : k.current ≢ k.idle → status_of k' k.current ≡ task_hanging
  pub parent : ℕ
  pub known : mem parent k.all ≡ true
  pub pid : (k.task parent).pid ≡ ppid
  pub woken :
      status_of k parent ≡ task_waiting → parent ≢ k.idle → rest (status_of k' parent) ≡ task_ready

module _ (ppid p : ℕ) (k : Kernel) (v : IsSound k) (has : (k.task k.current).parent_pid ≡ some ppid)
    (inside : mem p k.all ≡ true) (number : (k.task p).pid ≡ ppid) where
  woken : Woken ppid k (wake_parent ppid k)
  woken = wake_parent-Woken ppid p k v inside number

  hung :
      Moved
        (set_status woken.after.current task_hanging woken.after)
        (thread_block task_hanging woken.after)
  hung = thread_block-Moved woken.after woken.sound task_hanging refl

  steps : leave k ≡ (wake_parent ppid k >>= thread_block task_hanging)
  unfolding leave
  steps =
      ap
        (λ (o : Option ℕ). elim o as (λ (x : Option ℕ). Outcome Kernel) [
          | none ↦ panic
          | some q ↦ wake_parent q k >>= thread_block task_hanging
        ])
        has

  apart : task_running ≢ task_waiting
  apart e = cc e

  -- The end of `sys_exit`, behind the calls that give back what the process holds, on a sound scheduler and with the parent of the process among the threads: it does not stop the kernel, another thread goes on in a sound scheduler, the process hangs unless it is the idle thread, and the thread that was found as its parent can run if it waited, unless that is the idle thread.
  pub leave-Exited : (k' : Kernel) × (leave k ≡ ok k') × Exited ppid k k'
  leave-Exited =
      let w = woken in
      (
        hung.after,
        steps ∙ ap (λ (o : Outcome Kernel). o >>= thread_block task_hanging) w.done ∙ hung.done,
        record {
          sound = hung.sound;
          hanging = λ busy. rest-hanging (status_of hung.after k.current) (
              hung.frame.keeps k.current (λ e. busy (e ∙ w.idle))
              ∙ ap rest (status_of-set w.after.current k.current task_hanging w.after w.current));
          parent = w.parent;
          known = w.known;
          pid = w.pid;
          woken = λ waits busy.
              hung.frame.keeps w.parent (λ e. busy (e ∙ w.idle))
              ∙ ap rest (
                  status_of-other w.after.current w.parent task_hanging w.after
                    (λ e. apart (sym v.running ∙ ap (status_of k) (sym w.current ∙ e) ∙ waits)))
              ∙ ap rest (w.ready waits);
        },
      )
