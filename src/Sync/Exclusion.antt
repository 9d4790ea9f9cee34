-- ===== src/Sync/Exclusion.antt =====
-- What a lock promises in every run: one holder, no stop, and no thread that sleeps for ever while
-- the lock is free.
use tinykernel.Base.{
  ℕ, ◌≡◌, ◌≢◌, sym, ◌∙◌, subst, ap, inl, inr, true, false, [], arith, mem, ok, ok_injective,
  Outcome, Bool-cases,
}
use tinykernel.Thread.Pcb.{task_ready}
use tinykernel.Thread.Invariant.{status_of}
use tinykernel.Thread.Frame.{rest}
use tinykernel.Sync.{lock_init, sema_init, is_holder, System}
use tinykernel.Sync.Invariant.{is_inside, is_waiting, is_holding, IsLocked}
use tinykernel.Sync.Steps.{Next, Next-Keeps, Reachable, start, step, IsNew}

IsNew-IsLocked : (s : System) → IsNew s → IsLocked s
unfolding lock_init sema_init
IsNew-IsLocked s n =
    let l = n.lock in
    record {
      sound = n.sound;
      guards = record {
        binary = ground (arith, l);
        exclusive = λ t u. ground (arith, n.place t);
        closed = λ t. ground (arith, n.place t);
        owned = λ e. absurd (ground (arith, l));
        holds = λ t. ground (arith, n.place t, l);
        repeated = λ t is. absurd (ground (arith, l));
        unheld = λ e. ground (arith, l);
      };
      queues = record {
        distinct = rw l tt;
        in_place = λ t is. absurd (ground (arith, l));
        asleep = λ t is. absurd (ground (arith, l));
        known = λ t is. absurd (ground (arith, l));
        woken = λ t. ground (arith, n.place t);
        no_lost_wakeup = λ up some_left. absurd (some_left (ap (λ lock. lock.semaphore.waiters) l));
        idle_outside = n.place s.kernel.idle;
      };
    }

Reachable-IsLocked : {s g : System} → IsNew s → Reachable s g → IsLocked g
Reachable-IsLocked {s} n start = IsNew-IsLocked s n
Reachable-IsLocked n (step {f} before next done) =
    let kept = Next-Keeps f (Reachable-IsLocked n before) next in
    subst IsLocked (ok_injective (sym kept.done ∙ done)) kept.still

module _ (s g : System) (n : IsNew s) (run : Reachable s g) where
  -- Mutual exclusion: in every state that a new lock and a sound scheduler can come to, two threads
  -- that are between the end of the `sema_down` of `lock_acquire` and the end of the `sema_up` of
  -- `lock_release` are the same thread; and for every thread, wherever it stands, it is the `holder`
  -- exactly if it works under the lock.
  pub Reachable-excludes :
      ((t u : ℕ) → is_inside (g.place t) ≡ true → is_inside (g.place u) ≡ true → t ≡ u)
      × ((t : ℕ) → is_holding (g.place t) ≡ is_holder g.lock.holder t)
  Reachable-excludes = let h = (Reachable-IsLocked n run).guards in (h.exclusive, h.holds)

  -- In every state that a new lock and a sound scheduler can come to, a step of one of these kinds
  -- does not stop the kernel, and leads to such a state: the current thread, which is not the idle
  -- thread, calls `lock_acquire`; its holder calls it again with a `holder_repeat_nr` below
  -- 2 ^ 32 - 1; a thread goes on in `sema_down` or `lock_acquire`; the holder calls `lock_release`,
  -- or goes on with `sema_up`; a thread that does not wait for the lock calls `thread_block` with
  -- one of the statuses that its `ASSERT` admits, or `thread_yield`; a known thread that sleeps for
  -- another reason than the lock is woken; or, with interrupts on, the clock interrupts a thread
  -- whose `stack_magic` is intact.
  pub Reachable-succeeds :
      {r : Outcome System} → Next g r → (g' : System) × (r ≡ ok g') × Reachable s g'
  Reachable-succeeds next =
      let kept = Next-Keeps g (Reachable-IsLocked n run) next in
      (kept.after, kept.done, step run next kept.done)

  -- No lost wake-up: in every state that a new lock and a sound scheduler can come to, if no thread
  -- is between its `sema_down` and its `sema_up` and some thread waits in `sema_down`, then a thread
  -- that waits there is ready or running.
  pub Reachable-wakes :
      (t : ℕ)
      → ((u : ℕ) → is_inside (g.place u) ≡ false)
      → is_waiting (g.place t) ≡ true
      → (u : ℕ) × (is_waiting (g.place u) ≡ true) × (rest (status_of g.kernel u) ≡ task_ready)
  Reachable-wakes t free waits =
      let l = Reachable-IsLocked n run in
      let q = l.queues in
      elim (Bool-cases (mem t g.lock.semaphore.waiters)) [
        | inr out ↦ (t, waits, q.woken t waits out)
        | inl is ↦
            let up : g.lock.semaphore.value ≢ 0 =
              λ e. let (u, at_u) = l.guards.owned e in ground (arith, free u) in
            let some_left : g.lock.semaphore.waiters ≢ [] = λ e. ground (arith, is) in
            let (u, at_u, out) = q.no_lost_wakeup up some_left in (u, at_u, q.woken u at_u out)
      ]
