-- ===== src/Thread/Invariant.antt =====
-- The invariant of the scheduler's state.
use tinykernel.Base.{
  sym, ◌∙◌, ℕ, ◌≡◌, refl, ◌≢◌, true, false, List, [], ◌∷◌, ◌++◌, arith, mem, mem-append, Distinct,
}
use tinykernel.Thread.Pcb.{TaskStatus, task_running, task_ready, task_died}
use tinykernel.Thread.{Kernel}

abbrev pub status_of : Kernel → ℕ → TaskStatus
status_of k t = (k.task t).status

-- What holds when `schedule` is called: the ready list holds exactly the threads whose status is
-- TASK_READY, each once, and no thread but the current one has the status TASK_RUNNING.
pub record MayLeave (k : Kernel) : Type 0 where
  pub alone : (t : ℕ) → mem t k.all ≡ true → status_of k t ≡ task_running → t ≡ k.current
  pub queued : (t : ℕ) → mem t k.ready ≡ true → status_of k t ≡ task_ready
  pub in_queue : (t : ℕ) → mem t k.all ≡ true → status_of k t ≡ task_ready → mem t k.ready ≡ true
  pub distinct : Distinct k.ready
  pub known : (t : ℕ) → mem t k.ready ≡ true → mem t k.all ≡ true
  pub current_known : mem k.current k.all ≡ true
  pub idle_known : mem k.idle k.all ≡ true
  pub idle_lives : status_of k k.idle ≢ task_died

-- The same between two calls: the current thread is the one that runs.
pub record IsSound (k : Kernel) : Type 0 where
  pub may_leave : MayLeave k
  pub running : status_of k k.current ≡ task_running

-- The state inside `schedule`, when no thread has the processor.
pub record Vacant (k : Kernel) : Type 0 where
  pub may_leave : MayLeave k
  pub vacant : (t : ℕ) → mem t k.all ≡ true → status_of k t ≢ task_running

pub Distinct-snoc : (xs : List ℕ) (e : ℕ) → Distinct xs → mem e xs ≡ false → Distinct (xs ++ e ∷ [])
Distinct-snoc [] e d out = (refl, tt)
Distinct-snoc (x ∷ xs) e d out =
    (ground (arith, mem-append x xs (e ∷ [])), Distinct-snoc xs e d.1 (ground arith))

-- A change that leaves the statuses and the lists alone.
pub record SameSchedule (k g : Kernel) : Type 0 where
  pub status : (t : ℕ) → status_of g t ≡ status_of k t
  pub current : g.current ≡ k.current
  pub ready : g.ready ≡ k.ready
  pub all : g.all ≡ k.all
  pub idle : g.idle ≡ k.idle

pub IsSound-same : (k g : Kernel) → SameSchedule k g → IsSound k → IsSound g
IsSound-same k g s h =
    let m = h.may_leave in
    record {
      may_leave = record {
        alone = λ t is runs.
            m.alone t (ground (arith, s.all)) (ground (arith, s.status t)) ∙ sym s.current;
        queued = λ t is. s.status t ∙ m.queued t (ground (arith, s.ready));
        in_queue = λ t is r. ground (arith, m.in_queue t, s.status t, s.all, s.ready);
        distinct = rw s.ready m.distinct;
        known = λ t. ground (arith, m.known t, s.ready, s.all);
        current_known = rw (s.current, s.all) m.current_known;
        idle_known = rw (s.idle, s.all) m.idle_known;
        idle_lives = ground (arith, m.idle_lives, s.status k.idle, s.idle);
      };
      running = ground (arith, h.running, s.current, s.status k.current);
    }
