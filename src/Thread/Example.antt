-- ===== src/Thread/Example.antt =====
-- A small system of threads for tests.
use tinykernel.Base.{ℕ, refl, [], ◌∷◌, none, arith, ◌==◌, if◌then◌else◌}
use tinykernel.Interrupt.{intr_on, intr_off}
use tinykernel.Thread.Pcb.{TaskStatus, task_running, task_ready, task_blocked, Task}
use tinykernel.Thread.{Kernel}
use tinykernel.Thread.Invariant.{MayLeave, IsSound}
use tinykernel.Thread.Descriptors.{init_fd_table}

abbrev pub task_with : ℕ → TaskStatus → ℕ → Task
task_with pid status ticks = record {
  pid = pid;
  status = status;
  name = [];
  priority = 31;
  ticks = ticks;
  elapsed_ticks = 0;
  fd_table = init_fd_table;
  pgdir = 0;
  cwd_inode_nr = 0;
  parent_pid = none;
  exit_status = 0;
  stack_magic = 0x19870916;
}

-- Thread 5 runs with no tick left, 6 is ready, and the idle thread 7 is blocked.
abbrev pub busy : Kernel
busy = record {
  current = 5;
  task = λ t.
      if t == 5
      then task_with 1 task_running 0
      else if t == 6
      then task_with 2 task_ready 31
      else task_with 3 task_blocked 10;
  ready = 6 ∷ [];
  all = 5 ∷ 6 ∷ 7 ∷ [];
  idle = 7;
  intr = intr_on;
  ticks = 0;
  resume = λ t. intr_on;
}

pub busy-IsSound : IsSound busy
busy-IsSound = record {
  may_leave = record {
    alone = λ t is runs. ground arith;
    queued = λ t is. ground arith;
    in_queue = λ t is r. ground arith;
    distinct = (refl, tt);
    known = λ t is. ground arith;
    current_known = refl;
    idle_known = refl;
    idle_lives = λ e. cc;
  };
  running = refl;
}

-- The same with interrupts off.
abbrev pub masked : Kernel
masked = record busy { intr = intr_off }

pub masked-IsSound : IsSound masked
masked-IsSound = record { may_leave = again busy-IsSound.may_leave; running = refl }
  where
    again : MayLeave busy → MayLeave masked
    again m = assumption
