-- ===== src/Thread/Pcb.antt =====
-- `enum task_status` and `struct task_struct` of thread/thread.h.
use tinykernel.Base.{ℕ, Bool, true, false, List, Option}

pub data TaskStatus : Type 0 where
  task_running task_ready task_blocked task_waiting task_hanging task_died : TaskStatus

-- The fields that the modelled code reads or writes. `none` stands for the -1 of a descriptor that
-- is free and of a thread without a parent.
pub record Task : Type 0 where
  pub pid : ℕ
  pub status : TaskStatus
  pub name : List ℕ
  pub priority : ℕ
  pub ticks : ℕ
  pub elapsed_ticks : ℕ
  pub fd_table : ℕ → Option ℕ
  pub pgdir : ℕ
  pub cwd_inode_nr : ℕ
  pub parent_pid : Option ℕ
  pub exit_status : ℕ
  pub stack_magic : ℕ

abbrev pub is_running : TaskStatus → Bool
is_running task_running = true
is_running _ = false

abbrev pub is_ready : TaskStatus → Bool
is_ready task_ready = true
is_ready _ = false

-- `stat == TASK_BLOCKED || stat == TASK_WAITING || stat == TASK_HANGING`
abbrev pub can_wake : TaskStatus → Bool
can_wake task_blocked = true
can_wake task_waiting = true
can_wake task_hanging = true
can_wake _ = false
