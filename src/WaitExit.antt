-- ===== src/WaitExit.antt =====
-- `sys_wait` and parts of `sys_exit` of userprog/wait_exit.c over the scheduler (Thread), with
-- `pid2thread` of thread/thread.c. The lists of threads are sequences, as in Thread, and
-- `list_traversal` is `traverse`. A function runs to the next point at which another thread can get
-- the processor. `thread_exit` and `realease_prog_resource` are not here.
pub mod Children
pub mod Exiting
pub mod Waiting
pub mod Tests
use tinykernel.Base.{
  ℕ, Bool, true, false, ◌&&◌, List, ◌++◌, ◌∷◌, [], Option, none, some, ◌==◌, if◌then◌else◌, mem,
  Outcome, ok, panic, ◌>>=◌, ◌>>◌,
}
use tinykernel.Interrupt.{intr_off}
use tinykernel.KernelList.Search.{traverse}
use tinykernel.Thread.{Kernel, set_task, set_status, thread_block, thread_unblock}
use tinykernel.Thread.Pcb.{Task, TaskStatus, task_waiting, task_hanging, task_died}
use tinykernel.Thread.Pid.{PidPool, release_pid}
use tinykernel.Fs.Inodes.{without}

abbrev pub is_hanging : TaskStatus → Bool
is_hanging task_hanging = true
is_hanging _ = false

abbrev pub is_waiting : TaskStatus → Bool
is_waiting task_waiting = true
is_waiting _ = false

-- `pthread->parent_pid == ppid`
abbrev pub is_child : ℕ → Task → Bool
is_child ppid pthread = elim pthread.parent_pid [ none ↦ false | some p ↦ p == ppid ]

-- The callbacks of `list_traversal`, with their argument.
unfoldable pub find_child : ℕ → ℕ → Kernel → Bool × Kernel
find_child ppid elem k = (is_child ppid (k.task elem), k)

unfoldable pub find_hanging_child : ℕ → ℕ → Kernel → Bool × Kernel
find_hanging_child ppid elem k = (is_child ppid (k.task elem) && is_hanging (k.task elem).status, k)

unfoldable pub init_adopt_a_child : ℕ → ℕ → Kernel → Bool × Kernel
init_adopt_a_child pid elem k =
    if is_child pid (k.task elem)
    then (true, set_task elem (record (k.task elem) { parent_pid = some 1 }) k)
    else (false, k)

unfoldable pub pid_check : ℕ → ℕ → Kernel → Bool × Kernel
pid_check pid elem k = ((k.task elem).pid == pid, k)

unfoldable pub pid2thread : ℕ → Kernel → Option ℕ
pid2thread pid k = (traverse (pid_check pid) k.all k).0

-- What a round of the loop of `sys_wait` leads to: the call of `thread_exit` for a child, with the
-- pid and the exit status that are returned behind it; -1; or a wait.
pub data Waited : Type 0 where
  ends : (child : ℕ) → (child_pid : ℕ) → (status : ℕ) → Waited
  no_child : Waited
  waits : Kernel → Waited

unfoldable pub sys_wait : Kernel → Outcome Waited
sys_wait k =
    let pid = (k.task k.current).pid in
    elim (traverse (find_hanging_child pid) k.all k).0 [
      | some child ↦ ok (ends child (k.task child).pid (k.task child).exit_status)
      | none ↦ elim (traverse (find_child pid) k.all k).0 [
        | none ↦ ok no_child
        | some child ↦ thread_block task_waiting k >>= (λ k'. ok (waits k'))
      ]
    ]

-- The traversal of `sys_exit`.
unfoldable pub adopt : ℕ → Kernel → Kernel
adopt pid k = (traverse (init_adopt_a_child pid) k.all k).1

-- The wake-up of the parent; a parent that is not there is a NULL pointer that the code follows.
unfoldable pub wake_parent : ℕ → Kernel → Outcome Kernel
wake_parent ppid k = elim (pid2thread ppid k) [
  | none ↦ panic
  | some parent ↦ if is_waiting (k.task parent).status then thread_unblock parent k else ok k
]

-- The end of `sys_exit`, behind `realease_prog_resource`. A process without a parent has stopped the
-- kernel in its first `PANIC`.
unfoldable pub leave : Kernel → Outcome Kernel
leave k = elim (k.task k.current).parent_pid [
  | none ↦ panic
  | some parent_pid ↦ wake_parent parent_pid k >>= thread_block task_hanging
]
