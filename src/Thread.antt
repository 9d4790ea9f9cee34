-- ===== src/Thread.antt =====
-- thread/thread.c and thread/thread.h, and the clock interrupt of device/timer.c: tasks, the ready
-- list and the scheduler. A list of threads is the sequence of the tasks that its elements belong
-- to; KernelList shows that lib/kernel/list.c does to such sequences what is written here.
pub mod Pcb
pub mod Invariant
pub mod Scheduling
pub mod Frame
pub mod Operations
pub mod Turns
pub mod Descriptors
pub mod Pid
pub mod Example
mod Tests
use tinykernel.Base.{
  ℕ, zero, suc, ◌+◌, ◌-◌, ◌%◌, ◌^◌, Bool, true, false, not, ◌||◌, List, [], ◌∷◌, ◌++◌, Option, none,
  some, ◌==◌, if◌then◌else◌, update, mem, u32, Outcome, ok, panic, assert, ◌>>=◌, ◌>>◌,
}
use tinykernel.Interrupt.{
  IntrStatus, intr_on, intr_off, is_off, intr_get_status, intr_disable, intr_set_status,
}
use Pcb.{
  TaskStatus, task_running, task_ready, task_blocked, task_waiting, task_hanging, task_died, Task,
  is_running, is_ready, can_wake,
}

-- The state of the scheduler. `resume` is what stands on the kernel stack of a thread that is off
-- the processor: the status that it hands to `intr_set_status` when `schedule` returns to it, or
-- the interrupt flag that its `iretd` restores.
pub record Kernel : Type 0 where
  pub current : ℕ
  pub task : ℕ → Task
  pub ready : List ℕ
  pub all : List ℕ
  pub idle : ℕ
  pub intr : IntrStatus
  pub ticks : ℕ
  pub resume : ℕ → IntrStatus

abbrev pub set_task : ℕ → Task → Kernel → Kernel
set_task t s k = record k { task = update k.task t s }

abbrev pub set_status : ℕ → TaskStatus → Kernel → Kernel
set_status t s k = set_task t (record (k.task t) { status = s }) k

abbrev pub leave_critical : IntrStatus → Kernel → Kernel
leave_critical old_status k = record k { intr = (intr_set_status old_status k.intr).1 }

-- The thread at the front of the ready list, with the status TASK_READY.
unfoldable pub queue_first : ℕ → Kernel → Kernel
queue_first t k = set_status t task_ready (record k { ready = t ∷ k.ready })

-- The part of `thread_unblock` between `intr_disable` and `intr_set_status`. The `PANIC` behind the
-- second `ASSERT` has the condition of that `ASSERT`.
unfoldable pub wake : ℕ → Kernel → Outcome Kernel
wake pthread k = do
  assert (can_wake (k.task pthread).status)
  let queued = do assert (not (mem pthread k.ready)); ok (queue_first pthread k)
  if is_ready (k.task pthread).status then ok k else queued

unfoldable pub thread_unblock : ℕ → Kernel → Outcome Kernel
thread_unblock pthread k = do
  let (old_status, off) = intr_disable k.intr
  k' ← wake pthread (record k { intr = off })
  ok (leave_critical old_status k')

-- The first branch of `schedule`: the time slice of the running thread is used up.
unfoldable pub queue_last : Kernel → Kernel
queue_last k =
    let s = k.task k.current in
    set_task k.current (record s { ticks = s.priority; status = task_ready })
      (record k { ready = k.ready ++ k.current ∷ [] })

unfoldable pub requeue : Kernel → Outcome Kernel
requeue k = do assert (not (mem k.current k.ready)); ok (queue_last k)

-- `list_pop` of the ready list, and `switch_to`. The ready list is not empty here.
unfoldable pub switch_to : ℕ → List ℕ → Kernel → Kernel
switch_to next rest k = record (set_status next task_running k) { ready = rest; current = next }

unfoldable pub dispatch : List ℕ → Kernel → Outcome Kernel
dispatch [] k = panic
dispatch (next ∷ rest) k = ok (switch_to next rest k)

abbrev pub is_nil : List ℕ → Bool
is_nil [] = true
is_nil (x ∷ xs) = false

-- The second half of `schedule`: the idle thread is woken if nothing is ready.
unfoldable pub pick_next : Kernel → Outcome Kernel
pick_next k = do
  let woken = thread_unblock k.idle k
  k' ← if is_nil k.ready then woken else ok k
  dispatch k'.ready k'

-- `schedule` up to the switch. `process_activate` loads the page directory of the next thread, and
-- touches nothing of the scheduler.
unfoldable pub schedule : Kernel → Outcome Kernel
schedule k = do
  assert (is_off (intr_get_status k.intr))
  let requeued = requeue k
  k1 ← if is_running (k.task k.current).status then requeued else ok k
  pick_next k1

-- A call of `schedule` by a thread that will restore `old_status` when it runs again; the thread
-- that gets the processor goes on with what it had left.
unfoldable pub switch_away : IntrStatus → Kernel → Outcome Kernel
switch_away old_status k = do
  k' ← schedule (record k { resume = update k.resume k.current old_status })
  ok (leave_critical (k'.resume k'.current) k')

unfoldable pub thread_block : TaskStatus → Kernel → Outcome Kernel
thread_block stat k = do
  assert (can_wake stat)
  let (old_status, off) = intr_disable k.intr
  switch_away old_status (set_status k.current stat (record k { intr = off }))

pub thread_yield : Kernel → Outcome Kernel
thread_yield k = do
  let cur = k.current
  let (old_status, off) = intr_disable k.intr
  assert (not (mem cur k.ready))
  let queued = set_status cur task_ready (record k { intr = off; ready = k.ready ++ cur ∷ [] })
  switch_away old_status queued

-- `intr_timer_handler` of device/timer.c. It runs with interrupts off and returns by `iretd` to a
-- thread that had them on.
unfoldable pub count_tick : Kernel → Kernel
count_tick k =
    let s = k.task k.current in
    record (set_task k.current (record s { elapsed_ticks = u32 (s.elapsed_ticks + 1) }) k) {
      intr = intr_off;
      ticks = u32 (k.ticks + 1);
    }

-- The running thread has a tick less to go.
pub spend_tick : Kernel → Kernel
spend_tick k =
    let s = k.task k.current in
    record (set_task k.current (record s { ticks = s.ticks - 1 }) k) { intr = intr_on }

unfoldable pub intr_timer_handler : Kernel → Outcome Kernel
intr_timer_handler k = do
  assert ((k.task k.current).stack_magic == 0x19870916)
  let k1 = count_tick k
  let preempted = switch_away intr_on k1
  if (k1.task k1.current).ticks == 0 then preempted else ok (spend_tick k1)
