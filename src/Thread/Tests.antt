-- ===== src/Thread/Tests.antt =====
-- The theorems about the scheduler at concrete states.
use tinykernel.Base.{ℕ, ◌≤◌, ◌≡◌, refl, ◌⊎◌, true, false, [], ◌∷◌, some, arith, update, ok, panic}
use tinykernel.Interrupt.{intr_off, intr_get_status}
use tinykernel.Thread.Pcb.{task_running, Task}
use tinykernel.Thread.{
  Kernel, queue_last, requeue, switch_to, dispatch, pick_next, schedule, switch_away, count_tick,
  intr_timer_handler,
}
use tinykernel.Thread.Example.{task_with, busy, busy-IsSound, masked, masked-IsSound}
use tinykernel.Thread.Scheduling.{Succeeds, schedule-Succeeds}
use tinykernel.Thread.Operations.{intr_timer_handler-Moved}
use tinykernel.Thread.Frame.{Moved}
use tinykernel.Thread.Turns.{start, expire, Clock-turn, timer_times, timer_times-slice, order}
use tinykernel.Thread.Descriptors.{
  Installs, init_fd_table, pcb_fd_install, fd_local2global, pcb_fd_install-Installs,
  fd_local2global-pcb_fd_install,
}
use tinykernel.Thread.Pid.{
  PidPool, IsPidPool, in_use, Allocated, pid_pool_init, allocate_pid, allocate_pid-Allocated,
  pid_pool_init-empty,
}

schedule-Succeeds_example : Succeeds (schedule masked) intr_off
schedule-Succeeds_example = schedule-Succeeds masked masked-IsSound.may_leave refl

intr_timer_handler-Moved_instance : Moved busy (intr_timer_handler busy)
intr_timer_handler-Moved_instance = intr_timer_handler-Moved busy busy-IsSound refl

-- What the next clock interrupt makes of it.
abbrev after_tick : Kernel
after_tick = elim (intr_timer_handler busy) [ ok g ↦ g | panic ↦ busy ]

tick_succeeds : intr_timer_handler busy ≡ ok after_tick
unfolding intr_timer_handler switch_away schedule requeue pick_next dispatch queue_last switch_to
    count_tick intr_get_status
tick_succeeds = refl

Clock-turn_example : (after_tick.current ≡ 6) × (after_tick.ready ≡ 5 ∷ [])
Clock-turn_example =
    Clock-turn busy after_tick (5 ∷ []) [] 6 busy-IsSound refl (expire start refl tick_succeeds)

timer_times-slice_instance :
    (f g : Kernel) × (timer_times 0 busy ≡ ok f)
    × (order f ≡ 5 ∷ 6 ∷ [])
    × (intr_timer_handler f ≡ ok g)
    × (order g ≡ 6 ∷ 5 ∷ [])
timer_times-slice_instance = timer_times-slice 0 busy busy-IsSound refl refl

abbrev some_task : Task
some_task = task_with 1 task_running 31

pcb_fd_install-Installs_instance : Installs 9 some_task (pcb_fd_install 9 some_task)
pcb_fd_install-Installs_instance = pcb_fd_install-Installs 9 some_task

-- The tenth entry of the file table, installed as descriptor 3, stops the kernel when it is used.
fd_local2global-pcb_fd_install_example :
    fd_local2global 3 (record some_task { fd_table = update init_fd_table 3 (some 9) }) ≡ panic
unfolding pcb_fd_install init_fd_table
fd_local2global-pcb_fd_install_example =
    fd_local2global-pcb_fd_install 9 3 some_task
      (record some_task { fd_table = update init_fd_table 3 (some 9) }) refl

abbrev new_pool : PidPool
new_pool = pid_pool_init (λ i. 0)

new_pool-IsPidPool : IsPidPool new_pool
new_pool-IsPidPool = (pid_pool_init-empty (λ i. 0) (λ i. omega arith)).0

pid_pool_init-empty_example :
    IsPidPool new_pool × ((q : ℕ) → 1 ≤ q → q ≤ 1024 → in_use new_pool q ≡ false)
pid_pool_init-empty_example = pid_pool_init-empty (λ i. 0) (λ i. omega arith)

allocate_pid-Allocated_instance :
    (((q : ℕ) → 1 ≤ q → q ≤ 1024 → in_use new_pool q ≡ true) × (allocate_pid new_pool ≡ panic))
    ⊎ ((pid : ℕ) × (pool' : PidPool) × (allocate_pid new_pool ≡ ok (pid, pool'))
        × Allocated new_pool pid pool')
allocate_pid-Allocated_instance = allocate_pid-Allocated new_pool new_pool-IsPidPool
