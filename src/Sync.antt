-- ===== src/Sync.antt =====
-- thread/sync.c and thread/sync.h: semaphores and locks, in a system of threads that the clock may
-- interrupt. The functions below run from one point at which another thread can get the processor
-- to the next.
pub mod Invariant
pub mod Down
pub mod Up
pub mod Owner
pub mod Steps
pub mod Exclusion
mod Tests
use tinykernel.Base.{
  ℕ, ◌+◌, ◌-◌, Bool, false, not, List, [], ◌∷◌, ◌++◌, Option, none, some, ◌==◌, ltb, if◌then◌else◌,
  update, mem, u8, u32, Outcome, ok, assert, ◌>>=◌, ◌>>◌,
}
use tinykernel.Interrupt.{IntrStatus, intr_disable}
use tinykernel.Thread.{Kernel, thread_block, thread_unblock, leave_critical}
use tinykernel.Thread.Pcb.{task_blocked}

-- `struct semaphore`; the waiters are the threads whose `general_tag` is in the list.
pub record Semaphore : Type 0 where
  pub value : ℕ
  pub waiters : List ℕ

-- `struct lock`; `none` is a holder that is NULL.
pub record Lock : Type 0 where
  pub holder : Option ℕ
  pub semaphore : Semaphore
  pub holder_repeat_nr : ℕ

pub sema_init : ℕ → Semaphore
sema_init value = record { value = value; waiters = [] }

pub lock_init : Lock
lock_init = record { holder = none; semaphore = sema_init 1; holder_repeat_nr = 0 }

-- What a thread does with the lock: nothing, `thread_block` in the loop of `sema_down` (with the
-- status that `sema_down` will restore), the rest of `lock_acquire` behind `sema_down`, the work
-- for which it took the lock, or the `sema_up` of `lock_release`.
pub data Place : Type 0 where
  outside : Place
  waiting : IntrStatus → Place
  taking holding leaving : Place

-- One lock, the scheduler, and the place of each thread.
pub record System : Type 0 where
  pub lock : Lock
  pub kernel : Kernel
  pub place : ℕ → Place

abbrev pub current : System → ℕ
current s = s.kernel.current

-- `plock->holder == running_thread()`
abbrev pub is_holder : Option ℕ → ℕ → Bool
is_holder none t = false
is_holder (some h) t = h == t

abbrev pub set_semaphore : Semaphore → Lock → Lock
set_semaphore psema plock = record plock { semaphore = psema }

abbrev pub go : Place → ℕ → System → System
go p t s = record s { place = update s.place t p }

-- The current thread has put itself on the list of waiters, and `thread_block` has given the
-- processor away, which leaves the scheduler in the state `k`.
pub enqueue : IntrStatus → Kernel → System → System
enqueue old_status k s =
    let psema = s.lock.semaphore in
    let queued = record psema { waiters = psema.waiters ++ current s ∷ [] } in
    go (waiting old_status) (current s)
      (record s { lock = set_semaphore queued s.lock; kernel = k })

-- The way out of `sema_down`.
pub pass : IntrStatus → System → System
pass old_status s =
    let psema = s.lock.semaphore in
    let lowered = record psema { value = psema.value - 1 } in
    go taking (current s) (record s {
      lock = set_semaphore lowered s.lock;
      kernel = leave_critical old_status s.kernel;
    })

-- The test of the loop in `sema_down`, and what follows up to the next test or to the end. A thread
-- that `sema_up` has woken comes here again. The `PANIC` has the condition of the first `ASSERT`.
pub sema_turn : IntrStatus → System → Outcome System
sema_turn old_status s = do
  let psema = s.lock.semaphore
  let wait = do
    assert (not (mem (current s) psema.waiters))
    k ← thread_block task_blocked s.kernel
    ok (enqueue old_status k s)
  let done = do assert (psema.value - 1 == 0); ok (pass old_status s)
  if psema.value == 0 then wait else done

pub sema_down : System → Outcome System
sema_down s = do
  let (old_status, off) = intr_disable s.kernel.intr
  sema_turn old_status (record s { kernel = record s.kernel { intr = off } })

-- `list_pop` of the waiters and `thread_unblock`, if there are any.
pub wake_first : List ℕ → Kernel → Outcome (List ℕ × Kernel)
wake_first [] k = ok ([], k)
wake_first (thread_blocked ∷ others) k = do k' ← thread_unblock thread_blocked k; ok (others, k')

-- The way out of `sema_up`, with the waiters that are left.
pub give : IntrStatus → List ℕ → Kernel → System → System
give old_status waiters k s =
    let raised : Semaphore = record {
      value = u8 (s.lock.semaphore.value + 1);
      waiters = waiters;
    } in
    go outside (current s)
      (record s { lock = set_semaphore raised s.lock; kernel = leave_critical old_status k })

pub sema_up : System → Outcome System
sema_up s = do
  let psema = s.lock.semaphore
  let (old_status, off) = intr_disable s.kernel.intr
  assert (psema.value == 0)
  (waiters, k) ← wake_first psema.waiters (record s.kernel { intr = off })
  assert (u8 (psema.value + 1) == 1)
  ok (give old_status waiters k s)

-- `lock_acquire` up to the end of `sema_down`, or to the switch in it.
pub lock_acquire : System → Outcome System
lock_acquire s =
    let again = record s.lock { holder_repeat_nr = u32 (s.lock.holder_repeat_nr + 1) } in
    let down = sema_down s in
    if is_holder s.lock.holder (current s) then ok (record s { lock = again }) else down

-- The rest of `lock_acquire`.
pub hold : System → System
hold s =
    let mine = record s.lock { holder = some (current s); holder_repeat_nr = 1 } in
    go holding (current s) (record s { lock = mine })

pub take_lock : System → Outcome System
take_lock s = do assert (s.lock.holder_repeat_nr == 0); ok (hold s)

-- `lock_release` up to its `sema_up`.
pub let_go : System → System
let_go s =
    let free = record s.lock { holder = none; holder_repeat_nr = 0 } in
    go leaving (current s) (record s { lock = free })

pub lock_release : System → Outcome System
lock_release s = do
  assert (is_holder s.lock.holder (current s))
  let repeat = s.lock.holder_repeat_nr
  let fewer = record s.lock { holder_repeat_nr = repeat - 1 }
  let last = do assert (repeat == 1); ok (let_go s)
  if ltb 1 repeat then ok (record s { lock = fewer }) else last
