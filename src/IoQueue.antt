-- ===== src/IoQueue.antt =====
-- device/ioqueue.c and device/ioqueue.h: the ring buffer between the keyboard or the writer of a
-- pipe and its reader.
pub mod Contents
pub mod Bytes
pub mod Example
mod Tests
use tinykernel.Base.{
  ℕ, ◌+◌, ◌-◌, ◌%◌, Bool, true, false, Option, none, some, ◌==◌, leb, if◌then◌else◌, update,
  Outcome, ok, panic, assert, ◌>>=◌, ◌>>◌,
}
use tinykernel.Interrupt.{is_off, intr_get_status}
use tinykernel.Thread.{Kernel, thread_block, thread_unblock}
use tinykernel.Thread.Pcb.{task_blocked}
use tinykernel.Sync.{Lock, lock_init}

abbrev pub bufsize : ℕ
bufsize = 2048

-- `struct ioqueue`; `none` is a waiter that is NULL.
pub record IoQueue : Type 0 where
  pub lock : Lock
  pub producer : Option ℕ
  pub consumer : Option ℕ
  pub buf : ℕ → ℕ
  pub head : ℕ
  pub tail : ℕ

-- A queue and the scheduler that its waiters sleep in.
pub record Station : Type 0 where
  pub ioq : IoQueue
  pub kernel : Kernel

pub ioqueue_init : IoQueue → IoQueue
ioqueue_init ioq = record ioq {
  lock = lock_init;
  producer = none;
  consumer = none;
  head = 0;
  tail = 0;
}

abbrev pub next_pos : ℕ → ℕ
next_pos pos = (pos + 1) % bufsize

pub ioq_full : Station → Outcome Bool
ioq_full s = do
  assert (is_off (intr_get_status s.kernel.intr))
  ok (next_pos s.ioq.head == s.ioq.tail)

pub ioq_empty : Station → Outcome Bool
ioq_empty s = do assert (is_off (intr_get_status s.kernel.intr)); ok (s.ioq.head == s.ioq.tail)

abbrev pub is_null : Option ℕ → Bool
is_null none = true
is_null (some t) = false

-- `ioq_wait`, up to the switch; the first part is the new value of `*waiter`.
pub ioq_wait : Option ℕ → Kernel → Outcome (Option ℕ × Kernel)
ioq_wait waiter k = do
  assert (is_null waiter)
  k' ← thread_block task_blocked k
  ok (some k.current, k')

-- `wakeup` of a waiter; `*waiter` is NULL after it.
pub wakeup : Option ℕ → Kernel → Outcome Kernel
wakeup none k = panic
wakeup (some t) k = thread_unblock t k

-- The end of `ioq_getchar` and of `ioq_putchar`: the other side is woken, if it waits.
pub wake_producer : Station → Outcome Station
wake_producer s = do
  let woken = do
    k ← wakeup s.ioq.producer s.kernel
    ok (record { ioq = record s.ioq { producer = none }; kernel = k })
  if is_null s.ioq.producer then ok s else woken

pub wake_consumer : Station → Outcome Station
wake_consumer s = do
  let woken = do
    k ← wakeup s.ioq.consumer s.kernel
    ok (record { ioq = record s.ioq { consumer = none }; kernel = k })
  if is_null s.ioq.consumer then ok s else woken

-- The byte at the tail, and the queue without it.
pub remove_byte : IoQueue → IoQueue
remove_byte ioq = record ioq { tail = next_pos ioq.tail }

pub insert_byte : ℕ → IoQueue → IoQueue
insert_byte byte ioq = record ioq { buf = update ioq.buf ioq.head byte; head = next_pos ioq.head }

-- `ioq_getchar` and `ioq_putchar`; `none` means that the call enters the body of its loop, where it
-- takes the lock and goes to sleep, and so does not return before another thread has run.
pub ioq_getchar : Station → Outcome (Option (ℕ × Station))
ioq_getchar s = do
  assert (is_off (intr_get_status s.kernel.intr))
  empty ← ioq_empty s
  let byte = s.ioq.buf s.ioq.tail
  let taken = do s' ← wake_producer (record s { ioq = remove_byte s.ioq }); ok (some (byte, s'))
  if empty then ok none else taken

pub ioq_putchar : ℕ → Station → Outcome (Option Station)
ioq_putchar byte s = do
  assert (is_off (intr_get_status s.kernel.intr))
  full ← ioq_full s
  let put = do s' ← wake_consumer (record s { ioq = insert_byte byte s.ioq }); ok (some s')
  if full then ok none else put

pub ioq_length : IoQueue → ℕ
ioq_length ioq =
    if leb ioq.tail ioq.head then ioq.head - ioq.tail else bufsize - (ioq.tail - ioq.head)
