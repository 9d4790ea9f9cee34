-- ===== src/IoQueue/Bytes.antt =====
-- `ioq_putchar` and `ioq_getchar` against the list of the bytes in the queue.
use tinykernel.Base.{
  ℕ, ◌≤◌, ◌<◌, ◌≡◌, ◌≢◌, refl, sym, ap, ◌∙◌, true, false, [], ◌∷◌, ◌++◌, Option, none, some, arith,
  ◌==◌, mem, length, Outcome, ok,
}
use tinykernel.Interrupt.{intr_off, is_off, intr_get_status}
use tinykernel.Thread.{Kernel, queue_first}
use tinykernel.Thread.Pcb.{can_wake}
use tinykernel.Thread.Invariant.{status_of, IsSound}
use tinykernel.Thread.Operations.{thread_unblock-IsSound}
use tinykernel.IoQueue.{
  IoQueue, Station, ioq_full, ioq_empty, wakeup, wake_producer, wake_consumer, remove_byte,
  insert_byte, ioq_getchar, ioq_putchar, ioq_length,
}
use tinykernel.IoQueue.Contents.{
  held, InBuffer, length-held, ioq_length-small, empty-ioq_length, full-ioq_length,
  held-insert_byte, held-remove_byte, InBuffer-insert_byte, InBuffer-remove_byte,
}

-- A waiter is a known thread that sleeps.
abbrev pub Sleeps : Option ℕ → Kernel → Type 0
Sleeps waiter k =
    (t : ℕ) → waiter ≡ some t → (mem t k.all ≡ true) × (can_wake (status_of k t) ≡ true)

-- A queue between two calls, with interrupts off as its callers have them.
pub record IsReady (s : Station) : Type 0 where
  pub inside : InBuffer s.ioq
  pub masked : s.kernel.intr ≡ intr_off
  pub sound : IsSound s.kernel
  pub producer_sleeps : Sleeps s.ioq.producer s.kernel
  pub consumer_sleeps : Sleeps s.ioq.consumer s.kernel
  pub apart : (t : ℕ) → s.ioq.producer ≡ some t → s.ioq.consumer ≢ some t

-- The other side is awake, and the bytes are the same.
record Woken (waiter : IoQueue → Option ℕ) (s : Station) (r : Outcome Station) : Type 0 where
  after : Station
  awake : waiter after.ioq ≡ none
  done : r ≡ ok after
  ready : IsReady after
  bytes : held after.ioq ≡ held s.ioq

module _ (s : Station) (h : IsReady s) where
  wake_producer_case :
      (p : Option ℕ) → s.ioq.producer ≡ p → Woken (λ q. q.producer) s (wake_producer s)
  unfolding wake_producer wakeup ioq_length queue_first
  wake_producer_case none e = record { after = s; awake = e; done = rw e; ready = h; bytes = refl }
  wake_producer_case (some t) e =
      let (is, wakes) = h.producer_sleeps t e in
      let (done, sound) = thread_unblock-IsSound s.kernel h.sound t is wakes in
      record {
        after = record { ioq = record s.ioq { producer = none }; kernel = queue_first t s.kernel };
        awake = refl;
        done = rw (e, done);
        ready = record {
          inside = record { head_small = h.inside.head_small; tail_small = h.inside.tail_small };
          masked = h.masked;
          sound = sound;
          producer_sleeps = λ u none_now. absurd (ground arith);
          consumer_sleeps = λ u is_u. (
            (h.consumer_sleeps u is_u).0,
            ground (arith, (h.consumer_sleeps u is_u).1, h.apart t e),
          );
          apart = λ u none_now. absurd (ground arith);
        };
        bytes = refl;
      }

  wake_consumer_case :
      (c : Option ℕ) → s.ioq.consumer ≡ c → Woken (λ q. q.consumer) s (wake_consumer s)
  unfolding wake_consumer wakeup ioq_length queue_first
  wake_consumer_case none e = record { after = s; awake = e; done = rw e; ready = h; bytes = refl }
  wake_consumer_case (some t) e =
      let (is, wakes) = h.consumer_sleeps t e in
      let (done, sound) = thread_unblock-IsSound s.kernel h.sound t is wakes in
      record {
        after = record { ioq = record s.ioq { consumer = none }; kernel = queue_first t s.kernel };
        awake = refl;
        done = rw (e, done);
        ready = record {
          inside = record { head_small = h.inside.head_small; tail_small = h.inside.tail_small };
          masked = h.masked;
          sound = sound;
          producer_sleeps = λ u is_u. (
            (h.producer_sleeps u is_u).0,
            ground (arith, (h.producer_sleeps u is_u).1, h.apart u is_u, e),
          );
          consumer_sleeps = λ u none_now. absurd (ground arith);
          apart = λ u is_u none_now. absurd (ground arith);
        };
        bytes = refl;
      }

-- A byte has been put behind the others, and the consumer is awake.
pub record Put (byte : ℕ) (s : Station) (r : Outcome (Option Station)) : Type 0 where
  pub after : Station
  pub done : r ≡ ok (some after)
  pub ready : IsReady after
  pub awake : after.ioq.consumer ≡ none
  pub bytes : held after.ioq ≡ held s.ioq ++ byte ∷ []

-- The first byte has been taken, and the producer is awake.
pub record Got (s : Station) (r : Outcome (Option (ℕ × Station))) : Type 0 where
  pub byte : ℕ
  pub after : Station
  pub done : r ≡ ok (some (byte, after))
  pub ready : IsReady after
  pub awake : after.ioq.producer ≡ none
  pub bytes : held s.ioq ≡ byte ∷ held after.ioq

module _ (s : Station) (h : IsReady s) where
  off : is_off s.kernel.intr ≡ true
  off = rw h.masked

  inserted : ℕ → Station
  inserted byte = record s { ioq = insert_byte byte s.ioq }

  inserted-IsReady : (byte : ℕ) → IsReady (inserted byte)
  unfolding inserted insert_byte
  inserted-IsReady byte = record {
    inside = InBuffer-insert_byte s.ioq h.inside byte;
    masked = h.masked;
    sound = h.sound;
    producer_sleeps = h.producer_sleeps;
    consumer_sleeps = h.consumer_sleeps;
    apart = h.apart;
  }

  removed : Station
  removed = record s { ioq = remove_byte s.ioq }

  removed-IsReady : IsReady removed
  unfolding removed remove_byte
  removed-IsReady = record {
    inside = InBuffer-remove_byte s.ioq h.inside;
    masked = h.masked;
    sound = h.sound;
    producer_sleeps = h.producer_sleeps;
    consumer_sleeps = h.consumer_sleeps;
    apart = h.apart;
  }

  -- `ioq_putchar` with interrupts off and fewer than 2047 bytes in the queue returns at once. The
  -- byte is behind the others then, and a consumer that slept is awake.
  pub ioq_putchar-Put : (byte : ℕ) → length (held s.ioq) < 2047 → Put byte s (ioq_putchar byte s)
  unfolding ioq_putchar ioq_full intr_get_status inserted
  ioq_putchar-Put byte room =
      let counted = length-held s.ioq h.inside in
      let some_room : ioq_length s.ioq < 2047 = omega (arith, room, counted) in
      let not_full : (ioq_length s.ioq == 2047) ≡ false = ground arith in
      let w =
        wake_consumer_case (inserted byte) (inserted-IsReady byte) (inserted byte).ioq.consumer
          refl in
      record {
        after = w.after;
        done = rw (off, full-ioq_length s.ioq h.inside, not_full, w.done);
        ready = w.ready;
        awake = w.awake;
        bytes = w.bytes ∙ held-insert_byte s.ioq h.inside byte some_room;
      }

  pub ioq_putchar_waits : (byte : ℕ) → length (held s.ioq) ≡ 2047 → ioq_putchar byte s ≡ ok none
  unfolding ioq_putchar ioq_full intr_get_status
  ioq_putchar_waits byte full =
      let counted = length-held s.ioq h.inside in
      let is_full : (ioq_length s.ioq == 2047) ≡ true = ground (arith, counted, full) in
      rw (off, full-ioq_length s.ioq h.inside, is_full)

  -- `ioq_getchar` with interrupts off and a byte in the queue returns the first byte at once. The
  -- others are left in their order, and a producer that slept is awake.
  pub ioq_getchar-Got : 1 ≤ length (held s.ioq) → Got s (ioq_getchar s)
  unfolding ioq_getchar ioq_empty intr_get_status removed
  ioq_getchar-Got some_left =
      let counted = length-held s.ioq h.inside in
      let more : 1 ≤ ioq_length s.ioq = omega (arith, some_left, counted) in
      let not_empty : (ioq_length s.ioq == 0) ≡ false = ground arith in
      let w = wake_producer_case removed removed-IsReady removed.ioq.producer refl in
      record {
        byte = s.ioq.buf s.ioq.tail;
        after = w.after;
        done = rw (off, empty-ioq_length s.ioq h.inside, not_empty, w.done);
        ready = w.ready;
        awake = w.awake;
        bytes =
            held-remove_byte s.ioq h.inside more ∙ ap (◌∷◌ (s.ioq.buf s.ioq.tail)) (sym w.bytes);
      }

  pub ioq_getchar_waits : held s.ioq ≡ [] → ioq_getchar s ≡ ok none
  unfolding ioq_getchar ioq_empty intr_get_status
  ioq_getchar_waits none_left =
      let counted = length-held s.ioq h.inside in
      let is_empty : (ioq_length s.ioq == 0) ≡ true = ground (arith, counted, none_left) in
      rw (off, empty-ioq_length s.ioq h.inside, is_empty)

  -- The answer of `ioq_full`.
  pub ioq_full-held : ioq_full s ≡ ok (length (held s.ioq) == 2047)
  unfolding ioq_full intr_get_status
  ioq_full-held =
      let counted = length-held s.ioq h.inside in rw (off, full-ioq_length s.ioq h.inside, counted)

  pub held-small : length (held s.ioq) < 2048
  held-small = omega (arith, length-held s.ioq h.inside, ioq_length-small s.ioq h.inside)
