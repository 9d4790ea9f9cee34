-- ===== src/Thread/Turns.antt =====
-- Time slices and turns: what a series of clock interrupts does to the ready list.
use tinykernel.Base.{
  ℕ, zero, suc, ◌-◌, ◌≡◌, refl, ◌≢◌, false, List, [], ◌∷◌, ◌++◌, arith, ◌==◌, mem, update, ok,
  ◌>>=◌, ok_injective, Outcome, subst, sym, ap, ◌∙◌, length,
}
use mathlib.Core.List.{append-nil, append_assoc}
use tinykernel.Interrupt.{IntrStatus, intr_off, intr_on}
use tinykernel.Thread.Pcb.{task_running}
use tinykernel.Thread.{
  Kernel, queue_last, switch_to, schedule, leave_critical, switch_away, count_tick, spend_tick,
  intr_timer_handler,
}
use tinykernel.Thread.Invariant.{status_of, IsSound}
use tinykernel.Thread.Scheduling.{schedule_running, pick_next_ready}
use tinykernel.Thread.Operations.{count_tick-IsSound, intr-count_tick, intr_timer_handler-Moved}

-- The threads in the order in which they get the processor, the current one first.
abbrev pub order : Kernel → List ℕ
order k = k.current ∷ k.ready

abbrev pub ticks_left : Kernel → ℕ
ticks_left k = (k.task k.current).ticks

-- The first thread goes to the end.
abbrev pub rotate : List ℕ → List ℕ
rotate [] = []
rotate (x ∷ xs) = xs ++ x ∷ []

ready-queue_last : (k : Kernel) → (queue_last k).ready ≡ rotate (order k)
unfolding queue_last
ready-queue_last k = refl

abbrev saved : IntrStatus → Kernel → Kernel
saved s k = record k { resume = update k.resume k.current s }

-- `schedule` by a thread that still runs takes the next in the order.
schedule_rotates :
    (k : Kernel) (x : ℕ) (xs : List ℕ)
    → k.intr ≡ intr_off
    → status_of k k.current ≡ task_running
    → mem k.current k.ready ≡ false
    → rotate (order k) ≡ x ∷ xs
    → schedule k ≡ ok (switch_to x xs (queue_last k))
schedule_rotates k x xs off runs out e =
    schedule_running k off runs out ∙ pick_next_ready (queue_last k) x xs (ready-queue_last k ∙ e)

abbrev switched : ℕ → List ℕ → Kernel → Kernel
switched x xs k =
    let k' = switch_to x xs (queue_last (saved intr_on k)) in
    leave_critical (k'.resume k'.current) k'

switch_away_rotates :
    (k : Kernel) (x : ℕ) (xs : List ℕ)
    → IsSound k
    → k.intr ≡ intr_off
    → rotate (order k) ≡ x ∷ xs
    → switch_away intr_on k ≡ ok (switched x xs k)
unfolding switch_away
switch_away_rotates k x xs h off e =
    let out : mem k.current k.ready ≡ false =
      ground (arith, h.may_leave.queued k.current, h.running) in
    rw (schedule_rotates (saved intr_on k) x xs off h.running out e)

rotate-cons : (y : ℕ) (ys : List ℕ) → (x : ℕ) × (xs : List ℕ) × (rotate (y ∷ ys) ≡ x ∷ xs)
rotate-cons y [] = (y, [], refl)
rotate-cons y (z ∷ ys) = (z, ys ++ y ∷ [], refl)

order-switched : (k : Kernel) (x : ℕ) (xs : List ℕ) → order (switched x xs k) ≡ x ∷ xs
unfolding switch_to
order-switched k x xs = refl

order-count_tick : (k : Kernel) → order (count_tick k) ≡ order k
unfolding count_tick
order-count_tick k = refl

ticks_left-count_tick : (k : Kernel) → ticks_left (count_tick k) ≡ ticks_left k
unfolding count_tick
ticks_left-count_tick k = ground arith

order-spend_tick : (k : Kernel) → order (spend_tick k) ≡ order k
unfolding spend_tick
order-spend_tick k = refl

abbrev pub HasMagic : Kernel → Type 0
HasMagic k = (k.task k.current).stack_magic ≡ 0x19870916

timer-HasMagic : (k : Kernel) {g : Kernel} → intr_timer_handler k ≡ ok g → HasMagic k
unfolding intr_timer_handler
timer-HasMagic k e = ground arith

timer_used_up :
    (k : Kernel)
    → HasMagic k
    → ticks_left k ≡ 0
    → intr_timer_handler k ≡ switch_away intr_on (count_tick k)
unfolding intr_timer_handler
timer_used_up k magic none_left =
    let same : ticks_left (count_tick k) ≡ 0 = ticks_left-count_tick k ∙ none_left in
    rw (magic, same)

timer_left :
    (k : Kernel)
    → HasMagic k
    → ticks_left k ≢ 0
    → intr_timer_handler k ≡ ok (spend_tick (count_tick k))
unfolding intr_timer_handler
timer_left k magic some_left =
    let more : (ticks_left (count_tick k) == 0) ≡ false =
      rw (ticks_left-count_tick k) (ground arith) in
    rw (magic, more)

module _ (k : Kernel) (h : IsSound k) (g : Kernel) (e : intr_timer_handler k ≡ ok g) where
  -- A clock interrupt with nothing left of the slice puts the running thread last.
  order_used_up : ticks_left k ≡ 0 → order g ≡ rotate (order k)
  order_used_up none_left =
      let (x, xs, first) = rotate-cons k.current k.ready in
      let first' : rotate (order (count_tick k)) ≡ x ∷ xs =
        ap rotate (order-count_tick k) ∙ first in
      let result : ok g ≡ ok (switched x xs (count_tick k)) =
        sym e
        ∙ timer_used_up k (timer-HasMagic k e) none_left
        ∙ switch_away_rotates (count_tick k) x xs (count_tick-IsSound k h) (intr-count_tick k)
            first' in
      ap order (ok_injective result) ∙ order-switched (count_tick k) x xs ∙ sym first

  -- One with a tick left changes no order.
  order_left : ticks_left k ≢ 0 → order g ≡ order k
  order_left some_left =
      let result : ok g ≡ ok (spend_tick (count_tick k)) =
        sym e ∙ timer_left k (timer-HasMagic k e) some_left in
      ap order (ok_injective result) ∙ order-spend_tick (count_tick k) ∙ order-count_tick k

  timer-IsSound : IsSound g
  timer-IsSound =
      let m = intr_timer_handler-Moved k h (timer-HasMagic k e) in
      subst IsSound (ok_injective (sym m.done ∙ e)) m.sound

-- A series of clock interrupts, with nothing else between them, of which `n` end a time slice.
pub data Clock (k : Kernel) : ℕ → Kernel → Type 0 where
  start : Clock k 0 k
  tick :
      {n : ℕ} {f g : Kernel}
      → Clock k n f
      → ticks_left f ≢ 0
      → intr_timer_handler f ≡ ok g
      → Clock k n g
  expire :
      {n : ℕ} {f g : Kernel}
      → Clock k n f
      → ticks_left f ≡ 0
      → intr_timer_handler f ≡ ok g
      → Clock k (suc n) g

abbrev pub rotations : ℕ → List ℕ → List ℕ
rotations zero xs = xs
rotations (suc n) xs = rotate (rotations n xs)

Clock-order :
    {k g : Kernel} {n : ℕ} → IsSound k → Clock k n g → IsSound g × (order g ≡ rotations n (order k))
Clock-order h start = (h, refl)
Clock-order h (tick {f} {g} c left e) =
    let (h', o) = Clock-order h c in (timer-IsSound f h' g e, order_left f h' g e left ∙ o)
Clock-order h (expire {f} {g} c up e) =
    let (h', o) = Clock-order h c in
    (timer-IsSound f h' g e, order_used_up f h' g e up ∙ ap rotate o)

rotations-rotate : (n : ℕ) (xs : List ℕ) → rotations n (rotate xs) ≡ rotate (rotations n xs)
rotations-rotate zero xs = refl
rotations-rotate (suc n) xs = ap rotate (rotations-rotate n xs)

rotations-append :
    (us : List ℕ) (t : ℕ) (vs : List ℕ) → rotations (length us) (us ++ t ∷ vs) ≡ t ∷ vs ++ us
rotations-append [] t vs = ap (◌∷◌ t) (sym (append-nil vs))
rotations-append (u ∷ us) t vs =
    sym (rotations-rotate (length us) (u ∷ us ++ t ∷ vs))
    ∙ ap (rotations (length us)) (append_assoc us (t ∷ vs) (u ∷ []))
    ∙ rotations-append us t (vs ++ u ∷ [])
    ∙ ap (◌∷◌ t) (append_assoc vs (u ∷ []) us)

-- In a series of clock interrupts from a sound state, with no thread blocking or waking between
-- them, a thread with `length us` threads before it has the processor after that many slices have
-- ended; those before it then wait behind the others, in their order.
pub Clock-turn :
    (k g : Kernel) (us vs : List ℕ) (t : ℕ)
    → IsSound k
    → order k ≡ us ++ t ∷ vs
    → Clock k (length us) g
    → (g.current ≡ t) × (g.ready ≡ vs ++ us)
Clock-turn k g us vs t h before c =
    let after : order g ≡ t ∷ vs ++ us =
      (Clock-order h c).1 ∙ ap (rotations (length us)) before ∙ rotations-append us t vs in
    (cc, cc)

-- `n` clock interrupts in a row.
pub timer_times : ℕ → Kernel → Outcome Kernel
timer_times zero k = ok k
timer_times (suc n) k = intr_timer_handler k >>= timer_times n

spent :
    (k : Kernel)
    → HasMagic k
    → HasMagic (spend_tick (count_tick k))
      × (ticks_left (spend_tick (count_tick k)) ≡ ticks_left k - 1)
unfolding spend_tick count_tick
spent k magic = (ground arith, ground arith)

-- From a sound state with the magic number intact, a running thread whose `ticks` are `n` keeps the processor for `n` clock interrupts and loses it
-- at the next: that one succeeds too, and puts the thread behind all that are ready.
pub timer_times-slice :
    (n : ℕ) (k : Kernel)
    → IsSound k
    → HasMagic k
    → ticks_left k ≡ n
    → (f g : Kernel) × (timer_times n k ≡ ok f)
      × (order f ≡ order k)
      × (intr_timer_handler f ≡ ok g)
      × (order g ≡ rotate (order k))
unfolding timer_times
timer_times-slice zero k h magic e =
    let m = intr_timer_handler-Moved k h magic in
    (k, m.after, refl, refl, m.done, order_used_up k h m.after m.done e)
timer_times-slice (suc n) k h magic e =
    let k' = spend_tick (count_tick k) in
    let runs = timer_left k magic (ground arith) in
    let same = order_left k h k' runs (ground arith) in
    let (magic', one_less) = spent k magic in
    let (f, g, steps, same_f, last, turned) =
      timer_times-slice n k' (timer-IsSound k h k' runs) magic' (one_less ∙ (omega arith)) in
    (f, g, rw runs steps, same_f ∙ same, last, turned ∙ ap rotate same)
