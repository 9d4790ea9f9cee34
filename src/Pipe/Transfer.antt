-- ===== src/Pipe/Transfer.antt =====
-- What comes out of a pipe is what went in.
use tinykernel.Base.{
  ℕ, zero, suc, ◌+◌, ◌-◌, ◌≤◌, ◌<◌, ◌≡◌, refl, sym, ap, subst, ◌∙◌, inl, inr, true, false, List, [],
  ◌∷◌, ◌++◌, Option, none, some, arith, ◌==◌, ltb, if◌then◌else◌, update, length, length-append,
  Outcome, ok, Bool-cases, ℕ_discrete,
}
use mathlib.Core.List.{append-nil, append_assoc}
use tinykernel.IoQueue.{Station, ioq_length}
use tinykernel.IoQueue.Contents.{held, length-held, ioq_length-small}
use tinykernel.IoQueue.Bytes.{IsReady, ioq_putchar-Put, ioq_putchar_waits, ioq_getchar-Got}
use tinykernel.Pipe.{read_loop, pipe_read, write_loop, pipe_write}

-- The `n` bytes of memory from offset `i` on.
abbrev pub bytes_at : (ℕ → ℕ) → ℕ → ℕ → List ℕ
bytes_at buf i zero = []
bytes_at buf i (suc n) = buf i ∷ bytes_at buf (i + 1) n

length-bytes_at : (buf : ℕ → ℕ) (i n : ℕ) → length (bytes_at buf i n) ≡ n
length-bytes_at buf i zero = refl
length-bytes_at buf i (suc n) = ap suc (length-bytes_at buf (i + 1) n)

-- `n` bytes have gone from the front of the queue to the memory from offset `i` on, and the rest of
-- the memory is as it was.
pub record Read (i n : ℕ) (buf : ℕ → ℕ) (s : Station) (r : Outcome (Option (ℕ × (ℕ → ℕ) × Station)))
    : Type 0 where
  pub memory : ℕ → ℕ
  pub after : Station
  pub done : r ≡ ok (some (i + n, memory, after))
  pub ready : IsReady after
  pub bytes : held s.ioq ≡ bytes_at memory i n ++ held after.ioq
  pub below : (j : ℕ) → j < i → memory j ≡ buf j
  pub above : (j : ℕ) → i + n ≤ j → memory j ≡ buf j

read_loop-Read :
    (n : ℕ) (buf : ℕ → ℕ) (i : ℕ) (s : Station)
    → IsReady s
    → n ≤ length (held s.ioq)
    → Read i n buf s (read_loop n buf i s)
unfolding read_loop
read_loop-Read zero buf i s h enough = record {
  memory = buf;
  after = s;
  done = ap (λ j. ok (some (j, buf, s))) (omega arith);
  ready = h;
  bytes = refl;
  below = λ j lt. refl;
  above = λ j ge. refl;
}
read_loop-Read (suc n) buf i s h enough =
    let g = ioq_getchar-Got s h (omega (arith, enough)) in
    let left : n ≤ length (held g.after.ioq) = omega (arith, enough, ap length g.bytes) in
    let r = read_loop-Read n (update buf i g.byte) (i + 1) g.after g.ready left in
    let first : r.memory i ≡ g.byte = r.below i (omega arith) ∙ (ground arith) in
    record {
      memory = r.memory;
      after = r.after;
      done = rw g.done (r.done ∙ ap (λ j. ok (some (j, r.memory, r.after))) (omega arith));
      ready = r.ready;
      bytes = g.bytes ∙ (rw (first, r.bytes));
      below = λ j lt. r.below j (omega (arith, lt)) ∙ (ground arith);
      above = λ j ge. r.above j (omega (arith, ge)) ∙ (ground arith);
    }

-- `n` bytes of memory from offset `i` on have gone to the end of the queue.
pub record Written (i n : ℕ) (buf : ℕ → ℕ) (s : Station) (r : Outcome (Option (ℕ × Station)))
    : Type 0 where
  pub after : Station
  pub done : r ≡ ok (some (i + n, after))
  pub ready : IsReady after
  pub bytes : held after.ioq ≡ held s.ioq ++ bytes_at buf i n

write_loop-Written :
    (n : ℕ) (buf : ℕ → ℕ) (i : ℕ) (s : Station)
    → IsReady s
    → length (held s.ioq) + n ≤ 2047
    → Written i n buf s (write_loop n buf i s)
unfolding write_loop
write_loop-Written zero buf i s h room = record {
  after = s;
  done = ap (λ j. ok (some (j, s))) (omega arith);
  ready = h;
  bytes = sym (append-nil (held s.ioq));
}
write_loop-Written (suc n) buf i s h room =
    let p = ioq_putchar-Put s h (buf i) (omega (arith, room)) in
    let longer : length (held p.after.ioq) ≡ length (held s.ioq) + 1 =
      ap length p.bytes ∙ length-append (held s.ioq) (buf i ∷ []) in
    let w = write_loop-Written n buf (i + 1) p.after p.ready (omega (arith, room, longer)) in
    record {
      after = w.after;
      done = rw p.done (w.done ∙ ap (λ j. ok (some (j, w.after))) (omega arith));
      ready = w.ready;
      bytes =
          w.bytes
          ∙ ap (λ bs. bs ++ bytes_at buf (i + 1) n) p.bytes
          ∙ append_assoc (held s.ioq) (buf i ∷ []) (bytes_at buf (i + 1) n);
    }

write_loop_waits :
    (n : ℕ) (buf : ℕ → ℕ) (i : ℕ) (s : Station)
    → IsReady s
    → length (held s.ioq) ≤ 2047
    → 2048 ≤ length (held s.ioq) + n
    → write_loop n buf i s ≡ ok none
unfolding write_loop
write_loop_waits zero buf i s h small over = absurd (omega (arith, small, over))
write_loop_waits (suc n) buf i s h small over = elim (Bool-cases (length (held s.ioq) == 2047)) [
  | inl full ↦ rw (ioq_putchar_waits s h (buf i) (ground arith))
  | inr not_full ↦
      let room : length (held s.ioq) < 2047 = ground (arith, small) in
      let p = ioq_putchar-Put s h (buf i) room in
      let longer : length (held p.after.ioq) ≡ length (held s.ioq) + 1 =
        ap length p.bytes ∙ length-append (held s.ioq) (buf i ∷ []) in
      rw p.done (
        write_loop_waits n buf (i + 1) p.after p.ready (omega (arith, room, longer))
          (omega (arith, over, longer)))
]

module _ (s : Station) (h : IsReady s) (count : ℕ) (buf : ℕ → ℕ) where
  -- `pipe_read` never waits. It moves as many bytes as there are, but no more than `count`, from
  -- the front of the queue to the start of the memory behind `buf`, and changes no other memory.
  pub pipe_read-Read :
      Read 0
        (if ltb count (length (held s.ioq)) then count else length (held s.ioq))
        buf
        s
        (pipe_read count buf s)
  unfolding pipe_read
  pipe_read-Read =
      let counted = length-held s.ioq h.inside in
      let size : ℕ → ℕ = λ n. if ltb count n then count else n in
      subst (λ n. Read 0 (size (length (held s.ioq))) buf s (read_loop (size n) buf 0 s)) counted
        (read_loop-Read (size (length (held s.ioq))) buf 0 s h (ground arith))

  -- `pipe_write` of fewer bytes than `bufsize` less those in the queue puts all of them behind the
  -- others, in their order, and does not wait.
  pub pipe_write-Written :
      length (held s.ioq) + count < 2048 → Written 0 count buf s (pipe_write count buf s)
  unfolding pipe_write
  pipe_write-Written room =
      let counted = length-held s.ioq h.inside in
      let fits : ltb count (2048 - ioq_length s.ioq) ≡ true = ground arith in
      rw fits (write_loop-Written count buf 0 s h (omega (arith, room)))

  -- `pipe_write` of as many bytes as `bufsize` less those in the queue, or more, goes to sleep in
  -- the ring buffer, which takes one byte less than `bufsize`.
  pub pipe_write_waits : 2048 ≤ length (held s.ioq) + count → pipe_write count buf s ≡ ok none
  unfolding pipe_write
  pipe_write_waits over =
      let counted = length-held s.ioq h.inside in
      let small = ioq_length-small s.ioq h.inside in
      let cut : ltb count (2048 - ioq_length s.ioq) ≡ false = ground arith in
      rw cut (
        write_loop_waits (2048 - ioq_length s.ioq) buf 0 s h (omega (arith, counted, small))
          (omega (arith, counted, small)))

bytes_at_same :
    (n i : ℕ) (m b : ℕ → ℕ) (rest : List ℕ)
    → bytes_at m i n ++ rest ≡ bytes_at b i n
    → ((j : ℕ) → i ≤ j → j < i + n → m j ≡ b j) × (rest ≡ [])
bytes_at_same zero i m b rest e = (λ j ge lt. absurd (omega (arith, ge, lt)), e)
bytes_at_same (suc n) i m b rest e =
    let (others, none_left) = bytes_at_same n (i + 1) m b rest cc in
    let here : m i ≡ b i = cc in
    (
      λ j ge lt. elim (ℕ_discrete i j) [
        | yes same ↦ cc
        | no after ↦ others j (omega arith) (omega arith)
      ],
      none_left,
    )

-- With interrupts off, up to 2047 bytes that are written to an empty pipe, and then read by a call that has room for
-- them, come out as they went in and leave the pipe empty; neither call waits.
pub pipe_read-pipe_write :
    (s : Station) (count room : ℕ) (buf dest : ℕ → ℕ)
    → IsReady s
    → held s.ioq ≡ []
    → count ≤ 2047
    → count ≤ room
    → (s1 s2 : Station) × (memory : ℕ → ℕ) × (pipe_write count buf s ≡ ok (some (count, s1)))
      × (pipe_read room dest s1 ≡ ok (some (count, memory, s2)))
      × ((j : ℕ) → j < count → memory j ≡ buf j)
      × (held s2.ioq ≡ [])
pipe_read-pipe_write s count room buf dest h empty small fits =
    let w = pipe_write-Written s h count buf (ground (arith, empty)) in
    let filled : held w.after.ioq ≡ bytes_at buf 0 count =
      w.bytes ∙ ap (λ bs. bs ++ bytes_at buf 0 count) empty in
    let size : length (held w.after.ioq) ≡ count = ap length filled ∙ length-bytes_at buf 0 count in
    let r : Read 0 count dest w.after (pipe_read room dest w.after) =
      subst (λ n. Read 0 n dest w.after (pipe_read room dest w.after)) (ground (arith, size))
        (pipe_read-Read w.after w.ready room dest) in
    let (same, none_left) =
      bytes_at_same count 0 r.memory buf (held r.after.ioq) (sym r.bytes ∙ filled) in
    (
      w.after,
      r.after,
      r.memory,
      w.done ∙ ap (λ n. ok (some (n, w.after))) (omega arith),
      r.done ∙ ap (λ n. ok (some (n, r.memory, r.after))) (omega arith),
      λ j lt. same j (omega arith) (omega (arith, lt)),
      none_left,
    )
