-- ===== src/IoQueue/Contents.antt =====
-- The bytes that a ring buffer holds, as a list.
use tinykernel.Base.{
  ℕ, zero, suc, ◌+◌, ◌%◌, ◌≤◌, ◌<◌, ◌≡◌, ◌≢◌, refl, sym, ap, ◌∙◌, List, [], ◌∷◌, ◌++◌, arith, ◌==◌,
  update, length,
}
use tinykernel.IoQueue.{IoQueue, next_pos, ioq_length, insert_byte, remove_byte}

-- The `n` bytes from `pos` on, around the end of the buffer.
abbrev pub ring : (ℕ → ℕ) → ℕ → ℕ → List ℕ
ring buf pos zero = []
ring buf pos (suc n) = buf pos ∷ ring buf (next_pos pos) n

abbrev pub held : IoQueue → List ℕ
held ioq = ring ioq.buf ioq.tail (ioq_length ioq)

-- Both positions are inside the buffer.
pub record InBuffer (ioq : IoQueue) : Type 0 where
  pub head_small : ioq.head < 2048
  pub tail_small : ioq.tail < 2048

pub length-ring : (buf : ℕ → ℕ) (pos n : ℕ) → length (ring buf pos n) ≡ n
length-ring buf pos zero = refl
length-ring buf pos (suc n) = ap suc (length-ring buf (next_pos pos) n)

next_pos_small : (pos : ℕ) → next_pos pos < 2048
next_pos_small pos = omega arith

next_pos_plus : (pos n : ℕ) → (next_pos pos + n) % 2048 ≡ (pos + suc n) % 2048
next_pos_plus pos n = omega arith

further : (pos n k : ℕ) → (pos + (suc n + k)) % 2048 ≡ (next_pos pos + (n + k)) % 2048
further pos n k = omega arith

ring-snoc :
    (buf : ℕ → ℕ) (pos n : ℕ)
    → pos < 2048
    → ring buf pos (suc n) ≡ ring buf pos n ++ buf ((pos + n) % 2048) ∷ []
ring-snoc buf pos zero at = ap (λ i. buf i ∷ []) (omega arith)
ring-snoc buf pos (suc n) at = ap (◌∷◌ (buf pos)) (
    ring-snoc buf (next_pos pos) n (next_pos_small pos)
    ∙ ap (λ i. ring buf (next_pos pos) n ++ buf i ∷ []) (next_pos_plus pos n))

-- Writing behind the bytes, `k` bytes further on in a buffer that has room for it, changes none of
-- them.
ring-update :
    (buf : ℕ → ℕ) (pos n k b : ℕ)
    → pos < 2048
    → n + k < 2048
    → ring (update buf ((pos + (n + k)) % 2048) b) pos n ≡ ring buf pos n
ring-update buf pos zero k b at room = refl
ring-update buf pos (suc n) k b at room =
    let elsewhere : (pos + (suc n + k)) % 2048 ≢ pos = λ e. omega arith in
    let same : update buf ((pos + (suc n + k)) % 2048) b pos ≡ buf pos = ground arith in
    let others : ring (update buf ((pos + (suc n + k)) % 2048) b) (next_pos pos) n
        ≡ ring buf (next_pos pos) n =
      ap (λ i. ring (update buf i b) (next_pos pos) n) (further pos n k)
      ∙ ring-update buf (next_pos pos) n k b (next_pos_small pos) (omega arith) in
    cc

module _ (ioq : IoQueue) (w : InBuffer ioq) where
  pub ioq_length-small : ioq_length ioq < 2048
  unfolding ioq_length
  ioq_length-small = ground (arith, w.head_small, w.tail_small)

  head_after : ioq.head ≡ (ioq.tail + ioq_length ioq) % 2048
  unfolding ioq_length
  head_after = ground (arith, w.head_small, w.tail_small)

  -- `ioq_length` counts the bytes.
  pub length-held : length (held ioq) ≡ ioq_length ioq
  length-held = length-ring ioq.buf ioq.tail (ioq_length ioq)

  -- The test of `ioq_empty`.
  pub empty-ioq_length : (ioq.head == ioq.tail) ≡ (ioq_length ioq == 0)
  unfolding ioq_length
  empty-ioq_length = ground (arith, w.head_small, w.tail_small)

  -- The test of `ioq_full`: one of the 2048 bytes is never used.
  pub full-ioq_length : (next_pos ioq.head == ioq.tail) ≡ (ioq_length ioq == 2047)
  unfolding ioq_length
  full-ioq_length = ground (arith, w.head_small, w.tail_small)

  pub length-insert_byte :
      (b : ℕ) → ioq_length ioq < 2047 → ioq_length (insert_byte b ioq) ≡ ioq_length ioq + 1
  unfolding ioq_length insert_byte
  length-insert_byte b room = ground (arith, w.head_small, w.tail_small)

  pub length-remove_byte : 1 ≤ ioq_length ioq → suc (ioq_length (remove_byte ioq)) ≡ ioq_length ioq
  unfolding ioq_length remove_byte
  length-remove_byte some_left = ground (arith, w.head_small, w.tail_small)

  pub held-insert_byte :
      (b : ℕ) → ioq_length ioq < 2047 → held (insert_byte b ioq) ≡ held ioq ++ b ∷ []
  unfolding insert_byte
  held-insert_byte b room =
      let n = ioq_length ioq in
      let here : ioq.head ≡ (ioq.tail + (n + 0)) % 2048 = head_after ∙ (omega arith) in
      let kept : ring (update ioq.buf ioq.head b) ioq.tail n ≡ held ioq =
        ap (λ i. ring (update ioq.buf i b) ioq.tail n) here
        ∙ ring-update ioq.buf ioq.tail n 0 b w.tail_small (omega (arith, room)) in
      let new : update ioq.buf ioq.head b ((ioq.tail + n) % 2048) ≡ b =
        ground (arith, head_after) in
      let longer : ioq_length (insert_byte b ioq) ≡ suc n =
        length-insert_byte b room ∙ (omega arith) in
      ap (ring (update ioq.buf ioq.head b) ioq.tail) longer
      ∙ ring-snoc (update ioq.buf ioq.head b) ioq.tail n w.tail_small
      ∙ (rw (kept, new))

  pub held-remove_byte : 1 ≤ ioq_length ioq → held ioq ≡ ioq.buf ioq.tail ∷ held (remove_byte ioq)
  unfolding remove_byte
  held-remove_byte some_left = ap (ring ioq.buf ioq.tail) (sym (length-remove_byte some_left))

  pub InBuffer-insert_byte : (b : ℕ) → InBuffer (insert_byte b ioq)
  unfolding insert_byte
  InBuffer-insert_byte b = record { head_small = omega arith; tail_small = w.tail_small }

  pub InBuffer-remove_byte : InBuffer (remove_byte ioq)
  unfolding remove_byte
  InBuffer-remove_byte = record { head_small = w.head_small; tail_small = omega arith }
