-- ===== src/Pipe.antt =====
-- pipe_read and pipe_write of shell/pipe.c, on the ring buffer of the pipe, which they find through
-- `fd_local2global` and the file table.
pub mod Transfer
mod Tests
use tinykernel.Base.{
  ℕ, zero, suc, ◌+◌, ◌-◌, ◌<◌, ◌≡◌, Bool, true, false, Option, none, some, ltb, if◌then◌else◌,
  update, Outcome, ok, ◌>>=◌,
}
use tinykernel.IoQueue.{Station, bufsize, ioq_length, ioq_getchar, ioq_putchar}

-- The loops, with `left` bytes to go; `none` is a call that goes to sleep in the ring buffer. The
-- memory behind `buf` is read and written at `bytes_read` or `bytes_write`.
pub read_loop : (left : ℕ) → (ℕ → ℕ) → ℕ → Station → Outcome (Option (ℕ × (ℕ → ℕ) × Station))
read_loop zero buf bytes_read s = ok (some (bytes_read, buf, s))
read_loop (suc left) buf bytes_read s = do
  got ← ioq_getchar s
  elim got [
    | none ↦ ok none
    | some (byte, s') ↦ read_loop left (update buf bytes_read byte) (bytes_read + 1) s'
  ]

pub pipe_read : ℕ → (ℕ → ℕ) → Station → Outcome (Option (ℕ × (ℕ → ℕ) × Station))
pipe_read count buf s =
    let ioq_len = ioq_length s.ioq in
    let size = if ltb count ioq_len then count else ioq_len in read_loop size buf 0 s

pub write_loop : (left : ℕ) → (ℕ → ℕ) → ℕ → Station → Outcome (Option (ℕ × Station))
write_loop zero buf bytes_write s = ok (some (bytes_write, s))
write_loop (suc left) buf bytes_write s = do
  put ← ioq_putchar (buf bytes_write) s
  elim put [ none ↦ ok none | some s' ↦ write_loop left buf (bytes_write + 1) s' ]

pub pipe_write : ℕ → (ℕ → ℕ) → Station → Outcome (Option (ℕ × Station))
pipe_write count buf s =
    let ioq_left = bufsize - ioq_length s.ioq in
    let size = if ltb count ioq_left then count else ioq_left in write_loop size buf 0 s
