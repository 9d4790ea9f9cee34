-- ===== src/Pipe/Tests.antt =====
-- The theorems about pipes at an empty one.
use tinykernel.Base.{ℕ, ◌+◌, ◌<◌, ◌≡◌, ap, [], ok, none, some, length, arith}
use tinykernel.IoQueue.{Station}
use tinykernel.IoQueue.Contents.{held}
use tinykernel.IoQueue.Example.{idle_reader, idle_reader-IsReady, held-idle_reader}
use tinykernel.Pipe.{pipe_read, pipe_write}
use tinykernel.Pipe.Transfer.{Written, pipe_write-Written, pipe_write_waits, pipe_read-pipe_write}

abbrev text : ℕ → ℕ
text i = 97 + i

abbrev blank : ℕ → ℕ
blank i = 0

pipe_write-Written_instance : Written 0 3 text idle_reader (pipe_write 3 text idle_reader)
pipe_write-Written_instance =
    pipe_write-Written idle_reader idle_reader-IsReady 3 text
      (omega (arith, ap length held-idle_reader))

pipe_write_waits_instance : pipe_write 2048 text idle_reader ≡ ok none
pipe_write_waits_instance =
    pipe_write_waits idle_reader idle_reader-IsReady 2048 text
      (omega (arith, ap length held-idle_reader))

pipe_read-pipe_write_example :
    (s1 s2 : Station) × (memory : ℕ → ℕ) × (pipe_write 3 text idle_reader ≡ ok (some (3, s1)))
    × (pipe_read 5 blank s1 ≡ ok (some (3, memory, s2)))
    × ((j : ℕ) → j < 3 → memory j ≡ text j)
    × (held s2.ioq ≡ [])
pipe_read-pipe_write_example =
    pipe_read-pipe_write idle_reader 3 5 text blank idle_reader-IsReady held-idle_reader
      (omega arith) (omega arith)
