-- ===== src/IoQueue/Example.antt =====
-- A queue whose next byte wraps around, and whose consumer sleeps.
use tinykernel.Base.{◌≡◌, refl, [], none, some, arith}
use tinykernel.Thread.Example.{masked, masked-IsSound}
use tinykernel.Sync.{lock_init}
use tinykernel.IoQueue.{Station, ioq_length}
use tinykernel.IoQueue.Contents.{held}
use tinykernel.IoQueue.Bytes.{IsReady}

abbrev pub idle_reader : Station
idle_reader = record {
  ioq = record {
    lock = lock_init;
    producer = none;
    consumer = some 7;
    buf = λ i. 0;
    head = 2047;
    tail = 2047;
  };
  kernel = masked;
}

pub idle_reader-IsReady : IsReady idle_reader
idle_reader-IsReady = record {
  inside = record { head_small = omega arith; tail_small = omega arith };
  masked = refl;
  sound = masked-IsSound;
  producer_sleeps = λ t e. absurd (ground arith);
  consumer_sleeps = λ t e. (ground arith, ground arith);
  apart = λ t e. absurd (ground arith);
}

pub held-idle_reader : held idle_reader.ioq ≡ []
unfolding ioq_length
held-idle_reader = refl
