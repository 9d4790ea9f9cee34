-- ===== src/IoQueue/Tests.antt =====
-- The theorems about the ring buffer at that queue.
use tinykernel.Base.{ap, length, arith}
use tinykernel.IoQueue.{Station, ioq_putchar, ioq_getchar, ioq_length}
use tinykernel.IoQueue.Bytes.{Put, Got, ioq_putchar-Put, ioq_getchar-Got}
use tinykernel.IoQueue.Example.{idle_reader, idle_reader-IsReady}

ioq_putchar-Put_instance : Put 65 idle_reader (ioq_putchar 65 idle_reader)
unfolding ioq_length
ioq_putchar-Put_instance = ioq_putchar-Put idle_reader idle_reader-IsReady 65 (omega arith)

first_byte : Put 65 idle_reader (ioq_putchar 65 idle_reader)
unfolding ioq_length
first_byte = ioq_putchar-Put idle_reader idle_reader-IsReady 65 (omega arith)

abbrev one_byte : Station
one_byte = first_byte.after

ioq_getchar-Got_instance : Got one_byte (ioq_getchar one_byte)
unfolding ioq_length
ioq_getchar-Got_instance =
    ioq_getchar-Got one_byte first_byte.ready (omega (arith, ap length first_byte.bytes))
