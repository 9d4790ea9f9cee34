-- ===== src/Ide.antt =====
-- The disk driver, device/ide.c: interrupt handler, waiting, and the loops of `ide_read` and
-- `ide_write`. The lock of the channel and `mtime_sleep` are left out; `disk_done` is the value of
-- the semaphore, and the disk's interrupt comes when the driver waits for it. The controller and its
-- disks are parameters.
pub mod Ata
pub mod Commands
pub mod Waiting
pub mod Reading
pub mod Writing
pub mod Partitions
pub mod Tests
use tinykernel.Base.{
  ℕ, zero, suc, ◌+◌, ◌-◌, ◌*◌, ◌/◌, ◌%◌, ◌^◌, Bool, true, false, ◌||◌, ltb, leb, ◌==◌,
  if◌then◌else◌, u8, u32, Outcome, ok, panic, assert, ◌>>=◌, ◌>>◌,
}
pub use tinykernel.Fs.{max_lba}
use tinykernel.Fs.{Disk, patch}

-- What the driver has written to the ports of a channel.
pub record Registers : Type 0 where
  pub sect_cnt : ℕ
  pub lba_l : ℕ
  pub lba_m : ℕ
  pub lba_h : ℕ
  pub dev : ℕ
  pub cmd : ℕ

-- `struct ide_channel` without its name, its port and its lock, and with what stands behind the
-- port: the registers, the values that reads of the status register give one after the other, the
-- number of such reads so far, and the two disks.
pub record Channel : Type 0 where
  pub irq_no : ℕ
  pub expecting_intr : Bool
  pub disk_done : ℕ
  pub registers : Registers
  pub status : ℕ → ℕ
  pub time : ℕ
  pub disks : ℕ → Disk

-- The controller: how many sectors it has ready at one interrupt, the bytes that the data port gives behind a command, and what it makes of a number of bytes that are
-- written to the port.
pub record Controller : Type 0 where
  pub block : ℕ
  pub data_in : Registers → (ℕ → Disk) → ℕ → ℕ
  pub data_out : Registers → (ℕ → ℕ) → ℕ → (ℕ → Disk) → ℕ → Disk

-- BIT_DEV_MBS | BIT_DEV_LBA, and BIT_DEV_DEV for the second disk.
abbrev pub device_bits : ℕ → ℕ
device_bits dev_no = 0xa0 + 0x40 + (if dev_no == 1 then 0x10 else 0)

abbrev pub set_registers : Registers → Channel → Channel
set_registers r channel = record channel { registers = r }

unfoldable pub select_disk : ℕ → Channel → Channel
select_disk dev_no channel =
    set_registers (record channel.registers { dev = device_bits dev_no }) channel

-- Behind the `ASSERT`, `lba >> 24` has only bits that `device_bits` has not, so | is a sum.
unfoldable pub select_sector : ℕ → ℕ → ℕ → Channel → Outcome Channel
select_sector dev_no lba sec_cnt channel = do
  assert (leb lba max_lba)
  let r = channel.registers
  ok (
      set_registers
        (record r {
          sect_cnt = u8 sec_cnt;
          lba_l = u8 lba;
          lba_m = u8 (lba / 2 ^ 8);
          lba_h = u8 (lba / 2 ^ 16);
          dev = u8 (device_bits dev_no + lba / 2 ^ 24);
        })
        channel)

unfoldable pub cmd_out : ℕ → Channel → Channel
cmd_out cmd channel =
    set_registers (record channel.registers { cmd = cmd })
      (record channel { expecting_intr = true })

-- `size_in_byte` of `read_from_sector` and `write_to_sector`, whose `sec_cnt` is a `uint8_t`.
unfoldable pub size_in_byte : ℕ → ℕ
size_in_byte sec_cnt = let n = u8 sec_cnt in if n == 0 then 256 * 512 else n * 512

-- `inb` of the status register.
abbrev pub read_status : Channel → ℕ × Channel
read_status channel = (channel.status channel.time, record channel { time = channel.time + 1 })

-- The bits BIT_ALT_STAT_BSY and BIT_ALT_STAT_DRQ.
abbrev pub is_busy : ℕ → Bool
is_busy value = value / 2 ^ 7 % 2 == 1

abbrev pub has_data : ℕ → Bool
has_data value = value / 2 ^ 3 % 2 == 1

-- The loop of `busy_wait`; the first number is the value that `time_limit` has when the loop is left or entered.
unfoldable pub poll : ℕ → Channel → Bool × Channel
poll zero channel = (false, channel)
poll (suc left) channel =
    let (value, channel') = read_status channel in
    let rest = poll left channel' in
    let (value', channel'') = read_status channel' in
    if is_busy value then rest else (has_data value', channel'')

-- `time_limit -= 10 >= 0` subtracts 1: the first round is entered with 29999.
unfoldable pub busy_wait : Channel → Bool × Channel
busy_wait channel = poll (30 * 1000 - 1) channel

-- `intr_hd_handler`, with the channel of the number.
unfoldable pub intr_hd_handler : ℕ → Channel → Outcome Channel
intr_hd_handler irq_no channel = do
  assert (irq_no == 0x2e || irq_no == 0x2f)
  assert (channel.irq_no == irq_no)
  let up = record channel { expecting_intr = false; disk_done = channel.disk_done + 1 }
  ok (if channel.expecting_intr then (read_status up).1 else channel)

-- `sema_down(&disk_done)` behind the interrupt; to wait without one is a stop.
unfoldable pub take_done : Channel → Outcome Channel
take_done channel = elim channel.disk_done [
  | zero ↦ panic
  | suc value ↦ ok (record channel { disk_done = value })
]

unfoldable pub wait_done : Channel → Outcome Channel
wait_done channel =
    let interrupted = intr_hd_handler channel.irq_no channel >>= take_done in
    if channel.disk_done == 0 then interrupted else take_done channel

-- `secs_op`
unfoldable pub sectors_now : ℕ → ℕ → ℕ
sectors_now secs_done sec_cnt =
    if leb (u32 (secs_done + 256)) sec_cnt then 256 else sec_cnt - secs_done

-- A round of the loop of `ide_read`, and of that of `ide_write`.
unfoldable pub read_op :
    Controller → ℕ → ℕ → ℕ → ℕ → (ℕ → ℕ) → Channel → Outcome ((ℕ → ℕ) × Channel)
read_op c dev_no lba secs_done secs_op buf channel = do
  selected ← select_sector dev_no (u32 (lba + secs_done)) secs_op channel
  woken ← wait_done (cmd_out 0x20 selected)
  let (ready, waited) = busy_wait woken
  assert ready
  ok (
    patch (secs_done * 512) (size_in_byte secs_op) (c.data_in waited.registers waited.disks) buf,
    waited,
  )

unfoldable pub write_op : Controller → ℕ → ℕ → ℕ → ℕ → (ℕ → ℕ) → Channel → Outcome Channel
write_op c dev_no lba secs_done secs_op buf channel = do
  selected ← select_sector dev_no (u32 (lba + secs_done)) secs_op channel
  let (ready, waited) = busy_wait (cmd_out 0x30 selected)
  assert ready
  let bytes : ℕ → ℕ = λ i. buf (secs_done * 512 + i)
  wait_done (record waited {
    disks = c.data_out waited.registers bytes (size_in_byte secs_op) waited.disks;
  })

-- The loops, on fuel; to run out of it would be a stop.
unfoldable pub read_rounds :
    Controller → ℕ → (fuel : ℕ) → ℕ → ℕ → ℕ → (ℕ → ℕ) → Channel → Outcome ((ℕ → ℕ) × Channel)
read_rounds c dev_no zero lba sec_cnt secs_done buf channel = panic
read_rounds c dev_no (suc fuel) lba sec_cnt secs_done buf channel =
    let secs_op = sectors_now secs_done sec_cnt in
    let round = do
      (buf', channel') ← read_op c dev_no lba secs_done secs_op buf channel
      read_rounds c dev_no fuel lba sec_cnt (secs_done + secs_op) buf' channel'
    in if ltb secs_done sec_cnt then round else ok (buf, channel)

unfoldable pub write_rounds :
    Controller → ℕ → (fuel : ℕ) → ℕ → ℕ → ℕ → (ℕ → ℕ) → Channel → Outcome Channel
write_rounds c dev_no zero lba sec_cnt secs_done buf channel = panic
write_rounds c dev_no (suc fuel) lba sec_cnt secs_done buf channel =
    let secs_op = sectors_now secs_done sec_cnt in
    let round = do
      channel' ← write_op c dev_no lba secs_done secs_op buf channel
      write_rounds c dev_no fuel lba sec_cnt (secs_done + secs_op) buf channel'
    in if ltb secs_done sec_cnt then round else ok channel

unfoldable pub ide_read :
    Controller → ℕ → (fuel : ℕ) → ℕ → (ℕ → ℕ) → ℕ → Channel → Outcome ((ℕ → ℕ) × Channel)
ide_read c dev_no fuel lba buf sec_cnt channel = do
  assert (leb lba max_lba)
  assert (ltb 0 sec_cnt)
  read_rounds c dev_no fuel lba sec_cnt 0 buf (select_disk dev_no channel)

unfoldable pub ide_write : Controller → ℕ → (fuel : ℕ) → ℕ → (ℕ → ℕ) → ℕ → Channel → Outcome Channel
ide_write c dev_no fuel lba buf sec_cnt channel = do
  assert (leb lba max_lba)
  assert (ltb 0 sec_cnt)
  write_rounds c dev_no fuel lba sec_cnt 0 buf (select_disk dev_no channel)
