-- ===== src/Ide/Commands.antt =====
-- What the registers of device/ide.c name behind a command, and the size of a round.
use tinykernel.Base.{ℕ, ◌+◌, ◌*◌, ◌/◌, ◌^◌, ◌≤◌, ◌<◌, ◌≡◌, inl, inr, ◌==◌, u8, arith, Bool-cases}
use tinykernel.Ide.{Registers, max_lba, device_bits, size_in_byte, sectors_now}
use tinykernel.Ide.Ata.{lba_of, count_of, unit_of}

-- The registers behind a command.
abbrev pub commanded : ℕ → ℕ → ℕ → ℕ → Registers
commanded dev_no lba sec_cnt cmd = record {
  sect_cnt = u8 sec_cnt;
  lba_l = u8 lba;
  lba_m = u8 (lba / 2 ^ 8);
  lba_h = u8 (lba / 2 ^ 16);
  dev = u8 (device_bits dev_no + lba / 2 ^ 24);
  cmd = cmd;
}

pub lba_of-commanded :
    (dev_no lba sec_cnt cmd : ℕ) → lba ≤ max_lba → lba_of (commanded dev_no lba sec_cnt cmd) ≡ lba
lba_of-commanded dev_no lba sec_cnt cmd h = elim (Bool-cases (dev_no == 1)) [
  | inl e ↦ rw e (omega (arith, h))
  | inr e ↦ rw e (omega (arith, h))
]

pub unit_of-commanded :
    (dev_no lba sec_cnt cmd : ℕ)
    → dev_no < 2
    → lba ≤ max_lba
    → unit_of (commanded dev_no lba sec_cnt cmd) ≡ dev_no
unit_of-commanded dev_no lba sec_cnt cmd d h = elim (Bool-cases (dev_no == 1)) [
  | inl e ↦ rw e (let one : dev_no ≡ 1 = ground (arith, e) in omega (arith, h, one))
  | inr e ↦ rw e (let nil : dev_no ≡ 0 = ground (arith, e, d) in omega (arith, h, nil))
]

pub count_of-commanded :
    (dev_no lba sec_cnt cmd : ℕ)
    → 0 < sec_cnt
    → sec_cnt ≤ 256
    → count_of (commanded dev_no lba sec_cnt cmd) ≡ sec_cnt
count_of-commanded dev_no lba sec_cnt cmd lo hi = ground (arith, lo, hi)

pub size_in_byte-small :
    (sec_cnt : ℕ) → 0 < sec_cnt → sec_cnt ≤ 256 → size_in_byte sec_cnt ≡ sec_cnt * 512
unfolding size_in_byte
size_in_byte-small sec_cnt lo hi = ground (arith, lo, hi)

pub sectors_now-small :
    (secs_done sec_cnt : ℕ)
    → secs_done < sec_cnt
    → sec_cnt ≤ max_lba + 1
    → (0 < sectors_now secs_done sec_cnt)
      × (sectors_now secs_done sec_cnt ≤ 256)
      × (secs_done + sectors_now secs_done sec_cnt ≤ sec_cnt)
unfolding sectors_now
sectors_now-small secs_done sec_cnt more few =
    (ground (arith, more, few), ground (arith, more, few), ground (arith, more, few))
