-- ===== src/Ide/Writing.antt =====
-- `ide_write` of device/ide.c.
use tinykernel.Base.{ℕ, ◌+◌, ◌-◌, ◌*◌, ◌<◌, ◌≡◌, ◌&&◌, ◌==◌, ltb, leb, if◌then◌else◌, Outcome, ok}
use tinykernel.Fs.{Disk}
use tinykernel.Ide.{Channel}
use tinykernel.Ide.Waiting.{IsIdle}

-- The disks with the sectors from `lba + lo` to `lba + hi` of one of them from a buffer.
abbrev written : ℕ → ℕ → ℕ → ℕ → (ℕ → ℕ) → (ℕ → Disk) → ℕ → Disk
written dev_no lba lo hi buf disks d s o =
    if d == dev_no && (leb (lba + lo) s && ltb s (lba + hi))
    then buf ((s - lba) * 512 + o)
    else disks d s o

-- What a call has written.
pub record Written (dev_no lba lo hi : ℕ) (buf : ℕ → ℕ) (channel : Channel) (r : Outcome Channel)
    : Type 0 where
  pub channel' : Channel
  pub done : r ≡ ok channel'
  pub disks :
      (d s o : ℕ)
      → o < 512
      → channel'.disks d s o ≡ written dev_no lba lo hi buf channel.disks d s o
  pub idle : IsIdle channel'
