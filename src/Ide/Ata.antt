-- ===== src/Ide/Ata.antt =====
-- What device/ide.c relies on in the controller of a channel, as the ATA standard describes it.
use tinykernel.Base.{ℕ, ◌+◌, ◌*◌, ◌/◌, ◌%◌, ◌^◌, ◌≤◌, ◌<◌, ◌≡◌, true, false, ◌==◌, if◌then◌else◌}
use tinykernel.Fs.{Disk, write_sectors}
use tinykernel.Ide.{Registers, Controller, is_busy, has_data}

-- The sector, the number of sectors and the disk that the registers name; 0 stands for 256 sectors.
abbrev pub lba_of : Registers → ℕ
lba_of r = r.lba_l + 2 ^ 8 * r.lba_m + 2 ^ 16 * r.lba_h + 2 ^ 24 * (r.dev % 16)

abbrev pub count_of : Registers → ℕ
count_of r = if r.sect_cnt == 0 then 256 else r.sect_cnt

abbrev pub unit_of : Registers → ℕ
unit_of r = r.dev / 16 % 2

-- For a command that is not for more sectors than the controller has ready at one interrupt: behind READ SECTOR the data port gives the bytes of the sectors, and behind WRITE SECTOR the bytes that it is given come into them; the other disk stays.
pub record IsAta (c : Controller) : Type 0 where
  pub reads :
      (r : Registers) (disks : ℕ → Disk) (i : ℕ)
      → r.cmd ≡ 0x20
      → count_of r ≤ c.block
      → i < count_of r * 512
      → c.data_in r disks i ≡ disks (unit_of r) (lba_of r + i / 512) (i % 512)
  pub writes :
      (r : Registers) (bytes : ℕ → ℕ) (disks : ℕ → Disk) (d s o : ℕ)
      → r.cmd ≡ 0x30
      → count_of r ≤ c.block
      → o < 512
      → c.data_out r bytes (count_of r * 512) disks d s o ≡ (
          if d == unit_of r
          then write_sectors (lba_of r) bytes (count_of r) (disks d) s o
          else disks d s o)

-- After any number of reads of the status register, one of the next 29999 says that the disk is not busy, and the read behind the first that does says that it has data.
pub record ReadyAt (status : ℕ → ℕ) (k : ℕ) : Type 0 where
  pub at : ℕ
  pub later : k ≤ at
  pub soon : at < k + 29999
  pub busy : (j : ℕ) → k ≤ j → j < at → is_busy (status j) ≡ true
  pub idle : is_busy (status at) ≡ false
  pub ready : has_data (status (at + 1)) ≡ true

abbrev pub IsReady : (ℕ → ℕ) → Type 0
IsReady status = (k : ℕ) → ReadyAt status k
