-- ===== src/Ide/Tests.antt =====
-- The disk driver on a concrete controller, which is busy for the first five reads of its status.
use tinykernel.Base.{
  ℕ, ◌+◌, ◌/◌, ◌%◌, ◌<◌, ◌≡◌, refl, ap, inl, false, ◌==◌, ltb, if◌then◌else◌, arith, ok, panic, [],
  ◌≢◌,
}
use tinykernel.Fs.{Disk, read_sectors, write_sectors}
use tinykernel.Ide.{Channel, Controller, busy_wait, ide_read}
use tinykernel.Ide.Ata.{IsAta, lba_of, unit_of}
use tinykernel.Ide.Waiting.{IsIdle, busy_wait-never}
use tinykernel.Ide.Partitions.{Scan, table_entry, partition_scan}
use tinykernel.Ide.Partitions.Primary.{Primaries, extents, partition_scan-Primaries}
use tinykernel.Ide.Reading.{ide_read-Read}

abbrev ata : Controller
ata = record {
  block = 256;
  data_in = λ r disks i. disks (unit_of r) (lba_of r + i / 512) (i % 512);
  data_out = λ r bytes n disks d s o.
      if d == unit_of r
      then write_sectors (lba_of r) bytes (n / 512) (disks d) s o
      else disks d s o;
}

ata-IsAta : IsAta ata
ata-IsAta = record {
  reads = λ r disks i is_read ready small. refl;
  writes = λ r bytes disks d s o is_write ready small.
      ap
        (λ (n : ℕ).
          if d == unit_of r then write_sectors (lba_of r) bytes n (disks d) s o else disks d s o)
        (omega arith);
}

abbrev channel : Channel
channel = record {
  irq_no = 0x2e;
  expecting_intr = false;
  disk_done = 0;
  registers = record { sect_cnt = 0; lba_l = 0; lba_m = 0; lba_h = 0; dev = 0; cmd = 0 };
  status = λ k. if ltb k 5 then 0x80 else 0x48;
  time = 0;
  disks = λ d s o. d + s;
}

channel-IsIdle : IsIdle channel
channel-IsIdle = record {
  irq = inl refl;
  none_done = refl;
  ready = λ k. record {
    at = if ltb k 5 then 5 else k;
    later = ground arith;
    soon = ground arith;
    busy = λ j lo hi. ground (arith, lo, hi);
    idle = ground arith;
    ready = ground arith;
  };
}

-- 300 sectors: two rounds.
ide_read-Read_example :
    (buf' : ℕ → ℕ) × (channel' : Channel) × (ide_read ata 1 301 10 (λ i. 7) 300 channel
      ≡ ok (buf', channel'))
    × ((i : ℕ) → buf' i ≡ read_sectors 10 300 (channel.disks 1) (λ j. 7) i)
    × (channel'.disks ≡ channel.disks)
    × IsIdle channel'
ide_read-Read_example =
    ide_read-Read ata ata-IsAta 1 (omega arith) 301 10 300 (λ i. 7) channel channel-IsIdle
      (omega arith) (omega arith) (λ n few small. small) (omega arith)

abbrev dead : Channel
dead = record channel { status = λ k. 0x80 }

busy_wait-never_instance : busy_wait dead ≡ (false, record dead { time = 29999 })
busy_wait-never_instance = busy_wait-never dead (λ j lo hi. refl)

-- A master boot record whose four entries are all in use.
abbrev mbr : Disk
mbr s o = if s == 0 then if o % 16 == 2 then 0x83 else 1 else 0

abbrev no_partitions : Scan
no_partitions = record {
  ext_lba_base = 0;
  p_no = 0;
  l_no = 0;
  prim_parts = λ k. record { start_lba = 0; sec_cnt = 0 };
  logic_parts = λ k. record { start_lba = 0; sec_cnt = 0 };
  partition_list = [];
}

mbr_linux : (i : ℕ) → i < 4 → (table_entry (mbr 0) i).fs_type ≢ 5
unfolding table_entry
mbr_linux i small = λ e. ground (arith, e, small)

partition_scan-Primaries_example :
    Primaries (extents (mbr 0) 4 0) no_partitions (partition_scan 1 mbr 0 no_partitions)
partition_scan-Primaries_example = partition_scan-Primaries 0 mbr no_partitions refl mbr_linux

four_primaries : partition_scan 1 mbr 0 no_partitions ≡ panic
unfolding table_entry
four_primaries = partition_scan-Primaries_example.1 (omega arith)
