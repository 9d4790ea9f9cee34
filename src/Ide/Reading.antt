-- ===== src/Ide/Reading.antt =====
-- `ide_read` of device/ide.c.
use tinykernel.Base.{
  ℕ, zero, suc, ◌+◌, ◌-◌, ◌*◌, ◌/◌, ◌%◌, ◌≤◌, ◌<◌, ◌≡◌, inl, inr, refl, ap, ◌∙◌, true, false, ◌&&◌,
  ltb, leb, if◌then◌else◌, u32, arith, Bool-cases, Outcome, ok, ◌>>=◌,
}
use tinykernel.Fs.{Disk, patch, read_sectors}
use tinykernel.Ide.{
  Channel, Controller, max_lba, select_disk, select_sector, cmd_out, sectors_now, read_op,
  read_rounds, ide_read,
}
use tinykernel.Ide.Ata.{IsAta, lba_of}
use tinykernel.Ide.Commands.{
  commanded, lba_of-commanded, unit_of-commanded, count_of-commanded, size_in_byte-small,
  sectors_now-small,
}
use tinykernel.Ide.Waiting.{IsIdle, busy_wait-ready, wait_done-cmd_out}

-- What a call has read: the bytes from the sector `lba` on are at the places from `lo` to `hi` of the buffer.
pub record Read (dev_no lba lo hi : ℕ) (buf : ℕ → ℕ) (channel : Channel)
    (r : Outcome ((ℕ → ℕ) × Channel)) : Type 0 where
  pub buf' : ℕ → ℕ
  pub channel' : Channel
  pub done : r ≡ ok (buf', channel')
  pub bytes :
      (i : ℕ)
      → buf' i ≡ (
          if leb (lo * 512) i && ltb i (hi * 512)
          then channel.disks dev_no (lba + i / 512) (i % 512)
          else buf i)
  pub disks : channel'.disks ≡ channel.disks
  pub idle : IsIdle channel'

-- Two calls that read one behind the other.
Read-then :
    (dev_no lba lo mid hi : ℕ) (buf : ℕ → ℕ) (channel : Channel) (r : Outcome ((ℕ → ℕ) × Channel))
    (next : (ℕ → ℕ) × Channel → Outcome ((ℕ → ℕ) × Channel))
    (first : Read dev_no lba lo mid buf channel r)
    → Read dev_no lba mid hi first.buf' first.channel' (next (first.buf', first.channel'))
    → lo ≤ mid
    → mid ≤ hi
    → Read dev_no lba lo hi buf channel (r >>= next)
Read-then dev_no lba lo mid hi buf channel r next first later from to = record {
  buf' = later.buf';
  channel' = later.channel';
  done = rw first.done later.done;
  bytes = λ i.
      (let same : first.channel'.disks dev_no (lba + i / 512) (i % 512)
            ≡ channel.disks dev_no (lba + i / 512) (i % 512) =
          ap (λ (d : ℕ → Disk). d dev_no (lba + i / 512) (i % 512)) first.disks in
        later.bytes i ∙ ground (arith, first.bytes i, same, from, to));
  disks = later.disks ∙ first.disks;
  idle = later.idle;
}

module _ (c : Controller) (ata : IsAta c) (dev_no : ℕ) (unit : dev_no < 2) where
  data_in-sector :
      (lba secs_done secs_op i : ℕ) (disks : ℕ → Disk)
      → 0 < secs_op
      → secs_op ≤ 256
      → secs_op ≤ c.block
      → lba + secs_done ≤ max_lba
      → secs_done * 512 ≤ i
      → i < (secs_done + secs_op) * 512
      → c.data_in (commanded dev_no (lba + secs_done) secs_op 0x20) disks (i - secs_done * 512)
        ≡ disks dev_no (lba + i / 512) (i % 512)
  data_in-sector lba secs_done secs_op i disks nonzero few ready inside lo hi =
      let r = commanded dev_no (lba + secs_done) secs_op 0x20 in
      let k = i - secs_done * 512 in
      let count = count_of-commanded dev_no (lba + secs_done) secs_op 0x20 nonzero few in
      let sector : lba + secs_done + k / 512 ≡ lba + i / 512 = omega (arith, lo) in
      let offset : k % 512 ≡ i % 512 = omega (arith, lo) in
      ata.reads r disks k refl (rw count ready) (rw count (omega (arith, lo, hi)))
      ∙ ap (λ (d : ℕ). disks d (lba_of r + k / 512) (k % 512))
          (unit_of-commanded dev_no (lba + secs_done) secs_op 0x20 unit inside)
      ∙ ap (λ (l : ℕ). disks dev_no (l + k / 512) (k % 512))
          (lba_of-commanded dev_no (lba + secs_done) secs_op 0x20 inside)
      ∙ ap (λ (l : ℕ). disks dev_no l (k % 512)) sector
      ∙ ap (disks dev_no (lba + i / 512)) offset

  patched :
      (lba secs_done secs_op i : ℕ) (buf : ℕ → ℕ) (disks : ℕ → Disk)
      → 0 < secs_op
      → secs_op ≤ 256
      → secs_op ≤ c.block
      → lba + secs_done ≤ max_lba
      → patch
          (secs_done * 512)
          (secs_op * 512)
          (c.data_in (commanded dev_no (lba + secs_done) secs_op 0x20) disks)
          buf
          i
        ≡ (if leb (secs_done * 512) i && ltb i ((secs_done + secs_op) * 512)
            then disks dev_no (lba + i / 512) (i % 512)
            else buf i)
  patched lba secs_done secs_op i buf disks nonzero few ready inside =
      let ends : ltb i (secs_done * 512 + secs_op * 512) ≡ ltb i ((secs_done + secs_op) * 512) =
        ap (ltb i) (omega arith) in
      elim (Bool-cases (leb (secs_done * 512) i && ltb i ((secs_done + secs_op) * 512))) [
        | inl here ↦
            rw (ends, here)
              (data_in-sector lba secs_done secs_op i disks nonzero few ready inside
                (ground (arith, here)) (ground (arith, here)))
        | inr elsewhere ↦ rw (ends, elsewhere) refl
      ]

  read_op-Read :
      (lba secs_done secs_op : ℕ) (buf : ℕ → ℕ) (channel : Channel)
      → IsIdle channel
      → 0 < secs_op
      → secs_op ≤ 256
      → secs_op ≤ c.block
      → lba + secs_done ≤ max_lba
      → Read dev_no lba secs_done
          (secs_done + secs_op)
          buf
          channel
          (read_op c dev_no lba secs_done secs_op buf channel)
  unfolding read_op select_sector cmd_out
  read_op-Read lba secs_done secs_op buf channel v nonzero few ready inside =
      let at = v.ready (channel.time + 1) in
      let r = commanded dev_no (lba + secs_done) secs_op 0x20 in
      let fits : u32 (lba + secs_done) ≡ lba + secs_done = omega (arith, inside) in
      let selected : Channel = record channel {
        registers = record r { cmd = channel.registers.cmd };
      } in
      let woken : Channel = record channel {
        registers = r;
        expecting_intr = false;
        time = channel.time + 1;
      } in
      let asserted : leb (lba + secs_done) max_lba ≡ true = ground (arith, inside) in
      record {
        buf' = patch (secs_done * 512) (secs_op * 512) (c.data_in r channel.disks) buf;
        channel' = record woken { time = at.at + 1 + 1 };
        done =
            rw
              (
                fits,
                asserted,
                wait_done-cmd_out 0x20 selected
                    (record { irq = v.irq; none_done = v.none_done; ready = v.ready }),
                busy_wait-ready woken at,
                size_in_byte-small secs_op nonzero few,
              )
              refl;
        bytes = λ i. patched lba secs_done secs_op i buf channel.disks nonzero few ready inside;
        disks = refl;
        idle = record { irq = v.irq; none_done = v.none_done; ready = v.ready };
      }

  -- The loop from `secs_done` on, with fuel for one round per sector and one more.
  read_rounds-Read :
      (fuel lba sec_cnt secs_done : ℕ) (buf : ℕ → ℕ) (channel : Channel)
      → IsIdle channel
      → secs_done ≤ sec_cnt
      → sec_cnt < secs_done + fuel
      → lba + sec_cnt ≤ max_lba + 1
      → ((n : ℕ) → n ≤ sec_cnt → n ≤ 256 → n ≤ c.block)
      → Read dev_no lba secs_done sec_cnt buf channel
          (read_rounds c dev_no fuel lba sec_cnt secs_done buf channel)
  unfolding read_rounds
  read_rounds-Read zero lba sec_cnt secs_done buf channel v so_far enough inside holds =
      absurd (omega (arith, so_far, enough))
  read_rounds-Read (suc fuel) lba sec_cnt secs_done buf channel v so_far enough inside holds =
      elim (Bool-cases (ltb secs_done sec_cnt)) [
        | inr all ↦
            (let same : secs_done ≡ sec_cnt = ground (arith, all, so_far) in
              rw all (record {
                buf' = buf;
                channel' = channel;
                done = refl;
                bytes = λ i. ground (arith, same);
                disks = refl;
                idle = v;
              }))
        | inl more ↦
            (let secs_op = sectors_now secs_done sec_cnt in
              let (nonzero, few, up_to) =
                sectors_now-small secs_done sec_cnt (ground (arith, more))
                  (omega (arith, inside)) in
              let first =
                read_op-Read lba secs_done secs_op buf channel v nonzero few
                  (holds secs_op (omega (arith, up_to)) few)
                  (omega (arith, inside, up_to, nonzero)) in
              rw more (
                Read-then dev_no lba secs_done (secs_done + secs_op) sec_cnt buf channel
                  (read_op c dev_no lba secs_done secs_op buf channel)
                  (λ (buf', channel').
                    read_rounds c dev_no fuel lba sec_cnt (secs_done + secs_op) buf' channel')
                  first
                  (read_rounds-Read fuel lba sec_cnt (secs_done + secs_op) first.buf' first.channel'
                    first.idle up_to (omega (arith, enough, nonzero)) inside holds)
                  (omega arith) up_to))
      ]

  -- `ide_read` of one of the two disks, by a controller that keeps to ATA, of at least one sector, with every sector below the 80 MB that the driver allows, and no round for more sectors than the controller has ready at one interrupt, on a channel on which nobody waits and whose status register says in time that the disk is ready: it returns, the first bytes of the buffer are those of the sectors, the others are as they were, and so are the disks.
  pub ide_read-Read :
      (fuel lba sec_cnt : ℕ) (buf : ℕ → ℕ) (channel : Channel)
      → IsIdle channel
      → 0 < sec_cnt
      → lba + sec_cnt ≤ max_lba + 1
      → ((n : ℕ) → n ≤ sec_cnt → n ≤ 256 → n ≤ c.block)
      → sec_cnt < fuel
      → (buf' : ℕ → ℕ) × (channel' : Channel) × (ide_read c dev_no fuel lba buf sec_cnt channel
          ≡ ok (buf', channel'))
        × ((i : ℕ) → buf' i ≡ read_sectors lba sec_cnt (channel.disks dev_no) buf i)
        × (channel'.disks ≡ channel.disks)
        × IsIdle channel'
  unfolding ide_read select_disk read_sectors
  ide_read-Read fuel lba sec_cnt buf channel v nonzero inside holds enough =
      let r =
        read_rounds-Read fuel lba sec_cnt 0 buf (select_disk dev_no channel)
          (record { irq = v.irq; none_done = v.none_done; ready = v.ready }) (omega arith)
          (omega (arith, enough)) inside holds in
      let allowed : leb lba max_lba ≡ true = ground (arith, inside, nonzero) in
      let wanted : ltb 0 sec_cnt ≡ true = ground (arith, nonzero) in
      (
        r.buf',
        r.channel',
        rw (allowed, wanted) r.done,
        (λ i. r.bytes i ∙ ground arith),
        r.disks,
        r.idle,
      )
