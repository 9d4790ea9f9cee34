-- ===== src/Fs/Writing/Chunks.antt =====
-- The loop of `file_write` against writing byte by byte.
use tinykernel.Base.{
  ℕ, zero, suc, ◌+◌, ◌-◌, ◌*◌, ◌/◌, ◌%◌, ◌^◌, ◌≤◌, ◌<◌, ◌≡◌, ◌≢◌, ◌⊎◌, refl, sym, ◌∙◌, ◌&&◌, true,
  false, some, ltb, leb, if◌then◌else◌, arith, u32, Bool-cases, inl, inr, ℕ_discrete,
}
use tinykernel.Fs.{Disk, patch, read_sectors, write_sectors, max_lba, on_disk}
use tinykernel.Fs.Reading.Chunks.{file_byte}
use tinykernel.Fs.Writing.{Progress, write_chunk, write_chunks}

-- The blocks `first` to `last` of a table are in different sectors.
abbrev pub AreApart : (ℕ → ℕ) → ℕ → ℕ → Type 0
AreApart blocks first last =
    (i j : ℕ) → first ≤ i → i ≤ last → first ≤ j → j ≤ last → blocks i ≡ blocks j → i ≡ j

-- A write of one sector.
sector_written :
    (lba : ℕ) (io_buf : ℕ → ℕ) (disk : Disk) (o : ℕ)
    → write_sectors lba io_buf 1 disk lba o ≡ io_buf o
unfolding write_sectors
sector_written lba io_buf disk o =
    let inside : (leb lba lba && ltb lba (lba + 1)) ≡ true = ground arith in
    let at : (lba - lba) * 512 + o ≡ o = omega arith in rw (inside, at) refl

sector_kept :
    (lba : ℕ) (io_buf : ℕ → ℕ) (disk : Disk) (s o : ℕ)
    → lba ≢ s
    → write_sectors lba io_buf 1 disk s o ≡ disk s o
unfolding write_sectors
sector_kept lba io_buf disk s o other =
    let outside : (leb lba s && ltb s (lba + 1)) ≡ false = ground (arith, other) in rw outside refl

module _ (blocks buf : ℕ → ℕ) (base count : ℕ) where
  -- The disk after the bytes `from` to `to` of `buf` have been appended to a file whose size was `base`: from the block on in which the file ended, every byte up to the new end is the old one or the one from `buf`, and sectors of no block of the file are as they were.
  pub record Appended (from to : ℕ) (disk disk' : Disk) : Type 0 where
    pub bytes :
        (p : ℕ)
        → base / 512 ≤ p / 512
        → p < base + to
        → file_byte disk' blocks p
          ≡ (if leb (base + from) p then buf (p - base) else file_byte disk blocks p)
    pub other :
        (s o : ℕ)
        → ((i : ℕ) → base / 512 ≤ i → i ≤ (base + count) / 512 → blocks i ≢ s)
        → disk' s o ≡ disk s o

  -- The state of the loop at its test: a round that does not keep the rest of its sector starts at the beginning of it.
  pub record InLoop (p : Progress) : Type 0 where
    pub in_size : p.bytes_written ≤ count
    pub size : p.i_size ≡ base + p.bytes_written
    pub left : p.size_left ≡ count - p.bytes_written
    pub pos : p.fd_pos ≡ u32 (base + 2 ^ 32 - 1 + p.bytes_written)
    pub keeps : (p.first_write_block ≡ true) ⊎ ((p.bytes_written ≡ count) ⊎ (p.i_size % 512 ≡ 0))

  -- One round.
  record Advances (p p' : Progress) : Type 0 where
    further : p.bytes_written < p'.bytes_written
    again : InLoop p'
    appended : Appended p.bytes_written p'.bytes_written p.disk p'.disk

  module _ (apart : AreApart blocks (base / 512) ((base + count) / 512))
      (fits : base + count < 2 ^ 32) where
    -- The buffer that a round writes, at an offset below the end of what it adds.
    module _ (p : Progress) (v : InLoop p) (more : p.bytes_written < count) (chunk q : ℕ) where
      io : ℕ → ℕ
      io =
          patch (p.i_size % 512) chunk (λ i. buf (p.bytes_written + i))
            (if p.first_write_block
              then read_sectors (blocks (p.i_size / 512)) 1 p.disk (λ i. 0)
              else (λ i. 0))

      io-here :
          q < p.i_size + chunk
          → q / 512 ≡ p.i_size / 512
          → io (q % 512) ≡ (
              if leb (base + p.bytes_written) q
              then buf (q - base)
              else p.disk (blocks (p.i_size / 512)) (q % 512))
      unfolding io read_sectors
      io-here hi here = elim (Bool-cases (leb (base + p.bytes_written) q)) [
        | inl new ↦
            let inside : (leb (p.i_size % 512) (q % 512) && ltb (q % 512) (p.i_size % 512 + chunk))
                ≡ true =
              ground (arith, new, v.size) in
            let from : p.bytes_written + (q % 512 - p.i_size % 512) ≡ q - base =
              ground (arith, new, v.size) in
            rw (new, inside, from) refl
        | inr old ↦
            let outside : leb (p.i_size % 512) (q % 512) ≡ false = ground (arith, old, v.size) in
            let keeps : p.first_write_block ≡ true = elim v.keeps [
              | inl first ↦ first
              | inr (inl all) ↦ absurd (omega (arith, all, more))
              | inr (inr start) ↦ absurd (ground (arith, outside, start))
            ] in
            let at : ltb (q % 512) (1 * 512) ≡ true = ground arith in
            let sector : blocks (p.i_size / 512) + q % 512 / 512 ≡ blocks (p.i_size / 512) =
              omega arith in
            let off : q % 512 % 512 ≡ q % 512 = omega arith in
            rw (old, outside, keeps, at, sector, off) refl
      ]

      disk-after :
          chunk ≤ 512 - p.i_size % 512
          → chunk ≤ count - p.bytes_written
          → base / 512 ≤ q / 512
          → q < p.i_size + chunk
          → file_byte (write_sectors (blocks (p.i_size / 512)) io 1 p.disk) blocks q
            ≡ (if leb (base + p.bytes_written) q then buf (q - base) else file_byte p.disk blocks q)
      disk-after in_sector in_left lo hi = elim (ℕ_discrete (q / 512) (p.i_size / 512)) [
        | yes here ↦
            rw here (sector_written (blocks (p.i_size / 512)) io p.disk (q % 512) ∙ io-here hi here)
        | no other ↦
            let before : leb (base + p.bytes_written) q ≡ false =
              ground (arith, other, in_sector, v.size) in
            sector_kept (blocks (p.i_size / 512)) io p.disk (blocks (q / 512)) (q % 512) (λ e.
              other (
                apart (q / 512) (p.i_size / 512) lo (omega (arith, hi, v.size, in_left, more))
                  (omega (arith, v.size)) (omega (arith, v.size, more)) (sym e)))
            ∙ rw before refl
      ]

    write_chunk-Advances :
        (p : Progress) → InLoop p → p.bytes_written < count → Advances p (write_chunk blocks buf p)
    unfolding write_chunk io
    write_chunk-Advances p v more =
        let chunk : ℕ =
          if ltb p.size_left (512 - p.i_size % 512) then p.size_left else 512 - p.i_size % 512 in
        let some_bytes : 0 < chunk = ground (arith, more, v.left) in
        let in_left : chunk ≤ count - p.bytes_written = ground (arith, v.left) in
        let in_sector : chunk ≤ 512 - p.i_size % 512 = ground arith in
        let whole : (chunk ≡ count - p.bytes_written) ⊎ (chunk ≡ 512 - p.i_size % 512) =
          ground (arith, v.left) in
        let read : u32 (p.bytes_written + chunk) ≡ p.bytes_written + chunk =
          omega (arith, in_left, fits) in
        record {
          further = omega (arith, some_bytes, read);
          again = record {
            in_size = omega (arith, in_left, read, more);
            size = omega (arith, in_left, read, more, v.size, fits);
            left = omega (arith, in_left, read, more, v.left);
            pos = omega (arith, in_left, read, v.pos, fits);
            keeps = inr (elim whole [
              | inl all ↦ inl (omega (arith, all, read, more))
              | inr sector ↦ inr (omega (arith, sector, read, v.size, in_left, fits))
            ]);
          };
          appended = record {
            bytes = λ q lo hi.
                disk-after p v more chunk q in_sector in_left lo (omega (arith, hi, read, v.size));
            other = λ s o none_of.
                sector_kept (blocks (p.i_size / 512)) (io p v more chunk 0) p.disk s o
                  (none_of (p.i_size / 512) (omega (arith, v.size)) (omega (arith, v.size, more)));
          };
        }

    -- One round after another.
    Appended-then :
        {from mid to : ℕ} {d d1 d2 : Disk}
        → from ≤ mid
        → Appended from mid d d1
        → Appended mid to d1 d2
        → Appended from to d d2
    Appended-then {from} {mid} {to} {d} {d1} {d2} order a b = record {
      bytes = λ q lo hi. elim (Bool-cases (leb (base + mid) q)) [
        | inl later ↦ b.bytes q lo hi ∙ (ground (arith, later, order))
        | inr earlier ↦ b.bytes q lo hi ∙ rw earlier (a.bytes q lo (ground (arith, earlier)))
      ];
      other = λ s o none_of. b.other s o none_of ∙ a.other s o none_of;
    }

    -- The end of the loop.
    pub record Written (p : Progress) (q : Progress) : Type 0 where
      pub size : q.i_size ≡ base + count
      pub pos : q.fd_pos ≡ u32 (base + 2 ^ 32 - 1 + count)
      pub written : q.bytes_written ≡ count
      pub appended : Appended p.bytes_written count p.disk q.disk

    -- With fuel for each byte that is left, and blocks that the driver accepts, the loop ends and has written every byte.
    pub write_chunks-Written :
        (fuel : ℕ) (p : Progress)
        → count - p.bytes_written < fuel
        → InLoop p
        → ((i : ℕ) → base / 512 ≤ i → i ≤ (base + count) / 512 → blocks i ≤ max_lba)
        → (q : Progress) × (write_chunks fuel blocks buf count p ≡ some q) × Written p q
    unfolding write_chunks
    write_chunks-Written zero p enough v reach = absurd (omega arith)
    write_chunks-Written (suc fuel) p enough v reach =
        elim (Bool-cases (ltb p.bytes_written count)) [
          | inr done ↦
              let all : p.bytes_written ≡ count = ground (arith, done, v.in_size) in
              (
                p,
                rw done refl,
                record {
                  size = omega (arith, all, v.size);
                  pos = omega (arith, all, v.pos);
                  written = all;
                  appended = record {
                    bytes = λ q lo hi. ground (arith, all, hi);
                    other = λ s o none_of. refl;
                  };
                },
              )
          | inl more ↦
              let a = write_chunk-Advances p v (ground arith) in
              let driver : on_disk (blocks (p.i_size / 512)) 1 ≡ true = ground (
                arith,
                reach (p.i_size / 512) (omega (arith, v.size)) (omega (arith, v.size, v.in_size)),
              ) in
              let (q, done, w) =
                write_chunks-Written fuel (write_chunk blocks buf p)
                  (omega (arith, a.further, a.again.in_size)) a.again reach in
              (
                q,
                rw (more, driver) done,
                record {
                  size = w.size;
                  pos = w.pos;
                  written = w.written;
                  appended = Appended-then (omega (arith, a.further)) a.appended w.appended;
                },
              )
        ]
