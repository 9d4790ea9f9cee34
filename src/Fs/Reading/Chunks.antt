-- ===== src/Fs/Reading/Chunks.antt =====
-- The loop of `file_read` against reading byte by byte.
use tinykernel.Base.{
  ℕ, zero, suc, ◌+◌, ◌-◌, ◌/◌, ◌%◌, ◌^◌, ◌≤◌, ◌<◌, ◌≡◌, refl, ◌∙◌, ◌&&◌, some, ltb, leb,
  if◌then◌else◌, arith, u32, Bool-cases, inl, inr, true, ◌*◌,
}
use tinykernel.Fs.{Disk, max_lba, on_disk}
use tinykernel.Fs.Reading.{Progress, read_chunk, read_chunks}

-- Byte `p` of a file whose blocks are these.
abbrev pub file_byte : Disk → (ℕ → ℕ) → ℕ → ℕ
file_byte disk blocks p = disk (blocks (p / 512)) (p % 512)

-- The memory after the bytes `from` to `size` of what is read have been stored, for a file position that byte 0 has at `base`.
abbrev pub filled : Disk → (ℕ → ℕ) → (base from size : ℕ) → (ℕ → ℕ) → ℕ → ℕ
filled disk blocks base from size buf i =
    if leb from i && ltb i size then file_byte disk blocks (base + i) else buf i

-- The end of the loop.
pub record Finished (disk : Disk) (blocks : ℕ → ℕ) (base from size : ℕ) (buf : ℕ → ℕ) (p : Progress)
    : Type 0 where
  pub pos : p.fd_pos ≡ base + size
  pub read : p.bytes_read ≡ size
  pub bytes : (i : ℕ) → p.buf i ≡ filled disk blocks base from size buf i

-- One round reads at least one byte and at most what is left.
record Advances (disk : Disk) (blocks : ℕ → ℕ) (base size : ℕ) (p p' : Progress) : Type 0 where
  further : p.bytes_read < p'.bytes_read
  in_size : p'.bytes_read ≤ size
  pos : p'.fd_pos ≡ base + p'.bytes_read
  left : p'.size_left ≡ size - p'.bytes_read
  bytes : (i : ℕ) → p'.buf i ≡ filled disk blocks base p.bytes_read p'.bytes_read p.buf i

read_chunk-Advances :
    (disk : Disk) (blocks : ℕ → ℕ) (base size : ℕ) (p : Progress)
    → p.bytes_read < size
    → p.fd_pos ≡ base + p.bytes_read
    → p.size_left ≡ size - p.bytes_read
    → base + size < 2 ^ 32
    → Advances disk blocks base size p (read_chunk disk blocks p)
unfolding read_chunk
read_chunk-Advances disk blocks base size p more pos left fits =
    let chunk : ℕ =
      if ltb p.size_left (512 - p.fd_pos % 512) then p.size_left else 512 - p.fd_pos % 512 in
    let some_bytes : 0 < chunk = ground (arith, more, left) in
    let in_left : chunk ≤ size - p.bytes_read = ground (arith, left) in
    let in_sector : chunk ≤ 512 - p.fd_pos % 512 = ground arith in
    let read : u32 (p.bytes_read + chunk) ≡ p.bytes_read + chunk = omega (arith, in_left, fits) in
    record {
      further = omega (arith, some_bytes, read);
      in_size = omega (arith, in_left, read, more);
      pos = omega (arith, in_left, read, more, pos, fits);
      left = omega (arith, in_left, read, more, left);
      bytes = λ i. rw read (elim (Bool-cases (leb p.bytes_read i && ltb i (p.bytes_read + chunk))) [
        | inr outside ↦ rw outside refl
        | inl inside ↦
            let sector : p.fd_pos / 512 ≡ (base + i) / 512 =
              ground (arith, inside, in_sector, pos) in
            let off : p.fd_pos % 512 + (i - p.bytes_read) ≡ (base + i) % 512 =
              ground (arith, inside, in_sector, pos) in
            rw (inside, sector, off) refl
      ]);
    }

-- With fuel for each byte that is left, and blocks that the driver accepts, the loop ends and has read every byte. Byte `i` comes from the position `base + i` of the file.
pub read_chunks-Finished :
    (fuel : ℕ) (disk : Disk) (blocks : ℕ → ℕ) (base size : ℕ) (p : Progress)
    → size - p.bytes_read < fuel
    → p.bytes_read ≤ size
    → p.fd_pos ≡ base + p.bytes_read
    → p.size_left ≡ size - p.bytes_read
    → base + size < 2 ^ 32
    → ((i : ℕ) → base / 512 ≤ i → i * 512 < base + size → blocks i ≤ max_lba)
    → (q : Progress) × (read_chunks fuel disk blocks size p ≡ some q)
      × Finished disk blocks base p.bytes_read size p.buf q
unfolding read_chunks
read_chunks-Finished zero disk blocks base size p enough in_size pos left fits reach =
    absurd (omega arith)
read_chunks-Finished (suc fuel) disk blocks base size p enough in_size pos left fits reach =
    elim (Bool-cases (ltb p.bytes_read size)) [
      | inr done ↦ (
        p,
        rw done refl,
        record { pos = ground arith; read = ground arith; bytes = λ i. ground arith },
      )
      | inl more ↦
          let a = read_chunk-Advances disk blocks base size p (ground arith) pos left fits in
          let driver : on_disk (blocks (p.fd_pos / 512)) 1 ≡ true =
            ground
              (arith, reach (p.fd_pos / 512) (omega (arith, pos)) (ground (arith, pos, more))) in
          let p' = read_chunk disk blocks p in
          let (q, done, f) =
            read_chunks-Finished fuel disk blocks base size p' (omega (arith, a.further, a.in_size))
              a.in_size a.pos a.left fits reach in
          (
            q,
            rw (more, driver) done,
            record {
              pos = f.pos;
              read = f.read;
              bytes = λ i. f.bytes i ∙ ground (arith, a.bytes i, a.further, a.in_size);
            },
          )
    ]
