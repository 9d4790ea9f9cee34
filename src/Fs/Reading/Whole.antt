-- ===== src/Fs/Reading/Whole.antt =====
-- `file_read` as a whole: a slice of the contents of the file.
use tinykernel.Base.{
  ℕ, ◌+◌, ◌-◌, ◌*◌, ◌/◌, ◌≤◌, ◌<◌, ◌≡◌, ◌≢◌, ◌⊎◌, refl, ◌∙◌, ap, ◌&&◌, true, none, some, ltb, leb,
  if◌then◌else◌, arith, Bool-cases, inl, inr, Outcome, ok, u32,
}
use tinykernel.Fs.{Disk, Inode, FileSystem, set_file, malloc_buffer, max_lba}
use tinykernel.Fs.Reading.{Progress, Answer, deliver, read_chunks, read_size, blocks_to_read}
use tinykernel.Fs.Reading.Blocks.{file_block, Collected, blocks_to_read-Collected}
use tinykernel.Fs.Reading.Chunks.{file_byte, filled, Finished, read_chunks-Finished}

-- Byte `p` of the file of an inode.
abbrev pub content : Disk → Inode → ℕ → ℕ
content disk inode p = file_byte disk (file_block disk inode) p

-- The number of bytes that a call reads.
abbrev pub readable : Inode → ℕ → ℕ → ℕ
readable inode pos count = if ltb inode.i_size (pos + count) then inode.i_size - pos else count

-- The state behind the two allocations, and after a call, which moves the position.
abbrev pub allocated : FileSystem → FileSystem
allocated fs = (malloc_buffer (malloc_buffer fs).1).1

abbrev pub after_read : ℕ → ℕ → FileSystem → FileSystem
after_read fd n fs =
    set_file fd (record (fs.file_table fd) { fd_pos = (fs.file_table fd).fd_pos + n })
      (allocated fs)

-- A file that can be read from a position: it is there, its size is below 139 blocks, all of these lie below the end of what the driver accepts, and so does the indirect table, which exists, if the size is at least twelve blocks.
pub record IsReadable (disk : Disk) (inode : Inode) (pos : ℕ) : Type 0 where
  pub in_file : pos ≤ inode.i_size
  pub size : inode.i_size < 139 * 512
  pub table : 12 * 512 ≤ inode.i_size → inode.i_sectors 12 ≢ 0
  pub table_reach : 12 * 512 ≤ inode.i_size → inode.i_sectors 12 ≤ max_lba
  pub reach : (i : ℕ) → i * 512 < inode.i_size → file_block disk inode i ≤ max_lba

-- `n` bytes have been read.
pub record ReadOut (fd n : ℕ) (inode : Inode) (buf : ℕ → ℕ) (fs : FileSystem) (r : Outcome Answer)
    : Type 0 where
  pub buf' : ℕ → ℕ
  pub done : r ≡ ok (some n, buf', after_read fd n fs)
  pub bytes :
      (i : ℕ)
      → buf' i ≡ (if ltb i n then content fs.disk inode ((fs.file_table fd).fd_pos + i) else buf i)

module _ (fuel fd n : ℕ) (inode : Inode) (buf all_blocks : ℕ → ℕ) (fs : FileSystem)
    (enough : n < fuel) (v : IsReadable fs.disk inode (fs.file_table fd).fd_pos)
    (inside : (fs.file_table fd).fd_pos + n ≤ inode.i_size) where
  abbrev before : Progress
  before = record { fd_pos = (fs.file_table fd).fd_pos; bytes_read = 0; size_left = n; buf = buf }

  abbrev Loop : (ℕ → ℕ) → Type 0
  Loop blocks =
      (q : Progress) × (read_chunks fuel fs.disk blocks n before ≡ some q)
      × Finished fs.disk blocks (fs.file_table fd).fd_pos 0 n buf q

  read_size-Collected :
      Collected fs.disk inode
        ((fs.file_table fd).fd_pos / 512)
        (((fs.file_table fd).fd_pos + n) / 512)
        (blocks_to_read fs.disk inode
          ((fs.file_table fd).fd_pos / 512)
          (((fs.file_table fd).fd_pos + n) / 512)
          all_blocks)
      → ((blocks : ℕ → ℕ)
          → ((i : ℕ)
              → (fs.file_table fd).fd_pos / 512 ≤ i
              → i * 512 < (fs.file_table fd).fd_pos + n
              → blocks i ≤ max_lba)
          → Loop blocks)
      → ReadOut fd n inode buf fs (read_size fuel fd inode n buf all_blocks (allocated fs))
  unfolding read_size deliver
  read_size-Collected (blocks, collected, each) loop = go (
      loop blocks
        (λ i lo hi. rw (each i lo (omega (arith, hi))) (v.reach i (omega (arith, hi, inside)))))
    where
      at :
          (i : ℕ)
          → filled fs.disk blocks (fs.file_table fd).fd_pos 0 n buf i
            ≡ (if ltb i n then content fs.disk inode ((fs.file_table fd).fd_pos + i) else buf i)
      at i =
          let from : leb 0 i ≡ true = ground arith in
          elim (Bool-cases (ltb i n)) [
            | inl small ↦
                rw
                  (
                    from,
                    small,
                    each (((fs.file_table fd).fd_pos + i) / 512) (omega arith)
                        (ground (arith, small)),
                  )
                  refl
            | inr large ↦ rw (from, large) refl
          ]

      go :
          Loop blocks
          → ReadOut fd n inode buf fs (read_size fuel fd inode n buf all_blocks (allocated fs))
      go (q, done, f) =
          let end : u32 ((fs.file_table fd).fd_pos + n) ≡ (fs.file_table fd).fd_pos + n =
            omega (arith, v.size, inside) in
          let range : (ltb ((fs.file_table fd).fd_pos / 512) 139
                && ltb (((fs.file_table fd).fd_pos + n) / 512) 139)
              ≡ true =
            ground (arith, v.size, inside) in
          record {
            buf' = q.buf;
            done =
                rw (end, range, collected)
                  (ap (deliver fd (allocated fs)) done ∙ rw (f.pos, f.read) refl);
            bytes = λ i. f.bytes i ∙ at i;
          }

  pub read_size-ReadOut :
      ReadOut fd n inode buf fs (read_size fuel fd inode n buf all_blocks (allocated fs))
  read_size-ReadOut =
      read_size-Collected
        (blocks_to_read-Collected fs.disk inode ((fs.file_table fd).fd_pos / 512)
          (((fs.file_table fd).fd_pos + n) / 512) all_blocks (omega arith)
          (omega (arith, v.size, inside)) (λ h. v.table (omega (arith, h, inside)))
          (λ h. v.table_reach (omega (arith, h, inside))))
        (λ blocks reach.
          read_chunks-Finished fuel fs.disk blocks (fs.file_table fd).fd_pos n before (omega arith)
            (omega arith) (omega arith) (omega arith) (omega (arith, v.size, inside)) reach)

-- What a call of `file_read` does that gets its buffers: -1 at the end of the file if bytes are wanted, and otherwise the bytes.
abbrev pub Reads : ℕ → ℕ → ℕ → (ℕ → ℕ) → FileSystem → Outcome Answer → Type 0
Reads fd address count buf fs r =
    (((fs.file_table fd).fd_pos ≡ (fs.inodes address).i_size)
      × (0 < count)
      × (r ≡ ok (none, buf, fs)))
    ⊎ ReadOut fd (readable (fs.inodes address) (fs.file_table fd).fd_pos count) (fs.inodes address)
        buf fs r
