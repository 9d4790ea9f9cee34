-- ===== src/Fs/Reading.antt =====
-- `file_read` of fs/file.c. The destination is the memory from `buf` on.
pub mod Chunks
pub mod Blocks
pub mod Whole
use tinykernel.Base.{
  ℕ, zero, suc, ◌+◌, ◌-◌, ◌/◌, ◌%◌, ◌^◌, Bool, not, ◌&&◌, Option, none, some, ltb, leb, ◌==◌,
  if◌then◌else◌, update, u32, Outcome, ok, panic, assert, ◌>>=◌, ◌>>◌,
}
use tinykernel.Fs.{
  Disk, Inode, File, FileSystem, patch, on_disk, read_table, malloc_buffer, set_file,
}

-- The loops that copy direct blocks to `all_blocks`; the first number is the count of rounds left.
unfoldable pub copy_direct : ℕ → (ℕ → ℕ) → ℕ → (ℕ → ℕ) → ℕ → ℕ
copy_direct zero i_sectors block_idx all_blocks = all_blocks
copy_direct (suc left) i_sectors block_idx all_blocks =
    copy_direct left i_sectors (block_idx + 1) (update all_blocks block_idx (i_sectors block_idx))

-- The blocks that `file_read` needs, by its five cases.
unfoldable pub blocks_to_read : Disk → Inode → (start_idx end_idx : ℕ) → (ℕ → ℕ) → Outcome (ℕ → ℕ)
blocks_to_read disk inode start_idx end_idx all_blocks = do
  let table = inode.i_sectors 12
  let one_direct = ok (update all_blocks end_idx (inode.i_sectors end_idx))
  let one_indirect = do assert (on_disk table 1); ok (read_table disk table all_blocks)
  let all_direct = ok (copy_direct (end_idx + 1 - start_idx) inode.i_sectors start_idx all_blocks)
  let both = do
    let direct = copy_direct (12 - start_idx) inode.i_sectors start_idx all_blocks
    assert (not (table == 0))
    assert (on_disk table 1)
    ok (read_table disk table direct)
  let all_indirect = do
    assert (not (table == 0))
    assert (on_disk table 1)
    ok (read_table disk table all_blocks)
  if start_idx == end_idx
      then if ltb end_idx 12 then one_direct else one_indirect
      else if ltb end_idx 12
      then all_direct
      else if ltb start_idx 12 && leb 12 end_idx
      then both
      else all_indirect

-- What the last loop changes: `fd_pos`, `bytes_read` and the memory at `buf`.
pub record Progress : Type 0 where
  pub fd_pos : ℕ
  pub bytes_read : ℕ
  pub size_left : ℕ
  pub buf : ℕ → ℕ

-- One round: a part of one sector.
unfoldable pub read_chunk : Disk → (ℕ → ℕ) → Progress → Progress
read_chunk disk all_blocks p =
    let sec_lba = all_blocks (p.fd_pos / 512) in
    let sec_off_bytes = p.fd_pos % 512 in
    let sec_left_bytes = 512 - sec_off_bytes in
    let chunk_size : ℕ = if ltb p.size_left sec_left_bytes then p.size_left else sec_left_bytes in
    record {
      fd_pos = u32 (p.fd_pos + chunk_size);
      bytes_read = u32 (p.bytes_read + chunk_size);
      size_left = p.size_left - chunk_size;
      buf = patch p.bytes_read chunk_size (λ i. disk sec_lba (sec_off_bytes + i)) p.buf;
    }

-- The loop, on fuel; `none` means that it ran out, or that an `ASSERT` of `ide_read` stops it.
unfoldable pub read_chunks : (fuel : ℕ) → Disk → (ℕ → ℕ) → ℕ → Progress → Option Progress
read_chunks zero disk all_blocks size p = none
read_chunks (suc fuel) disk all_blocks size p =
    let rest = read_chunks fuel disk all_blocks size (read_chunk disk all_blocks p) in
    let round : Option Progress = if on_disk (all_blocks (p.fd_pos / 512)) 1 then rest else none in
    if ltb p.bytes_read size then round else some p

-- The answer of a call: the bytes read, or `none` for -1, the memory at `buf`, and the state.
abbrev pub Answer : Type 0
Answer = Option ℕ × (ℕ → ℕ) × FileSystem

-- The end of `file_read` behind its loop, which runs out of fuel never if `fuel` is more than the
-- number of bytes.
unfoldable pub deliver : ℕ → FileSystem → Option Progress → Outcome Answer
deliver fd fs none = panic
deliver fd fs (some p) =
    ok (some p.bytes_read, p.buf, set_file fd (record (fs.file_table fd) { fd_pos = p.fd_pos }) fs)

-- `file_read` from the allocation of `all_blocks` on.
unfoldable pub read_size :
    (fuel : ℕ) → ℕ → Inode → ℕ → (ℕ → ℕ) → (ℕ → ℕ) → FileSystem → Outcome Answer
read_size fuel fd inode size buf all_blocks fs = do
  let pos = (fs.file_table fd).fd_pos
  let start_idx = pos / 512
  let end_idx = u32 (pos + size) / 512
  assert (ltb start_idx 139 && ltb end_idx 139)
  blocks ← blocks_to_read fs.disk inode start_idx end_idx all_blocks
  let before : Progress = record { fd_pos = pos; bytes_read = 0; size_left = size; buf = buf }
  deliver fd fs (read_chunks fuel fs.disk blocks size before)

-- The two allocations; `io_buf` is cleared before each use.
unfoldable pub read_with : (fuel : ℕ) → ℕ → Inode → ℕ → (ℕ → ℕ) → FileSystem → Outcome Answer
read_with fuel fd inode size buf fs = do
  let (io_buf, fs1) = malloc_buffer fs
  let (all_blocks, fs2) = malloc_buffer fs1
  elim io_buf [
    | none ↦ ok (none, buf, fs1)
    | some b ↦ elim all_blocks [
      | none ↦ ok (none, buf, fs2)
      | some blocks ↦ read_size fuel fd inode size buf blocks fs2
    ]
  ]

-- `file_read` of `count` bytes for the entry `fd` of `file_table`, whose inode is at `address`.
unfoldable pub file_read : (fuel : ℕ) → ℕ → ℕ → ℕ → (ℕ → ℕ) → FileSystem → Outcome Answer
file_read fuel fd address count buf fs =
    let f = fs.file_table fd in
    let inode = fs.inodes address in
    let rest = u32 (inode.i_size + 2 ^ 32 - f.fd_pos) in
    if ltb inode.i_size (u32 (f.fd_pos + count))
    then if rest == 0 then ok (none, buf, fs) else read_with fuel fd inode rest buf fs
    else read_with fuel fd inode count buf fs
