-- ===== src/Fs/Writing.antt =====
-- `file_write` of fs/file.c, which appends to the file whatever `fd_pos` is. The source is the
-- memory from `buf` on.
pub mod Chunks
pub mod Whole
pub mod Append
use tinykernel.Base.{
  ℕ, zero, suc, ◌+◌, ◌-◌, ◌*◌, ◌/◌, ◌%◌, ◌^◌, Bool, true, false, not, ◌&&◌, Option, none, some, ltb,
  leb, ◌==◌, if◌then◌else◌, update, u8, u32, Outcome, ok, panic, assert, ◌>>=◌, ◌>>◌,
}
use tinykernel.Fs.{
  Disk, Inode, Partition, File, FileSystem, patch, on_disk, read_sectors, write_sectors, read_table,
  write_table, malloc_buffer, set_disk, set_part, set_inode, set_file,
}
use tinykernel.Fs.Inodes.{inode_locate, inode_sync}
use tinykernel.Fs.Growth.{Blocks, first_block, blocks_to_write}

-- What the loop that writes changes.
pub record Progress : Type 0 where
  pub i_size : ℕ
  pub fd_pos : ℕ
  pub bytes_written : ℕ
  pub size_left : ℕ
  pub first_write_block : Bool
  pub disk : Disk

-- One round: a part of one sector, of which the first round keeps the rest.
unfoldable pub write_chunk : (ℕ → ℕ) → (ℕ → ℕ) → Progress → Progress
write_chunk all_blocks buf p =
    let sec_lba = all_blocks (p.i_size / 512) in
    let sec_off_bytes = p.i_size % 512 in
    let sec_left_bytes = 512 - sec_off_bytes in
    let chunk_size : ℕ = if ltb p.size_left sec_left_bytes then p.size_left else sec_left_bytes in
    let cleared : ℕ → ℕ = λ i. 0 in
    let io_buf : ℕ → ℕ =
      if p.first_write_block then read_sectors sec_lba 1 p.disk cleared else cleared in
    let src : ℕ → ℕ = λ i. buf (p.bytes_written + i) in
    record {
      i_size = u32 (p.i_size + chunk_size);
      fd_pos = u32 (p.fd_pos + chunk_size);
      bytes_written = u32 (p.bytes_written + chunk_size);
      size_left = p.size_left - chunk_size;
      first_write_block = false;
      disk = write_sectors sec_lba (patch sec_off_bytes chunk_size src io_buf) 1 p.disk;
    }

-- The loop, on fuel; `none` means that it ran out, or that an `ASSERT` of `ide_read` or `ide_write`
-- stops it.
unfoldable pub write_chunks : (fuel : ℕ) → (ℕ → ℕ) → (ℕ → ℕ) → ℕ → Progress → Option Progress
write_chunks zero all_blocks buf count p = none
write_chunks (suc fuel) all_blocks buf count p =
    let rest = write_chunks fuel all_blocks buf count (write_chunk all_blocks buf p) in
    let round : Option Progress = if on_disk (all_blocks (p.i_size / 512)) 1 then rest else none in
    if ltb p.bytes_written count then round else some p

-- The end of `file_write` behind its loop. Its `io_buf` has 512 bytes: to read two sectors into it,
-- as `inode_sync` does for an inode that lies across two, overruns it, which counts as a stop.
unfoldable pub finish : ℕ → ℕ → FileSystem → Option Progress → Outcome (Option ℕ × FileSystem)
finish fd address fs none = panic
finish fd address fs (some p) = do
  let inode : Inode = record (fs.inodes address) { i_size = p.i_size }
  inode_pos ← inode_locate fs.part (u8 inode.i_no)
  assert (not inode_pos.two_sec)
  disk ← inode_sync fs.part inode p.disk
  ok (
    some p.bytes_written,
    set_file fd (record (fs.file_table fd) { fd_pos = p.fd_pos })
        (set_disk disk (set_inode address inode fs)),
  )

-- The loop over the collected blocks.
unfoldable pub write_collected :
    (fuel : ℕ) → ℕ → ℕ → ℕ → (ℕ → ℕ) → Blocks → Outcome (Option ℕ × FileSystem)
write_collected fuel fd address count buf (none, fs) = ok (none, fs)
write_collected fuel fd address count buf (some all_blocks, fs) =
    let i_size = (fs.inodes address).i_size in
    finish fd address fs (
      write_chunks fuel all_blocks buf count (record {
        i_size = i_size;
        fd_pos = u32 (i_size + 2 ^ 32 - 1);
        bytes_written = 0;
        size_left = count;
        first_write_block = true;
        disk = fs.disk;
      }))

-- `file_write` behind its allocations of memory.
unfoldable pub write_with :
    (fuel : ℕ) → ℕ → ℕ → ℕ → (ℕ → ℕ) → (ℕ → ℕ) → FileSystem → Outcome (Option ℕ × FileSystem)
write_with fuel fd address count buf all_blocks fs = do
  (there, fs1) ← first_block address fs
  let i_size = (fs1.inodes address).i_size
  let used = i_size / 512 + 1
  let will = u32 (i_size + count) / 512 + 1
  let rest = do
    assert (leb will 140)
    collected ← blocks_to_write address used will all_blocks fs1
    write_collected fuel fd address count buf collected
  if there then rest else ok (none, fs1)

-- `file_write` of `count` bytes for the entry `fd` of `file_table`, whose inode is at `address`.
unfoldable pub file_write :
    (fuel : ℕ) → ℕ → ℕ → ℕ → (ℕ → ℕ) → FileSystem → Outcome (Option ℕ × FileSystem)
file_write fuel fd address count buf fs = do
  let (io_buf, fs1) = malloc_buffer fs
  let (all_blocks, fs2) = malloc_buffer fs1
  let allocate : Outcome (Option ℕ × FileSystem) = elim io_buf [
    | none ↦ ok (none, fs1)
    | some b ↦ elim all_blocks [
      | none ↦ ok (none, fs2)
      | some blocks ↦ write_with fuel fd address count buf blocks fs2
    ]
  ]
  if ltb (512 * 140) (u32 ((fs.inodes address).i_size + count)) then ok (none, fs) else allocate
