-- ===== src/Fs/Writing/Append.antt =====
-- `file_write` where the bytes fit behind the old ones in the last block of the file.
use tinykernel.Base.{
  ℕ, ◌+◌, ◌-◌, ◌/◌, ◌≤◌, ◌<◌, ◌≡◌, ◌≢◌, refl, true, false, some, ltb, leb, ◌==◌, if◌then◌else◌,
  arith, u32, Bool-cases, inl, inr, ok, update, u8,
}
use tinykernel.Fs.{Disk, Inode, FileSystem, read_table, max_lba, on_disk}
use tinykernel.Fs.Inodes.Stored.{IsInside}
use tinykernel.Fs.Reading.Blocks.{file_block}
use tinykernel.Fs.Reading.Whole.{allocated}
use tinykernel.Fs.Growth.{first_block, same_blocks, blocks_to_write}
use tinykernel.Fs.Writing.{write_with, file_write}
use tinykernel.Fs.Writing.Whole.{HasBlocks, Stored, write_collected-Stored, IsInOneSector}

-- The table that `same_blocks` collects.
same_table : Inode → Disk → (ℕ → ℕ) → ℕ → ℕ
same_table inode disk all_blocks =
    let last = inode.i_size / 512 in
    if ltb last 12
    then update all_blocks last (inode.i_sectors last)
    else read_table disk (inode.i_sectors 12) all_blocks

module _ (fuel fd address count : ℕ) (buf io_buf all_blocks : ℕ → ℕ) (fs : FileSystem) where
  abbrev inode : Inode
  inode = fs.inodes address

  same_blocks-table :
      (12 ≤ inode.i_size / 512 → inode.i_sectors 12 ≢ 0)
      → (12 ≤ inode.i_size / 512 → inode.i_sectors 12 ≤ max_lba)
      → same_blocks address (inode.i_size / 512 + 1) all_blocks (allocated fs)
        ≡ ok (some (same_table inode fs.disk all_blocks), allocated fs)
  unfolding same_blocks same_table
  same_blocks-table table reach =
      let back : inode.i_size / 512 + 1 - 1 ≡ inode.i_size / 512 = omega arith in
      let test : leb (inode.i_size / 512 + 1) 12 ≡ ltb (inode.i_size / 512) 12 = ground arith in
      elim (Bool-cases (ltb (inode.i_size / 512) 12)) [
        | inl direct ↦ rw (test, direct, back) refl
        | inr indirect ↦
            let there : (inode.i_sectors 12 == 0) ≡ false = ground (arith, table, indirect) in
            let driver : on_disk (inode.i_sectors 12) 1 ≡ true = ground (arith, reach, indirect) in
            rw (test, indirect, there, driver) refl
      ]

  same_table-at :
      (n i : ℕ)
      → n < 140
      → inode.i_size / 512 ≡ n
      → i ≡ n
      → same_table inode fs.disk all_blocks i ≡ file_block fs.disk inode i
  unfolding same_table read_table
  same_table-at n i small last e = ground (arith, small, last, e)

  -- `file_write` of `count` bytes to a file that has a first block, up to an end that lies in the block in which the file ended, and below 71680, with its buffers of memory allocated, an indirect table if the file has 6144 bytes or more, and blocks in different sectors outside the table of inodes. The inode lies in one sector of its table (where it does not, the write of it overruns a buffer), the table lies inside the partition, and the blocks and both tables lie below the end of the 80 MB that the driver accepts. It returns `count`; the contents of the file are the old ones and behind them the bytes at `buf`, and its inode differs in the size only. Its loop ends.
  pub file_write-Stored :
      count < fuel
      → fs.buffers 0 ≡ some io_buf
      → fs.buffers 1 ≡ some all_blocks
      → inode.i_sectors 0 ≢ 0
      → (12 ≤ inode.i_size / 512 → inode.i_sectors 12 ≢ 0)
      → (inode.i_size + count) / 512 ≡ inode.i_size / 512
      → inode.i_size + count < 71680
      → HasBlocks fs.disk fs.part inode (inode.i_size + count)
      → IsInside fs.part
      → IsInOneSector (u8 inode.i_no)
      → Stored address count buf fs.disk inode (file_write fuel fd address count buf fs)
  unfolding file_write write_with first_block blocks_to_write
  file_write-Stored enough first second begun table same fits has inside one_sector =
      let sum : u32 (inode.i_size + count) ≡ inode.i_size + count = omega (arith, fits) in
      let limit : ltb 71680 (inode.i_size + count) ≡ false = ground (arith, fits) in
      let there : (inode.i_sectors 0 == 0) ≡ false = ground (arith, begun) in
      let in_range : leb (inode.i_size / 512 + 1) 140 ≡ true = ground (arith, fits) in
      let one : (inode.i_size / 512 + 1 == inode.i_size / 512 + 1) ≡ true = ground arith in
      rw
        (
          sum,
          limit,
          first,
          second,
          there,
          sum,
          same,
          in_range,
          one,
          same_blocks-table table (λ h. has.table_reach (omega (arith, h))),
        )
        (write_collected-Stored fuel fd address count buf (same_table inode fs.disk all_blocks)
          (allocated fs) inside one_sector (omega (arith, fits)) has
          (λ i lo hi.
            same_table-at (inode.i_size / 512) i (omega (arith, fits)) refl
              (omega (arith, lo, hi, same)))
          enough)
