-- ===== src/Fs/Reading/Blocks.antt =====
-- The blocks that `file_read` collects are those of the file, in each of its five cases.
use tinykernel.Base.{
  ℕ, zero, suc, ◌+◌, ◌-◌, ◌*◌, ◌≤◌, ◌<◌, ◌≡◌, ◌≢◌, refl, ◌∙◌, ◌&&◌, false, ltb, leb, ◌==◌,
  if◌then◌else◌, update, arith, Bool-cases, inl, inr, Outcome, ok, true,
}
use tinykernel.Fs.{Disk, Inode, word_at, read_table, max_lba, on_disk}
use tinykernel.Fs.Reading.{copy_direct, blocks_to_read}

-- The sector of block `i` of a file: twelve direct blocks, and those that the indirect table names.
abbrev pub file_block : Disk → Inode → ℕ → ℕ
file_block disk inode i =
    if ltb i 12 then inode.i_sectors i else word_at (disk (inode.i_sectors 12)) (4 * (i - 12))

copy_direct-at :
    (left : ℕ) (sectors : ℕ → ℕ) (start : ℕ) (all_blocks : ℕ → ℕ) (i : ℕ)
    → copy_direct left sectors start all_blocks i
      ≡ (if leb start i && ltb i (start + left) then sectors i else all_blocks i)
unfolding copy_direct
copy_direct-at zero sectors start all_blocks i = ground arith
copy_direct-at (suc left) sectors start all_blocks i =
    copy_direct-at left sectors (start + 1) (update all_blocks start (sectors start)) i
    ∙ (ground arith)

-- The collected blocks.
abbrev pub Collected : Disk → Inode → (start_idx end_idx : ℕ) → Outcome (ℕ → ℕ) → Type 0
Collected disk inode start_idx end_idx r =
    (blocks : ℕ → ℕ) × (r ≡ ok blocks)
    × ((i : ℕ) → start_idx ≤ i → i ≤ end_idx → blocks i ≡ file_block disk inode i)

-- Whatever `all_blocks` holds before, `file_read` collects exactly the blocks `start_idx` to `end_idx` of the file, in each of its five cases: the entry of each is its direct block, or its entry in the indirect table. If a block behind the twelfth is wanted, the table exists and lies below the end of the 80 MB that the driver accepts.
pub blocks_to_read-Collected :
    (disk : Disk) (inode : Inode) (start_idx end_idx : ℕ) (all_blocks : ℕ → ℕ)
    → start_idx ≤ end_idx
    → end_idx < 140
    → (12 ≤ end_idx → inode.i_sectors 12 ≢ 0)
    → (12 ≤ end_idx → inode.i_sectors 12 ≤ max_lba)
    → Collected disk inode start_idx end_idx
        (blocks_to_read disk inode start_idx end_idx all_blocks)
unfolding blocks_to_read read_table
blocks_to_read-Collected disk inode s e all_blocks order small table reach =
    elim (Bool-cases (s == e)) [
      | inl one ↦ elim (Bool-cases (ltb e 12)) [
        | inl direct ↦ (
          update all_blocks e (inode.i_sectors e),
          rw (one, direct) refl,
          λ i lo hi. ground (arith, one, direct),
        )
        | inr indirect ↦
            let driver : on_disk (inode.i_sectors 12) 1 ≡ true = ground (arith, reach, indirect) in
            (
              read_table disk (inode.i_sectors 12) all_blocks,
              rw (one, indirect, driver) refl,
              λ i lo hi. ground (arith, one, indirect),
            )
      ]
      | inr more ↦ elim (Bool-cases (ltb e 12)) [
        | inl direct ↦ (
          copy_direct (e + 1 - s) inode.i_sectors s all_blocks,
          rw (more, direct) refl,
          λ i lo hi.
              copy_direct-at (e + 1 - s) inode.i_sectors s all_blocks i ∙ (ground (arith, direct)),
        )
        | inr indirect ↦
            let there : (inode.i_sectors 12 == 0) ≡ false = ground (arith, table, indirect) in
            let driver : on_disk (inode.i_sectors 12) 1 ≡ true = ground (arith, reach, indirect) in
            elim (Bool-cases (ltb s 12 && leb 12 e)) [
              | inl both ↦ (
                read_table disk (inode.i_sectors 12)
                    (copy_direct (12 - s) inode.i_sectors s all_blocks),
                rw (more, indirect, both, there, driver) refl,
                λ i lo hi.
                    ground (arith, copy_direct-at (12 - s) inode.i_sectors s all_blocks i, both),
              )
              | inr all ↦ (
                read_table disk (inode.i_sectors 12) all_blocks,
                rw (more, indirect, all, there, driver) refl,
                λ i lo hi. ground (arith, all),
              )
            ]
      ]
    ]
