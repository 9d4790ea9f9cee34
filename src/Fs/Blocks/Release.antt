-- ===== src/Fs/Blocks/Release.antt =====
-- Giving blocks back: the bitmap in memory, its copy on the disk, and the loop of `inode_release`.
use tinykernel.Base.{
  ℕ, zero, suc, ◌+◌, ◌-◌, ◌*◌, ◌/◌, ◌%◌, ◌^◌, ◌≤◌, ◌<◌, ◌≡◌, ◌⊎◌, refl, ◌∙◌, ap, Bool, true, false,
  not, ◌&&◌, ◌||◌, arith, ltb, leb, ◌==◌, if◌then◌else◌, ok, inl, inr, Bool-cases, subst,
}
use tinykernel.Bitmap.{bitmap_scan_test, bitmap_set, store_bit}
use tinykernel.Bitmap.Access.{HasBytes, store_bit-Wrote}
use tinykernel.Fs.{
  Disk, Inode, Partition, read_table, FileSystem, write_sectors, set_disk, set_part, max_lba,
  on_disk,
}
use tinykernel.Fs.Blocks.{
  bitmap_sync, set_block_bitmap, block_bit, clear_block_bit, release_block, release_blocks,
  release_all, direct_blocks, block_bitmap_type,
}

-- The number of bits in the sectors of the bitmap of blocks.
abbrev pub bits_on_disk : Partition → ℕ
bits_on_disk part = part.sb.block_bitmap_sects * 4096

-- The bitmap of blocks on the disk is the one in memory.
abbrev pub IsSynced : FileSystem → Type 0
IsSynced fs =
    (i : ℕ)
    → i < fs.part.sb.block_bitmap_sects * 512
    → fs.disk (fs.part.sb.block_bitmap_lba + i / 512) (i % 512) ≡ fs.part.block_bitmap.bits i

-- The blocks whose bits `freed` names have been given back, in memory and on the disk; no sector that is not of the bitmap, and nothing else in memory, has changed.
pub record Freed (freed : ℕ → Bool) (fs fs' : FileSystem) : Type 0 where
  pub test :
      (j : ℕ)
      → bitmap_scan_test fs'.part.block_bitmap j
        ≡ (if freed j then false else bitmap_scan_test fs.part.block_bitmap j)
  pub bytes : HasBytes fs'.part.block_bitmap
  pub synced : IsSynced fs'
  pub rest : fs' ≡ set_disk fs'.disk (set_part (set_block_bitmap fs'.part.block_bitmap fs.part) fs)
  pub other_sectors :
      (s o : ℕ)
      → (leb fs.part.sb.block_bitmap_lba s
          && ltb s (fs.part.sb.block_bitmap_lba + fs.part.sb.block_bitmap_sects))
        ≡ false
      → fs'.disk s o ≡ fs.disk s o

-- The sectors of the bitmap of blocks lie below the end of what the driver accepts.
abbrev pub IsReached : Partition → Type 0
IsReached part = part.sb.block_bitmap_lba + part.sb.block_bitmap_sects ≤ max_lba + 1

-- The state after a write of one bit and `bitmap_sync` of it.
abbrev stored_bit : FileSystem → ℕ → ℕ → FileSystem
stored_bit fs bit value =
    let part = set_block_bitmap (store_bit fs.part.block_bitmap bit value) fs.part in
    set_disk (bitmap_sync part bit block_bitmap_type fs.disk) (set_part part fs)

-- A write of one bit, and `bitmap_sync` of it, keep the two copies alike.
sync-store :
    (fs : FileSystem) (bit value : ℕ)
    → IsSynced fs
    → bit < bits_on_disk fs.part
    → IsSynced (stored_bit fs bit value)
unfolding bitmap_sync write_sectors store_bit
sync-store fs bit value synced inside i small = elim (Bool-cases (i / 512 == bit / 4096)) [
  | inl here ↦
      let lo : leb (fs.part.sb.block_bitmap_lba + bit / 4096)
            (fs.part.sb.block_bitmap_lba + i / 512)
          ≡ true =
        ground (arith, here) in
      let hi : ltb (fs.part.sb.block_bitmap_lba + i / 512)
            (fs.part.sb.block_bitmap_lba + bit / 4096 + 1)
          ≡ true =
        ground (arith, here) in
      let at : bit / 4096 * 512
            + ((fs.part.sb.block_bitmap_lba + i / 512 - (fs.part.sb.block_bitmap_lba + bit / 4096))
                  * 512
                + i % 512)
          ≡ i =
        ground (arith, here) in
      rw (lo, hi, at) refl
  | inr other ↦ ground (arith, other, synced i small)
]

-- One block.
pub clear_block_bit-Freed :
    (fs : FileSystem) (bit : ℕ)
    → HasBytes fs.part.block_bitmap
    → IsSynced fs
    → IsReached fs.part
    → bit < bits_on_disk fs.part
    → (fs' : FileSystem) × (clear_block_bit bit fs ≡ ok fs') × Freed (λ j. bit == j) fs fs'
unfolding clear_block_bit bitmap_set bitmap_sync write_sectors
clear_block_bit-Freed fs bit h synced reach inside =
    let driver : on_disk (fs.part.sb.block_bitmap_lba + bit / 4096) 1 ≡ true =
      ground (arith, reach, inside) in
    let w = store_bit-Wrote fs.part.block_bitmap bit h 0 in
    (
      stored_bit fs bit 0,
      rw driver refl,
      record {
        test = w.test;
        bytes = w.bytes;
        synced = sync-store fs bit 0 synced inside;
        rest = refl;
        other_sectors = λ s o out. ground (arith, out, inside);
      },
    )

-- Nothing is given back.
Freed-none :
    (fs : FileSystem) → HasBytes fs.part.block_bitmap → IsSynced fs → Freed (λ j. false) fs fs
Freed-none fs h synced = record {
  test = λ j. refl;
  bytes = h;
  synced = synced;
  rest = refl;
  other_sectors = λ s o out. refl;
}

Freed-sb : {freed : ℕ → Bool} {fs fs' : FileSystem} → Freed freed fs fs' → fs'.part.sb ≡ fs.part.sb
Freed-sb f = ap (λ x. x.part.sb) f.rest

Freed-same :
    {freed freed' : ℕ → Bool} {fs fs' : FileSystem}
    → ((j : ℕ) → freed j ≡ freed' j)
    → Freed freed fs fs'
    → Freed freed' fs fs'
Freed-same {freed} {freed'} {fs} same f = record {
  test = λ j.
      f.test j ∙ ap (λ t. if t then false else bitmap_scan_test fs.part.block_bitmap j) (same j);
  bytes = f.bytes;
  synced = f.synced;
  rest = f.rest;
  other_sectors = f.other_sectors;
}

-- One call after another.
Freed-then :
    {first later : ℕ → Bool} {fs fs1 fs2 : FileSystem}
    → Freed first fs fs1
    → Freed later fs1 fs2
    → Freed (λ j. first j || later j) fs fs2
Freed-then {first} {later} {fs} {fs1} {fs2} f g = record {
  test = λ j. ground (arith, f.test j, g.test j);
  bytes = g.bytes;
  synced = g.synced;
  rest =
      g.rest
      ∙ ap (λ x. set_disk fs2.disk (set_part (set_block_bitmap fs2.part.block_bitmap x.part) x))
          f.rest;
  other_sectors = λ s o out. g.other_sectors s o (rw (Freed-sb f) out) ∙ f.other_sectors s o out;
}

-- A number in a table of blocks is 0, or that of a block behind the first one, the root directory's.
abbrev pub IsEntry : Partition → ℕ → Type 0
IsEntry part lba =
    (lba ≡ 0)
    ⊎ ((part.sb.data_start_lba < lba)
        × (lba < part.sb.data_start_lba + bits_on_disk part)
        × (lba < 2 ^ 32))

-- The bit `j` is that of one of the blocks `all_blocks[block_idx]`, ... .
abbrev pub names_bit : ℕ → ℕ → (ℕ → ℕ) → ℕ → ℕ → Bool
names_bit data_start zero all_blocks block_idx j = false
names_bit data_start (suc left) all_blocks block_idx j =
    (not (all_blocks block_idx == 0) && (all_blocks block_idx - data_start == j))
    || names_bit data_start left all_blocks (block_idx + 1) j

-- A block that is not the root directory's is given back.
pub release_block-Freed :
    (fs : FileSystem) (lba : ℕ)
    → HasBytes fs.part.block_bitmap
    → IsSynced fs
    → IsReached fs.part
    → fs.part.sb.data_start_lba < lba
    → lba < fs.part.sb.data_start_lba + bits_on_disk fs.part
    → lba < 2 ^ 32
    → (fs' : FileSystem) × (release_block lba fs ≡ ok fs')
      × Freed (λ j. lba - fs.part.sb.data_start_lba == j) fs fs'
unfolding release_block
release_block-Freed fs lba h synced reach lo hi word =
    let (fs1, done1, f1) =
      clear_block_bit-Freed fs (lba - fs.part.sb.data_start_lba) h synced reach
        (omega (arith, lo, hi)) in
    let number : block_bit fs.part lba ≡ lba - fs.part.sb.data_start_lba =
      omega (arith, lo, word) in
    let not_root : ltb 0 (lba - fs.part.sb.data_start_lba) ≡ true = ground (arith, lo) in
    (fs1, rw (number, not_root) done1, f1)

-- The loop gives back the blocks that the table names from `block_idx` on.
pub release_blocks-Freed :
    (left block_idx : ℕ) (all_blocks : ℕ → ℕ) (fs : FileSystem)
    → HasBytes fs.part.block_bitmap
    → IsSynced fs
    → IsReached fs.part
    → ((i : ℕ) → block_idx ≤ i → i < block_idx + left → IsEntry fs.part (all_blocks i))
    → (fs' : FileSystem) × (release_blocks left all_blocks block_idx fs ≡ ok fs')
      × Freed (names_bit fs.part.sb.data_start_lba left all_blocks block_idx) fs fs'
unfolding release_blocks
release_blocks-Freed zero block_idx all_blocks fs h synced reach entries =
    (fs, refl, Freed-none fs h synced)
release_blocks-Freed (suc left) block_idx all_blocks fs h synced reach entries =
    elim (entries block_idx (omega arith) (omega arith)) [
      | inl hole ↦
          let test : (all_blocks block_idx == 0) ≡ true = ground (arith, hole) in
          let (fs', done, f) =
            release_blocks-Freed left (block_idx + 1) all_blocks fs h synced reach
              (λ i lo hi. entries i (omega arith) (omega arith)) in
          (fs', rw test done, Freed-same (λ j. rw test refl) f)
      | inr (lo, hi, word) ↦
          let test : (all_blocks block_idx == 0) ≡ false = ground (arith, lo) in
          let (fs1, done1, f1) =
            release_block-Freed fs (all_blocks block_idx) h synced reach lo hi word in
          let (fs2, done2, f2) =
            release_blocks-Freed left (block_idx + 1) all_blocks fs1 f1.bytes f1.synced
              (rw (Freed-sb f1) reach)
              (λ i lo' hi'. rw (Freed-sb f1) (entries i (omega arith) (omega arith))) in
          (
            fs2,
            rw (test, done1) done2,
            Freed-same (λ j. rw (test, Freed-sb f1) refl) (Freed-then f1 f2),
          )
    ]

-- The table of an inode's blocks, and the bits of what `inode_release` gives back for it.
abbrev pub blocks_of : Inode → Disk → ℕ → ℕ
blocks_of inode disk =
    if inode.i_sectors 12 == 0
    then direct_blocks inode
    else read_table disk (inode.i_sectors 12) (direct_blocks inode)

abbrev pub owned_bit : ℕ → Inode → Disk → ℕ → Bool
owned_bit data_start inode disk j =
    if inode.i_sectors 12 == 0
    then names_bit data_start 12 (blocks_of inode disk) 0 j
    else (inode.i_sectors 12 - data_start == j)
      || names_bit data_start 140 (blocks_of inode disk) 0 j

-- `release_all` is the part of `inode_release` that gives the blocks of an inode back. Every block that the inode names, in its direct entries or in its indirect table, stands behind the root directory's, has a bit in the sectors of the bitmap of blocks and a number below 2 ^ 32; the bytes of the bitmap of blocks are below 256; the bitmap on the disk is the one in memory; and its sectors and that of the indirect table lie below the end of the 80 MB that the driver accepts. Then `release_all` succeeds; it clears the bits of all these blocks, of the indirect table too, and of no other block; the bitmap on the disk is again the one in memory; and it changes nothing else in memory and no sector outside that bitmap.
pub release_all-Freed :
    (inode : Inode) (fs : FileSystem)
    → HasBytes fs.part.block_bitmap
    → IsSynced fs
    → IsReached fs.part
    → inode.i_sectors 12 ≤ max_lba
    → IsEntry fs.part (inode.i_sectors 12)
    → ((i : ℕ) → i < 140 → IsEntry fs.part (blocks_of inode fs.disk i))
    → (fs' : FileSystem) × (release_all inode fs ≡ ok fs')
      × Freed (owned_bit fs.part.sb.data_start_lba inode fs.disk) fs fs'
unfolding release_all
release_all-Freed inode fs h synced reach in_reach table entries = elim table [
  | inl direct ↦
      let test : (inode.i_sectors 12 == 0) ≡ true = ground (arith, direct) in
      let (fs', done, f) =
        release_blocks-Freed 12 0 (direct_blocks inode) fs h synced reach (λ i lo hi.
          subst
            (λ (b : Bool). IsEntry fs.part (
              (if b
                  then direct_blocks inode
                  else read_table fs.disk (inode.i_sectors 12) (direct_blocks inode))
                i))
            test (entries i (omega arith))) in
      (fs', rw test done, Freed-same (λ j. rw test refl) f)
  | inr (lo, hi, word) ↦
      let test : (inode.i_sectors 12 == 0) ≡ false = ground (arith, lo) in
      let driver : on_disk (inode.i_sectors 12) 1 ≡ true = ground (arith, in_reach) in
      let (fs1, done1, f1) =
        release_block-Freed fs (inode.i_sectors 12) h synced reach lo hi word in
      let (fs2, done2, f2) =
        release_blocks-Freed 140 0 (read_table fs.disk (inode.i_sectors 12) (direct_blocks inode))
          fs1 f1.bytes f1.synced (rw (Freed-sb f1) reach)
          (λ i lo' hi'. rw (Freed-sb f1) (
            subst
              (λ (b : Bool). IsEntry fs.part (
                (if b
                    then direct_blocks inode
                    else read_table fs.disk (inode.i_sectors 12) (direct_blocks inode))
                  i))
              test (entries i (omega arith)))) in
      (
        fs2,
        rw (test, driver, done1) done2,
        Freed-same (λ j. rw (test, Freed-sb f1) refl) (Freed-then f1 f2),
      )
]
