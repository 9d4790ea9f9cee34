-- ===== src/Fs/Format/Mounted.antt =====
-- What `mount_partition` reads from a partition that `partition_format` has written.
use tinykernel.Base.{
  lt→ltb, ℕ, zero, suc, ◌+◌, ◌-◌, ◌*◌, ◌/◌, ◌%◌, ◌^◌, ◌≤◌, ◌<◌, ◌≡◌, refl, ◌∙◌, true, false, ◌&&◌,
  arith, ltb, leb, ◌==◌, if◌then◌else◌, update, [], some, ok,
}
use tinykernel.Fs.{
  Disk, SuperBlock, Partition, word_at, read_sectors, write_sectors, max_lba, on_disk,
}
use tinykernel.Fs.Inodes.Stored.{word_at-bytes}
use tinykernel.Fs.Format.{
  block_bitmap_bit_len, new_super_block, bitmap_buffer, super_word, super_byte, super_of,
  partition_format, load_bitmap, mount_partition, format_disk, mount_bitmap, free_sects,
  inode_table_sects, div_round_up,
}
use tinykernel.Fs.Format.Layout.{IsLayout, new_super_block-IsLayout}

-- A sector outside the ones that are written.
write_sectors-outside :
    (lba n s o : ℕ) (buf : ℕ → ℕ) (disk : Disk)
    → (leb lba s && ltb s (lba + n)) ≡ false
    → write_sectors lba buf n disk s o ≡ disk s o
unfolding write_sectors
write_sectors-outside lba n s o buf disk out = rw out refl

write_sectors-inside :
    (lba n i : ℕ) (buf : ℕ → ℕ) (disk : Disk)
    → i < n * 512
    → write_sectors lba buf n disk (lba + i / 512) (i % 512) ≡ buf i
unfolding write_sectors
write_sectors-inside lba n i buf disk small =
    let inside : (leb lba (lba + i / 512) && ltb (lba + i / 512) (lba + n)) ≡ true =
      ground (arith, small) in
    let at : (lba + i / 512 - lba) * 512 + i % 512 ≡ i = omega arith in rw (inside, at) refl

-- The super block with the given words.
abbrev super_fields : (ℕ → ℕ) → SuperBlock
super_fields f = record {
  magic = f 0;
  sec_cnt = f 1;
  inode_cnt = f 2;
  part_lba_base = f 3;
  block_bitmap_lba = f 4;
  block_bitmap_sects = f 5;
  inode_bitmap_lba = f 6;
  inode_bitmap_sects = f 7;
  inode_table_lba = f 8;
  inode_table_sects = f 9;
  data_start_lba = f 10;
  root_inode_no = f 11;
  dir_entry_size = f 12;
}

super_fields-same : (f g : ℕ → ℕ) → ((w : ℕ) → w < 13 → f w ≡ g w) → super_fields f ≡ super_fields g
super_fields-same f g h =
    let e0 = h 0 (omega arith) in
    let e1 = h 1 (omega arith) in
    let e2 = h 2 (omega arith) in
    let e3 = h 3 (omega arith) in
    let e4 = h 4 (omega arith) in
    let e5 = h 5 (omega arith) in
    let e6 = h 6 (omega arith) in
    let e7 = h 7 (omega arith) in
    let e8 = h 8 (omega arith) in
    let e9 = h 9 (omega arith) in
    let e10 = h 10 (omega arith) in
    let e11 = h 11 (omega arith) in
    let e12 = h 12 (omega arith) in rw (e0, e1, e2, e3, e4, e5, e6, e7, e8, e9, e10, e11, e12) refl

module _ (pad : ℕ → ℕ) (start_lba sec_cnt : ℕ) (disk : Disk) (lo : 612 < sec_cnt)
    (hi : sec_cnt ≤ 163840) where
  abbrev sb : SuperBlock
  sb = new_super_block start_lba sec_cnt

  abbrev after : Disk
  after = format_disk pad start_lba sec_cnt disk

  layout : IsLayout start_lba sec_cnt sb
  layout = new_super_block-IsLayout start_lba sec_cnt (omega (arith, lo)) hi

  -- A sector in front of the inode table is not changed by the last two writes, and so on backwards.
  super_sector : (o : ℕ) → o < 512 → after (start_lba + 1) o ≡ super_byte sb pad o
  unfolding format_disk
  super_sector o small =
      let v = layout in
      let first : start_lba + 1 + o / 512 ≡ start_lba + 1 = omega arith in
      let off : o % 512 ≡ o = omega arith in
      let inside =
        write_sectors-inside (start_lba + 1) 1 o (super_byte sb pad) disk (omega arith) in
      write_sectors-outside sb.data_start_lba 1 (start_lba + 1) o _ _
        (ground (arith, v.bitmap, v.inode_bitmap, v.inode_table, v.data_start))
      ∙ write_sectors-outside sb.inode_table_lba sb.inode_table_sects (start_lba + 1) o _ _
          (ground (arith, v.bitmap, v.inode_bitmap, v.inode_table))
      ∙ write_sectors-outside sb.inode_bitmap_lba sb.inode_bitmap_sects (start_lba + 1) o _ _
          (ground (arith, v.bitmap, v.inode_bitmap))
      ∙ write_sectors-outside sb.block_bitmap_lba sb.block_bitmap_sects (start_lba + 1) o _ _
          (ground (arith, v.bitmap))
      ∙ (rw (first, off) at inside)

  block_sector :
      (i : ℕ)
      → i < sb.block_bitmap_sects * 512
      → after (sb.block_bitmap_lba + i / 512) (i % 512)
        ≡ bitmap_buffer (block_bitmap_bit_len sec_cnt) i
  unfolding format_disk
  block_sector i small =
      let v = layout in
      let s = sb.block_bitmap_lba + i / 512 in
      write_sectors-outside sb.data_start_lba 1 s (i % 512) _ _
        (ground (arith, small, v.inode_bitmap, v.inode_table, v.data_start))
      ∙ write_sectors-outside sb.inode_table_lba sb.inode_table_sects s (i % 512) _ _
          (ground (arith, small, v.inode_bitmap, v.inode_table))
      ∙ write_sectors-outside sb.inode_bitmap_lba sb.inode_bitmap_sects s (i % 512) _ _
          (ground (arith, small, v.inode_bitmap))
      ∙ write_sectors-inside sb.block_bitmap_lba sb.block_bitmap_sects i _ _ small

  inode_sector :
      (i : ℕ)
      → i < sb.inode_bitmap_sects * 512
      → after (sb.inode_bitmap_lba + i / 512) (i % 512) ≡ update (λ k. 0) 0 1 i
  unfolding format_disk
  inode_sector i small =
      let v = layout in
      let s = sb.inode_bitmap_lba + i / 512 in
      write_sectors-outside sb.data_start_lba 1 s (i % 512) _ _
        (ground (arith, small, v.inode_table, v.data_start))
      ∙ write_sectors-outside sb.inode_table_lba sb.inode_table_sects s (i % 512) _ _
          (ground (arith, small, v.inode_table))
      ∙ write_sectors-inside sb.inode_bitmap_lba sb.inode_bitmap_sects i _ _ small

  super_word-at :
      (w : ℕ)
      → w < 13
      → super_word sb w < 2 ^ 32
      → word_at (after (start_lba + 1)) (4 * w) ≡ super_word sb w
  unfolding super_byte
  super_word-at w small fits =
      word_at-bytes (after (start_lba + 1)) (4 * w) (super_word sb w) fits (λ k lt.
        let q : (4 * w + k) / 4 ≡ w = omega arith in
        let r : (4 * w + k) % 4 ≡ k = omega arith in
        let in_words : ltb (4 * w + k) 52 ≡ true = ground arith in
        super_sector (4 * w + k) (omega arith) ∙ rw (in_words, q, r) refl)

  constants :
      (sb.magic < 2 ^ 32)
      × (sb.sec_cnt ≡ sec_cnt)
      × (sb.inode_cnt ≡ 4096)
      × (sb.part_lba_base ≡ start_lba)
      × (sb.root_inode_no ≡ 0)
      × (sb.dir_entry_size ≡ 24)
  unfolding new_super_block
  constants = (omega arith, refl, refl, refl, refl, refl)

  word_fits : start_lba + sec_cnt < 2 ^ 32 → (w : ℕ) → w < 13 → super_word sb w < 2 ^ 32
  unfolding super_word
  word_fits word w small = go w small
    where
      v : IsLayout start_lba sec_cnt sb
      v = layout

      go : (w : ℕ) → w < 13 → super_word sb w < 2 ^ 32
      go zero small = omega (arith, constants)
      go (suc zero) small = omega (arith, hi, constants)
      go (suc (suc zero)) small = omega (arith, constants)
      go (suc (suc (suc zero))) small =
          omega (
            arith, v.bitmap, v.inode_bitmap, v.inode_table, v.data_start, v.blocks, word, constants,
          )
      go (suc (suc (suc (suc zero)))) small =
          omega (
            arith, v.bitmap, v.inode_bitmap, v.inode_table, v.data_start, v.blocks, word, constants,
          )
      go (suc (suc (suc (suc (suc zero))))) small =
          omega (
            arith, v.bitmap, v.inode_bitmap, v.inode_table, v.data_start, v.blocks, word, constants,
          )
      go (suc (suc (suc (suc (suc (suc zero)))))) small =
          omega (
            arith, v.bitmap, v.inode_bitmap, v.inode_table, v.data_start, v.blocks, word, constants,
          )
      go (suc (suc (suc (suc (suc (suc (suc zero))))))) small =
          omega (
            arith, v.bitmap, v.inode_bitmap, v.inode_table, v.data_start, v.blocks, word, constants,
          )
      go (suc (suc (suc (suc (suc (suc (suc (suc zero)))))))) small =
          omega (
            arith, v.bitmap, v.inode_bitmap, v.inode_table, v.data_start, v.blocks, word, constants,
          )
      go (suc (suc (suc (suc (suc (suc (suc (suc (suc zero))))))))) small =
          omega (
            arith, v.bitmap, v.inode_bitmap, v.inode_table, v.data_start, v.blocks, word, constants,
          )
      go (suc (suc (suc (suc (suc (suc (suc (suc (suc (suc zero)))))))))) small =
          omega (
            arith, v.bitmap, v.inode_bitmap, v.inode_table, v.data_start, v.blocks, word, constants,
          )
      go (suc (suc (suc (suc (suc (suc (suc (suc (suc (suc (suc zero))))))))))) small =
          omega (arith, constants)
      go (suc (suc (suc (suc (suc (suc (suc (suc (suc (suc (suc (suc zero)))))))))))) small =
          omega (arith, constants)
      go (suc (suc (suc (suc (suc (suc (suc (suc (suc (suc (suc (suc (suc w))))))))))))) small =
          absurd (omega (arith, small))

  super_block-read : start_lba + sec_cnt < 2 ^ 32 → super_of (after (start_lba + 1)) ≡ sb
  unfolding super_of super_word
  super_block-read word =
      super_fields-same (λ w. word_at (after (start_lba + 1)) (4 * w)) (super_word sb)
        (λ w small. super_word-at w small (word_fits word w small))

  -- What has been mounted: the super block of the format, and bitmaps that hold what it wrote.
  pub record IsMounted (part : Partition) : Type 0 where
    pub same_sb : part.sb ≡ sb
    pub blocks :
        (i : ℕ)
        → i < sb.block_bitmap_sects * 512
        → part.block_bitmap.bits i ≡ bitmap_buffer (block_bitmap_bit_len sec_cnt) i
    pub block_len : part.block_bitmap.btmp_bytes_len ≡ sb.block_bitmap_sects * 512
    pub inodes : (i : ℕ) → i < 512 → part.inode_bitmap.bits i ≡ (if i == 0 then 1 else 0)
    pub inode_len : part.inode_bitmap.btmp_bytes_len ≡ 512

  -- The `ASSERT`s of the driver for what is written and read.
  some_block : 0 < block_bitmap_bit_len sec_cnt
  unfolding block_bitmap_bit_len free_sects inode_table_sects div_round_up
  some_block = omega (arith, lo, hi)

  record OnDisk : Type 0 where
    super : on_disk (start_lba + 1) 1 ≡ true
    block_bitmap : on_disk sb.block_bitmap_lba sb.block_bitmap_sects ≡ true
    inode_bitmap : on_disk sb.inode_bitmap_lba sb.inode_bitmap_sects ≡ true
    inode_table : on_disk sb.inode_table_lba sb.inode_table_sects ≡ true
    root : on_disk sb.data_start_lba 1 ≡ true

  on_disk_run : (lba sects : ℕ) → 0 < sects → lba + sects ≤ max_lba + 1 → on_disk lba sects ≡ true
  on_disk_run lba sects one end = ground (arith, one, end)

  all_on_disk : start_lba + sec_cnt ≤ max_lba + 1 → OnDisk
  all_on_disk end =
      let v = layout in
      let first = some_block in
      record {
        super = on_disk_run (start_lba + 1) 1 (omega arith) (omega (arith, lo, end));
        block_bitmap =
            on_disk_run sb.block_bitmap_lba sb.block_bitmap_sects (omega (arith, v.bits, first))
              (omega (arith, v.inode_bitmap, v.inode_table, v.data_start, v.blocks, end));
        inode_bitmap =
            on_disk_run sb.inode_bitmap_lba sb.inode_bitmap_sects (omega (arith, v.inode_bits))
              (omega (arith, v.inode_table, v.data_start, v.blocks, end));
        inode_table =
            on_disk_run sb.inode_table_lba sb.inode_table_sects (omega (arith, v.inodes))
              (omega (arith, v.data_start, v.blocks, end));
        root = on_disk_run sb.data_start_lba 1 (omega arith) (omega (arith, v.blocks, first, end));
      }

  -- The partition in memory that `mount_partition` makes of the formatted one.
  abbrev mounted : (bits1 bits2 : ℕ → ℕ) → Partition
  mounted bits1 bits2 = record {
    start_lba = start_lba;
    sec_cnt = sec_cnt;
    sb = sb;
    block_bitmap = load_bitmap sb.block_bitmap_lba sb.block_bitmap_sects bits1 after;
    inode_bitmap = load_bitmap sb.inode_bitmap_lba sb.inode_bitmap_sects bits2 after;
    open_inodes = [];
  }

  mounted-IsMounted : (bits1 bits2 : ℕ → ℕ) → IsMounted (mounted bits1 bits2)
  unfolding load_bitmap read_sectors
  mounted-IsMounted bits1 bits2 = record {
    same_sb = refl;
    blocks = λ i small.
        (let test = lt→ltb i (sb.block_bitmap_sects * 512) small in rw test (block_sector i small));
    block_len = refl;
    inodes = λ i small.
        (let inside : i < sb.inode_bitmap_sects * 512 = omega (arith, small, layout.inode_bits) in
          let test = lt→ltb i (sb.inode_bitmap_sects * 512) inside in
          let held : update (λ k. 0) 0 1 i ≡ (if i == 0 then 1 else 0) = ground arith in
          rw test (inode_sector i inside ∙ held));
    inode_len = omega (arith, layout.inode_bits);
  }

  -- A partition of more than 612 and at most 163840 sectors, all of which lie below the end of the 80 MB that the driver accepts, where every call of `sys_malloc` gets its memory. `partition_format` succeeds, and `mount_partition` of what it leaves succeeds too, with the super block that the format computed, and with bitmaps in memory that hold, over all their sectors, what the format wrote for blocks and for inodes.
  pub mount_partition-IsMounted :
      (buf sb_buf sb_memory bits1 bits2 : ℕ → ℕ)
      → start_lba + sec_cnt ≤ max_lba + 1
      → (disk' : Disk) × (part : Partition) × (partition_format pad
            (some buf)
            start_lba
            sec_cnt
            disk
          ≡ ok disk')
        × (mount_partition
              (some sb_buf)
              (some sb_memory)
              (some bits1)
              (some bits2)
              start_lba
              sec_cnt
              disk'
            ≡ ok part)
        × IsMounted part
  unfolding mount_partition mount_bitmap partition_format
  mount_partition-IsMounted buf sb_buf sb_memory bits1 bits2 end =
      let d = all_on_disk end in
      let same = super_block-read (omega (arith, end)) in
      (
        after,
        mounted bits1 bits2,
        rw (d.super, d.block_bitmap, d.inode_bitmap, d.inode_table, d.root) refl,
        rw (d.super, same, d.block_bitmap, d.inode_bitmap) refl,
        mounted-IsMounted bits1 bits2,
      )
