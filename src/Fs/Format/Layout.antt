-- ===== src/Fs/Format/Layout.antt =====
-- The parts of a partition that `partition_format` lays out, and the bitmap of blocks in it.
use tinykernel.Base.{
  ℕ, ◌+◌, ◌-◌, ◌*◌, ◌/◌, ◌%◌, ◌≤◌, ◌<◌, ◌≡◌, refl, ◌∙◌, true, false, ◌&&◌, ◌||◌, arith, ltb, leb,
  ◌==◌, if◌then◌else◌, Bool-cases, ℕ_discrete, inl, inr, table, table-entry,
}
use tinykernel.Bitmap.{Bitmap, bitmap_scan_test, bit_is_set, clear_bit}
use tinykernel.Bitmap.Bits.{eqb, eqb→eq, bit_is_set_full, bit_is_set_zero}
use tinykernel.Fs.{SuperBlock}
use tinykernel.Fs.Format.{
  div_round_up, inode_table_sects, free_sects, block_bitmap_bit_len, new_super_block,
  clear_low_bits, bitmap_buffer,
}

-- The five parts stand one behind another, after the boot sector and the super block; the inode table has room for 4096 inodes, the bitmap has a bit for each of the blocks that it counts, and these end inside the partition.
pub record IsLayout (start_lba sec_cnt : ℕ) (sb : SuperBlock) : Type 0 where
  pub bitmap : sb.block_bitmap_lba ≡ start_lba + 2
  pub inode_bitmap : sb.inode_bitmap_lba ≡ sb.block_bitmap_lba + sb.block_bitmap_sects
  pub inode_bits : sb.inode_bitmap_sects * 4096 ≡ 4096
  pub inode_table : sb.inode_table_lba ≡ sb.inode_bitmap_lba + sb.inode_bitmap_sects
  pub inodes : 4096 * 76 ≤ sb.inode_table_sects * 512
  pub data_start : sb.data_start_lba ≡ sb.inode_table_lba + sb.inode_table_sects
  pub bits : block_bitmap_bit_len sec_cnt ≤ sb.block_bitmap_sects * 4096
  pub blocks : sb.data_start_lba + block_bitmap_bit_len sec_cnt ≤ start_lba + sec_cnt
  pub all_but_few : start_lba + sec_cnt ≤ sb.data_start_lba + block_bitmap_bit_len sec_cnt + 1

-- For a partition of more than 611 sectors and at most 163840, all that a disk of 80 MB has, `partition_format` puts the bitmap of blocks, the bitmap of inodes, the inode table and the data one behind another. There is room for 4096 inodes; the blocks that the bitmap counts all lie inside the partition, and at most one sector behind them is not used.
pub new_super_block-IsLayout :
    (start_lba sec_cnt : ℕ)
    → 611 < sec_cnt
    → sec_cnt ≤ 163840
    → IsLayout start_lba sec_cnt (new_super_block start_lba sec_cnt)
unfolding new_super_block block_bitmap_bit_len free_sects inode_table_sects div_round_up
new_super_block-IsLayout start_lba sec_cnt lo hi = record {
  bitmap = refl;
  inode_bitmap = refl;
  inode_bits = refl;
  inode_table = refl;
  inodes = omega arith;
  data_start = refl;
  bits = omega arith;
  blocks = omega (arith, lo, hi);
  all_but_few = omega (arith, lo, hi);
}

-- The bits of the bytes that `partition_format` writes.
one_ok : table (λ k. eqb (bit_is_set 1 k) (k == 0)) 8 ≡ true
unfolding table bit_is_set
one_ok = refl

last_ok :
    table (λ r. table (λ k. eqb (bit_is_set (clear_low_bits (r + 1) 0 255) k) (ltb r k)) 8) 8 ≡ true
unfolding table bit_is_set clear_low_bits clear_bit
last_ok = refl

module _ (n : ℕ) (large : 8 ≤ n) where
  abbrev pub formatted : Bitmap
  formatted = record { btmp_bytes_len = (n / 4096 + 1) * 512; bits = bitmap_buffer n }

  -- The byte that holds the bit `j`.
  byte_before : (i : ℕ) → i < n / 8 → bitmap_buffer n i ≡ (if i == 0 then 1 else 0)
  unfolding bitmap_buffer
  byte_before i lt = ground (arith, lt)

  byte_last : bitmap_buffer n (n / 8) ≡ clear_low_bits (n % 8 + 1) 0 255
  unfolding bitmap_buffer
  byte_last =
      let here : (n / 8 == n / 8) ≡ true = ground arith in
      let inside : (leb (n / 8) (n / 8) && ltb (n / 8) (n / 8 + (512 - n / 8 % 512))) ≡ true =
        ground arith in
      rw (here, inside) refl

  byte_behind : (i : ℕ) → n / 8 < i → i < (n / 4096 + 1) * 512 → bitmap_buffer n i ≡ 255
  unfolding bitmap_buffer
  byte_behind i lo hi =
      let other : (n / 8 == i) ≡ false = ground (arith, lo) in
      let inside : (leb (n / 8) i && ltb i (n / 8 + (512 - n / 8 % 512))) ≡ true =
        ground (arith, lo, hi) in
      rw (other, inside) refl

  -- In a bitmap with room for `n` blocks, and at least 8, `partition_format` marks the first block and those behind number `n` up to the end of the sector. So the block with the number `n`, which is one too many, is free.
  pub formatted-test :
      (j : ℕ) → j < (n / 4096 + 1) * 4096 → bitmap_scan_test formatted j ≡ ((j == 0) || ltb n j)
  unfolding bitmap_scan_test
  formatted-test j small = elim (ℕ_discrete (j / 8) (n / 8)) [
    | yes last ↦
        rw (last, byte_last)
          (eqb→eq _ _ (
              table-entry _ 8 (table-entry _ 8 last_ok (n % 8) (omega arith)) (j % 8) (omega arith))
            ∙ ground (arith, last, large))
    | no other ↦ elim (Bool-cases (ltb (j / 8) (n / 8))) [
      | inl before ↦
          rw (byte_before (j / 8) (ground (arith, before))) (elim (Bool-cases (j / 8 == 0)) [
            | inl first ↦ rw first (
                eqb→eq _ _ (table-entry _ 8 one_ok (j % 8) (omega arith))
                ∙ ground (arith, first, before))
            | inr later ↦
                rw later (bit_is_set_zero (j % 8) (omega arith) ∙ ground (arith, later, before))
          ])
      | inr behind ↦
          let later : n / 8 < j / 8 = ground (arith, behind, other) in
          rw (byte_behind (j / 8) later (omega (arith, small)))
            (bit_is_set_full (j % 8) (omega arith) ∙ ground (arith, later))
    ]
  ]
