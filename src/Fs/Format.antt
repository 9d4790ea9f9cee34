-- ===== src/Fs/Format.antt =====
-- `partition_format`, `mount_partition` and the partitions that `filesys_init` formats, of fs/fs.c.
pub mod Layout
pub mod Mounted
use tinykernel.Base.{
  ℕ, zero, suc, ◌+◌, ◌-◌, ◌*◌, ◌/◌, ◌%◌, ◌^◌, Bool, true, false, not, ◌&&◌, ◌||◌, List, [], ◌∷◌,
  Option, none, some, ltb, leb, ◌==◌, if◌then◌else◌, update, u32, Outcome, ok, panic, ◌>>=◌, assert,
  ◌>>◌,
}
use tinykernel.Bitmap.{Bitmap, clear_bit}
use tinykernel.Fs.{
  Disk, Inode, SuperBlock, Partition, word_byte, word_at, patch, on_disk, read_sectors,
  write_sectors, max_files_per_part,
}
use tinykernel.Thread.Descriptors.{is_none}
use tinykernel.Fs.Inodes.{inode_size, inode_byte}
use tinykernel.Fs.DirCalls.{dot_entries}

-- `DIV_ROUND_UP`
unfoldable pub div_round_up : ℕ → ℕ → ℕ
div_round_up x step = (x + step - 1) / step

abbrev pub bits_per_sector : ℕ
bits_per_sector = 4096

abbrev pub fs_magic : ℕ
fs_magic = 0x19590318

-- The sizes that `partition_format` computes for a partition of `sec_cnt` sectors.
unfoldable pub inode_table_sects : ℕ
inode_table_sects = div_round_up (inode_size * max_files_per_part) 512

unfoldable pub free_sects : ℕ → ℕ
free_sects sec_cnt =
    let used_sects = 1 + 1 + div_round_up max_files_per_part bits_per_sector + inode_table_sects in
    u32 (sec_cnt + 2 ^ 32 - used_sects)

unfoldable pub block_bitmap_bit_len : ℕ → ℕ
block_bitmap_bit_len sec_cnt =
    free_sects sec_cnt - div_round_up (free_sects sec_cnt) bits_per_sector

-- The super block.
unfoldable pub new_super_block : ℕ → ℕ → SuperBlock
new_super_block start_lba sec_cnt =
    let bitmap_sects = div_round_up (block_bitmap_bit_len sec_cnt) bits_per_sector in
    let inode_sects = div_round_up max_files_per_part bits_per_sector in
    let bitmap_lba = start_lba + 2 in
    let inode_bitmap = bitmap_lba + bitmap_sects in
    let inode_table = inode_bitmap + inode_sects in
    record {
      magic = fs_magic;
      sec_cnt = sec_cnt;
      inode_cnt = max_files_per_part;
      part_lba_base = start_lba;
      block_bitmap_lba = bitmap_lba;
      block_bitmap_sects = bitmap_sects;
      inode_bitmap_lba = inode_bitmap;
      inode_bitmap_sects = inode_sects;
      inode_table_lba = inode_table;
      inode_table_sects = inode_table_sects;
      data_start_lba = inode_table + inode_table_sects;
      root_inode_no = 0;
      dir_entry_size = 24;
    }

-- The loop that clears bits of the last byte; the first number is the count of rounds left.
unfoldable pub clear_low_bits : ℕ → ℕ → ℕ → ℕ
clear_low_bits zero bit_idx byte = byte
clear_low_bits (suc left) bit_idx byte = clear_low_bits left (bit_idx + 1) (clear_bit byte bit_idx)

-- The buffer with the bitmap of blocks: zeros from `sys_malloc`, the first bit, ones from the last
-- byte on to the end of its sector, and the loop.
unfoldable pub bitmap_buffer : ℕ → ℕ → ℕ
bitmap_buffer bit_len =
    let last_byte = bit_len / 8 in
    let last_size = 512 - last_byte % 512 in
    let reserved : ℕ → ℕ = update (λ i. 0) 0 1 in
    let filled = patch last_byte last_size (λ i. 255) reserved in
    update filled last_byte (clear_low_bits (bit_len % 8 + 1) 0 (filled last_byte))

-- The thirteen words of `struct super_block`; `pad` is what its last bytes happen to be.
unfoldable pub super_word : SuperBlock → ℕ → ℕ
super_word sb w =
    nth
      (sb.magic ∷ sb.sec_cnt ∷ sb.inode_cnt ∷ sb.part_lba_base ∷ sb.block_bitmap_lba
        ∷ sb.block_bitmap_sects ∷ sb.inode_bitmap_lba ∷ sb.inode_bitmap_sects ∷ sb.inode_table_lba
        ∷ sb.inode_table_sects ∷ sb.data_start_lba ∷ sb.root_inode_no ∷ sb.dir_entry_size ∷ [])
      w
  where
    nth : List ℕ → ℕ → ℕ
    nth [] i = 0
    nth (x ∷ xs) zero = x
    nth (x ∷ xs) (suc i) = nth xs i

unfoldable pub super_byte : SuperBlock → (ℕ → ℕ) → ℕ → ℕ
super_byte sb pad k = if ltb k 52 then word_byte (super_word sb (k / 4)) (k % 4) else pad k

-- The super block whose bytes stand in a buffer.
unfoldable pub super_of : (ℕ → ℕ) → SuperBlock
super_of buf = record {
  magic = word_at buf 0;
  sec_cnt = word_at buf 4;
  inode_cnt = word_at buf 8;
  part_lba_base = word_at buf 12;
  block_bitmap_lba = word_at buf 16;
  block_bitmap_sects = word_at buf 20;
  inode_bitmap_lba = word_at buf 24;
  inode_bitmap_sects = word_at buf 28;
  inode_table_lba = word_at buf 32;
  inode_table_sects = word_at buf 36;
  data_start_lba = word_at buf 40;
  root_inode_no = word_at buf 44;
  dir_entry_size = word_at buf 48;
}

-- The inode of the root directory, in a buffer of zeros.
abbrev pub root_inode : SuperBlock → Inode
root_inode sb = record {
  i_no = 0;
  i_size = sb.dir_entry_size * 2;
  i_open_cnts = 0;
  write_deny = false;
  i_sectors = λ j. if j == 0 then sb.data_start_lba else 0;
}

-- What the five writes of `partition_format` leave on the disk.
unfoldable pub format_disk : (pad : ℕ → ℕ) → ℕ → ℕ → Disk → Disk
format_disk pad start_lba sec_cnt disk =
    let sb = new_super_block start_lba sec_cnt in
    let zeros : ℕ → ℕ = λ i. 0 in
    let d1 = write_sectors (start_lba + 1) (super_byte sb pad) 1 disk in
    let blocks = bitmap_buffer (block_bitmap_bit_len sec_cnt) in
    let d2 = write_sectors sb.block_bitmap_lba blocks sb.block_bitmap_sects d1 in
    let d3 = write_sectors sb.inode_bitmap_lba (update zeros 0 1) sb.inode_bitmap_sects d2 in
    let inodes = patch 0 inode_size (inode_byte (root_inode sb)) zeros in
    let d4 = write_sectors sb.inode_table_lba inodes sb.inode_table_sects d3 in
    write_sectors sb.data_start_lba (dot_entries 0 0) 1 d4

-- `partition_format`; a stop keeps nothing, so the `ASSERT`s of the five writes stand together. `buf`
-- is what `sys_malloc` returns, which is not looked at before the second write uses it.
unfoldable pub partition_format :
    (pad : ℕ → ℕ) → (buf : Option (ℕ → ℕ)) → ℕ → ℕ → Disk → Outcome Disk
partition_format pad buf start_lba sec_cnt disk = do
  let sb = new_super_block start_lba sec_cnt
  assert (not (is_none buf))
  assert (on_disk (start_lba + 1) 1)
  assert (on_disk sb.block_bitmap_lba sb.block_bitmap_sects)
  assert (on_disk sb.inode_bitmap_lba sb.inode_bitmap_sects)
  assert (on_disk sb.inode_table_lba sb.inode_table_sects)
  assert (on_disk sb.data_start_lba 1)
  ok (format_disk pad start_lba sec_cnt disk)

-- A bitmap that is read from the disk, to memory that may hold anything behind it.
unfoldable pub load_bitmap : ℕ → ℕ → (ℕ → ℕ) → Disk → Bitmap
load_bitmap lba sects behind disk = record {
  btmp_bytes_len = sects * 512;
  bits = read_sectors lba sects disk behind;
}

-- A bitmap in memory that `sys_malloc` gives; without it the kernel stops, in `PANIC`.
unfoldable pub mount_bitmap : ℕ → ℕ → Option (ℕ → ℕ) → Disk → Outcome Bitmap
mount_bitmap lba sects memory disk = elim memory [
  | none ↦ panic
  | some behind ↦ do assert (on_disk lba sects); ok (load_bitmap lba sects behind disk)
]

-- `mount_partition` of the partition with the name that is looked for, with the results of its four
-- calls of `sys_malloc`, the first of which it does not look at before it writes there.
unfoldable pub mount_partition :
    (sb_buf sb_memory bits1 bits2 : Option (ℕ → ℕ)) → ℕ → ℕ → Disk → Outcome Partition
mount_partition sb_buf sb_memory bits1 bits2 start_lba sec_cnt disk = do
  assert (not (is_none sb_memory))
  assert (not (is_none sb_buf))
  assert (on_disk (start_lba + 1) 1)
  let sb = super_of (disk (start_lba + 1))
  block_bitmap ← mount_bitmap sb.block_bitmap_lba sb.block_bitmap_sects bits1 disk
  inode_bitmap ← mount_bitmap sb.inode_bitmap_lba sb.inode_bitmap_sects bits2 disk
  ok (record {
    start_lba = start_lba;
    sec_cnt = sec_cnt;
    sb = sb;
    block_bitmap = block_bitmap;
    inode_bitmap = inode_bitmap;
    open_inodes = [];
  })

-- What `filesys_init` does with one partition of a disk; the sector is read only if the partition
-- has sectors.
unfoldable pub prepare_partition :
    (pad : ℕ → ℕ) → (buf : Option (ℕ → ℕ)) → ℕ → ℕ → Disk → Outcome Disk
prepare_partition pad buf start_lba sec_cnt disk =
    let formatted = partition_format pad buf start_lba sec_cnt disk in
    let checked = do
      assert (on_disk (start_lba + 1) 1)
      if (super_of (disk (start_lba + 1))).magic == fs_magic then ok disk else formatted
    in if not (sec_cnt == 0) then checked else ok disk
