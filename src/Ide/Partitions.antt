-- ===== src/Ide/Partitions.antt =====
-- `partition_scan` of device/ide.c, with the sector that `ide_read` gives. The memory for it, the names of the
-- partitions and `my_disk` are left out; the arrays of partitions go on behind their ends.
pub mod Primary
use tinykernel.Base.{
  ℕ, zero, suc, ◌+◌, ◌*◌, Bool, List, [], ◌∷◌, ◌++◌, ltb, leb, ◌==◌, if◌then◌else◌, update, u32,
  Outcome, ok, panic, assert, ◌>>=◌, ◌>>◌,
}
use tinykernel.Fs.{Disk, word_at}
use tinykernel.Ide.{max_lba}

-- The fields of `struct partition_table_entry` that are used.
pub record PartitionTableEntry : Type 0 where
  pub fs_type : ℕ
  pub start_lba : ℕ
  pub sec_cnt : ℕ

-- The entry `i` of `partition_table` in a sector.
unfoldable pub table_entry : (ℕ → ℕ) → ℕ → PartitionTableEntry
table_entry bs i = record {
  fs_type = bs (446 + 16 * i + 4);
  start_lba = word_at bs (446 + 16 * i + 8);
  sec_cnt = word_at bs (446 + 16 * i + 12);
}

-- Where a partition lies.
pub record Extent : Type 0 where
  pub start_lba : ℕ
  pub sec_cnt : ℕ

-- An element of `partition_list`: the index in one of the arrays.
pub data PartTag : Type 0 where
  prim : (p_no : ℕ) → PartTag
  logic : (l_no : ℕ) → PartTag

-- `ext_lba_base`, `p_no`, `l_no` and `partition_list`, and the arrays of the disk.
pub record Scan : Type 0 where
  pub ext_lba_base : ℕ
  pub p_no : ℕ
  pub l_no : ℕ
  pub prim_parts : ℕ → Extent
  pub logic_parts : ℕ → Extent
  pub partition_list : List PartTag

abbrev pub extent_of : ℕ → PartitionTableEntry → Extent
extent_of ext_lab p = record { start_lba = u32 (ext_lab + p.start_lba); sec_cnt = p.sec_cnt }

unfoldable pub add_prim : ℕ → PartitionTableEntry → Scan → Outcome Scan
add_prim ext_lab p s = do
  assert (ltb (s.p_no + 1) 4)
  ok (record s {
    prim_parts = update s.prim_parts s.p_no (extent_of ext_lab p);
    partition_list = s.partition_list ++ (prim s.p_no ∷ []);
    p_no = s.p_no + 1;
  })

unfoldable pub add_logic : ℕ → PartitionTableEntry → Scan → Scan
add_logic ext_lab p s = record s {
  logic_parts = update s.logic_parts s.l_no (extent_of ext_lab p);
  partition_list = s.partition_list ++ (logic s.l_no ∷ []);
  l_no = s.l_no + 1;
}

-- An extended partition; `scan` is `partition_scan`.
unfoldable pub scan_extended : (ℕ → Scan → Outcome Scan) → PartitionTableEntry → Scan → Outcome Scan
scan_extended scan p s =
    if s.ext_lba_base == 0
    then scan p.start_lba (record s { ext_lba_base = p.start_lba })
    else scan (u32 (p.start_lba + s.ext_lba_base)) s

-- The loop over the entries, of which `left` are left; the eighth logical partition ends it.
unfoldable pub scan_entries : (ℕ → Scan → Outcome Scan) → ℕ → (ℕ → ℕ) → ℕ → ℕ → Scan → Outcome Scan
scan_entries scan ext_lab bs zero part_idx s = ok s
scan_entries scan ext_lab bs (suc left) part_idx s =
    let p = table_entry bs part_idx in
    let rest : Scan → Outcome Scan = scan_entries scan ext_lab bs left (part_idx + 1) in
    let with_logic = add_logic ext_lab p s in
    if p.fs_type == 5
    then scan_extended scan p s >>= rest
    else if p.fs_type == 0
    then rest s
    else if ext_lab == 0
    then add_prim ext_lab p s >>= rest
    else if leb 8 with_logic.l_no
    then ok with_logic
    else rest with_logic

-- On fuel for the extended partitions that lie in one another; to run out of it, as in a chain that closes, is a stop.
unfoldable pub partition_scan : (fuel : ℕ) → Disk → ℕ → Scan → Outcome Scan
partition_scan zero disk ext_lab s = panic
partition_scan (suc fuel) disk ext_lab s = do
  assert (leb ext_lab max_lba)
  scan_entries (partition_scan fuel disk) ext_lab (disk ext_lab) 4 0 s
