-- ===== src/Ide/Partitions/Primary.antt =====
-- `partition_scan` of a disk without an extended partition.
use tinykernel.Base.{
  ℕ, zero, suc, ◌+◌, ◌≤◌, ◌<◌, ◌≡◌, ◌≢◌, refl, ◌∙◌, false, List, [], ◌∷◌, ◌++◌, ltb, ◌==◌,
  if◌then◌else◌, length, update, arith, Bool-cases, inl, inr, Outcome, ok, panic, ==_refl,
}
use tinykernel.Fs.{Disk}
use tinykernel.Ide.Partitions.{
  table_entry, Extent, prim, Scan, extent_of, add_prim, scan_entries, partition_scan,
}

-- The extents of the entries that are in use, from `part_idx` on.
abbrev pub extents : (ℕ → ℕ) → ℕ → ℕ → List Extent
extents bs zero part_idx = []
extents bs (suc left) part_idx =
    let rest = extents bs left (part_idx + 1) in
    if (table_entry bs part_idx).fs_type == 0
    then rest
    else extent_of 0 (table_entry bs part_idx) ∷ rest

-- A list stands in an array from an index on.
abbrev pub StandsAt : (ℕ → Extent) → ℕ → List Extent → Type 0
StandsAt parts k [] = Unit {0}
StandsAt parts k (x ∷ xs) = (parts k ≡ x) × StandsAt parts (k + 1) xs

-- The partitions have been entered behind those that were there, and nothing else has changed but the list of partitions.
pub record Entered (xs : List Extent) (s s' : Scan) : Type 0 where
  pub parts : StandsAt s'.prim_parts s.p_no xs
  pub count : s'.p_no ≡ s.p_no + length xs
  pub before : (k : ℕ) → k < s.p_no → s'.prim_parts k ≡ s.prim_parts k
  pub logic : s'.logic_parts ≡ s.logic_parts
  pub none_new : s'.l_no ≡ s.l_no
  pub base : s'.ext_lba_base ≡ s.ext_lba_base

-- Fewer than four, or all four.
abbrev pub Primaries : List Extent → Scan → Outcome Scan → Type 0
Primaries xs s r =
    (s.p_no + length xs < 4 → (s' : Scan) × (r ≡ ok s') × Entered xs s s')
    × (4 ≤ s.p_no + length xs → r ≡ panic)

abbrev added : Extent → Scan → Scan
added x s = record s {
  prim_parts = update s.prim_parts s.p_no x;
  partition_list = s.partition_list ++ (prim s.p_no ∷ []);
  p_no = s.p_no + 1;
}

added-Entered :
    (x : Extent) (xs : List Extent) (s s' : Scan)
    → Entered xs (added x s) s'
    → Entered (x ∷ xs) s s'
added-Entered x xs s s' e = record {
  parts = (e.before s.p_no (omega arith) ∙ rw (==_refl s.p_no) refl, e.parts);
  count = e.count ∙ omega arith;
  before = λ k lo. e.before k (omega (arith, lo)) ∙ ground (arith, lo);
  logic = e.logic;
  none_new = e.none_new;
  base = e.base;
}

added-Primaries :
    (x : Extent) (xs : List Extent) (s : Scan) (r : Outcome Scan)
    → Primaries xs (added x s) r
    → Primaries (x ∷ xs) s r
added-Primaries x xs s r (fewer, all) = (
  (λ h. (let (s', done, e) = fewer (omega (arith, h)) in (s', done, added-Entered x xs s s' e))),
  λ h. all (omega (arith, h)),
)

scan_entries-Primaries :
    (scan : ℕ → Scan → Outcome Scan) (bs : ℕ → ℕ) (left part_idx : ℕ) (s : Scan)
    → s.p_no < 4
    → ((i : ℕ) → part_idx ≤ i → i < part_idx + left → (table_entry bs i).fs_type ≢ 5)
    → Primaries (extents bs left part_idx) s (scan_entries scan 0 bs left part_idx s)
unfolding scan_entries add_prim
scan_entries-Primaries scan bs zero part_idx s few no_extended = (
  (λ h. (
    s,
    refl,
    record {
      parts = tt;
      count = omega arith;
      before = λ k lo. refl;
      logic = refl;
      none_new = refl;
      base = refl;
    },
  )),
  λ h. absurd (omega (arith, h, few)),
)
scan_entries-Primaries scan bs (suc left) part_idx s few no_extended =
    let other : ((table_entry bs part_idx).fs_type == 5) ≡ false =
      ground (arith, no_extended part_idx) in
    let rest = scan_entries-Primaries scan bs left (part_idx + 1) in
    let more : (i : ℕ)
        → part_idx + 1 ≤ i
        → i < part_idx + 1 + left
        → (table_entry bs i).fs_type ≢ 5 =
      λ i lo hi. no_extended i (omega (arith, lo)) (omega (arith, hi)) in
    elim (Bool-cases ((table_entry bs part_idx).fs_type == 0)) [
      | inl free ↦ rw (other, free) (rest s few more)
      | inr used ↦ elim (Bool-cases (ltb (s.p_no + 1) 4)) [
        | inr full ↦ rw (other, used, full) ((λ h. absurd (ground (arith, h, full))), λ h. refl)
        | inl room ↦
            rw (other, used, room)
              (added-Primaries (extent_of 0 (table_entry bs part_idx))
                (extents bs left (part_idx + 1)) s
                (scan_entries scan 0 bs left (part_idx + 1)
                  (added (extent_of 0 (table_entry bs part_idx)) s))
                (rest (added (extent_of 0 (table_entry bs part_idx)) s) (ground (arith, room))
                  more))
      ]
    ]

-- `partition_scan` of a master boot record without an extended partition, behind the reset of `p_no`. If fewer than four entries are in use, their extents come to the front of `prim_parts` in their order, `p_no` is their number, and neither the logical partitions nor `ext_lba_base` change. If all four are in use, the kernel stops.
pub partition_scan-Primaries :
    (fuel : ℕ) (disk : Disk) (s : Scan)
    → s.p_no ≡ 0
    → ((i : ℕ) → i < 4 → (table_entry (disk 0) i).fs_type ≢ 5)
    → Primaries (extents (disk 0) 4 0) s (partition_scan (suc fuel) disk 0 s)
unfolding partition_scan
partition_scan-Primaries fuel disk s none_yet no_extended =
    (scan_entries-Primaries (partition_scan fuel disk) (disk 0) 4 0 s (omega (arith, none_yet))
      (λ i lo hi. no_extended i hi))
