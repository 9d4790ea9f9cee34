-- ===== src/Fs/Inodes/Table.antt =====
-- The inode table: where `inode_locate` finds an inode, and what a write of one inode does to the
-- bytes of all of them.
use tinykernel.Base.{
  Bool, false, ℕ, ◌+◌, ◌-◌, ◌*◌, ◌/◌, ◌%◌, ◌≤◌, ◌<◌, ◌≡◌, refl, ◌∙◌, true, arith, ltb, leb, ◌==◌,
  if◌then◌else◌, ok, Bool-cases, inl, inr, ◌&&◌,
}
use tinykernel.Fs.{Disk, Partition, patch, read_sectors, write_sectors}
use tinykernel.Fs.Inodes.{InodePosition, inode_locate, replace_inode, sectors_of}

-- Byte `k` of inode `n` in the table of the partition.
abbrev pub table_byte : Partition → ℕ → ℕ → Disk → ℕ
table_byte part n k disk = disk (part.sb.inode_table_lba + (76 * n + k) / 512) ((76 * n + k) % 512)

-- The position of inode `n`.
abbrev pub position : Partition → ℕ → InodePosition
position part n = record {
  two_sec = ltb (512 - 76 * n % 512) 76;
  sec_lba = part.sb.inode_table_lba + 76 * n / 512;
  off_size = 76 * n % 512;
}

pub inode_locate-position :
    (part : Partition) (n : ℕ) → n < 4096 → inode_locate part n ≡ ok (position part n)
unfolding inode_locate
inode_locate-position part n small =
    let test : ltb n 4096 ≡ true = ground arith in
    let e : n * 76 ≡ 76 * n = omega arith in rw (test, e) refl

-- Replacing `len` bytes in the sectors from `lba + q` on, seen as bytes counted from sector `lba`.
pub rewrite_bytes :
    (lba q o len n p : ℕ) (bytes : ℕ → ℕ) (disk : Disk)
    → o + len ≤ n * 512
    → write_sectors
        (lba + q)
        (patch o len bytes (read_sectors (lba + q) n disk (λ i. 0)))
        n
        disk
        (lba + p / 512)
        (p % 512)
      ≡ (if leb (512 * q + o) p && ltb p (512 * q + o + len)
          then bytes (p - (512 * q + o))
          else disk (lba + p / 512) (p % 512))
unfolding read_sectors write_sectors
rewrite_bytes lba q o len n p bytes disk fits =
    elim (Bool-cases (leb q (p / 512) && ltb (p / 512) (q + n))) [
      | inl inside ↦
          let shift : lba + p / 512 - (lba + q) ≡ p / 512 - q = omega arith in
          let place : (p / 512 - q) * 512 + p % 512 ≡ p - 512 * q = ground (arith, inside) in
          let lo : leb (lba + q) (lba + p / 512) ≡ true = ground (arith, inside) in
          let hi : ltb (lba + p / 512) (lba + q + n) ≡ true = ground (arith, inside) in
          let held : ltb (p - 512 * q) (n * 512) ≡ true = ground (arith, inside) in
          let sector : lba + q + (p - 512 * q) / 512 ≡ lba + p / 512 = ground (arith, inside) in
          let off : (p - 512 * q) % 512 ≡ p % 512 = ground (arith, inside) in
          let sub : p - 512 * q - o ≡ p - (512 * q + o) = omega arith in
          let from : leb o (p - 512 * q) ≡ leb (512 * q + o) p = ground (arith, inside) in
          let to : ltb (p - 512 * q) (o + len) ≡ ltb p (512 * q + o + len) =
            ground (arith, inside) in
          rw (lo, hi, shift, place, from, to, held, sector, off, sub) refl
      | inr outside ↦ ground (arith, outside, fits)
    ]

-- A write of inode `n` changes the bytes of that inode in the table, and of no other.
pub replace_inode-table_byte :
    (part : Partition) (n j k : ℕ) (bytes : ℕ → ℕ) (disk : Disk)
    → k < 76
    → table_byte part j k (replace_inode (position part n) bytes disk)
      ≡ (if n == j then bytes k else table_byte part j k disk)
unfolding replace_inode
replace_inode-table_byte part n j k bytes disk h =
    let fits : 76 * n % 512 + 76 ≤ sectors_of (position part n) * 512 = ground arith in
    let whole : 512 * (76 * n / 512) + 76 * n % 512 ≡ 76 * n = omega arith in
    let test : (leb (76 * n) (76 * j + k) && ltb (76 * j + k) (76 * n + 76)) ≡ (n == j) =
      ground (arith, h) in
    elim (Bool-cases (n == j)) [
      | inl same ↦
          let e : 76 * j + k - 76 * n ≡ k = ground arith in
          rewrite_bytes part.sb.inode_table_lba (76 * n / 512) (76 * n % 512) 76
            (sectors_of (position part n)) (76 * j + k) bytes disk fits
          ∙ rw (whole, test, same, e) refl
      | inr other ↦
          rewrite_bytes part.sb.inode_table_lba (76 * n / 512) (76 * n % 512) 76
            (sectors_of (position part n)) (76 * j + k) bytes disk fits
          ∙ rw (whole, test, other) refl
    ]

-- The sectors of the table of inodes.
abbrev pub in_table : Partition → ℕ → Bool
in_table part s = leb part.sb.inode_table_lba s && ltb s (part.sb.inode_table_lba + 608)

pub replace_inode-elsewhere :
    (part : Partition) (n : ℕ) (bytes : ℕ → ℕ) (disk : Disk) (s o : ℕ)
    → n < 4096
    → in_table part s ≡ false
    → replace_inode (position part n) bytes disk s o ≡ disk s o
unfolding replace_inode write_sectors
replace_inode-elsewhere part n bytes disk s o small outside = ground (arith, small, outside)
