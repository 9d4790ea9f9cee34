-- ===== src/Fs/Inodes/Stored.antt =====
-- `inode_sync` and `inode_delete` against the table, and reading an inode back.
use tinykernel.Base.{
  ℕ, suc, ◌+◌, ◌*◌, ◌/◌, ◌%◌, ◌^◌, ◌≤◌, ◌<◌, ◌≡◌, refl, ◌∙◌, ap, sym, true, false, not, arith, ltb,
  leb, ◌==◌, if◌then◌else◌, Outcome, ok, u8,
}
use tinykernel.Fs.{Disk, Inode, Partition, word_byte, word_at, read_sectors, max_lba, on_disk}
use tinykernel.Fs.Inodes.{
  inode_word, inode_byte, inode_of, pure_inode, inode_sync, inode_delete, load_inode, sectors_of,
  replace_inode,
}
use tinykernel.Fs.Inodes.Table.{
  table_byte, position, inode_locate-position, replace_inode-table_byte, in_table,
  replace_inode-elsewhere,
}

-- The inode table lies inside the partition, and on the disk as far as the driver accepts sectors.
abbrev pub IsInside : Partition → Type 0
IsInside part =
    (part.sb.inode_table_lba + 608 ≤ part.start_lba + part.sec_cnt)
    × (part.sb.inode_table_lba + 608 ≤ max_lba + 1)

-- The `ASSERT` of the driver for the sectors of an inode in the table.
position-on_disk :
    (part : Partition) (n : ℕ)
    → n < 4096
    → part.sb.inode_table_lba + 608 ≤ max_lba + 1
    → on_disk (position part n).sec_lba (sectors_of (position part n)) ≡ true
position-on_disk part n small inside = ground (arith, small, inside)

-- The table after a write of `bytes` as inode `n`, with the other sectors as they were.
pub record Replaced (part : Partition) (n : ℕ) (bytes : ℕ → ℕ) (disk : Disk) (r : Outcome Disk)
    : Type 0 where
  pub disk' : Disk
  pub done : r ≡ ok disk'
  pub bytes' :
      (j k : ℕ)
      → k < 76
      → table_byte part j k disk' ≡ (if n == j then bytes k else table_byte part j k disk)
  pub elsewhere : (s o : ℕ) → in_table part s ≡ false → disk' s o ≡ disk s o

module _ (part : Partition) (inside : IsInside part) where
  -- In a partition that holds its inode table, all of which lies below the end of the 80 MB that the driver accepts, `inode_sync`, with room in `io_buf` for the one or two sectors of the inode, succeeds. It writes the inode, closed and writable, as number `i_no` modulo 256, and changes no byte of another inode in the table.
  pub inode_sync-Replaced :
      (inode : Inode) (disk : Disk)
      → Replaced part
          (u8 inode.i_no)
          (inode_byte (pure_inode inode))
          disk
          (inode_sync part inode disk)
  unfolding inode_sync
  inode_sync-Replaced inode disk =
      let n = u8 inode.i_no in
      let below : leb (part.sb.inode_table_lba + 76 * n / 512) (part.start_lba + part.sec_cnt)
          ≡ true =
        ground (arith, inside.0) in
      let driver = position-on_disk part n (omega arith) inside.1 in
      record {
        disk' = replace_inode (position part n) (inode_byte (pure_inode inode)) disk;
        done = rw (inode_locate-position part n (omega arith), below, driver) refl;
        bytes' =
            λ j k h. replace_inode-table_byte part n j k (inode_byte (pure_inode inode)) disk h;
        elsewhere = λ s o out.
            replace_inode-elsewhere part n (inode_byte (pure_inode inode)) disk s o (omega arith)
              out;
      }

  -- In such a partition `inode_delete` of a number below 4096 clears the inode's bytes in the table and no byte of another inode.
  pub inode_delete-Replaced :
      (n : ℕ) (disk : Disk) → n < 4096 → Replaced part n (λ k. 0) disk (inode_delete part n disk)
  unfolding inode_delete
  inode_delete-Replaced n disk small =
      let below : leb (part.sb.inode_table_lba + 76 * n / 512) (part.start_lba + part.sec_cnt)
          ≡ true =
        ground (arith, inside.0, small) in
      let driver = position-on_disk part n small inside.1 in
      let number : ltb n 4096 ≡ true = ground arith in
      record {
        disk' = replace_inode (position part n) (λ k. 0) disk;
        done = rw (number, inode_locate-position part n small, below, driver) refl;
        bytes' = λ j k h. replace_inode-table_byte part n j k (λ k. 0) disk h;
        elsewhere = λ s o out. replace_inode-elsewhere part n (λ k. 0) disk s o small out;
      }

-- The values that a structure of 32-bit words can hold.
pub record IsWords (inode : Inode) : Type 0 where
  pub no : inode.i_no < 2 ^ 32
  pub size : inode.i_size < 2 ^ 32
  pub sector : (j : ℕ) → j < 13 → inode.i_sectors j < 2 ^ 32

-- An inode that is as another one was when it was written to the disk.
pub record ReadBack (inode inode' : Inode) : Type 0 where
  pub no : inode'.i_no ≡ inode.i_no
  pub size : inode'.i_size ≡ inode.i_size
  pub closed : inode'.i_open_cnts ≡ 0
  pub writable : inode'.write_deny ≡ false
  pub sector : (j : ℕ) → j < 13 → inode'.i_sectors j ≡ inode.i_sectors j

pub word_at-bytes :
    (buf : ℕ → ℕ) (p v : ℕ)
    → v < 2 ^ 32
    → ((k : ℕ) → k < 4 → buf (p + k) ≡ word_byte v k)
    → word_at buf p ≡ v
word_at-bytes buf p v small at =
    let zero_off : p + 0 ≡ p = omega arith in
    let b0 : buf p ≡ v % 256 = ap buf (sym zero_off) ∙ at 0 (omega arith) ∙ (omega arith) in
    let b1 : buf (p + 1) ≡ v / 256 % 256 = at 1 (omega arith) in
    let b2 : buf (p + 2) ≡ v / 65536 % 256 = at 2 (omega arith) in
    let b3 : buf (p + 3) ≡ v / 16777216 % 256 = at 3 (omega arith) in
    omega (arith, b0, b1, b2, b3, small)

-- What `inode_of` makes of the bytes of a closed inode.
pub inode_of-ReadBack :
    (buf : ℕ → ℕ) (off : ℕ) (inode : Inode)
    → IsWords inode
    → ((k : ℕ) → k < 76 → buf (off + k) ≡ inode_byte (pure_inode inode) k)
    → ReadBack inode (inode_of buf off)
unfolding inode_of inode_word
inode_of-ReadBack buf off inode words at = record {
  no = ap (word_at buf) (omega arith) ∙ word 0 (omega arith) words.no;
  size = word 1 (omega arith) words.size;
  closed = word 2 (omega arith) (omega arith);
  writable = ap (λ v. not (v == 0)) (word 3 (omega arith) (omega arith));
  sector = λ j small.
      (let test : ltb j 13 ≡ true = ground arith in
        let held : inode_word (pure_inode inode) (suc (suc (suc (suc j)))) ≡ inode.i_sectors j =
          rw test refl in
        ap (word_at buf) (omega arith)
        ∙ word (suc (suc (suc (suc j)))) (omega arith) (omega (arith, held, words.sector j small))
        ∙ held);
}
  where
    word :
        (w : ℕ)
        → w < 19
        → inode_word (pure_inode inode) w < 2 ^ 32
        → word_at buf (off + 4 * w) ≡ inode_word (pure_inode inode) w
    word w small fits =
        word_at-bytes buf (off + 4 * w) (inode_word (pure_inode inode) w) fits (λ k lt.
          let there : off + 4 * w + k ≡ off + (4 * w + k) = omega arith in
          let q : (4 * w + k) / 4 ≡ w = omega arith in
          let r : (4 * w + k) % 4 ≡ k = omega arith in
          ap buf there ∙ at (4 * w + k) (omega arith) ∙ rw (q, r) refl)

module _ (part : Partition) (inside : IsInside part) where
  -- `load_inode` reads what the table holds.
  pub load_inode-table :
      (n : ℕ) (disk : Disk) (inode : Inode)
      → n < 4096
      → IsWords inode
      → ((k : ℕ) → k < 76 → table_byte part n k disk ≡ inode_byte (pure_inode inode) k)
      → (inode' : Inode) × (load_inode part n disk ≡ ok inode') × ReadBack inode inode'
  unfolding load_inode read_sectors
  load_inode-table n disk inode small words at =
      let buf =
        read_sectors (position part n).sec_lba (sectors_of (position part n)) disk (λ i. 0) in
      let off = 76 * n % 512 in
      (
        inode_of buf off,
        rw (inode_locate-position part n small, position-on_disk part n small inside.1) refl,
        inode_of-ReadBack buf off inode words (λ k lt. there k lt ∙ at k lt),
      )
    where
      there :
          (k : ℕ)
          → k < 76
          → read_sectors
              (position part n).sec_lba
              (sectors_of (position part n))
              disk
              (λ i. 0)
              (76 * n % 512 + k)
            ≡ table_byte part n k disk
      there k lt =
          let fits : ltb (76 * n % 512 + k) (sectors_of (position part n) * 512) ≡ true =
            ground arith in
          let q : part.sb.inode_table_lba + 76 * n / 512 + (76 * n % 512 + k) / 512
              ≡ part.sb.inode_table_lba + (76 * n + k) / 512 =
            omega arith in
          let r : (76 * n % 512 + k) % 512 ≡ (76 * n + k) % 512 = omega arith in
          rw (fits, q, r) refl

-- An inode with a number below 256 that `inode_sync` has written in a partition that holds its inode table, below the end of the 80 MB that the driver accepts, is what `inode_open` then loads under that number, but closed and writable. The inode's fields are 32-bit words.
pub load_inode-inode_sync :
    (part : Partition) (inode : Inode) (disk : Disk)
    → IsInside part
    → inode.i_no < 256
    → IsWords inode
    → (disk' : Disk) × (inode' : Inode) × (inode_sync part inode disk ≡ ok disk')
      × (load_inode part inode.i_no disk' ≡ ok inode')
      × ReadBack inode inode'
load_inode-inode_sync part inode disk inside small words =
    let r = inode_sync-Replaced part inside inode disk in
    let same : (u8 inode.i_no == inode.i_no) ≡ true = ground (arith, small) in
    let (inode', loaded, back) =
      load_inode-table part inside inode.i_no r.disk' inode (omega (arith, small)) words
        (λ k lt. r.bytes' inode.i_no k lt ∙ rw same refl) in
    (r.disk', inode', r.done, loaded, back)
