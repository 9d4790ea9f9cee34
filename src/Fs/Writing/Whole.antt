-- ===== src/Fs/Writing/Whole.antt =====
-- `file_write` as a whole: the contents of the file grow at their end.
use tinykernel.Base.{
  ℕ, ◌+◌, ◌-◌, ◌*◌, ◌/◌, ◌%◌, ◌^◌, ◌≤◌, ◌<◌, ◌≡◌, ◌≢◌, refl, sym, not, ◌∙◌, ap, true, false, Option,
  some, ltb, leb, ◌==◌, ==_refl, if◌then◌else◌, arith, u32, Bool-cases, inl, inr, Outcome, ok, u8,
}
use tinykernel.Fs.{Disk, Inode, Partition, FileSystem, set_inode, set_disk, set_file, max_lba}
use tinykernel.Fs.Inodes.Table.{in_table, inode_locate-position}
use tinykernel.Fs.Inodes.Stored.{IsInside, inode_sync-Replaced}
use tinykernel.Fs.Reading.Blocks.{file_block}
use tinykernel.Fs.Reading.Whole.{content}
use tinykernel.Fs.Writing.{Progress, write_chunks, finish, write_collected}
use tinykernel.Fs.Writing.Chunks.{AreApart, Appended, Written, write_chunks-Written}

-- The blocks of a file up to the one that holds byte `n`: they are in different sectors, the sector of the indirect table is none of them, and all lie outside the table of inodes, and below the end of what the driver accepts.
pub record HasBlocks (disk : Disk) (part : Partition) (inode : Inode) (n : ℕ) : Type 0 where
  pub apart : AreApart (file_block disk inode) 0 (n / 512)
  pub in_data : (i : ℕ) → i ≤ n / 512 → in_table part (file_block disk inode i) ≡ false
  pub table_apart :
      12 ≤ n / 512 → (i : ℕ) → i ≤ n / 512 → file_block disk inode i ≢ inode.i_sectors 12
  pub table_in_data : 12 ≤ n / 512 → in_table part (inode.i_sectors 12) ≡ false
  pub reach : (i : ℕ) → i ≤ n / 512 → file_block disk inode i ≤ max_lba
  pub table_reach : 12 ≤ n / 512 → inode.i_sectors 12 ≤ max_lba

-- The inode with this number lies in one sector of the table.
abbrev pub IsInOneSector : ℕ → Type 0
IsInOneSector n = 76 * n % 512 + 76 ≤ 512

-- `count` bytes of `buf` stand behind what the file held before.
pub record Stored (address count : ℕ) (buf : ℕ → ℕ) (disk : Disk) (inode : Inode)
    (r : Outcome (Option ℕ × FileSystem)) : Type 0 where
  pub fs' : FileSystem
  pub done : r ≡ ok (some count, fs')
  pub inode' : fs'.inodes address ≡ record inode { i_size = inode.i_size + count }
  pub bytes :
      (p : ℕ)
      → p < inode.i_size + count
      → content fs'.disk (fs'.inodes address) p
        ≡ (if ltb p inode.i_size then content disk inode p else buf (p - inode.i_size))

module _ (fuel fd address count : ℕ) (buf all_blocks : ℕ → ℕ) (fs : FileSystem) where
  abbrev size : ℕ
  size = (fs.inodes address).i_size

  abbrev before : Progress
  before = record {
    i_size = size;
    fd_pos = u32 (size + 2 ^ 32 - 1);
    bytes_written = 0;
    size_left = count;
    first_write_block = true;
    disk = fs.disk;
  }

  abbrev grown : Inode
  grown = record (fs.inodes address) { i_size = size + count }

  module _ (inside : IsInside fs.part) (one_sector : IsInOneSector (u8 (fs.inodes address).i_no))
      (fits : size + count < 2 ^ 32)
      (has : HasBlocks fs.disk fs.part (fs.inodes address) (size + count))
      (agree : (i : ℕ)
        → size / 512 ≤ i
        → i ≤ (size + count) / 512
        → all_blocks i ≡ file_block fs.disk (fs.inodes address) i) where
    module _ (d1 d2 : Disk) (appended : Appended all_blocks buf size count 0 count fs.disk d1)
        (elsewhere : (s o : ℕ) → in_table fs.part s ≡ false → d2 s o ≡ d1 s o) where
      not_written :
          (s o : ℕ)
          → ((i : ℕ) → i ≤ (size + count) / 512 → file_block fs.disk (fs.inodes address) i ≢ s)
          → d1 s o ≡ fs.disk s o
      not_written s o none_of =
          appended.other s o (λ i lo hi e. none_of i hi (sym (agree i lo hi) ∙ e))

      same_block :
          (i : ℕ)
          → i ≤ (size + count) / 512
          → file_block d2 grown i ≡ file_block fs.disk (fs.inodes address) i
      same_block i small = elim (Bool-cases (ltb i 12)) [
        | inl direct ↦ rw direct refl
        | inr indirect ↦
            let behind : 12 ≤ (size + count) / 512 = ground (arith, indirect, small) in
            let table = (fs.inodes address).i_sectors 12 in
            let kept : (o : ℕ) → d2 table o ≡ fs.disk table o = λ o.
              elsewhere table o (has.table_in_data behind)
              ∙ not_written table o (has.table_apart behind) in
            rw
              (
                indirect,
                kept (4 * (i - 12)),
                kept (4 * (i - 12) + 1),
                kept (4 * (i - 12) + 2),
                kept (4 * (i - 12) + 3),
              )
              refl
      ]

      content-after :
          (p : ℕ)
          → p < size + count
          → content d2 grown p
            ≡ (if ltb p size then content fs.disk (fs.inodes address) p else buf (p - size))
      content-after p small =
          ap (λ s. d2 s (p % 512)) (same_block (p / 512) (omega arith))
          ∙ elsewhere (file_block fs.disk (fs.inodes address) (p / 512)) (p % 512)
              (has.in_data (p / 512) (omega arith))
          ∙ elim (Bool-cases (ltb (p / 512) (size / 512))) [
            | inl earlier ↦
                let old : ltb p size ≡ true = ground (arith, earlier) in
                rw old (
                  appended.other (file_block fs.disk (fs.inodes address) (p / 512)) (p % 512)
                    (λ i lo hi e. ground (
                      arith,
                      earlier,
                      lo,
                      has.apart i (p / 512) (omega arith) hi (omega arith) (omega arith)
                          (sym (agree i lo hi) ∙ e),
                    )))
            | inr later ↦
                let lo : size / 512 ≤ p / 512 = ground (arith, later) in
                let from : leb (size + 0) p ≡ not (ltb p size) = ground arith in
                ap (λ s. d1 s (p % 512)) (sym (agree (p / 512) lo (omega arith)))
                ∙ appended.bytes p lo small
                ∙ elim (Bool-cases (ltb p size)) [
                  | inl old ↦ rw (from, old, agree (p / 512) lo (omega arith)) refl
                  | inr new ↦ rw (from, new) refl
                ]
          ]

    finish-Stored :
        (q : Progress)
        → q.i_size ≡ size + count
        → q.bytes_written ≡ count
        → Appended all_blocks buf size count 0 count fs.disk q.disk
        → Stored address count buf fs.disk (fs.inodes address) (finish fd address fs (some q))
    unfolding finish
    finish-Stored q end written appended =
        let r = inode_sync-Replaced fs.part inside grown q.disk in
        let n = u8 (fs.inodes address).i_no in
        let single : ltb (512 - 76 * n % 512) 76 ≡ false = ground (arith, one_sector) in
        record {
          fs' =
              set_file fd (record (fs.file_table fd) { fd_pos = q.fd_pos })
                (set_disk r.disk' (set_inode address grown fs));
          done =
              rw (end, written, inode_locate-position fs.part n (omega arith), single, r.done) refl;
          inode' = rw same refl;
          bytes = λ p small. rw same (content-after q.disk r.disk' appended r.elsewhere p small);
        }
      where
        same : (address == address) ≡ true
        same = ==_refl address

    all_apart : AreApart all_blocks (size / 512) ((size + count) / 512)
    all_apart i j lo hi lo' hi' e =
        has.apart i j (omega arith) hi (omega arith) hi' (sym (agree i lo hi) ∙ e ∙ agree j lo' hi')

    pub write_collected-Stored :
        count < fuel
        → Stored address count buf fs.disk
            (fs.inodes address)
            (write_collected fuel fd address count buf (some all_blocks, fs))
    unfolding write_collected
    write_collected-Stored enough = go (
        write_chunks-Written all_blocks buf size count all_apart fits fuel before (omega arith)
          (record {
            in_size = omega arith;
            size = omega arith;
            left = omega arith;
            pos = omega arith;
            keeps = inl refl;
          })
          (λ i lo hi. rw (agree i lo hi) (has.reach i hi)))
      where
        go :
            (q : Progress) × (write_chunks fuel all_blocks buf count before ≡ some q)
              × Written all_blocks buf size count all_apart fits before q
            → Stored address count buf fs.disk
                (fs.inodes address)
                (finish fd address fs (write_chunks fuel all_blocks buf count before))
        go (q, done, w) = rw done (finish-Stored q w.size w.written w.appended)
