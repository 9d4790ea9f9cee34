-- ===== src/Fs/Blocks/Alloc.antt =====
-- What `block_bitmap_alloc` and `inode_bitmap_alloc` hand out, and what `bitmap_sync` writes.
use tinykernel.Base.{
  ℕ, ◌+◌, ◌-◌, ◌≤◌, ◌<◌, ◌≡◌, ◌⊎◌, refl, ◌∙◌, Bool, true, false, arith, ◌==◌, if◌then◌else◌,
  Outcome, ok, panic, Option, some, inl, inr,
}
use tinykernel.Bitmap.{Bitmap, bitmap_scan_test}
use tinykernel.Bitmap.Access.{HasBytes, Wrote, bitmap_set-Wrote}
use tinykernel.Bitmap.Scan.First.{size, IsSmall, FirstFree, AllSet, bitmap_scan_one}
use tinykernel.Fs.{Partition}
use tinykernel.Fs.Blocks.{
  block_bitmap_alloc, inode_bitmap_alloc, set_block_bitmap, set_inode_bitmap,
}

-- The block at sector `lba` is marked in the bitmap.
abbrev pub block_used : Partition → ℕ → Bool
block_used part lba = bitmap_scan_test part.block_bitmap (lba - part.sb.data_start_lba)

-- A block in the range of the bitmap.
abbrev pub IsBlock : Partition → ℕ → Type 0
IsBlock part lba =
    (part.sb.data_start_lba ≤ lba) × (lba < part.sb.data_start_lba + size part.block_bitmap)

-- What `block_bitmap_alloc` has done when it returns `lba`: that was the lowest free block, and is in use.
pub record TookBlock (part : Partition) (lba : ℕ) (part' : Partition) : Type 0 where
  pub is_block : IsBlock part lba
  pub was_free : block_used part lba ≡ false
  pub lowest : (l : ℕ) → IsBlock part l → l < lba → block_used part l ≡ true
  pub used :
      (l : ℕ)
      → part.sb.data_start_lba ≤ l
      → block_used part' l ≡ (if lba == l then true else block_used part l)
  pub bytes : HasBytes part'.block_bitmap
  pub same_len : part'.block_bitmap.btmp_bytes_len ≡ part.block_bitmap.btmp_bytes_len
  pub rest : part' ≡ set_block_bitmap part'.block_bitmap part

pub record AllocatedBlock (part : Partition) (r : Outcome (Option (ℕ × Partition))) : Type 0 where
  pub lba : ℕ
  pub part' : Partition
  pub done : r ≡ ok (some (lba, part'))
  pub took : TookBlock part lba part'

module _ (part : Partition) (h : HasBytes part.block_bitmap)
    (small : IsSmall part.block_bitmap) where
  -- For a bitmap whose cells hold bytes, and that is small enough for its bits to be numbered by `int32_t`, `block_bitmap_alloc` stops the kernel if every block is in use. Otherwise it returns the lowest block that is not, and that block, and no other, is in use afterwards.
  pub block_bitmap_alloc-AllocatedBlock :
      (((l : ℕ) → IsBlock part l → block_used part l ≡ true) × (block_bitmap_alloc part ≡ panic))
      ⊎ AllocatedBlock part (block_bitmap_alloc part)
  unfolding block_bitmap_alloc
  block_bitmap_alloc-AllocatedBlock = elim (bitmap_scan_one part.block_bitmap h small) [
    | inl (all, stops) ↦
        inl ((λ l (lo, hi). all (l - part.sb.data_start_lba) (omega arith)), rw stops refl)
    | inr (s, free, finds) ↦
        let (b, set, w) = bitmap_set-Wrote part.block_bitmap s h 1 (omega arith) in
        let back : part.sb.data_start_lba + s - part.sb.data_start_lba ≡ s = omega arith in
        inr (record {
          lba = part.sb.data_start_lba + s;
          part' = set_block_bitmap b part;
          done = rw (finds, set) refl;
          took = record {
            is_block = (omega arith, omega (arith, free.in_range));
            was_free = rw back free.clear;
            lowest = λ l (lo, hi) lt. free.set_before (l - part.sb.data_start_lba) (omega arith);
            used = λ l lo. w.test (l - part.sb.data_start_lba) ∙ (ground arith);
            bytes = w.bytes;
            same_len = w.same_len;
            rest = refl;
          };
        })
  ]

-- `inode_bitmap_alloc` in the same way, with the number of the inode.
pub record AllocatedInode (part : Partition) (r : Outcome (Option (ℕ × Partition))) : Type 0 where
  pub no : ℕ
  pub bitmap : Bitmap
  pub done : r ≡ ok (some (no, set_inode_bitmap bitmap part))
  pub first : FirstFree part.inode_bitmap no
  pub wrote : Wrote part.inode_bitmap no true bitmap

pub inode_bitmap_alloc-AllocatedInode :
    (part : Partition)
    → HasBytes part.inode_bitmap
    → IsSmall part.inode_bitmap
    → (AllSet part.inode_bitmap × (inode_bitmap_alloc part ≡ panic))
      ⊎ AllocatedInode part (inode_bitmap_alloc part)
unfolding inode_bitmap_alloc
inode_bitmap_alloc-AllocatedInode part h small = elim (bitmap_scan_one part.inode_bitmap h small) [
  | inl (all, stops) ↦ inl (all, rw stops refl)
  | inr (s, free, finds) ↦
      let (b, set, w) = bitmap_set-Wrote part.inode_bitmap s h 1 (omega arith) in
      inr (record { no = s; bitmap = b; done = rw (finds, set) refl; first = free; wrote = w })
]
