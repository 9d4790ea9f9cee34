-- ===== src/Fs/Files/Slots.antt =====
-- The search for a free entry of `file_table`.
use tinykernel.Base.{
  ℕ, zero, suc, ◌+◌, ◌≤◌, ◌<◌, ◌≡◌, inl, inr, false, Option, none, some, arith, Bool-cases,
}
use tinykernel.Thread.Descriptors.{is_none}
use tinykernel.Fs.{File, FileSystem}
use tinykernel.Fs.Files.{free_slot, get_free_slot_in_global}

-- The answer of the search from `i` on: the first free entry, or none if there is no free one.
abbrev pub FreeSlot : (ℕ → File) → ℕ → Option ℕ → Type 0
FreeSlot t i none = (j : ℕ) → i ≤ j → j < 32 → is_none (t j).fd_inode ≡ false
FreeSlot t i (some r) =
    (i ≤ r)
    × (r < 32)
    × ((t r).fd_inode ≡ none)
    × ((j : ℕ) → i ≤ j → j < r → is_none (t j).fd_inode ≡ false)

free_slot-FreeSlot : (t : ℕ → File) (left i : ℕ) → i + left ≡ 32 → FreeSlot t i (free_slot t left i)
unfolding free_slot
free_slot-FreeSlot t zero i e = λ j lo hi. absurd (omega arith)
free_slot-FreeSlot t (suc left) i e = elim (Bool-cases (is_none (t i).fd_inode)) [
  | inl free ↦ rw free (omega arith, omega arith, ground arith, (λ j lo hi. absurd (omega arith)))
  | inr used ↦
      rw used
        (step (free_slot t left (i + 1)) (free_slot-FreeSlot t left (i + 1) (omega arith)) used)
]
  where
    step : (o : Option ℕ) → FreeSlot t (i + 1) o → is_none (t i).fd_inode ≡ false → FreeSlot t i o
    step none f used = λ j lo hi. ground (arith, f j)
    step (some r) (lo, hi, free, before) used =
        (omega arith, hi, free, λ j lo' hi'. ground (arith, before j))

-- `get_free_slot_in_global` returns the lowest entry from 3 on that has no inode, and -1 exactly if each of the entries 3 to 31 has one.
pub get_free_slot_in_global-FreeSlot :
    (fs : FileSystem) → FreeSlot fs.file_table 3 (get_free_slot_in_global fs)
get_free_slot_in_global-FreeSlot fs = free_slot-FreeSlot fs.file_table 29 3 (omega arith)
