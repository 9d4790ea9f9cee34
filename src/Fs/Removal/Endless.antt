-- ===== src/Fs/Removal/Endless.antt =====
-- The loop in `delete_dir_entry` that does not move on.
use tinykernel.Base.{ℕ, zero, suc, ◌<◌, ◌≡◌, refl, true, arith, none, ltb}
use tinykernel.Fs.Removal.{count_indirect}

-- The loop with which `delete_dir_entry` counts the indirect blocks, before it gives back a block that the indirect table names, never ends: from the index 12 on it takes more rounds than any number, whatever the table holds.
pub count_indirect-endless :
    (fuel : ℕ) (all_blocks : ℕ → ℕ) (idx n : ℕ)
    → idx < 140
    → count_indirect fuel all_blocks idx n ≡ none
unfolding count_indirect
count_indirect-endless zero all_blocks idx n small = refl
count_indirect-endless (suc fuel) all_blocks idx n small =
    let test : ltb idx 140 ≡ true = ground arith in
    rw test (count_indirect-endless fuel all_blocks idx _ small)
