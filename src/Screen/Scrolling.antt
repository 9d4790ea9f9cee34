-- ===== src/Screen/Scrolling.antt =====
-- The loops over the cells of the screen.
use tinykernel.Base.{ℕ, zero, suc, ◌+◌, ◌≡◌, ◌∙◌, arith, ltb, leb, ◌&&◌, if◌then◌else◌, update}
use tinykernel.Screen.{blank, fill_blank, move_up}

pub fill_blank-cell :
    (n i : ℕ) (video : ℕ → ℕ) (j : ℕ)
    → fill_blank n i video j ≡ (if leb i j && ltb j (i + n) then blank else video j)
unfolding fill_blank
fill_blank-cell zero i video j = ground arith
fill_blank-cell (suc n) i video j =
    fill_blank-cell n (i + 1) (update video i blank) j ∙ (ground arith)

-- The loop reads each cell before it writes it.
pub move_up-cell :
    (n i : ℕ) (video : ℕ → ℕ) (j : ℕ)
    → move_up n i video j ≡ (if leb i j && ltb j (i + n) then video (j + 80) else video j)
unfolding move_up
move_up-cell zero i video j = ground arith
move_up-cell (suc n) i video j =
    move_up-cell n (i + 1) (update video i (video (i + 80))) j ∙ (ground arith)
