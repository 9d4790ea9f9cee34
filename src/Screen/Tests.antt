-- ===== src/Screen/Tests.antt =====
-- The theorems about the screen at concrete ones.
use tinykernel.Base.{ℕ, ◌+◌, ◌<◌, ◌≡◌, refl, [], ◌∷◌, arith, ltb, if◌then◌else◌}
use tinykernel.Screen.{Screen, blank, put_char_color, put_str_color}
use tinykernel.Screen.Cursor.{OnScreen, Inside, put_str_color-OnScreen}
use tinykernel.Screen.Text.{Wrote, put_str_color-Wrote, put_char_color_line_feed}

-- The cursor near the end of the last line.
abbrev last_line : Screen
last_line = record { video_memory = λ i. i; cursor_x = 70; cursor_y = 24; location = 1990 }

last_line-OnScreen : OnScreen last_line
last_line-OnScreen = record { in_line = omega arith; in_page = omega arith; shown = refl }

put_str_color-OnScreen_example :
    OnScreen (put_str_color (72 ∷ 10 ∷ 8 ∷ 9 ∷ []) 0 15 last_line)
    × Inside last_line (put_str_color (72 ∷ 10 ∷ 8 ∷ 9 ∷ []) 0 15 last_line)
put_str_color-OnScreen_example =
    put_str_color-OnScreen (72 ∷ 10 ∷ 8 ∷ 9 ∷ []) 0 15 last_line last_line-OnScreen

put_str_color-Wrote_instance :
    Wrote (72 ∷ 105 ∷ []) 0 15 2 last_line (put_str_color (72 ∷ 105 ∷ []) 0 15 last_line)
put_str_color-Wrote_instance =
    put_str_color-Wrote (72 ∷ 105 ∷ []) 0 15 last_line last_line-OnScreen
      ((omega arith, omega arith), ((omega arith, omega arith), tt)) (omega arith)

put_char_color_line_feed_instance :
    ((i : ℕ)
      → i < 2000
      → (put_char_color 10 0 15 last_line).video_memory i
        ≡ (if ltb i 1920 then last_line.video_memory (i + 80) else blank))
    × ((put_char_color 10 0 15 last_line).cursor_x ≡ 0)
    × ((put_char_color 10 0 15 last_line).cursor_y ≡ 24)
put_char_color_line_feed_instance = put_char_color_line_feed 0 15 last_line refl
