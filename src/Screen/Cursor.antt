-- ===== src/Screen/Cursor.antt =====
-- The cursor stays on the screen, and nothing else is written.
use tinykernel.Base.{
  ℕ, ◌+◌, ◌*◌, ◌≤◌, ◌<◌, ◌≡◌, refl, ◌∙◌, inl, inr, List, [], ◌∷◌, arith, leb, Bool-cases,
}
use tinykernel.Screen.{
  Screen, set_cursor, scroll, place_char, wrap_line, put_char_color, put_str_color, next_line,
  move_up,
}
use tinykernel.Screen.Scrolling.{fill_blank-cell, move_up-cell}

-- The cursor is on the screen, and the video controller shows it there.
pub record OnScreen (s : Screen) : Type 0 where
  pub in_line : s.cursor_x < 80
  pub in_page : s.cursor_y < 25
  pub shown : s.location ≡ s.cursor_y * 80 + s.cursor_x

-- No memory behind the 2000 cells has changed.
abbrev pub Inside : Screen → Screen → Type 0
Inside s s' = (i : ℕ) → 2000 ≤ i → s'.video_memory i ≡ s.video_memory i

-- Between the character and the end of `put_char_color`.
record Pending (s s' : Screen) : Type 0 where
  wide : s'.cursor_x ≤ 80
  high : s'.cursor_y < 26
  corner : s'.cursor_x ≡ 80 → s'.cursor_y < 25
  inside : Inside s s'

module _ (s : Screen) (h : OnScreen s) where
  place_char-Pending : (c back fore : ℕ) → Pending s (place_char c back fore s)
  unfolding place_char
  place_char-Pending c back fore = record {
    wide = ground (arith, h.in_line);
    high = ground (arith, h.in_page);
    corner = ground (arith, h.in_line, h.in_page);
    inside = λ i out. ground (arith, h.in_line, h.in_page);
  }

module _ (s : Screen) where
  scroll-cells : (i : ℕ) → 2000 ≤ i → (scroll s).video_memory i ≡ s.video_memory i
  unfolding scroll
  scroll-cells i out = ground (
    arith,
    fill_blank-cell 80 1920 (move_up 1920 0 s.video_memory) i,
    move_up-cell 1920 0 s.video_memory i,
  )

  scroll-cursor : s.cursor_y < 26 → ((scroll s).cursor_y < 25) × ((scroll s).cursor_x ≡ s.cursor_x)
  unfolding scroll
  scroll-cursor low = (ground arith, ground arith)

finish-OnScreen : (s s' : Screen) → Pending s s' → OnScreen (set_cursor (scroll (wrap_line s')))
unfolding wrap_line set_cursor
finish-OnScreen s s' p = elim (Bool-cases (leb 80 s'.cursor_x)) [
  | inl full ↦
      let c = scroll-cursor (next_line s') (ground (arith, p.wide, p.corner)) in
      rw full
        (record { in_line = omega (arith, c.1); in_page = c.0; shown = omega (arith, c.0, c.1) })
  | inr room ↦
      let c = scroll-cursor s' p.high in
      rw room
        (record { in_line = ground (arith, c.1); in_page = c.0; shown = ground (arith, c.0, c.1) })
]

finish-Inside : (s s' : Screen) → Pending s s' → Inside s (set_cursor (scroll (wrap_line s')))
unfolding wrap_line set_cursor
finish-Inside s s' p i out = scroll-cells (wrap_line s') i out ∙ (ground (arith, p.inside i out))

-- `put_char_color` of any character in any colours keeps the cursor on the screen, in the registers
-- too, and changes no memory behind the 2000 cells.
pub put_char_color-OnScreen :
    (c back fore : ℕ) (s : Screen)
    → OnScreen s
    → OnScreen (put_char_color c back fore s) × Inside s (put_char_color c back fore s)
unfolding put_char_color
put_char_color-OnScreen c back fore s h =
    let p = place_char-Pending s h c back fore in
    (finish-OnScreen s (place_char c back fore s) p, finish-Inside s (place_char c back fore s) p)

-- Writing any string in any colours keeps the cursor on the screen, in the registers of the video
-- controller too, and changes no memory behind the 2000 cells.
pub put_str_color-OnScreen :
    (cstr : List ℕ) (back fore : ℕ) (s : Screen)
    → OnScreen s
    → OnScreen (put_str_color cstr back fore s) × Inside s (put_str_color cstr back fore s)
unfolding put_str_color
put_str_color-OnScreen [] back fore s h = (h, λ i out. refl)
put_str_color-OnScreen (c ∷ cstr) back fore s h =
    let (h', in1) = put_char_color-OnScreen c back fore s h in
    let (h'', in2) = put_str_color-OnScreen cstr back fore (put_char_color c back fore s) h' in
    (h'', λ i out. in2 i out ∙ in1 i out)
