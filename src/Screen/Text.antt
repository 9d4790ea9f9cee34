-- ===== src/Screen/Text.antt =====
-- What stands on the screen after text has been written.
use tinykernel.Base.{
  ℕ, zero, suc, ◌+◌, ◌*◌, ◌≤◌, ◌<◌, ◌≡◌, ◌≢◌, refl, sym, ap, ◌∙◌, List, [], ◌∷◌, map, arith, ltb,
  if◌then◌else◌, length,
}
use tinykernel.Screen.{
  Screen, blank, attribute, set_cursor, scroll, place_char, wrap_line, put_char_color,
  put_str_color, move_up,
}
use tinykernel.Screen.Scrolling.{fill_blank-cell, move_up-cell}
use tinykernel.Screen.Cursor.{OnScreen, put_char_color-OnScreen}

-- ASCII from the space on.
abbrev pub IsPrintable : ℕ → Type 0
IsPrintable c = (32 ≤ c) × (c < 128)

abbrev pub ArePrintable : List ℕ → Type 0
ArePrintable [] = Unit {0}
ArePrintable (c ∷ cs) = IsPrintable c × ArePrintable cs

-- The `n` cells from `i` on.
abbrev pub cells : (ℕ → ℕ) → ℕ → ℕ → List ℕ
cells video i zero = []
cells video i (suc n) = video i ∷ cells video (i + 1) n

abbrev pub here : Screen → ℕ
here s = s.cursor_y * 80 + s.cursor_x

-- The screen after text of `n` characters: their cells, the other cells, and the cursor.
pub record Wrote (text : List ℕ) (back fore n : ℕ) (s s' : Screen) : Type 0 where
  pub text_cells : cells s'.video_memory (here s) n ≡ map (λ c. c + attribute back fore) text
  pub before : (i : ℕ) → i < here s → s'.video_memory i ≡ s.video_memory i
  pub after : (i : ℕ) → here s + n ≤ i → s'.video_memory i ≡ s.video_memory i
  pub column : s'.cursor_x ≡ s.cursor_x + n
  pub row : s'.cursor_y ≡ s.cursor_y

-- One character that does not fill the line.
record WroteOne (c back fore : ℕ) (s s' : Screen) : Type 0 where
  cell : s'.video_memory (here s) ≡ c + attribute back fore
  others : (i : ℕ) → i ≢ here s → s'.video_memory i ≡ s.video_memory i
  column : s'.cursor_x ≡ s.cursor_x + 1
  row : s'.cursor_y ≡ s.cursor_y

put_char_color-WroteOne :
    (c back fore : ℕ) (s : Screen)
    → IsPrintable c
    → s.cursor_x + 1 < 80
    → s.cursor_y < 25
    → WroteOne c back fore s (put_char_color c back fore s)
unfolding put_char_color place_char wrap_line scroll set_cursor
put_char_color-WroteOne c back fore s (lo, hi) room low = record {
  cell = ground arith;
  others = λ i ne. ground arith;
  column = ground arith;
  row = ground arith;
}

-- Printable text that does not fill the line stands in the cells from the cursor on afterwards, in
-- the colours that it was given, the cursor is behind it, and no other cell has changed.
pub put_str_color-Wrote :
    (text : List ℕ) (back fore : ℕ) (s : Screen)
    → OnScreen s
    → ArePrintable text
    → s.cursor_x + length text < 80
    → Wrote text back fore (length text) s (put_str_color text back fore s)
unfolding put_str_color
put_str_color-Wrote [] back fore s h p room = record {
  text_cells = refl;
  before = λ i lt. refl;
  after = λ i ge. refl;
  column = omega arith;
  row = refl;
}
put_str_color-Wrote (c ∷ text) back fore s h p room =
    let w = put_char_color-WroteOne c back fore s p.0 (omega (arith, room)) h.in_page in
    let s1 = put_char_color c back fore s in
    let (h1, _) = put_char_color-OnScreen c back fore s h in
    let rest = put_str_color-Wrote text back fore s1 h1 p.1 (omega (arith, room, w.column)) in
    let moved : here s1 ≡ here s + 1 = omega (arith, w.column, w.row) in
    let last = put_str_color text back fore s1 in
    let first : last.video_memory (here s) ≡ c + attribute back fore =
      rest.before (here s) (omega (arith, moved)) ∙ w.cell in
    let others : cells last.video_memory (here s + 1) (length text)
        ≡ map (λ d. d + attribute back fore) text =
      ap (λ i. cells last.video_memory i (length text)) (sym moved) ∙ rest.text_cells in
    record {
      text_cells = cc;
      before =
          λ i lt. rest.before i (omega (arith, moved, lt)) ∙ w.others i (λ e. omega (arith, e, lt));
      after =
          λ i ge. rest.after i (omega (arith, moved, ge)) ∙ w.others i (λ e. omega (arith, e, ge));
      column = omega (arith, rest.column, w.column);
      row = rest.row ∙ w.row;
    }

-- A line feed in the last line moves every line up by one, which loses the first, leaves the last
-- blank, and puts the cursor at its start.
pub put_char_color_line_feed :
    (back fore : ℕ) (s : Screen)
    → s.cursor_y ≡ 24
    → ((i : ℕ)
        → i < 2000
        → (put_char_color 10 back fore s).video_memory i
          ≡ (if ltb i 1920 then s.video_memory (i + 80) else blank))
      × ((put_char_color 10 back fore s).cursor_x ≡ 0)
      × ((put_char_color 10 back fore s).cursor_y ≡ 24)
unfolding put_char_color place_char wrap_line scroll set_cursor
put_char_color_line_feed back fore s e = (
  λ i lt. ground (
    arith,
    fill_blank-cell 80 1920 (move_up 1920 0 s.video_memory) i,
    move_up-cell 1920 0 s.video_memory i,
  ),
  ground arith,
  ground arith,
)
