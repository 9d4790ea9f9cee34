-- ===== src/Screen.antt =====
-- lib/kernel/print.c and lib/kernel/print.h: the text screen of 80 by 25 cells.
pub mod Scrolling
pub mod Cursor
pub mod Text
pub mod Numbers
mod Tests
use tinykernel.Base.{
  ℕ, zero, suc, ◌+◌, ◌-◌, ◌*◌, ◌/◌, ◌%◌, ◌^◌, not, ◌&&◌, List, [], ◌∷◌, Option, none, some, ◌==◌,
  ltb, leb, if◌then◌else◌, update, u8,
}

-- `video_memory`, the coordinates of the cursor, and the location that the registers 0x0e and 0x0f
-- of the video controller hold.
pub record Screen : Type 0 where
  pub video_memory : ℕ → ℕ
  pub cursor_x : ℕ
  pub cursor_y : ℕ
  pub location : ℕ

-- White on black, and a space in it.
abbrev pub blank : ℕ
blank = 0x0f20

abbrev pub rc_black : ℕ
rc_black = 0

abbrev pub rc_white : ℕ
rc_white = 15

pub set_cursor : Screen → Screen
set_cursor s = record s { location = (s.cursor_y * 80 + s.cursor_x) % 2 ^ 16 }

-- The loops over the cells; the first number is the cells to go.
pub fill_blank : ℕ → ℕ → (ℕ → ℕ) → ℕ → ℕ
fill_blank zero i video = video
fill_blank (suc left) i video = fill_blank left (i + 1) (update video i blank)

pub move_up : ℕ → ℕ → (ℕ → ℕ) → ℕ → ℕ
move_up zero i video = video
move_up (suc left) i video = move_up left (i + 1) (update video i (video (i + 80)))

pub cls_screen : Screen → Screen
cls_screen s =
    set_cursor
      (record s { video_memory = fill_blank 2000 0 s.video_memory; cursor_x = 0; cursor_y = 0 })

pub scroll : Screen → Screen
scroll s =
    let moved = move_up 1920 0 s.video_memory in
    let up = record s { video_memory = fill_blank 80 1920 moved; cursor_y = 24 } in
    if leb 25 s.cursor_y then up else s

-- `attribute_byte << 8`
abbrev pub attribute : ℕ → ℕ → ℕ
attribute back fore = (back * 16 % 256 + fore % 16) * 256

abbrev pub set_cell : ℕ → Screen → Screen
set_cell value s = record s {
  video_memory = update s.video_memory (s.cursor_y * 80 + s.cursor_x) value;
}

abbrev pub next_line : Screen → Screen
next_line s = record s { cursor_x = 0; cursor_y = u8 (s.cursor_y + 1) }

abbrev pub step_back : ℕ → Screen → Screen
step_back back s = set_cell back (record s { cursor_x = s.cursor_x - 1 })

abbrev pub step_on : ℕ → Screen → Screen
step_on value s = let s' = set_cell value s in record s' { cursor_x = u8 (s.cursor_x + 1) }

abbrev pub next_tab : Screen → Screen
next_tab s = record s { cursor_x = u8 ((s.cursor_x + 8) / 8 * 8) }

-- The first `if` of `put_char_color`. A `char` is signed: a byte from 128 on is below ' '.
pub place_char : ℕ → ℕ → ℕ → Screen → Screen
place_char c back fore s =
    if (c == 0x08) && not (s.cursor_x == 0)
    then step_back back s
    else if c == 0x09
    then next_tab s
    else if c == 13
    then next_line s
    else if c == 10
    then next_line s
    else if leb 32 c && ltb c 128
    then step_on (c + attribute back fore) s
    else s

-- The second.
pub wrap_line : Screen → Screen
wrap_line s = if leb 80 s.cursor_x then next_line s else s

pub put_char_color : ℕ → ℕ → ℕ → Screen → Screen
put_char_color c back fore s = set_cursor (scroll (wrap_line (place_char c back fore s)))

-- A string is the list of the bytes before its 0. `console_write_color` has the same body.
pub put_str_color : List ℕ → ℕ → ℕ → Screen → Screen
put_str_color [] back fore s = s
put_str_color (c ∷ cstr) back fore s = put_str_color cstr back fore (put_char_color c back fore s)

pub put_str : List ℕ → Screen → Screen
put_str cstr s = put_str_color cstr rc_black rc_white s

pub put_char : ℕ → Screen → Screen
put_char c s = put_char_color c rc_black rc_white s

-- The loop of `put_int` and `console_write_dec` that fills `arr`, the last digit first in the list;
-- `none` is a write behind the entries of `arr` that are left.
pub collect : ℕ → ℕ → ℕ → List ℕ → Option (List ℕ)
collect base zero n arr = if n == 0 then some arr else none
collect base (suc left) n arr =
    let rest = collect base left (n / base) (n % base ∷ arr) in if n == 0 then some arr else rest

abbrev pub digit_char : ℕ → ℕ
digit_char d = if leb d 9 then d + 48 else 65 + d - 10

pub put_digits : List ℕ → Screen → Screen
put_digits [] s = s
put_digits (d ∷ ds) s = put_digits ds (put_char_color (digit_char d) rc_black rc_white s)

pub put_number : ℕ → ℕ → Screen → Option Screen
put_number base n s =
    let digits : Option Screen = elim (collect base 16 n []) [
      | none ↦ none
      | some ds ↦ some (put_digits ds s)
    ] in
    if n == 0 then some (put_char_color 48 rc_black rc_white s) else digits

pub put_int : ℕ → Screen → Option Screen
put_int n s = put_number 16 n s

pub console_write_dec : ℕ → Screen → Option Screen
console_write_dec n s = put_number 10 n s
