-- ===== src/Keyboard.antt =====
-- device/keyboard.c: the interrupt handler of the keyboard, as a state machine on scan codes.
pub mod Typing
mod Tests
use tinykernel.Base.{
  ℕ, zero, suc, ◌+◌, ◌-◌, ◌/◌, ◌%◌, Bool, true, false, not, ◌&&◌, ◌||◌, List, [], ◌∷◌, Option, none,
  some, ◌==◌, ltb, if◌then◌else◌, Outcome, ok, ◌>>=◌,
}
use tinykernel.IoQueue.{Station, ioq_full, ioq_putchar}

-- The keys that are down, and whether the last byte was 0xe0.
pub record Keys : Type 0 where
  pub ctrl_status : Bool
  pub shift_status : Bool
  pub alt_status : Bool
  pub caps_lock_status : Bool
  pub ext_scancode : Bool

-- The characters of each make code, without and with shift; 0 is a key that types nothing.
abbrev pub keymap : List (ℕ × ℕ)
keymap =
    (0, 0)
    ∷ (27, 27)
    ∷ (49, 33)
    ∷ (50, 64)
    ∷ (51, 35)
    ∷ (52, 36)
    ∷ (53, 37)
    ∷ (54, 94)
    ∷ (55, 38)
    ∷ (56, 42)
    ∷ (57, 40)
    ∷ (48, 41)
    ∷ (45, 95)
    ∷ (61, 43)
    ∷ (8, 8)
    ∷ (9, 9)
    ∷ (113, 81)
    ∷ (119, 87)
    ∷ (101, 69)
    ∷ (114, 82)
    ∷ (116, 84)
    ∷ (121, 89)
    ∷ (117, 85)
    ∷ (105, 73)
    ∷ (111, 79)
    ∷ (112, 80)
    ∷ (91, 123)
    ∷ (93, 125)
    ∷ (10, 10)
    ∷ (0, 0)
    ∷ (97, 65)
    ∷ (115, 83)
    ∷ (100, 68)
    ∷ (102, 70)
    ∷ (103, 71)
    ∷ (104, 72)
    ∷ (106, 74)
    ∷ (107, 75)
    ∷ (108, 76)
    ∷ (59, 58)
    ∷ (39, 34)
    ∷ (96, 126)
    ∷ (0, 0)
    ∷ (92, 124)
    ∷ (122, 90)
    ∷ (120, 88)
    ∷ (99, 67)
    ∷ (118, 86)
    ∷ (98, 66)
    ∷ (110, 78)
    ∷ (109, 77)
    ∷ (44, 60)
    ∷ (46, 62)
    ∷ (47, 63)
    ∷ (0, 0)
    ∷ (42, 42)
    ∷ (0, 0)
    ∷ (32, 32)
    ∷ (0, 0)
    ∷ []

abbrev pub key_at : List (ℕ × ℕ) → ℕ → ℕ × ℕ
key_at [] i = (0, 0)
key_at (k ∷ ks) zero = k
key_at (k ∷ ks) (suc i) = key_at ks i

abbrev pub is_ctrl : ℕ → Bool
is_ctrl code = (code == 0x1d) || (code == 0xe01d)

abbrev pub is_shift : ℕ → Bool
is_shift code = (code == 0x2a) || (code == 0x36)

abbrev pub is_alt : ℕ → Bool
is_alt code = (code == 0x38) || (code == 0xe038)

-- A key with two characters that is not a letter.
pub is_double : ℕ → Bool
is_double code =
    ltb code 0x0e
    || (code == 0x29)
    || (code == 0x1a)
    || (code == 0x1b)
    || (code == 0x2b)
    || (code == 0x27)
    || (code == 0x28)
    || (code == 0x33)
    || (code == 0x34)
    || (code == 0x35)

pub use_shift : ℕ → Keys → Bool
use_shift code k =
    if is_double code
    then k.shift_status
    else if k.shift_status && k.caps_lock_status
    then false
    else k.shift_status || k.caps_lock_status

-- A break code, without its bit 7.
pub released : ℕ → Keys → Keys
released code k =
    if is_ctrl code
    then record k { ctrl_status = false }
    else if is_shift code
    then record k { shift_status = false }
    else if is_alt code
    then record k { alt_status = false }
    else k

-- A make code of a key that types nothing, without its high byte.
pub pressed : ℕ → Keys → Keys
pressed code k =
    if is_ctrl code
    then record k { ctrl_status = true }
    else if is_shift code
    then record k { shift_status = true }
    else if is_alt code
    then record k { alt_status = true }
    else if code == 0x3a
    then record k { caps_lock_status = not k.caps_lock_status }
    else k

pub char_of : ℕ → Keys → ℕ
char_of code k =
    let (plain, shifted) = key_at keymap (code % 256) in if use_shift code k then shifted else plain

-- Ctrl with l or u types the number of the letter, from 0 on.
pub with_ctrl : ℕ → Keys → ℕ
with_ctrl cur_char k =
    if (k.ctrl_status && (cur_char == 108)) || (k.ctrl_status && (cur_char == 117))
    then cur_char - 97
    else cur_char

-- What the handler makes of a scan code whose high byte is 0xe0 or 0: the keys, and the character
-- that it types, 0 for none.
pub decode : ℕ → Keys → Keys × ℕ
decode scancode k =
    let char = char_of scancode k in
    if scancode / 128 % 2 == 1
    then (released (scancode - 128) k, 0)
    else if (ltb 0 scancode && ltb scancode 0x3b) || (scancode == 0xe038) || (scancode == 0xe01d)
    then if char == 0 then (pressed (scancode % 256) k, 0) else (k, with_ctrl char k)
    else (k, 0)

-- The handler up to the test of the buffer, for the byte that it reads from the port.
pub next_keys : ℕ → Keys → Keys × ℕ
next_keys scancode k =
    let whole = if k.ext_scancode then 0xe000 + scancode else scancode in
    let decoded = decode whole (record k { ext_scancode = false }) in
    if scancode == 0xe0 then (record k { ext_scancode = true }, 0) else decoded

-- The keys and the buffer `kbd_buf`. In the result, `none` is a handler that goes to sleep.
pub intr_keyboard_handler : ℕ → Keys → Station → Outcome (Option (Keys × Station))
intr_keyboard_handler scancode k kbd_buf = do
  let (k', cur_char) = next_keys scancode k
  let typed = do
    full ← ioq_full kbd_buf
    let stored = do
      put ← ioq_putchar cur_char kbd_buf
      ok (elim put [ none ↦ none | some s ↦ some (k', s) ])
    if full then ok (some (k', kbd_buf)) else stored
  if cur_char == 0 then ok (some (k', kbd_buf)) else typed
