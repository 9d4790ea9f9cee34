-- ===== src/Keyboard/Typing.antt =====
-- What the keys type, and that the handler never sleeps.
use tinykernel.Base.{
  ℕ, ◌-◌, ◌<◌, ◌≡◌, refl, ◌∙◌, inl, inr, Bool, true, false, not, ◌&&◌, ◌||◌, [], ◌∷◌, ◌++◌, some,
  arith, ◌==◌, leb, if◌then◌else◌, table, table-entry, length, ok, Bool-cases, ==→eq,
}
use tinykernel.IoQueue.{Station}
use tinykernel.IoQueue.Contents.{held}
use tinykernel.IoQueue.Bytes.{IsReady, ioq_putchar-Put, ioq_full-held, held-small}
use tinykernel.Keyboard.{
  Keys, keymap, key_at, is_double, use_shift, char_of, next_keys, intr_keyboard_handler,
}

abbrev pub plain_char : ℕ → ℕ
plain_char code = (key_at keymap code).0

abbrev pub is_letter : ℕ → Bool
is_letter char = leb 97 char && leb char 122

abbrev keys_with : Bool → Bool → Keys
keys_with shift caps = record {
  ctrl_status = false;
  shift_status = shift;
  alt_status = false;
  caps_lock_status = caps;
  ext_scancode = false;
}

abbrev differ : Bool → Bool → Bool
differ true b = not b
differ false b = b

-- The capital letter if exactly one of shift and caps lock is on.
abbrev pub cased : ℕ → Bool → Bool → ℕ
cased char shift caps = if differ shift caps then char - 32 else char

case_ok : Bool → Bool → ℕ → Bool
case_ok shift caps code =
    not (is_letter (plain_char code))
    || (char_of code (keys_with shift caps) == cased (plain_char code) shift caps)

case_table : (shift caps : Bool) → table (case_ok shift caps) 0x3b ≡ true
unfolding table case_ok char_of use_shift is_double
case_table true true = refl
case_table true false = refl
case_table false true = refl
case_table false false = refl

char_of_same :
    (code : ℕ) (k : Keys)
    → char_of code k ≡ char_of code (keys_with k.shift_status k.caps_lock_status)
unfolding char_of use_shift
char_of_same code k = refl

-- A letter key types the capital letter if exactly one of shift and caps lock is on, and the small
-- letter otherwise.
pub char_of-cased :
    (code : ℕ) (k : Keys)
    → code < 0x3b
    → is_letter (plain_char code) ≡ true
    → char_of code k ≡ cased (plain_char code) k.shift_status k.caps_lock_status
unfolding case_ok
char_of-cased code k small letter =
    let entry =
      table-entry (case_ok k.shift_status k.caps_lock_status) 0x3b
        (case_table k.shift_status k.caps_lock_status) code small in
    char_of_same code k ∙ ==→eq _ _ (or_right letter entry)
  where
    or_right : {a b : Bool} → a ≡ true → (not a || b) ≡ true → b ≡ true
    or_right e f = ground arith

-- The handler has typed `char` at the end of the buffer, unless that was full or there was none.
pub record Typed (char : ℕ) (s s' : Station) : Type 0 where
  pub ready : IsReady s'
  pub bytes : held s'.ioq ≡ (
      if (char == 0) || (length (held s.ioq) == 2047) then held s.ioq else held s.ioq ++ char ∷ [])

-- The interrupt handler of the keyboard, for any byte from the port and with interrupts off, comes
-- to an end without sleeping, whether or not the buffer is full. It updates the keys, and puts the
-- character that the key types, if there is one, at the end of the buffer unless that is full.
pub intr_keyboard_handler-Typed :
    (scancode : ℕ) (k : Keys) (s : Station)
    → IsReady s
    → (s' : Station) × (intr_keyboard_handler scancode k s
        ≡ ok (some ((next_keys scancode k).0, s')))
      × Typed (next_keys scancode k).1 s s'
unfolding intr_keyboard_handler
intr_keyboard_handler-Typed scancode k s h =
    let char = (next_keys scancode k).1 in
    elim (Bool-cases (char == 0)) [
      | inl silent ↦ (s, rw silent, record { ready = h; bytes = rw silent })
      | inr types ↦ elim (Bool-cases (length (held s.ioq) == 2047)) [
        | inl full ↦
            (s, rw (types, ioq_full-held s h, full), record { ready = h; bytes = rw (types, full) })
        | inr room ↦
            let small : length (held s.ioq) < 2047 = ground (arith, held-small s h) in
            let p = ioq_putchar-Put s h char small in
            (
              p.after,
              rw (types, ioq_full-held s h, room, p.done),
              record { ready = p.ready; bytes = rw (types, room) p.bytes },
            )
      ]
    ]
