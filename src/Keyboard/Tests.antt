-- ===== src/Keyboard/Tests.antt =====
-- The theorems about the keyboard at concrete keys.
use tinykernel.Base.{◌≡◌, refl, arith, true, false, ok, some}
use tinykernel.IoQueue.{Station}
use tinykernel.IoQueue.Example.{idle_reader, idle_reader-IsReady}
use tinykernel.Keyboard.{Keys, next_keys, char_of, intr_keyboard_handler}
use tinykernel.Keyboard.Typing.{Typed, char_of-cased, intr_keyboard_handler-Typed}

abbrev shift_down : Keys
shift_down = record {
  ctrl_status = false;
  shift_status = true;
  alt_status = false;
  caps_lock_status = false;
  ext_scancode = false;
}

char_of-cased_instance : char_of 0x1e shift_down ≡ 65
char_of-cased_instance = char_of-cased 0x1e shift_down (omega arith) refl

intr_keyboard_handler-Typed_example :
    (s : Station) × (intr_keyboard_handler 0x1e shift_down idle_reader
      ≡ ok (some ((next_keys 0x1e shift_down).0, s)))
    × Typed (next_keys 0x1e shift_down).1 idle_reader s
intr_keyboard_handler-Typed_example =
    intr_keyboard_handler-Typed 0x1e shift_down idle_reader idle_reader-IsReady
