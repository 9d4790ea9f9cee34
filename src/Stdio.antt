-- ===== src/Stdio.antt =====
-- itoa of lib/stdio.c.
pub mod Digits
mod Tests
use tinykernel.Base.{
  ℕ, zero, suc, ◌+◌, ◌-◌, ◌*◌, ◌/◌, ◌%◌, ◌^◌, ◌<◌, ◌≡◌, Bool, true, false, List, [], ◌∷◌, Option,
  none, some, ◌==◌, ltb, leb, if◌then◌else◌, update, u32, u8, Outcome, ok, ◌>>=◌,
}
use tinykernel.Strings.{strcpy, strlen}

-- The place behind what has been written, and the memory.
abbrev pub Output : Type 0
Output = ℕ × (ℕ → ℕ)

abbrev pub put : ℕ → Output → Output
put c (p, mem) = (p + 1, update mem p c)

abbrev pub digit : ℕ → ℕ
digit m = if ltb m 10 then m + 48 else m - 10 + 65

abbrev pub put_digit : ℕ → Option Output → Option Output
put_digit m none = none
put_digit m (some o) = some (put (digit m) o)

-- `itoa`, with fuel for the digits; `none` means that it ran out.
pub itoa : (fuel : ℕ) → ℕ → Output → ℕ → Option Output
itoa zero value o base = none
itoa (suc fuel) value o base =
    let deeper = itoa fuel (value / base) o base in
    let before : Option Output = if value / base == 0 then some o else deeper in
    put_digit (value % base) before
