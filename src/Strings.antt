-- ===== src/Strings.antt =====
-- lib/string.c: bytes and strings in memory.
pub mod Contents
pub mod Compare
mod Tests
use tinykernel.Base.{
  ℕ, zero, suc, ◌+◌, ◌-◌, Bool, not, ◌&&◌, ◌||◌, Option, none, some, ◌==◌, if◌then◌else◌, update,
  Outcome, ok, assert, ◌>>◌,
}

-- The loops over `len` bytes.
pub copy_bytes : (len : ℕ) → ℕ → ℕ → (ℕ → ℕ) → ℕ → ℕ
copy_bytes zero dest src mem = mem
copy_bytes (suc len) dest src mem = copy_bytes len (dest + 1) (src + 1) (update mem dest (mem src))

pub set_bytes : (len : ℕ) → ℕ → ℕ → (ℕ → ℕ) → ℕ → ℕ
set_bytes zero dest val mem = mem
set_bytes (suc len) dest val mem = set_bytes len (dest + 1) val (update mem dest val)

abbrev is_pointer : ℕ → Bool
is_pointer p = not (p == 0)

pub memcpy : ℕ → ℕ → ℕ → (ℕ → ℕ) → Outcome (ℕ → ℕ)
memcpy dest src len mem = do
  assert (is_pointer dest && is_pointer src)
  ok (copy_bytes len dest src mem)

pub memset : ℕ → ℕ → ℕ → (ℕ → ℕ) → Outcome (ℕ → ℕ)
memset dest val len mem = do assert (is_pointer dest); ok (set_bytes len dest val mem)

pub bzero : ℕ → ℕ → (ℕ → ℕ) → Outcome (ℕ → ℕ)
bzero dest len mem = memset dest 0 len mem

-- A comparison returns the difference of two characters; here it is the two characters, which are
-- both 0 where the code returns 0.
pub compare_bytes : (size : ℕ) → ℕ → ℕ → (ℕ → ℕ) → ℕ × ℕ
compare_bytes zero a b mem = (0, 0)
compare_bytes (suc size) a b mem =
    let rest = compare_bytes size (a + 1) (b + 1) mem in
    if mem a == mem b then rest else (mem a, mem b)

pub memcmp : ℕ → ℕ → ℕ → (ℕ → ℕ) → Outcome (ℕ × ℕ)
memcmp a b size mem = do assert (is_pointer a || is_pointer b); ok (compare_bytes size a b mem)

-- The loops that run to the end of a string, on fuel; `none` means that it ran out.
pub compare_strings : (fuel : ℕ) → ℕ → ℕ → (ℕ → ℕ) → Option (ℕ × ℕ)
compare_strings zero str1 str2 mem = none
compare_strings (suc fuel) str1 str2 mem =
    let rest = compare_strings fuel (str1 + 1) (str2 + 1) mem in
    if (mem str1 == mem str2) && not (mem str1 == 0) then rest else some (mem str1, mem str2)

pub strcmp : ℕ → ℕ → ℕ → (ℕ → ℕ) → Outcome (Option (ℕ × ℕ))
strcmp fuel str1 str2 mem = do
  assert (is_pointer str1 || is_pointer str2)
  ok (compare_strings fuel str1 str2 mem)

pub copy_string : (fuel : ℕ) → ℕ → ℕ → (ℕ → ℕ) → Option (ℕ → ℕ)
copy_string zero dest src mem = none
copy_string (suc fuel) dest src mem =
    let rest = copy_string fuel (dest + 1) (src + 1) (update mem dest (mem src)) in
    if mem src == 0 then some mem else rest

pub strcpy : ℕ → ℕ → ℕ → (ℕ → ℕ) → Outcome (Option (ℕ → ℕ))
strcpy fuel dest src mem = do
  assert (is_pointer dest && is_pointer src)
  ok (copy_string fuel dest src mem)

-- `p - s - 1` at the end of the loop, where `p` is behind the 0.
pub find_end : (fuel : ℕ) → ℕ → (ℕ → ℕ) → Option ℕ
find_end zero p mem = none
find_end (suc fuel) p mem =
    let rest = find_end fuel (p + 1) mem in if mem p == 0 then some (p + 1) else rest

pub strlen : ℕ → ℕ → (ℕ → ℕ) → Outcome (Option ℕ)
strlen fuel s mem = do
  assert (is_pointer s)
  ok (elim (find_end fuel s mem) [ none ↦ none | some p ↦ some (p - s - 1) ])

-- `some none` is NULL.
pub find_char : (fuel : ℕ) → ℕ → ℕ → (ℕ → ℕ) → Option (Option ℕ)
find_char zero str ch mem = none
find_char (suc fuel) str ch mem =
    let rest = find_char fuel (str + 1) ch mem in
    if mem str == 0 then some none else if mem str == ch then some (some str) else rest

pub strchr : ℕ → ℕ → ℕ → (ℕ → ℕ) → Outcome (Option (Option ℕ))
strchr fuel str ch mem = do assert (is_pointer str); ok (find_char fuel str ch mem)

pub find_last : (fuel : ℕ) → ℕ → ℕ → Option ℕ → (ℕ → ℕ) → Option (Option ℕ)
find_last zero str ch temp mem = none
find_last (suc fuel) str ch temp mem =
    let rest = find_last fuel (str + 1) ch (if mem str == ch then some str else temp) mem in
    if mem str == 0 then some temp else rest

pub strrchr : ℕ → ℕ → ℕ → (ℕ → ℕ) → Outcome (Option (Option ℕ))
strrchr fuel str ch mem = do assert (is_pointer str); ok (find_last fuel str ch none mem)

-- The second loop of `strcat`, which copies the 0 as well.
pub append_string : (fuel : ℕ) → ℕ → ℕ → (ℕ → ℕ) → Option (ℕ → ℕ)
append_string zero str src mem = none
append_string (suc fuel) str src mem =
    let mem' = update mem str (mem src) in
    let rest = append_string fuel (str + 1) (src + 1) mem' in
    if mem src == 0 then some mem' else rest

pub strcat : ℕ → ℕ → ℕ → (ℕ → ℕ) → Outcome (Option (ℕ → ℕ))
strcat fuel dst src mem = do
  assert (is_pointer dst && is_pointer src)
  ok (elim (find_end fuel dst mem) [
    | none ↦ none
    | some str ↦ append_string fuel (str - 1) src mem
  ])
