-- ===== src/Strings/Contents.antt =====
-- What the string functions do to strings.
use tinykernel.Base.{
  ℕ, zero, suc, ◌+◌, ◌-◌, ◌≤◌, ◌<◌, ◌≡◌, ◌≢◌, ◌⊎◌, refl, ap, ◌∙◌, inl, inr, false, List, [], ◌∷◌,
  some, arith, ◌==◌, update, length, ok, Bool-cases,
}
use tinykernel.Strings.{copy_bytes, memcpy, copy_string, strcpy}

-- The string at `p`: bytes that are not 0, and a 0 behind them.
abbrev pub HoldsString : (ℕ → ℕ) → ℕ → List ℕ → Type 0
HoldsString mem p [] = mem p ≡ 0
HoldsString mem p (c ∷ cs) = (mem p ≡ c) × (c ≢ 0) × HoldsString mem (p + 1) cs

-- `n` bytes have been copied from `src` to `dest`, and no other byte has changed.
pub record Copied (dest src n : ℕ) (mem mem' : ℕ → ℕ) : Type 0 where
  pub same : (i : ℕ) → i < n → mem' (dest + i) ≡ mem (src + i)
  pub before : (a : ℕ) → a < dest → mem' a ≡ mem a
  pub behind : (a : ℕ) → dest + n ≤ a → mem' a ≡ mem a

-- The first byte, and then the others.
Copied-suc :
    (dest src n : ℕ) (mem mem' : ℕ → ℕ)
    → (dest ≤ src) ⊎ (src + suc n ≤ dest)
    → Copied (dest + 1) (src + 1) n (update mem dest (mem src)) mem'
    → Copied dest src (suc n) mem mem'
Copied-suc dest src n mem mem' apart c = record {
  same = λ i lt. elim (Bool-cases (i == 0)) [
    | inl first ↦
        (let e : i ≡ 0 = ground arith in
          let at : dest + i ≡ dest = omega (arith, e) in
          let from : src + i ≡ src = omega (arith, e) in
          rw (at, from) (c.before dest (omega arith) ∙ (ground arith)))
    | inr later ↦
        let pos : 0 < i = ground arith in
        let at : dest + i ≡ dest + 1 + (i - 1) = omega (arith, pos) in
        let from : src + 1 + (i - 1) ≡ src + i = omega (arith, pos) in
        let other : dest ≢ src + i =
          λ e. elim apart [ inl a ↦ omega (arith, e, pos) | inr b ↦ omega (arith, e, lt) ] in
        ap mem' at
        ∙ c.same (i - 1) (omega (arith, lt, pos))
        ∙ ap (update mem dest (mem src)) from
        ∙ (ground (arith, other))
  ];
  before = λ a lt. c.before a (omega (arith, lt)) ∙ (ground arith);
  behind = λ a ge. c.behind a (omega (arith, ge)) ∙ (ground arith);
}

copy_bytes-Copied :
    (n dest src : ℕ) (mem : ℕ → ℕ)
    → (dest ≤ src) ⊎ (src + n ≤ dest)
    → Copied dest src n mem (copy_bytes n dest src mem)
unfolding copy_bytes
copy_bytes-Copied zero dest src mem apart = record {
  same = λ i lt. absurd (omega (arith, lt));
  before = λ a lt. refl;
  behind = λ a ge. refl;
}
copy_bytes-Copied (suc n) dest src mem apart =
    let apart' : (dest + 1 ≤ src + 1) ⊎ (src + 1 + n ≤ dest + 1) = elim apart [
      | inl a ↦ inl (omega arith)
      | inr b ↦ inr (omega arith)
    ] in
    Copied-suc dest src n mem _ apart
      (copy_bytes-Copied n (dest + 1) (src + 1) (update mem dest (mem src)) apart')

-- `memcpy` between pointers that are not NULL copies every byte and changes no other, unless the destination starts behind the start
-- of the source and before its end.
pub memcpy-Copied :
    (dest src len : ℕ) (mem : ℕ → ℕ)
    → dest ≢ 0
    → src ≢ 0
    → (dest ≤ src) ⊎ (src + len ≤ dest)
    → (mem' : ℕ → ℕ) × (memcpy dest src len mem ≡ ok mem') × Copied dest src len mem mem'
unfolding memcpy
memcpy-Copied dest src len mem to from apart =
    (copy_bytes len dest src mem, ground arith, copy_bytes-Copied len dest src mem apart)

-- The string behind `src`, out of reach of a write at `dest`.
HoldsString-update :
    (mem : ℕ → ℕ) (p : ℕ) (cs : List ℕ) (dest c : ℕ)
    → (dest < p) ⊎ (p + length cs < dest)
    → HoldsString mem p cs
    → HoldsString (update mem dest c) p cs
HoldsString-update mem p [] dest c apart h =
    let other : dest ≢ p = λ e. elim apart [ inl a ↦ omega arith | inr b ↦ omega arith ] in
    ground arith
HoldsString-update mem p (x ∷ cs) dest c apart (here, some_char, rest) =
    let other : dest ≢ p = λ e. elim apart [ inl a ↦ omega arith | inr b ↦ omega arith ] in
    let apart' : (dest < p + 1) ⊎ (p + 1 + length cs < dest) = elim apart [
      | inl a ↦ inl (omega arith)
      | inr b ↦ inr (omega arith)
    ] in
    (ground arith, some_char, HoldsString-update mem (p + 1) cs dest c apart' rest)

copy_string-Copied :
    (cs : List ℕ) (dest src : ℕ) (mem : ℕ → ℕ)
    → HoldsString mem src cs
    → (dest < src) ⊎ (src + length cs < dest)
    → (mem' : ℕ → ℕ) × (copy_string (suc (length cs)) dest src mem ≡ some mem')
      × Copied dest src (length cs) mem mem'
unfolding copy_string
copy_string-Copied [] dest src mem h apart = (
  mem,
  rw h,
  record {
    same = λ i lt. absurd (omega (arith, lt));
    before = λ a lt. refl;
    behind = λ a ge. refl;
  },
)
copy_string-Copied (c ∷ cs) dest src mem (here, some_char, rest) apart =
    let mem1 : ℕ → ℕ = update mem dest (mem src) in
    let reach : (dest < src + 1) ⊎ (src + 1 + length cs < dest) = elim apart [
      | inl a ↦ inl (omega arith)
      | inr b ↦ inr (omega arith)
    ] in
    let apart' : (dest + 1 < src + 1) ⊎ (src + 1 + length cs < dest + 1) = elim apart [
      | inl a ↦ inl (omega arith)
      | inr b ↦ inr (omega arith)
    ] in
    let whole : (dest ≤ src) ⊎ (src + suc (length cs) ≤ dest) = elim apart [
      | inl a ↦ inl (omega arith)
      | inr b ↦ inr (omega arith)
    ] in
    let h1 = HoldsString-update mem (src + 1) cs dest (mem src) reach rest in
    let (mem', done, c1) = copy_string-Copied cs (dest + 1) (src + 1) mem1 h1 apart' in
    let more : (mem src == 0) ≡ false = ground arith in
    (mem', rw (more, done), Copied-suc dest src (length cs) mem mem' whole c1)

-- `strcpy` between pointers that are not NULL, of a string that the copy does not run into, copies
-- its characters, ends, and leaves every other byte alone: the byte behind the copy, where a 0 would
-- end it, too.
pub strcpy-Copied :
    (cs : List ℕ) (dest src : ℕ) (mem : ℕ → ℕ)
    → dest ≢ 0
    → src ≢ 0
    → HoldsString mem src cs
    → (dest < src) ⊎ (src + length cs < dest)
    → (mem' : ℕ → ℕ) × (strcpy (suc (length cs)) dest src mem ≡ ok (some mem'))
      × Copied dest src (length cs) mem mem'
unfolding strcpy
strcpy-Copied cs dest src mem to from h apart =
    let (mem', done, copied) = copy_string-Copied cs dest src mem h apart in
    (mem', ground arith, copied)
