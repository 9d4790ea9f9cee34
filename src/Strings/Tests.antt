-- ===== src/Strings/Tests.antt =====
-- The theorems about strings at one memory.
use tinykernel.Base.{ℕ, ◌≡◌, ◌↔◌, refl, inr, List, [], ◌∷◌, some, arith, ◌==◌, if◌then◌else◌, ok}
use tinykernel.Strings.{memcpy, strcpy, strcmp}
use tinykernel.Strings.Contents.{HoldsString, Copied, memcpy-Copied, strcpy-Copied}
use tinykernel.Strings.Compare.{strcmp-equal}

-- The string "ls" at 16 and the string "la" at 32.
abbrev text : ℕ → ℕ
text a =
    if a == 16
    then 108
    else if a == 17
    then 115
    else if a == 32
    then 108
    else if a == 33
    then 97
    else 0

text-HoldsString : HoldsString text 16 (108 ∷ 115 ∷ [])
text-HoldsString = (refl, (λ e. omega arith), (refl, (λ e. omega arith), refl))

other-HoldsString : HoldsString text 32 (108 ∷ 97 ∷ [])
other-HoldsString = (refl, (λ e. omega arith), (refl, (λ e. omega arith), refl))

memcpy-Copied_instance : (mem' : ℕ → ℕ) × (memcpy 17 16 1 text ≡ ok mem') × Copied 17 16 1 text mem'
memcpy-Copied_instance =
    memcpy-Copied 17 16 1 text (λ e. omega arith) (λ e. omega arith) (inr (omega arith))

strcpy-Copied_instance :
    (mem' : ℕ → ℕ) × (strcpy 3 64 16 text ≡ ok (some mem')) × Copied 64 16 2 text mem'
strcpy-Copied_instance =
    strcpy-Copied (108 ∷ 115 ∷ []) 64 16 text (λ e. omega arith) (λ e. omega arith) text-HoldsString
      (inr (omega arith))

strcmp-equal_instance :
    (left right : ℕ) × (strcmp 3 16 32 text ≡ ok (some (left, right)))
    × ((left ≡ right) ↔ (◌≡◌ {A = List ℕ} (108 ∷ 115 ∷ []) (108 ∷ 97 ∷ [])))
strcmp-equal_instance =
    strcmp-equal (108 ∷ 115 ∷ []) (108 ∷ 97 ∷ []) 16 32 text (λ e. omega arith) text-HoldsString
      other-HoldsString
