-- ===== src/Base/Memory.antt =====
-- Memory behind a pointer: what stands at each offset, also past the end of the object there.
use Prim.Native.Nat.{ℕ}
use tinykernel.Base.Tests.{◌==◌, if◌then◌else◌}

-- `mem[i] = v`
abbrev pub update {ℓ} : {A : Type ℓ} → (ℕ → A) → ℕ → A → ℕ → A
update mem i v j = if i == j then v else mem j
