-- ===== src/Stdio/Tests.antt =====
-- The theorem about itoa at a number.
use tinykernel.Base.{refl, inr, arith}
use tinykernel.Stdio.{itoa}
use tinykernel.Stdio.Digits.{Prints, itoa-Prints}

itoa-Prints_instance : Prints 16 0xcafe (100, λ a. 0) (itoa 10 0xcafe (100, λ a. 0) 16)
itoa-Prints_instance = itoa-Prints 16 0xcafe (100, λ a. 0) (inr refl) (omega arith)
