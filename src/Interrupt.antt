-- ===== src/Interrupt.antt =====
-- The interrupt flag of the processor, as kernel/interrupt.c reads and sets it
-- (`intr_get_status`, `intr_enable`, `intr_disable`, `intr_set_status`).
use tinykernel.Base.{◌≡◌, refl, Bool, true, false}

-- `enum intr_status`. The state is the IF bit of EFLAGS, which `sti` sets and `cli` clears.
pub data IntrStatus : Type 0 where
  intr_off intr_on : IntrStatus

-- `status == INTR_OFF`
abbrev pub is_off : IntrStatus → Bool
is_off intr_off = true
is_off intr_on = false

unfoldable pub intr_get_status : IntrStatus → IntrStatus
intr_get_status flag = flag

-- The first part is the status before the call, the second the flag after it.
unfoldable pub intr_enable : IntrStatus → IntrStatus × IntrStatus
intr_enable intr_on = (intr_on, intr_on)
intr_enable intr_off = (intr_off, intr_on)

unfoldable pub intr_disable : IntrStatus → IntrStatus × IntrStatus
intr_disable intr_on = (intr_on, intr_off)
intr_disable intr_off = (intr_off, intr_off)

unfoldable pub intr_set_status : IntrStatus → IntrStatus → IntrStatus × IntrStatus
intr_set_status intr_on flag = intr_enable flag
intr_set_status intr_off flag = intr_disable flag

-- What every critical section relies on: `intr_disable` clears the flag and hands out the status
-- that `intr_set_status` restores later, whatever the flag is by then.
pub critical_section :
    (flag later : IntrStatus)
    → ((intr_disable flag).1 ≡ intr_off) × ((intr_set_status (intr_disable flag).0 later).1 ≡ flag)
unfolding intr_disable intr_set_status intr_enable
critical_section intr_on intr_on = (refl, refl)
critical_section intr_on intr_off = (refl, refl)
critical_section intr_off intr_on = (refl, refl)
critical_section intr_off intr_off = (refl, refl)
