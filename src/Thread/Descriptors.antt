-- ===== src/Thread/Descriptors.antt =====
-- The descriptor table of a task: its set-up in `init_thread`, `pcb_fd_install` of thread/thread.c
-- and `fd_local2global` of fs/fs.c.
use tinykernel.Base.{
  ℕ, zero, suc, ◌+◌, ◌<◌, ◌≤◌, ◌≡◌, refl, ◌≢◌, inl, inr, Bool, true, false, Option, none, some,
  arith, ltb, if◌then◌else◌, update, Bool-cases, Outcome, ok, panic,
}
use tinykernel.Thread.Pcb.{Task}

abbrev pub is_none {ℓ} : {A : Type ℓ} → Option A → Bool
is_none none = true
is_none (some a) = false

abbrev pub max_files_open_per_proc : ℕ
max_files_open_per_proc = 8

-- `MAX_FILE_OPEN`, the length of `file_table`.
abbrev pub max_file_open : ℕ
max_file_open = 32

-- The table that `init_thread` sets up: standard input, output and error.
unfoldable pub init_fd_table : ℕ → Option ℕ
init_fd_table i = if ltb i 3 then some i else none

-- The loop of `pcb_fd_install`; the first number is `MAX_FILES_OPEN_PER_PROC - idx`.
unfoldable pub free_descriptor : (ℕ → Option ℕ) → ℕ → ℕ → Option ℕ
free_descriptor fd_table zero idx = none
free_descriptor fd_table (suc left) idx =
    let rest = free_descriptor fd_table left (idx + 1) in
    if is_none (fd_table idx) then some idx else rest

-- The assignment and the returns of `pcb_fd_install`; `none` is the -1 of a full table.
unfoldable pub install_at : ℕ → Task → Option ℕ → Option ℕ × Task
install_at fd_idx cur none = (none, cur)
install_at fd_idx cur (some idx) =
    (some idx, record cur { fd_table = update cur.fd_table idx (some fd_idx) })

unfoldable pub pcb_fd_install : ℕ → Task → Option ℕ × Task
unfolding install_at free_descriptor
pcb_fd_install fd_idx cur = install_at fd_idx cur (free_descriptor cur.fd_table 5 3)

-- The `ASSERT` compares with `MAX_FILES_OPEN_PER_PROC`.
unfoldable pub fd_local2global : ℕ → Task → Outcome ℕ
fd_local2global local_fd cur = elim (cur.fd_table local_fd) [
  | none ↦ panic
  | some global_idx ↦ if ltb global_idx max_files_open_per_proc then ok global_idx else panic
]

-- The outcome of the search from `i` on.
abbrev FreeFrom : (ℕ → Option ℕ) → ℕ → Option ℕ → Type 0
FreeFrom t i none = (j : ℕ) → i ≤ j → j < 8 → t j ≢ none
FreeFrom t i (some r) = (i ≤ r) × (r < 8) × (t r ≡ none) × ((j : ℕ) → i ≤ j → j < r → t j ≢ none)

free_descriptor-FreeFrom :
    (t : ℕ → Option ℕ) (left i : ℕ) → i + left ≡ 8 → FreeFrom t i (free_descriptor t left i)
unfolding free_descriptor
free_descriptor-FreeFrom t zero i e = λ j lo hi. absurd (omega arith)
free_descriptor-FreeFrom t (suc left) i e = elim (Bool-cases (is_none (t i))) [
  | inl free ↦ rw free (omega arith, omega arith, ground arith, (λ j lo hi. absurd (omega arith)))
  | inr used ↦ rw used (
      step (free_descriptor t left (i + 1)) (free_descriptor-FreeFrom t left (i + 1) (omega arith))
        used)
]
  where
    step : (o : Option ℕ) → FreeFrom t (i + 1) o → is_none (t i) ≡ false → FreeFrom t i o
    step none f used = λ j lo hi. ground (arith, f j)
    step (some r) (lo, hi, free, before) used =
        (omega arith, hi, free, λ j lo' hi'. ground (arith, before j))

-- What `pcb_fd_install` does: it stores the global index at the lowest free descriptor from 3 on
-- and returns that, or returns -1 and changes nothing if 3 to 7 are all taken.
abbrev pub Installs : ℕ → Task → Option ℕ × Task → Type 0
Installs fd_idx cur (none, cur') = (cur' ≡ cur) × ((j : ℕ) → 3 ≤ j → j < 8 → cur.fd_table j ≢ none)
Installs fd_idx cur (some idx, cur') =
    (3 ≤ idx)
    × (idx < 8)
    × (cur.fd_table idx ≡ none)
    × ((j : ℕ) → 3 ≤ j → j < idx → cur.fd_table j ≢ none)
    × (cur' ≡ record cur { fd_table = update cur.fd_table idx (some fd_idx) })

-- `pcb_fd_install` stores the global index at the lowest free descriptor from 3 on and returns it;
-- if descriptors 3 to 7 are taken, it returns -1 and leaves the task as it was.
pub pcb_fd_install-Installs :
    (fd_idx : ℕ) (cur : Task) → Installs fd_idx cur (pcb_fd_install fd_idx cur)
unfolding pcb_fd_install install_at
pcb_fd_install-Installs fd_idx cur =
    go (free_descriptor cur.fd_table 5 3) (free_descriptor-FreeFrom cur.fd_table 5 3 (omega arith))
  where
    go : (o : Option ℕ) → FreeFrom cur.fd_table 3 o → Installs fd_idx cur (install_at fd_idx cur o)
    go none taken = (refl, taken)
    go (some r) (lo, hi, free, before) = (lo, hi, free, before, refl)

-- A descriptor that `pcb_fd_install` has returned leads back to its global index if that is below
-- 8; `fd_local2global` stops the kernel for every other index, though `file_table` has 32 entries.
pub fd_local2global-pcb_fd_install :
    (fd_idx idx : ℕ) (cur cur' : Task)
    → pcb_fd_install fd_idx cur ≡ (some idx, cur')
    → fd_local2global idx cur' ≡ (if ltb fd_idx 8 then ok fd_idx else panic)
unfolding fd_local2global
fd_local2global-pcb_fd_install fd_idx idx cur cur' e =
    go (pcb_fd_install fd_idx cur) e (pcb_fd_install-Installs fd_idx cur)
  where
    go :
        (r : Option ℕ × Task)
        → r ≡ (some idx, cur')
        → Installs fd_idx cur r
        → fd_local2global idx cur' ≡ (if ltb fd_idx 8 then ok fd_idx else panic)
    go (none, c) e i = cc
    go (some j, c) e (_, _, _, _, same) =
        let stored : cur'.fd_table idx ≡ some fd_idx = ground arith in rw (stored, fd_local2global)
