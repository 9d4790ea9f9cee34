-- ===== src/Memory/Virtual/RoundTrip.antt =====
-- Runs of virtual pages are handed out once, and come back.
use tinykernel.Base.{
  ℕ, ◌+◌, ◌-◌, ◌*◌, ◌/◌, ◌^◌, ◌≤◌, ◌<◌, ◌≡◌, ◌⊎◌, refl, sym, subst, ap, ◌∙◌, Bool, true, Option,
  none, some, arith, u32, Outcome, ok, panic, ok_injective,
}
use tinykernel.Bitmap.{bitmap_scan, bitmap_scan_test}
use tinykernel.Bitmap.Access.{HasBytes}
use tinykernel.Bitmap.Scan.First.{size, IsSmall}
use tinykernel.Bitmap.Scan.Run.{FreeRun}
use tinykernel.Bitmap.Scan.{bitmap_scan_in_range}
use tinykernel.Memory.{VirtualAddr}
use tinykernel.Memory.Virtual.{
  pf_kernel, Machine, get_run, run_address, run_pool, vaddr_get, clear_run, vaddr_remove,
}
use tinykernel.Memory.Virtual.Bits.{WroteRun, set_run-WroteRun}

pub record IsRunPool (p : VirtualAddr) : Type 0 where
  pub bytes : HasBytes p.vaddr_bitmap
  pub small : IsSmall p.vaddr_bitmap
  pub in_memory : p.vaddr_start + size p.vaddr_bitmap * 4096 < 2 ^ 32

abbrev pub bit : VirtualAddr → ℕ → Bool
bit p j = bitmap_scan_test p.vaddr_bitmap j

-- `n` pages from `vaddr` on have been taken from a pool in which they were free.
pub record GotRun (p : VirtualAddr) (vaddr n : ℕ) (p' : VirtualAddr) : Type 0 where
  pub first : ℕ
  pub address : vaddr ≡ p.vaddr_start + first * 4096
  pub in_range : first + n ≤ size p.vaddr_bitmap
  pub was_free : FreeRun p.vaddr_bitmap first n
  pub wrote : WroteRun p.vaddr_bitmap first n true p'.vaddr_bitmap
  pub same_start : p'.vaddr_start ≡ p.vaddr_start

-- `bitmap_scan` looks at one bit behind the bitmap if it searches for more than one.
abbrev pub IsGuarded : VirtualAddr → ℕ → Type 0
IsGuarded p n = (n ≡ 1) ⊎ (bit p (size p.vaddr_bitmap) ≡ true)

module _ (p : VirtualAddr) (v : IsRunPool p) (n : ℕ) (pos : 0 < n) (fits : n < 2 ^ 32)
    (g : IsGuarded p n) where
  found_run :
      (i : ℕ)
      → bitmap_scan p.vaddr_bitmap n ≡ ok (some i)
      → (vaddr : ℕ) × (p' : VirtualAddr) × (get_run p n ≡ ok (some (vaddr, p')))
        × GotRun p vaddr n p'
  unfolding get_run
  found_run i found =
      let (free, within) =
        bitmap_scan_in_range p.vaddr_bitmap v.bytes v.small n pos fits g i found in
      let (b, sets, w) = set_run-WroteRun n p.vaddr_bitmap i 1 v.bytes (omega arith) in
      let address : u32 (p.vaddr_start + i * 4096) ≡ p.vaddr_start + i * 4096 =
        omega (arith, within, pos, v.in_memory) in
      (
        p.vaddr_start + i * 4096,
        record p { vaddr_bitmap = b },
        rw (found, sets, address),
        record {
          first = i;
          address = refl;
          in_range = within;
          was_free = free;
          wrote = w;
          same_start = refl;
        },
      )

  pub get_run-GotRun :
      (vaddr : ℕ) (p' : VirtualAddr) → get_run p n ≡ ok (some (vaddr, p')) → GotRun p vaddr n p'
  unfolding get_run
  get_run-GotRun vaddr p' got = scan_cases (bitmap_scan p.vaddr_bitmap n) refl
    where
      nothing : bitmap_scan p.vaddr_bitmap n ≡ ok none → get_run p n ≡ ok none
      nothing e = rw e

      stopped : bitmap_scan p.vaddr_bitmap n ≡ panic → get_run p n ≡ panic
      stopped e = rw e

      scan_cases : (r : Outcome (Option ℕ)) → bitmap_scan p.vaddr_bitmap n ≡ r → GotRun p vaddr n p'
      scan_cases panic e = let stop = stopped e in absurd cc
      scan_cases (ok none) e = let nil = nothing e in absurd cc
      scan_cases (ok (some i)) e =
          let (vaddr', q, done, run) = found_run i e in
          let both : (◌≡◌ {A = Option (ℕ × VirtualAddr)} (some (vaddr', q)) (some (vaddr, p'))) =
            ok_injective (sym done ∙ got) in
          let same : (◌≡◌ {A = ℕ × VirtualAddr} (vaddr', q) (vaddr, p')) = cc in
          subst (λ x. GotRun p x.0 n x.1) same run

  pub clear_run-GotRun :
      (vaddr : ℕ) (p' : VirtualAddr)
      → GotRun p vaddr n p'
      → (p'' : VirtualAddr) × (clear_run vaddr n p' ≡ ok p'')
        × ((j : ℕ) → bit p'' j ≡ bit p j)
        × (p''.vaddr_start ≡ p.vaddr_start)
  unfolding clear_run
  clear_run-GotRun vaddr p' r =
      let (b, sets, w) = set_run-WroteRun n p'.vaddr_bitmap r.first 0 r.wrote.bytes (omega arith) in
      let index : u32 (vaddr + 2 ^ 32 - p'.vaddr_start) / 4096 ≡ r.first =
        omega (arith, r.address, r.same_start, r.in_range, v.in_memory, pos) in
      (
        record p' { vaddr_bitmap = b },
        rw (index, sets),
        λ j. w.test j ∙ (ground (arith, r.wrote.test j, r.was_free j)),
        r.same_start,
      )

vaddr_get_stops :
    (m : Machine) (n : ℕ) → get_run m.kernel_vaddr n ≡ panic → vaddr_get pf_kernel n m ≡ panic
unfolding vaddr_get
vaddr_get_stops m n e = rw e

vaddr_get_ok :
    (m : Machine) (n : ℕ) (r : Option (ℕ × VirtualAddr))
    → get_run m.kernel_vaddr n ≡ ok r
    → vaddr_get pf_kernel n m
      ≡ ok (run_address r, record m { kernel_vaddr = run_pool r m.kernel_vaddr })
unfolding vaddr_get
vaddr_get_ok m n r e = rw e

-- The run that `vaddr_get` took from the pool of the kernel.
vaddr_get-get_run :
    (m m' : Machine) (n vaddr : ℕ)
    → vaddr_get pf_kernel n m ≡ ok (some vaddr, m')
    → get_run m.kernel_vaddr n ≡ ok (some (vaddr, m'.kernel_vaddr))
vaddr_get-get_run m m' n vaddr got = run_cases (get_run m.kernel_vaddr n) refl
  where
    run_cases :
        (r : Outcome (Option (ℕ × VirtualAddr)))
        → get_run m.kernel_vaddr n ≡ r
        → get_run m.kernel_vaddr n ≡ ok (some (vaddr, m'.kernel_vaddr))
    run_cases panic e = let stop = vaddr_get_stops m n e in absurd cc
    run_cases (ok none) e =
        let both = ok_injective (sym (vaddr_get_ok m n none e) ∙ got) in
        let nothing : (◌≡◌ {A = Option ℕ} none (some vaddr)) = ap (λ x. x.0) both in absurd cc
    run_cases (ok (some (a, p))) e =
        let both = ok_injective (sym (vaddr_get_ok m n (some (a, p)) e) ∙ got) in
        let address : (◌≡◌ {A = Option ℕ} (some a) (some vaddr)) = ap (λ x. x.0) both in
        let pool : p ≡ m'.kernel_vaddr = ap (λ x. x.1.kernel_vaddr) both in
        let same : a ≡ vaddr = cc in
        e ∙ ap (λ b. ok (some (b, p))) same ∙ ap (λ q. ok (some (vaddr, q))) pool

-- With a pool of virtual kernel pages whose addresses do not wrap, and a set bit behind its bitmap
-- unless one page is asked for: the pages that `vaddr_get` returns were free, are within the pool,
-- and are in use afterwards, and no others have changed. `vaddr_remove` gives them back: the same
-- pages are in use then as before.
pub vaddr_remove-vaddr_get :
    (m m' : Machine) (n vaddr : ℕ)
    → IsRunPool m.kernel_vaddr
    → 0 < n
    → n < 2 ^ 32
    → IsGuarded m.kernel_vaddr n
    → vaddr_get pf_kernel n m ≡ ok (some vaddr, m')
    → GotRun m.kernel_vaddr vaddr n m'.kernel_vaddr
      × ((m'' : Machine) × (vaddr_remove pf_kernel vaddr n m' ≡ ok m'')
          × ((j : ℕ) → bit m''.kernel_vaddr j ≡ bit m.kernel_vaddr j))
unfolding vaddr_remove
vaddr_remove-vaddr_get m m' n vaddr v pos fits g got =
    let run =
      get_run-GotRun m.kernel_vaddr v n pos fits g vaddr m'.kernel_vaddr
        (vaddr_get-get_run m m' n vaddr got) in
    let (p, done, back, _) =
      clear_run-GotRun m.kernel_vaddr v n pos fits g vaddr m'.kernel_vaddr run in
    (run, (record m' { kernel_vaddr = p }, rw done, back))
