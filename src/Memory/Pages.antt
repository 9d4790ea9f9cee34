-- ===== src/Memory/Pages.antt =====
-- Physical pages are handed out once and come back: `palloc` and `pfree`.
use tinykernel.Base.{
  ℕ, ◌+◌, ◌-◌, ◌*◌, ◌/◌, ◌%◌, ◌^◌, ◌≤◌, ◌<◌, ◌≡◌, ◌⊎◌, refl, sym, ◌∙◌, ap, subst, inl, inr, Bool,
  true, false, Option, some, arith, ◌==◌, leb, if◌then◌else◌, u32, Outcome, ok, panic, ok_injective,
  ℕ_discrete,
}
use tinykernel.Bitmap.{Bitmap, bitmap_scan_test}
use tinykernel.Bitmap.Access.{HasBytes, Wrote, bitmap_set-Wrote}
use tinykernel.Bitmap.Scan.First.{size, IsSmall, bitmap_scan_one}
use tinykernel.Memory.{Pool, Pools, palloc, clear_page, pfree}

-- The end of the pages that the bitmap of a pool has bits for.
abbrev pub pool_end : Pool → ℕ
pool_end p = p.phy_addr_start + size p.pool_bitmap * 4096

pub record IsPool (p : Pool) : Type 0 where
  pub bytes : HasBytes p.pool_bitmap
  pub small : IsSmall p.pool_bitmap
  pub aligned : p.phy_addr_start % 4096 ≡ 0
  pub in_memory : pool_end p < 2 ^ 32

-- The address of a page of the pool.
pub record IsPage (p : Pool) (a : ℕ) : Type 0 where
  pub above : p.phy_addr_start ≤ a
  pub below : a < pool_end p
  pub aligned : a % 4096 ≡ 0

abbrev pub page_used : Pool → ℕ → Bool
page_used p a = bitmap_scan_test p.pool_bitmap ((a - p.phy_addr_start) / 4096)

-- A pool after a change of the bit of one page.
pub record Changed (p : Pool) (a : ℕ) (used : Bool) (p' : Pool) : Type 0 where
  pub at : (c : ℕ) → IsPage p c → page_used p' c ≡ (if a == c then used else page_used p c)
  pub same_start : p'.phy_addr_start ≡ p.phy_addr_start
  pub same_len : p'.pool_bitmap.btmp_bytes_len ≡ p.pool_bitmap.btmp_bytes_len
  pub still : IsPool p'

same_bit :
    (p : Pool) (v : IsPool p) (i c : ℕ)
    → IsPage p c
    → (i == (c - p.phy_addr_start) / 4096) ≡ (p.phy_addr_start + i * 4096 == c)
same_bit p v i c is = ground (arith, v.aligned, is.above, is.below, is.aligned)

Changed-Wrote :
    (p : Pool) (i : ℕ) (used : Bool) (b : Bitmap)
    → IsPool p
    → Wrote p.pool_bitmap i used b
    → Changed p (p.phy_addr_start + i * 4096) used (record p { pool_bitmap = b })
Changed-Wrote p i used b v w = record {
  at = λ c is.
      w.test ((c - p.phy_addr_start) / 4096)
      ∙ ap (λ t. if t then used else page_used p c) (same_bit p v i c is);
  same_start = refl;
  same_len = w.same_len;
  still = record {
    bytes = w.bytes;
    small = omega (arith, v.small, w.same_len);
    aligned = v.aligned;
    in_memory = omega (arith, v.in_memory, w.same_len);
  };
}

-- What `palloc` has done when it returns `page`: that was the lowest free page, and is in use.
pub record Took (p : Pool) (page : ℕ) (after : Pool) : Type 0 where
  pub is_page : IsPage p page
  pub was_free : page_used p page ≡ false
  pub lowest : (c : ℕ) → IsPage p c → c < page → page_used p c ≡ true
  pub changed : Changed p page true after

pub record Allocated (p : Pool) (r : Outcome (Option (ℕ × Pool))) : Type 0 where
  pub page : ℕ
  pub after : Pool
  pub done : r ≡ ok (some (page, after))
  pub took : Took p page after

module _ (p : Pool) (v : IsPool p) where
  -- In a pool whose addresses do not wrap, `palloc` stops the kernel if every page is in use. Otherwise it returns the lowest
  -- page that is not, and that page, and no other, is in use afterwards.
  pub palloc-Allocated :
      (((c : ℕ) → IsPage p c → page_used p c ≡ true) × (palloc p ≡ panic)) ⊎ Allocated p (palloc p)
  unfolding palloc
  palloc-Allocated = elim (bitmap_scan_one p.pool_bitmap v.bytes v.small) [
    | inl (all, stops) ↦ inl (
      (λ c is. all ((c - p.phy_addr_start) / 4096) (omega (arith, is.above, is.below))),
      rw stops,
    )
    | inr (s, f, finds) ↦
        let (b, sets, w) = bitmap_set-Wrote p.pool_bitmap s v.bytes 1 (omega arith) in
        let page : ℕ = p.phy_addr_start + s * 4096 in
        let address : u32 (s * 4096 + p.phy_addr_start) ≡ page =
          omega (arith, f.in_range, v.in_memory) in
        let bit : (page - p.phy_addr_start) / 4096 ≡ s = omega arith in
        inr (record {
          page = page;
          after = record p { pool_bitmap = b };
          done = rw (finds, sets, address);
          took = record {
            is_page = record {
              above = omega arith;
              below = omega (arith, f.in_range);
              aligned = omega (arith, v.aligned);
            };
            was_free = rw bit f.clear;
            lowest = λ c is lt.
                f.set_before ((c - p.phy_addr_start) / 4096) (omega (arith, is.above, is.below));
            changed = Changed-Wrote p s true b v w;
          };
        })
  ]

  pub palloc-Took : (page : ℕ) (k : Pool) → palloc p ≡ ok (some (page, k)) → Took p page k
  palloc-Took page k taken = elim palloc-Allocated [
    | inl (_, stops) ↦ cc
    | inr a ↦
        let both : (◌≡◌ {A = Option (ℕ × Pool)} (some (a.page, a.after)) (some (page, k))) =
          ok_injective (sym a.done ∙ taken) in
        let same : (◌≡◌ {A = ℕ × Pool} (a.page, a.after) (page, k)) = cc in
        subst (λ x. Took p x.0 x.1) same a.took
  ]

  clear_page-Changed :
      (a : ℕ) → IsPage p a → (p' : Pool) × (clear_page a p ≡ ok p') × Changed p a false p'
  unfolding clear_page
  clear_page-Changed a is =
      let i : ℕ = (a - p.phy_addr_start) / 4096 in
      let (b, sets, w) = bitmap_set-Wrote p.pool_bitmap i v.bytes 0 (omega arith) in
      let index : u32 (a + 2 ^ 32 - p.phy_addr_start) / 4096 ≡ i =
        omega (arith, is.above, is.below, v.in_memory) in
      let address : p.phy_addr_start + i * 4096 ≡ a =
        omega (arith, is.above, is.aligned, v.aligned) in
      (
        record p { pool_bitmap = b },
        rw (index, sets),
        subst (λ c. Changed p c false (record p { pool_bitmap = b })) address
            (Changed-Wrote p i false b v w),
      )

-- The user pool lies above the kernel pool.
pub record ArePools (p : Pools) : Type 0 where
  pub kernel : IsPool p.kernel_pool
  pub user : IsPool p.user_pool
  pub apart : pool_end p.kernel_pool ≤ p.user_pool.phy_addr_start

module _ (p : Pools) (v : ArePools p) (a : ℕ) where
  -- `pfree` of a page of the kernel pool frees that page, and touches neither another page nor the
  -- user pool.
  pub pfree_kernel-Changed :
      IsPage p.kernel_pool a
      → (k : Pool) × (pfree a p ≡ ok (record p { kernel_pool = k }))
        × Changed p.kernel_pool a false k
  unfolding pfree
  pfree_kernel-Changed is =
      let (k, done, changed) = clear_page-Changed p.kernel_pool v.kernel a is in
      let low : leb p.user_pool.phy_addr_start a ≡ false = ground (arith, is.below, v.apart) in
      (k, rw (low, done), changed)

  -- The same of the user pool.
  pub pfree_user-Changed :
      IsPage p.user_pool a
      → (u : Pool) × (pfree a p ≡ ok (record p { user_pool = u })) × Changed p.user_pool a false u
  unfolding pfree
  pfree_user-Changed is =
      let (u, done, changed) = clear_page-Changed p.user_pool v.user a is in
      let high : leb p.user_pool.phy_addr_start a ≡ true = ground (arith, is.above) in
      (u, rw (high, done), changed)

module _ (p : Pools) (v : ArePools p) (page : ℕ) (k : Pool)
    (taken : palloc p.kernel_pool ≡ ok (some (page, k))) where
  took : Took p.kernel_pool page k
  took = palloc-Took p.kernel_pool v.kernel page k taken

  still-IsPage : (c : ℕ) → IsPage p.kernel_pool c → IsPage k c
  still-IsPage c is =
      let m = took.changed in
      record {
        above = omega (arith, is.above, m.same_start);
        below = omega (arith, is.below, m.same_start, m.same_len);
        aligned = is.aligned;
      }

  still_pools : ArePools (record p { kernel_pool = k })
  still_pools =
      let m = took.changed in
      record {
        kernel = m.still;
        user = v.user;
        apart = omega (arith, v.apart, m.same_start, m.same_len);
      }

  -- A page that `palloc` has taken from the kernel pool and `pfree` gives back: the same pages are
  -- in use as before, and the user pool is untouched.
  pub pfree-palloc :
      (g : Pool) × (pfree page (record p { kernel_pool = k }) ≡ ok (record p { kernel_pool = g }))
      × ((c : ℕ) → IsPage p.kernel_pool c → page_used g c ≡ page_used p.kernel_pool c)
  pfree-palloc =
      let (g, done, freed) =
        pfree_kernel-Changed (record p { kernel_pool = k }) still_pools page
          (still-IsPage page took.is_page) in
      (
        g,
        done,
        λ c is.
            let back = freed.at c (still-IsPage c is) in
            let there = took.changed.at c is in
            elim (ℕ_discrete page c) [
              | yes e ↦ ground (arith, took.was_free)
              | no ne ↦ ground arith
            ],
      )
