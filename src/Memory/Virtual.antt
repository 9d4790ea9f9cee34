-- ===== src/Memory/Virtual.antt =====
-- vaddr_get, vaddr_remove, malloc_page and mfree_page of kernel/memory.c: runs of virtual pages, and
-- the physical pages behind them.
pub mod Bits
pub mod RoundTrip
mod Tests
use tinykernel.Base.{
  ℕ, zero, suc, ◌+◌, ◌-◌, ◌*◌, ◌/◌, ◌%◌, ◌^◌, ◌<◌, ◌≡◌, Bool, true, false, ◌&&◌, Option, none, some,
  ◌==◌, ltb, leb, if◌then◌else◌, u32, Outcome, ok, assert, ◌>>=◌, ◌>>◌,
}
use tinykernel.Bitmap.{Bitmap, bitmap_scan, bitmap_set}
use tinykernel.Memory.{
  Pool, VirtualAddr, Pools, pg_size, palloc, pfree, Tables, page_table_add, page_table_pte_remove,
  addr_v2p,
}

-- `enum pool_flags`
pub data PoolFlags : Type 0 where
  pf_kernel pf_user : PoolFlags

-- The pools of physical and virtual pages, the user's being those of the running process, and the
-- page tables.
pub record Machine : Type 0 where
  pub pools : Pools
  pub kernel_vaddr : VirtualAddr
  pub userprog_vaddr : VirtualAddr
  pub words : ℕ → ℕ

-- The loops over `bitmap_set`, with `left` rounds to go.
pub set_run : (left : ℕ) → Bitmap → ℕ → ℕ → Outcome Bitmap
set_run zero btmp bit_idx value = ok btmp
set_run (suc left) btmp bit_idx value = do
  btmp' ← bitmap_set btmp bit_idx value
  set_run left btmp' (bit_idx + 1) value

-- Either branch of `vaddr_get`; `none` is NULL.
pub get_run : VirtualAddr → ℕ → Outcome (Option (ℕ × VirtualAddr))
get_run pool pg_cnt = do
  found ← bitmap_scan pool.vaddr_bitmap pg_cnt
  elim found [
    | none ↦ ok none
    | some bit_idx_start ↦ do
      b ← set_run pg_cnt pool.vaddr_bitmap bit_idx_start 1
      let vaddr = u32 (pool.vaddr_start + bit_idx_start * pg_size)
      ok (some (vaddr, record pool { vaddr_bitmap = b }))
  ]

-- A pool after a search that found nothing is the pool before.
abbrev pub run_address : Option (ℕ × VirtualAddr) → Option ℕ
run_address none = none
run_address (some (vaddr, pool)) = some vaddr

abbrev pub run_pool : Option (ℕ × VirtualAddr) → VirtualAddr → VirtualAddr
run_pool none before = before
run_pool (some (vaddr, after)) before = after

-- The last `ASSERT` of the user's branch.
abbrev pub below_kernel : Option ℕ → Bool
below_kernel none = true
below_kernel (some vaddr) = ltb vaddr (0xc0000000 - pg_size)

pub vaddr_get : PoolFlags → ℕ → Machine → Outcome (Option ℕ × Machine)
vaddr_get pf_kernel pg_cnt m = do
  r ← get_run m.kernel_vaddr pg_cnt
  ok (run_address r, record m { kernel_vaddr = run_pool r m.kernel_vaddr })
vaddr_get pf_user pg_cnt m = do
  r ← get_run m.userprog_vaddr pg_cnt
  assert (below_kernel (run_address r))
  ok (run_address r, record m { userprog_vaddr = run_pool r m.userprog_vaddr })

-- Either branch of `vaddr_remove`.
pub clear_run : ℕ → ℕ → VirtualAddr → Outcome VirtualAddr
clear_run vaddr pg_cnt pool = do
  let bit_idx_start = u32 (vaddr + 2 ^ 32 - pool.vaddr_start) / pg_size
  b ← set_run pg_cnt pool.vaddr_bitmap bit_idx_start 0
  ok (record pool { vaddr_bitmap = b })

pub vaddr_remove : PoolFlags → ℕ → ℕ → Machine → Outcome Machine
vaddr_remove pf_kernel vaddr pg_cnt m = do
  pool ← clear_run vaddr pg_cnt m.kernel_vaddr
  ok (record m { kernel_vaddr = pool })
vaddr_remove pf_user vaddr pg_cnt m = do
  pool ← clear_run vaddr pg_cnt m.userprog_vaddr
  ok (record m { userprog_vaddr = pool })

-- `palloc(mem_pool)` in `malloc_page`, and the pools after it.
pub palloc_from : PoolFlags → Pools → Outcome (Option (ℕ × Pools))
palloc_from pf_kernel p = do
  r ← palloc p.kernel_pool
  elim r [ none ↦ ok none | some (page, k) ↦ ok (some (page, record p { kernel_pool = k })) ]
palloc_from pf_user p = do
  r ← palloc p.user_pool
  elim r [ none ↦ ok none | some (page, u) ↦ ok (some (page, record p { user_pool = u })) ]

-- `page_table_add` in the machine.
pub add_mapping : ℕ → ℕ → Machine → Outcome Machine
add_mapping vaddr page_phyaddr m = do
  t ←
      page_table_add vaddr page_phyaddr
        (record { words = m.words; kernel_pool = m.pools.kernel_pool })
  ok (record m { pools = record m.pools { kernel_pool = t.kernel_pool }; words = t.words })

-- The loop of `malloc_page`. It ends early where `palloc` gives NULL, and what it has allocated by
-- then stays allocated.
pub map_run : PoolFlags → (left : ℕ) → ℕ → Machine → Outcome (Bool × Machine)
map_run pf zero vaddr m = ok (true, m)
map_run pf (suc left) vaddr m = do
  r ← palloc_from pf m.pools
  elim r [
    | none ↦ ok (false, m)
    | some (page_phyaddr, pools) ↦ do
      m' ← add_mapping vaddr page_phyaddr (record m { pools = pools })
      map_run pf left (u32 (vaddr + pg_size)) m'
  ]

pub malloc_page : PoolFlags → ℕ → Machine → Outcome (Option ℕ × Machine)
malloc_page pf pg_cnt m = do
  assert (ltb 0 pg_cnt && ltb pg_cnt 3840)
  (vaddr_start, m') ← vaddr_get pf pg_cnt m
  elim vaddr_start [
    | none ↦ ok (none, m')
    | some vaddr ↦ do
      (all_mapped, m'') ← map_run pf pg_cnt vaddr m'
      ok (if all_mapped then some vaddr else none, m'')
  ]

-- Which pool a physical page has to be of, in either loop of `mfree_page`.
pub is_of_pool : Bool → ℕ → Pools → Bool
is_of_pool user pg_phy_addr p =
    let of_user = leb p.user_pool.phy_addr_start pg_phy_addr in
    let of_kernel =
      leb p.kernel_pool.phy_addr_start pg_phy_addr && ltb pg_phy_addr p.user_pool.phy_addr_start in
    (pg_phy_addr % pg_size == 0) && (if user then of_user else of_kernel)

pub unmap_run : Bool → (left : ℕ) → ℕ → Machine → Outcome Machine
unmap_run user zero vaddr m = ok m
unmap_run user (suc left) vaddr m = do
  let pg_phy_addr = addr_v2p vaddr m.words
  assert (is_of_pool user pg_phy_addr m.pools)
  pools ← pfree pg_phy_addr m.pools
  unmap_run user left (u32 (vaddr + pg_size))
      (record m { pools = pools; words = page_table_pte_remove vaddr m.words })

pub mfree_page : PoolFlags → ℕ → ℕ → Machine → Outcome Machine
mfree_page pf vaddr pg_cnt m = do
  assert (leb 1 pg_cnt && (vaddr % pg_size == 0))
  let pg_phy_addr = addr_v2p vaddr m.words
  assert ((pg_phy_addr % pg_size == 0) && leb 0x102000 pg_phy_addr)
  m' ← unmap_run (leb m.pools.user_pool.phy_addr_start pg_phy_addr) pg_cnt vaddr m
  vaddr_remove pf vaddr pg_cnt m'
