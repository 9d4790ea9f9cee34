-- ===== src/Memory.antt =====
-- kernel/memory.c and kernel/memory.h: the pools of physical pages, the pool of virtual kernel
-- pages, and the page tables. A mask of low or high bits is written as the division that it is:
-- `x & 0xfffff000` as `x / 4096 * 4096`, `x | 7` as `x / 8 * 8 + 7`.
pub mod Pages
pub mod Paging
pub mod Layout
pub mod Virtual
mod Tests
use tinykernel.Base.{
  ℕ, ◌+◌, ◌-◌, ◌*◌, ◌/◌, ◌%◌, ◌^◌, Bool, not, ◌&&◌, Option, none, some, ◌==◌, ltb, leb,
  if◌then◌else◌, update, u32, Outcome, ok, assert, ◌>>=◌, ◌>>◌,
}
use tinykernel.Bitmap.{Bitmap, bitmap_scan, bitmap_set}
use tinykernel.Sync.{Lock, lock_init}

abbrev pub pg_size : ℕ
pg_size = 4096

-- `struct pool`
pub record Pool : Type 0 where
  pub pool_bitmap : Bitmap
  pub phy_addr_start : ℕ
  pub pool_size : ℕ
  pub lock : Lock

-- `struct virtual_addr`
pub record VirtualAddr : Type 0 where
  pub vaddr_bitmap : Bitmap
  pub vaddr_start : ℕ

pub record Pools : Type 0 where
  pub kernel_pool : Pool
  pub user_pool : Pool

pub record Memory : Type 0 where
  pub pools : Pools
  pub kernel_vaddr : VirtualAddr

abbrev pub mem_bitmap_base : ℕ
mem_bitmap_base = 0xc009a000

abbrev pub k_heap_start : ℕ
k_heap_start = 0xc0100000

-- `memset` of `len` bytes at the address `base` to 0.
pub clear_bytes : ℕ → ℕ → (ℕ → ℕ) → ℕ → ℕ
clear_bytes base len mem i = if leb base i && ltb i (base + len) then 0 else mem i

-- The numbers of `mem_pool_init`; the counts of pages are `uint16_t`.
abbrev pub used_mem : ℕ
used_mem = pg_size * 256 + 0x100000

pub all_free_pages : ℕ → ℕ
all_free_pages all_mem = u32 (all_mem + 2 ^ 32 - used_mem) / pg_size % 2 ^ 16

pub kernel_free_pages : ℕ → ℕ
kernel_free_pages all_mem = all_free_pages all_mem / 2

pub user_free_pages : ℕ → ℕ
user_free_pages all_mem = all_free_pages all_mem - kernel_free_pages all_mem

-- `mem_pool_init`, for the bytes `mem` at each address. `bitmap_init` clears `btmp_bytes_len` bytes
-- at the address in `bits`; it is called twice for the bitmap of the kernel pool.
pub mem_pool_init : ℕ → (ℕ → ℕ) → Memory
mem_pool_init all_mem mem =
    let kbm_length = kernel_free_pages all_mem / 8 in
    let ubm_length = user_free_pages all_mem / 8 in
    let kp_start = used_mem in
    let up_start = u32 (kp_start + kernel_free_pages all_mem * pg_size) in
    let vaddr_bits = mem_bitmap_base + kbm_length + ubm_length in
    let mem1 = clear_bytes mem_bitmap_base kbm_length mem in
    let mem2 = clear_bytes mem_bitmap_base kbm_length mem1 in
    let mem3 = clear_bytes vaddr_bits kbm_length mem2 in
    record {
      pools = record {
        kernel_pool = record {
          pool_bitmap = record {
            btmp_bytes_len = kbm_length;
            bits = λ i. mem3 (mem_bitmap_base + i);
          };
          phy_addr_start = kp_start;
          pool_size = u32 (kernel_free_pages all_mem * pg_size);
          lock = lock_init;
        };
        user_pool = record {
          pool_bitmap = record {
            btmp_bytes_len = ubm_length;
            bits = λ i. mem3 (mem_bitmap_base + kbm_length + i);
          };
          phy_addr_start = up_start;
          pool_size = u32 (user_free_pages all_mem * pg_size);
          lock = lock_init;
        };
      };
      kernel_vaddr = record {
        vaddr_bitmap = record { btmp_bytes_len = kbm_length; bits = λ i. mem3 (vaddr_bits + i) };
        vaddr_start = k_heap_start;
      };
    }

-- `palloc`; `none` is NULL.
pub palloc : Pool → Outcome (Option (ℕ × Pool))
palloc m_pool = do
  found ← bitmap_scan m_pool.pool_bitmap 1
  elim found [
    | none ↦ ok none
    | some bit_idx ↦ do
      b ← bitmap_set m_pool.pool_bitmap bit_idx 1
      let page_phyaddr = u32 (bit_idx * pg_size + m_pool.phy_addr_start)
      ok (some (page_phyaddr, record m_pool { pool_bitmap = b }))
  ]

-- The bit of a page is cleared in the bitmap of a pool.
pub clear_page : ℕ → Pool → Outcome Pool
clear_page pg_phy_addr mem_pool = do
  let bit_idx = u32 (pg_phy_addr + 2 ^ 32 - mem_pool.phy_addr_start) / pg_size
  b ← bitmap_set mem_pool.pool_bitmap bit_idx 0
  ok (record mem_pool { pool_bitmap = b })

-- `pfree`, and `free_a_phy_page`, which has the same body.
pub pfree : ℕ → Pools → Outcome Pools
pfree pg_phy_addr p = do
  let to_user = do u ← clear_page pg_phy_addr p.user_pool; ok (record p { user_pool = u })
  let to_kernel = do k ← clear_page pg_phy_addr p.kernel_pool; ok (record p { kernel_pool = k })
  if leb p.user_pool.phy_addr_start pg_phy_addr then to_user else to_kernel

abbrev pub pde_idx : ℕ → ℕ
pde_idx addr = addr / 2 ^ 22

abbrev pub pte_idx : ℕ → ℕ
pte_idx addr = addr / 2 ^ 12 % 2 ^ 10

pub pte_ptr : ℕ → ℕ
pte_ptr vaddr = 0xffc00000 + pde_idx vaddr * 2 ^ 12 + pte_idx vaddr * 4

pub pde_ptr : ℕ → ℕ
pde_ptr vaddr = 0xfffff000 + pde_idx vaddr * 4

-- The entry has the bit PG_P_1.
abbrev pub is_present : ℕ → Bool
is_present entry = entry % 2 == 1

-- `address | PG_US_U | PG_RW_W | PG_P_1`
abbrev pub entry_of : ℕ → ℕ
entry_of address = address / 8 * 8 + 7

-- The 32-bit words of the page directory and the page tables, at the virtual addresses through
-- which the last directory entry shows them, and the pool that new tables come from.
pub record Tables : Type 0 where
  pub words : ℕ → ℕ
  pub kernel_pool : Pool

-- A new table: whatever its page held is cleared.
pub map_table : ℕ → ℕ → (ℕ → ℕ) → ℕ → ℕ
map_table vaddr pde_phyaddr words =
    let linked = update words (pde_ptr vaddr) (entry_of pde_phyaddr) in
    clear_bytes (pte_ptr vaddr / pg_size * pg_size) pg_size linked

-- The assignment to the entry, behind its `ASSERT`.
pub map_page : ℕ → ℕ → (ℕ → ℕ) → Outcome (ℕ → ℕ)
map_page vaddr page_phyaddr words = do
  assert (not (is_present (words (pte_ptr vaddr))))
  ok (update words (pte_ptr vaddr) (entry_of page_phyaddr))

-- The address that `palloc` gave, 0 for NULL, and the pool after it.
pub table_page : Option (ℕ × Pool) → Pool → ℕ × Pool
table_page none before = (0, before)
table_page (some (page, after)) before = (page, after)

pub page_table_add : ℕ → ℕ → Tables → Outcome Tables
page_table_add vaddr page_phyaddr t = do
  let old_table = do words ← map_page vaddr page_phyaddr t.words; ok (record t { words = words })
  let new_table = do
    page ← palloc t.kernel_pool
    let (pde_phyaddr, pool) = table_page page t.kernel_pool
    words ← map_page vaddr page_phyaddr (map_table vaddr pde_phyaddr t.words)
    ok (record { words = words; kernel_pool = pool })
  if is_present (t.words (pde_ptr vaddr)) then old_table else new_table

pub page_table_pte_remove : ℕ → (ℕ → ℕ) → ℕ → ℕ
page_table_pte_remove vaddr words = update words (pte_ptr vaddr) (words (pte_ptr vaddr) / 2 * 2)

pub addr_v2p : ℕ → (ℕ → ℕ) → ℕ
addr_v2p vaddr words = words (pte_ptr vaddr) / pg_size * pg_size + vaddr % pg_size
