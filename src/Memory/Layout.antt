-- ===== src/Memory/Layout.antt =====
-- How `mem_pool_init` divides the memory.
use tinykernel.Base.{ℕ, ◌+◌, ◌*◌, ◌/◌, ◌^◌, ◌≤◌, ◌<◌, ◌≡◌, refl, ◌∙◌, false, arith, u32}
use tinykernel.Bitmap.{bitmap_scan_test}
use tinykernel.Bitmap.Access.{bitmap_scan_test_zero}
use tinykernel.Bitmap.Scan.First.{size}
use tinykernel.Memory.{
  Memory, all_free_pages, kernel_free_pages, user_free_pages, clear_bytes, mem_pool_init,
}
use tinykernel.Memory.Pages.{ArePools, pool_end}

-- The two pools and the bitmaps in a memory of `all_mem` bytes.
pub record IsLayout (all_mem : ℕ) (m : Memory) : Type 0 where
  pub pools : ArePools m.pools
  pub above_tables : m.pools.kernel_pool.phy_addr_start ≡ 0x200000
  pub kernel_fits :
      pool_end m.pools.kernel_pool
      ≤ m.pools.kernel_pool.phy_addr_start + m.pools.kernel_pool.pool_size
  pub user_fits : pool_end m.pools.user_pool ≤ all_mem
  pub kernel_free :
      (j : ℕ)
      → j < size m.pools.kernel_pool.pool_bitmap
      → bitmap_scan_test m.pools.kernel_pool.pool_bitmap j ≡ false
  pub virtual_free :
      (j : ℕ)
      → j < size m.kernel_vaddr.vaddr_bitmap
      → bitmap_scan_test m.kernel_vaddr.vaddr_bitmap j ≡ false

clear_bytes-byte :
    (base len : ℕ) (mem : ℕ → ℕ)
    → ((i : ℕ) → mem i < 256)
    → (i : ℕ) → clear_bytes base len mem i < 256
unfolding clear_bytes
clear_bytes-byte base len mem h i = ground (arith, h i)

clear_bytes-inside :
    (base len : ℕ) (mem : ℕ → ℕ) (i : ℕ) → i < len → clear_bytes base len mem (base + i) ≡ 0
unfolding clear_bytes
clear_bytes-inside base len mem i lt = ground arith

clear_bytes-below :
    (base len : ℕ) (mem : ℕ → ℕ) (i : ℕ) → i < base → clear_bytes base len mem i ≡ mem i
unfolding clear_bytes
clear_bytes-below base len mem i lt = ground arith

clear_bytes-above :
    (base len : ℕ) (mem : ℕ → ℕ) (i : ℕ) → base + len ≤ i → clear_bytes base len mem i ≡ mem i
unfolding clear_bytes
clear_bytes-above base len mem i ge = ground arith

module _ (all_mem : ℕ) (enough : 0x200000 ≤ all_mem) (little : all_mem < 0x200000 + 2 ^ 28) where
  pages_fit : 0x200000 + all_free_pages all_mem * 4096 ≤ all_mem
  unfolding all_free_pages
  pages_fit = omega (arith, enough, little)

  halves :
      (kernel_free_pages all_mem ≤ user_free_pages all_mem)
      × (kernel_free_pages all_mem + user_free_pages all_mem ≡ all_free_pages all_mem)
  unfolding kernel_free_pages user_free_pages
  halves = (omega arith, omega arith)

  -- In a memory of at least 2 MB and less than 258 MB, `mem_pool_init` puts the kernel pool above
  -- the 2 MB of the kernel and its page tables and the user pool above the kernel pool, both within
  -- the memory and with addresses that do not wrap. Every page of the kernel pool and every virtual
  -- page of the kernel is free.
  pub mem_pool_init-IsLayout :
      (mem : ℕ → ℕ) → ((i : ℕ) → mem i < 256) → IsLayout all_mem (mem_pool_init all_mem mem)
  unfolding mem_pool_init
  mem_pool_init-IsLayout mem bytes =
      let k = kernel_free_pages all_mem in
      let u = user_free_pages all_mem in
      let fit = pages_fit in
      let (less, sum) = halves in
      let base : ℕ = 0xc009a000 in
      let mem1 = clear_bytes base (k / 8) mem in
      let mem2 = clear_bytes base (k / 8) mem1 in
      let last : ℕ = base + k / 8 + u / 8 in
      let byte =
        clear_bytes-byte last (k / 8) mem2
          (clear_bytes-byte base (k / 8) mem1 (clear_bytes-byte base (k / 8) mem bytes)) in
      let start : u32 (0x200000 + k * 4096) ≡ 0x200000 + k * 4096 = omega arith in
      let whole : u32 (k * 4096) ≡ k * 4096 = omega arith in
      record {
        pools = record {
          kernel = record {
            bytes = λ i. byte (base + i);
            small = omega arith;
            aligned = omega arith;
            in_memory = omega arith;
          };
          user = record {
            bytes = λ i. byte (base + k / 8 + i);
            small = omega arith;
            aligned = omega arith;
            in_memory = omega arith;
          };
          apart = omega arith;
        };
        above_tables = refl;
        kernel_fits = omega arith;
        user_fits = omega arith;
        kernel_free = λ j lt. bitmap_scan_test_zero _ j (
            clear_bytes-below last (k / 8) mem2 (base + j / 8) (omega arith)
            ∙ clear_bytes-inside base (k / 8) mem1 (j / 8) (omega arith));
        virtual_free = λ j lt.
            bitmap_scan_test_zero _ j (clear_bytes-inside last (k / 8) mem2 (j / 8) (omega arith));
      }

  -- In a memory of at least 2 MB and less than 258 MB, `mem_pool_init` leaves the bitmap of the user pool as the bytes that the memory
  -- held there before.
  pub mem_pool_init-user_bits :
      (mem : ℕ → ℕ) (i : ℕ)
      → i < (mem_pool_init all_mem mem).pools.user_pool.pool_bitmap.btmp_bytes_len
      → (mem_pool_init all_mem mem).pools.user_pool.pool_bitmap.bits i
        ≡ mem (0xc009a000 + kernel_free_pages all_mem / 8 + i)
  unfolding mem_pool_init
  mem_pool_init-user_bits mem i lt =
      let k = kernel_free_pages all_mem in
      let base : ℕ = 0xc009a000 in
      let at : ℕ = base + k / 8 + i in
      let mem1 = clear_bytes base (k / 8) mem in
      let mem2 = clear_bytes base (k / 8) mem1 in
      clear_bytes-below (base + k / 8 + user_free_pages all_mem / 8) (k / 8) mem2 at (omega arith)
      ∙ clear_bytes-above base (k / 8) mem1 at (omega arith)
      ∙ clear_bytes-above base (k / 8) mem at (omega arith)
