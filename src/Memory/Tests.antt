-- ===== src/Memory/Tests.antt =====
-- The theorems about the memory at a small machine.
use tinykernel.Base.{ℕ, ◌≡◌, ◌⊎◌, refl, inl, inr, true, false, arith, leb, if◌then◌else◌, ok, panic}
use tinykernel.Memory.{
  Pool, Memory, Tables, kernel_free_pages, user_free_pages, all_free_pages, mem_pool_init, palloc,
  pfree, pte_ptr, pde_ptr, page_table_add,
}
use tinykernel.Memory.Pages.{IsPage, page_used, Allocated, palloc-Allocated, pfree-palloc}
use tinykernel.Memory.Paging.{Maps, page_table_add-Maps, page_table_add_new-Maps}
use tinykernel.Memory.Layout.{IsLayout, mem_pool_init-IsLayout, mem_pool_init-user_bits}

-- 64 KB above the 2 MB that the kernel keeps; the memory held ones.
abbrev machine : Memory
machine = mem_pool_init 0x210000 (λ i. 255)

machine-IsLayout : IsLayout 0x210000 machine
machine-IsLayout =
    mem_pool_init-IsLayout 0x210000 (omega arith) (omega arith) (λ i. 255) (λ i. omega arith)

mem_pool_init-IsLayout_instance : IsLayout 0x210000 (mem_pool_init 0x210000 (λ i. 255))
mem_pool_init-IsLayout_instance =
    mem_pool_init-IsLayout 0x210000 (omega arith) (omega arith) (λ i. 255) (λ i. omega arith)

mem_pool_init-user_bits_example : machine.pools.user_pool.pool_bitmap.bits 0 ≡ 255
unfolding mem_pool_init user_free_pages kernel_free_pages all_free_pages
mem_pool_init-user_bits_example =
    mem_pool_init-user_bits 0x210000 (omega arith) (omega arith) (λ i. 255) 0 (omega arith)

abbrev kernel : Pool
kernel = machine.pools.kernel_pool

palloc-Allocated_example :
    (((c : ℕ) → IsPage kernel c → page_used kernel c ≡ true) × (palloc kernel ≡ panic))
    ⊎ Allocated kernel (palloc kernel)
palloc-Allocated_example = palloc-Allocated kernel machine-IsLayout.pools.kernel

kernel-IsPage : IsPage kernel 0x200000
unfolding mem_pool_init user_free_pages kernel_free_pages all_free_pages
kernel-IsPage = record { above = omega arith; below = omega arith; aligned = refl }

kernel_page_free : page_used kernel 0x200000 ≡ false
unfolding mem_pool_init user_free_pages kernel_free_pages all_free_pages
kernel_page_free = machine-IsLayout.kernel_free 0 (omega arith)

-- The first page of the kernel pool.
taken : Allocated kernel (palloc kernel)
taken = elim (palloc-Allocated kernel machine-IsLayout.pools.kernel) [
  | inl (full, _) ↦ absurd (ground (arith, full 0x200000 kernel-IsPage, kernel_page_free))
  | inr a ↦ a
]

pfree-palloc_example :
    (g : Pool) × (pfree taken.page (record machine.pools { kernel_pool = taken.after })
      ≡ ok (record machine.pools { kernel_pool = g }))
    × ((c : ℕ) → IsPage kernel c → page_used g c ≡ page_used kernel c)
pfree-palloc_example =
    pfree-palloc machine.pools machine-IsLayout.pools taken.page taken.after taken.done

-- Every directory entry has a table, and no page is mapped.
abbrev tables : Tables
tables = record { words = λ a. if leb 0xfffff000 a then 7 else 0; kernel_pool = kernel }

page_table_add-Maps_example :
    (words : ℕ → ℕ) × (page_table_add 0x08048000 0x300000 tables
      ≡ ok (record tables { words = words }))
    × Maps 0x08048000 0x300000 tables.words words
unfolding pte_ptr pde_ptr
page_table_add-Maps_example =
    page_table_add-Maps 0x08048000 0x300000 (omega arith) refl refl tables refl refl

-- No directory entry has a table.
abbrev no_tables : Tables
no_tables = record { words = λ a. 0; kernel_pool = kernel }

page_table_add_new-Maps_instance :
    (words : ℕ → ℕ) × (page_table_add 0x08048000 0x300000 no_tables
      ≡ ok (record { words = words; kernel_pool = taken.after }))
    × Maps 0x08048000 0x300000 no_tables.words words
page_table_add_new-Maps_instance =
    page_table_add_new-Maps 0x08048000 0x300000 (omega arith) refl refl no_tables taken.page
      taken.after refl taken.done
