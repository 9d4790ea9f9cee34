-- ===== src/Memory/Virtual/Tests.antt =====
-- The theorem about runs of virtual pages at a pool of eight.
use tinykernel.Base.{ℕ, ◌≡◌, refl, inr, arith, ◌==◌, if◌then◌else◌, ok, panic}
use tinykernel.Bitmap.{
  Bitmap, bitmap_scan, scan_run, skip_full_bytes, skip_set_bits, bit_is_set, bitmap_scan_test,
  bitmap_set, store_bit, set_bit, clear_bit,
}
use tinykernel.Sync.{lock_init}
use tinykernel.Memory.{Pool, VirtualAddr}
use tinykernel.Memory.Virtual.{Machine, pf_kernel, vaddr_get, vaddr_remove, get_run, set_run}
use tinykernel.Memory.Virtual.RoundTrip.{IsRunPool, GotRun, bit, vaddr_remove-vaddr_get}

-- The first of eight pages is in use.
abbrev some_bits : Bitmap
some_bits = record { btmp_bytes_len = 1; bits = λ i. if i == 0 then 1 else 255 }

abbrev some_pages : VirtualAddr
some_pages = record { vaddr_bitmap = some_bits; vaddr_start = 0xc0100000 }

abbrev some_pool : Pool
some_pool = record {
  pool_bitmap = some_bits;
  phy_addr_start = 0x200000;
  pool_size = 0x8000;
  lock = lock_init;
}

abbrev machine : Machine
machine = record {
  pools = record {
    kernel_pool = some_pool;
    user_pool = record some_pool { phy_addr_start = 0x208000 };
  };
  kernel_vaddr = some_pages;
  userprog_vaddr = record some_pages { vaddr_start = 0x8048000 };
  words = λ a. 0;
}

some_pages-IsRunPool : IsRunPool some_pages
some_pages-IsRunPool = record {
  bytes = λ i. ground arith;
  small = omega arith;
  in_memory = omega arith;
}

abbrev taken : Machine
taken = elim (vaddr_get pf_kernel 3 machine) [ ok r ↦ r.1 | panic ↦ machine ]

vaddr_remove-vaddr_get_example :
    GotRun some_pages 0xc0101000 3 taken.kernel_vaddr
    × ((m : Machine) × (vaddr_remove pf_kernel 0xc0101000 3 taken ≡ ok m)
        × ((j : ℕ) → bit m.kernel_vaddr j ≡ bit some_pages j))
unfolding vaddr_get get_run set_run bitmap_scan scan_run skip_full_bytes skip_set_bits bit_is_set
    bitmap_scan_test bitmap_set store_bit set_bit clear_bit
vaddr_remove-vaddr_get_example =
    vaddr_remove-vaddr_get machine taken 3 0xc0101000 some_pages-IsRunPool (omega arith)
      (omega arith) (inr refl) refl
