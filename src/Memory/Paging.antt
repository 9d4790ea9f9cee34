-- ===== src/Memory/Paging.antt =====
-- `page_table_add` maps one page, and `addr_v2p` reads the mapping back.
use tinykernel.Base.{
  ℕ, ◌+◌, ◌*◌, ◌/◌, ◌%◌, ◌^◌, ◌<◌, ◌≡◌, ◌≢◌, sym, ◌∙◌, ap, Bool, true, false, some, arith, update,
  ok, panic,
}
use tinykernel.Memory.{
  Pool, Tables, pte_ptr, pde_ptr, is_present, entry_of, clear_bytes, map_table, map_page,
  table_page, page_table_add, page_table_pte_remove, addr_v2p, palloc,
}

-- The pages below the page tables themselves.
abbrev pub IsMappable : ℕ → Type 0
IsMappable vaddr = vaddr < 0xffc00000

-- `pte_ptr` counts pages and `pde_ptr` tables.
pub pte_ptr-page : (vaddr : ℕ) → vaddr < 2 ^ 32 → pte_ptr vaddr ≡ 0xffc00000 + vaddr / 4096 * 4
unfolding pte_ptr
pte_ptr-page vaddr lt = omega arith

pub pde_ptr-table : (vaddr : ℕ) → pde_ptr vaddr ≡ 0xfffff000 + vaddr / 4194304 * 4
unfolding pde_ptr
pde_ptr-table vaddr = omega arith

abbrev pub has_table : ℕ → (ℕ → ℕ) → Bool
has_table vaddr words = is_present (words (pde_ptr vaddr))

abbrev pub is_mapped : ℕ → (ℕ → ℕ) → Bool
is_mapped vaddr words = is_present (words (pte_ptr vaddr))

-- What becomes of the tables: the page of `vaddr` is at `page`, and the entries of all other pages
-- with a table are the same.
pub record Maps (vaddr page : ℕ) (old new : ℕ → ℕ) : Type 0 where
  pub has : has_table vaddr new ≡ true
  pub mapped : is_mapped vaddr new ≡ true
  pub at : (off : ℕ) → off < 4096 → addr_v2p (vaddr + off) new ≡ page + off
  pub others :
      (u : ℕ)
      → IsMappable u
      → u / 4096 ≢ vaddr / 4096
      → has_table u old ≡ true
      → (new (pte_ptr u) ≡ old (pte_ptr u)) × (has_table u new ≡ true)

module _ (vaddr page : ℕ) (small : IsMappable vaddr) (whole : vaddr % 4096 ≡ 0)
    (frame : page % 4096 ≡ 0) where
  set_entry : (ℕ → ℕ) → ℕ → ℕ
  set_entry words = update words (pte_ptr vaddr) (entry_of page)

  same_entry : (off : ℕ) → off < 4096 → pte_ptr (vaddr + off) ≡ pte_ptr vaddr
  same_entry off lt =
      pte_ptr-page (vaddr + off) (omega (arith, whole))
      ∙ (omega (arith, whole))
      ∙ sym (pte_ptr-page vaddr (omega arith))

  set_entry-Maps :
      (words : ℕ → ℕ) → has_table vaddr words ≡ true → Maps vaddr page words (set_entry words)
  unfolding set_entry addr_v2p
  set_entry-Maps words has =
      let here = pte_ptr-page vaddr (omega arith) in
      let table = pde_ptr-table in
      record {
        has = ground (arith, here, table vaddr);
        mapped = ground arith;
        at = λ off lt. ground (arith, same_entry off lt);
        others = λ u us ne is.
            let there = pte_ptr-page u (omega arith) in
            (ground (arith, here, there), ground (arith, here, table u));
      }

  -- The table of `vaddr` is there, and the page has no entry yet.
  old_table :
      (t : Tables)
      → has_table vaddr t.words ≡ true
      → is_mapped vaddr t.words ≡ false
      → page_table_add vaddr page t ≡ ok (record t { words = set_entry t.words })
  unfolding page_table_add map_page set_entry table_page
  old_table t has free = rw (has, free)

  -- `page_table_add` of a page below the page tables, with aligned addresses, whose table is there
  -- and that is not mapped yet, succeeds. `addr_v2p` takes each byte of the page to the same byte of
  -- the frame then, and no entry of another page with a table has changed.
  pub page_table_add-Maps :
      (t : Tables)
      → has_table vaddr t.words ≡ true
      → is_mapped vaddr t.words ≡ false
      → (words : ℕ → ℕ) × (page_table_add vaddr page t ≡ ok (record t { words = words }))
        × Maps vaddr page t.words words
  page_table_add-Maps t has free =
      (set_entry t.words, old_table t has free, set_entry-Maps t.words has)

  -- Mapping a page a second time stops the kernel.
  pub page_table_add_twice :
      (t : Tables)
      → has_table vaddr t.words ≡ true
      → is_mapped vaddr t.words ≡ true
      → page_table_add vaddr page t ≡ panic
  unfolding page_table_add map_page
  page_table_add_twice t has mapped = rw (has, mapped)

  module _ (words : ℕ → ℕ) (none_yet : has_table vaddr words ≡ false) (table : ℕ) where
    linked : has_table vaddr (map_table vaddr table words) ≡ true
    unfolding map_table clear_bytes
    linked =
        let here = pte_ptr-page vaddr (omega arith) in
        let dir = pde_ptr-table vaddr in ground (arith, here, dir)

    cleared : map_table vaddr table words (pte_ptr vaddr) ≡ 0
    unfolding map_table clear_bytes
    cleared = ground arith

    elsewhere :
        (u : ℕ)
        → IsMappable u
        → has_table u words ≡ true
        → (map_table vaddr table words (pte_ptr u) ≡ words (pte_ptr u))
          × (has_table u (map_table vaddr table words) ≡ true)
    unfolding map_table clear_bytes
    elsewhere u us has =
        let here = pte_ptr-page vaddr (omega arith) in
        let dir = pde_ptr-table vaddr in
        let there = pte_ptr-page u (omega arith) in
        let dir_u = pde_ptr-table u in
        let other_table : u / 4194304 ≢ vaddr / 4194304 =
          λ e. ground (arith, ap words (pde_ptr_same u e)) in
        (ground (arith, here, dir, there), ground (arith, here, dir, dir_u))
      where
        pde_ptr_same : (u : ℕ) → u / 4194304 ≡ vaddr / 4194304 → pde_ptr u ≡ pde_ptr vaddr
        pde_ptr_same u e = pde_ptr-table u ∙ (omega (arith, e)) ∙ sym (pde_ptr-table vaddr)

  -- `page_table_add` of a page below the page tables, with aligned addresses, whose table is
  -- missing, succeeds where `palloc` has a page of the kernel pool for the table, whatever that page
  -- held. `addr_v2p` takes each byte of the page to the same byte of the frame then, and no entry of
  -- another page with a table has changed.
  pub page_table_add_new-Maps :
      (t : Tables) (table : ℕ) (pool : Pool)
      → has_table vaddr t.words ≡ false
      → palloc t.kernel_pool ≡ ok (some (table, pool))
      → (words : ℕ → ℕ) × (page_table_add vaddr page t
          ≡ ok (record { words = words; kernel_pool = pool }))
        × Maps vaddr page t.words words
  unfolding page_table_add map_page set_entry table_page
  page_table_add_new-Maps t table pool none_yet taken =
      let fresh : ℕ → ℕ = map_table vaddr table t.words in
      let m = set_entry-Maps fresh (linked t.words none_yet table) in
      let empty = cleared t.words none_yet table in
      (
        set_entry fresh,
        rw (none_yet, taken, empty),
        record {
          has = m.has;
          mapped = m.mapped;
          at = m.at;
          others = λ u us ne is.
              let (same, still) = elsewhere t.words none_yet table u us is in
              let (same', still') = m.others u us ne still in (same' ∙ same, still');
        },
      )

-- `page_table_pte_remove` takes the mapping of the page away, and leaves the entries of all others.
pub page_table_pte_remove-others :
    (vaddr : ℕ) (words : ℕ → ℕ)
    → IsMappable vaddr
    → (is_mapped vaddr (page_table_pte_remove vaddr words) ≡ false)
      × ((u : ℕ)
          → u < 2 ^ 32
          → u / 4096 ≢ vaddr / 4096
          → page_table_pte_remove vaddr words (pte_ptr u) ≡ words (pte_ptr u))
unfolding page_table_pte_remove
page_table_pte_remove-others vaddr words small =
    let here = pte_ptr-page vaddr (omega arith) in
    (ground arith, λ u lt ne. let there = pte_ptr-page u lt in ground (arith, here, there))
