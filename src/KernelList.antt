-- ===== src/KernelList.antt =====
-- lib/kernel/list.c and lib/kernel/list.h: doubly linked lists through `struct list_elem`.
pub mod Chain
pub mod Change
pub mod Search
pub mod Contents
mod Tests
use tinykernel.Base.{
  ℕ, zero, suc, ◌+◌, ◌%◌, ◌^◌, Bool, true, false, Option, none, some, ◌==◌, if◌then◌else◌, update,
  u32,
}
use tinykernel.Interrupt.{IntrStatus, intr_disable, intr_set_status}

-- The `next` and `prev` fields of the list elements at every address, and the interrupt flag.
pub record Heap : Type 0 where
  pub next : ℕ → ℕ
  pub prev : ℕ → ℕ
  pub intr : IntrStatus

-- `struct list`: the addresses of its two sentinels.
pub record Sentinels : Type 0 where
  pub head : ℕ
  pub tail : ℕ

-- `p->next = q` and `p->prev = q`
abbrev pub set_next : ℕ → ℕ → Heap → Heap
set_next p q h = record h { next = update h.next p q }

abbrev pub set_prev : ℕ → ℕ → Heap → Heap
set_prev p q h = record h { prev = update h.prev p q }

pub list_init : Sentinels → Heap → Heap
list_init list h =
    let h1 = set_next list.head list.tail h in
    let h2 = set_prev list.tail list.head h1 in
    let h3 = set_prev list.head list.tail h2 in set_next list.tail list.head h3

-- The four writes of `list_insert_before`.
pub link_before : ℕ → ℕ → Heap → Heap
link_before before elem h =
    let h1 = set_next (h.prev before) elem h in
    let h2 = set_next elem before h1 in
    let h3 = set_prev elem (h2.prev before) h2 in set_prev before elem h3

pub list_insert_before : ℕ → ℕ → Heap → Heap
list_insert_before before elem h =
    let (old_status, off) = intr_disable h.intr in
    let h' = link_before before elem (record h { intr = off }) in
    record h' { intr = (intr_set_status old_status h'.intr).1 }

pub list_push : Sentinels → ℕ → Heap → Heap
list_push plist elem h = list_insert_before (h.next plist.head) elem h

pub list_append : Sentinels → ℕ → Heap → Heap
list_append plist elem h = list_insert_before plist.tail elem h

-- The two writes of `list_remove`.
pub unlink : ℕ → Heap → Heap
unlink pelem h =
    let h1 = set_prev (h.next pelem) (h.prev pelem) h in set_next (h1.prev pelem) (h1.next pelem) h1

pub list_remove : ℕ → Heap → Heap
list_remove pelem h =
    let (old_status, off) = intr_disable h.intr in
    let h' = unlink pelem (record h { intr = off }) in
    record h' { intr = (intr_set_status old_status h'.intr).1 }

pub list_pop : Sentinels → Heap → ℕ × Heap
list_pop plist h = let elem = h.next plist.head in (elem, list_remove elem h)

-- The loops below run on fuel; `none` means that it ran out.
pub find_from : Heap → ℕ → ℕ → ℕ → ℕ → Option Bool
find_from h tail obj_elem zero elem = none
find_from h tail obj_elem (suc fuel) elem =
    let rest = find_from h tail obj_elem fuel (h.next elem) in
    if elem == tail then some false else if elem == obj_elem then some true else rest

pub elem_find : ℕ → Sentinels → ℕ → Heap → Option Bool
elem_find fuel plist obj_elem h = find_from h plist.tail obj_elem fuel (h.next plist.head)

pub list_empty : Sentinels → Heap → Bool
list_empty plist h = if h.next plist.head == plist.tail then true else false

-- `count` is an `int` that is returned as a `uint32_t`.
pub len_from : Heap → ℕ → ℕ → ℕ → ℕ → Option ℕ
len_from h tail zero elem count = none
len_from h tail (suc fuel) elem count =
    let rest = len_from h tail fuel (h.next elem) (u32 (count + 1)) in
    if elem == tail then some count else rest

pub list_len : ℕ → Sentinels → Heap → Option ℕ
list_len fuel plist h = len_from h plist.tail fuel (h.next plist.head) 0

-- The callback of `list_traversal`, with its `arg` applied. It may change a state of its own,
-- but not the links.
module _ {S : Type 0} (func : ℕ → S → Bool × S) where
  pub traverse_from : Heap → ℕ → ℕ → ℕ → S → Option (Option ℕ × S)
  traverse_from h tail zero elem s = none
  traverse_from h tail (suc fuel) elem s =
      let (found, s') = func elem s in
      let rest = traverse_from h tail fuel (h.next elem) s' in
      if elem == tail then some (none, s) else if found then some (some elem, s') else rest

  pub list_traversal : ℕ → Sentinels → Heap → S → Option (Option ℕ × S)
  list_traversal fuel plist h s =
      let walk = traverse_from h plist.tail fuel (h.next plist.head) s in
      if list_empty plist h then some (none, s) else walk
