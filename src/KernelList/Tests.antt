-- ===== src/KernelList/Tests.antt =====
-- The theorems about kernel lists at a concrete heap.
use tinykernel.Base.{
  ℕ, ◌≡◌, refl, Bool, true, false, [], ◌∷◌, some, arith, ◌==◌, if◌then◌else◌, ltb,
}
use tinykernel.Interrupt.{intr_on, intr_disable, intr_set_status}
use tinykernel.KernelList.{
  Heap, Sentinels, list_init, list_append, unlink, list_remove, list_pop, elem_find, find_from,
  list_empty, list_len, traverse_from, list_traversal,
}
use tinykernel.KernelList.Chain.{Holds}
use tinykernel.KernelList.Contents.{
  nodes, ChangesOnly, list_init-Holds, list_append-Holds, list_remove-Holds, list_pop-Holds,
}
use tinykernel.KernelList.Search.{traverse, elem_find-mem, list_len-length, list_traversal-traverse}

-- Sentinels at 1 and 2.
abbrev anchors : Sentinels
anchors = record { head = 1; tail = 2 }

abbrev blank : Heap
blank = record { next = λ p. 0; prev = λ p. 0; intr = intr_on }

-- The elements 10, 20, 30 in order.
abbrev three : Heap
three = record {
  next = λ p. if p == 1 then 10 else if p == 10 then 20 else if p == 20 then 30 else 2;
  prev = λ p. if p == 2 then 30 else if p == 30 then 20 else if p == 20 then 10 else 1;
  intr = intr_on;
}

three-Holds : Holds three anchors (10 ∷ 20 ∷ 30 ∷ [])
three-Holds = record {
  links = (refl, refl, (refl, refl, (refl, refl, (refl, refl, tt))));
  distinct = (refl, (refl, (refl, (refl, (refl, tt)))));
}

list_init-Holds_example :
    Holds (list_init anchors blank) anchors []
    × ChangesOnly (nodes anchors []) blank (list_init anchors blank)
list_init-Holds_example = list_init-Holds blank anchors (omega arith)

list_append-Holds_instance :
    Holds (list_append anchors 40 three) anchors (10 ∷ 20 ∷ 30 ∷ 40 ∷ [])
    × ChangesOnly (40 ∷ nodes anchors (10 ∷ 20 ∷ 30 ∷ [])) three (list_append anchors 40 three)
list_append-Holds_instance = list_append-Holds three anchors 40 (10 ∷ 20 ∷ 30 ∷ []) three-Holds refl

list_remove-Holds_example :
    Holds (list_remove 20 three) anchors (10 ∷ 30 ∷ [])
    × ChangesOnly (nodes anchors (10 ∷ 20 ∷ 30 ∷ [])) three (list_remove 20 three)
list_remove-Holds_example = list_remove-Holds three anchors 20 (10 ∷ []) (30 ∷ []) three-Holds

list_pop-Holds_instance :
    ((list_pop anchors three).0 ≡ 10)
    × Holds (list_pop anchors three).1 anchors (20 ∷ 30 ∷ [])
    × ChangesOnly (nodes anchors (10 ∷ 20 ∷ 30 ∷ [])) three (list_pop anchors three).1
list_pop-Holds_instance = list_pop-Holds three anchors 10 (20 ∷ 30 ∷ []) three-Holds

elem_find-mem_instance : elem_find 4 anchors 30 three ≡ some true
elem_find-mem_instance =
    elem_find-mem three anchors (10 ∷ 20 ∷ 30 ∷ []) three-Holds 4 30 (omega arith)

list_len-length_example : list_len 4 anchors three ≡ some 3
list_len-length_example =
    list_len-length three anchors (10 ∷ 20 ∷ 30 ∷ []) three-Holds 4 (omega arith) (omega arith)

-- A callback that accepts elements above 15 and keeps the last that it has seen.
abbrev above_15 : ℕ → ℕ → Bool × ℕ
above_15 p sum = (ltb 15 p, p)

list_traversal-traverse_instance : list_traversal above_15 4 anchors three 0 ≡ some (some 20, 20)
unfolding traverse
list_traversal-traverse_instance =
    list_traversal-traverse three anchors (10 ∷ 20 ∷ 30 ∷ []) three-Holds above_15 4 0 (omega arith)

-- The same walk, run.
walk_runs : list_traversal above_15 4 anchors three 0 ≡ some (some 20, 20)
unfolding list_traversal traverse_from list_empty
walk_runs = refl

pop_runs :
    let (elem, g) = list_pop anchors three in
    (elem ≡ 10) × (elem_find 9 anchors 10 g ≡ some false) × (elem_find 9 anchors 30 g ≡ some true)
unfolding list_pop list_remove unlink elem_find find_from intr_disable intr_set_status
pop_runs = (refl, refl, refl)
