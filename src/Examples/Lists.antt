-- ===== src/Examples/Lists.antt =====
-- The linked lists (lib/general/list.c) at a concrete heap.
use mathlib.Core.List.{reverse_aux}
use efi_wrapper.Prelude.{
  ℕ, ◌+◌, ◌≡◌, refl, true, ◌==◌, ltb, none, some, [], ◌∷◌, ◌++◌, if◌then◌else◌, arith, inr,
}
use efi_wrapper.Linked.{Heap, node, done}
use efi_wrapper.Linked.Walk.{list_count}
use efi_wrapper.Linked.Link.{list_push, list_add_new, list_remove, list_insert, list_reverse}
use efi_wrapper.Linked.Free.{list_free_all}
use efi_wrapper.Linked.Sort.{list_sort}
use efi_wrapper.Linked.Shape.{Cells, IsList}
use efi_wrapper.Linked.Searching.{counted, list_count_lem}
use efi_wrapper.Linked.LinkLaws.{Succeeds, list_push-append}
use efi_wrapper.Linked.AddLaws.{list_add_new_lem}
use efi_wrapper.Linked.RemoveLaws.{Removed, list_remove_lem}
use efi_wrapper.Linked.InsertLaws.{list_insert_loses}
use efi_wrapper.Linked.Inversions.{inversions}
use efi_wrapper.Linked.SortLaws.{Sorted, list_sort-Sorted}
use efi_wrapper.Linked.Reversal.{list_reverse_lem}
use efi_wrapper.Linked.FreeLaws.{payloads, IsFreed, list_free_all-IsFreed}

-- A list of three nodes, and one of two.
abbrev heap : Heap
heap a =
    if a == 1
    then some (node 0 2 30)
    else if a == 2
    then some (node 1 3 10)
    else if a == 3
    then some (node 2 0 20)
    else if a == 4
    then some (node 0 5 40)
    else if a == 5
    then some (node 4 0 50)
    else none

abbrev three : Cells
three = (1, 30) ∷ (2, 10) ∷ (3, 20) ∷ []

abbrev two : Cells
two = (4, 40) ∷ (5, 50) ∷ []

three-IsList : IsList heap three
three-IsList = record {
  nodes = ((omega arith, refl), ((omega arith, refl), ((omega arith, refl), tt)));
  distinct = (refl, (refl, (refl, tt)));
}

two-IsList : IsList heap two
two-IsList = record {
  nodes = ((omega arith, refl), ((omega arith, refl), tt));
  distinct = (refl, (refl, tt));
}

list_sort-Sorted_example :
    (t : ℕ) × (g : Heap) × (list_sort (λ a b. ltb b a) 3 3 2 heap ≡ done (inr t) g)
    × Sorted (λ a b. ltb b a) three (inversions (λ a b. ltb b a) three + 1) t g
list_sort-Sorted_example =
    list_sort-Sorted (λ a b. ltb b a) (λ a b h. ground (arith, h)) 3 2 3 heap 1 30
      ((2, 10) ∷ (3, 20) ∷ []) three-IsList refl (omega arith) (omega arith) (omega arith)

list_push-append_example : Succeeds (λ g. IsList g (three ++ two)) (list_push 3 2 4 heap)
list_push-append_example =
    list_push-append heap 3 ((1, 30) ∷ []) 2 10 ((3, 20) ∷ []) 4 40 ((5, 50) ∷ []) three-IsList
      two-IsList (refl, (refl, (refl, (refl, (refl, tt))))) (omega arith)

list_add_new_lem_example :
    Succeeds
      (λ g. IsList g ((1, 30) ∷ (2, 10) ∷ (9, 90) ∷ (3, 20) ∷ []))
      (list_add_new 3 9 2 90 heap)
list_add_new_lem_example =
    list_add_new_lem heap 3 ((1, 30) ∷ []) 2 10 ((3, 20) ∷ []) 9 90 three-IsList (omega arith) refl

list_remove_lem_example : Succeeds (Removed ((1, 30) ∷ []) 2 10 ((3, 20) ∷ [])) (list_remove 2 heap)
list_remove_lem_example = list_remove_lem heap ((1, 30) ∷ []) 2 10 ((3, 20) ∷ []) three-IsList tt

list_reverse_lem_example :
    (g : Heap) × (list_reverse 3 2 heap ≡ done tt g) × IsList g (reverse_aux three [])
list_reverse_lem_example =
    list_reverse_lem heap 3 2 1 30 ((2, 10) ∷ (3, 20) ∷ []) three-IsList refl (omega arith)

list_free_all-IsFreed_example :
    (g : Heap) × (list_free_all true 3 2 heap ≡ done (none, payloads true three) g)
    × IsFreed three heap g
list_free_all-IsFreed_example =
    list_free_all-IsFreed true heap 3 2 1 30 ((2, 10) ∷ (3, 20) ∷ []) three-IsList refl
      (omega arith) (omega arith)

list_count_lem_example :
    list_count 3 2 heap ≡ done (inr (counted ((1, 30) ∷ []) ((3, 20) ∷ []))) heap
list_count_lem_example =
    list_count_lem heap 3 ((1, 30) ∷ []) 2 10 ((3, 20) ∷ []) three-IsList (omega arith)

list_insert_loses_example :
    Succeeds (λ g. IsList g ((1, 30) ∷ (5, 50) ∷ [])) (list_insert 3 2 5 heap)
list_insert_loses_example =
    list_insert_loses heap 3 1 30 [] 2 10 ((3, 20) ∷ []) 4 40 [] 5 50 three-IsList two-IsList
      (refl, (refl, tt)) (omega arith)
