-- ===== src/DataStruct/SingleList/Tests.antt =====
-- The theorem on `add_node_list`, at a list of two nodes.
use linux_programs.Common.{ℕ, ◌≡◌, ◌≢◌, refl, arith, none, some, [], ◌∷◌}
use linux_programs.Common.Int.{pos}
use linux_programs.DataStruct.Heap.{Heap, put_node}
use linux_programs.DataStruct.LinkQueue.Chain.{node}
use linux_programs.DataStruct.SingleList.{Linked, add_node_list, add_node_list-adds}

abbrev heap : Heap
heap = put_node (put_node (λ a. none) 7 (some (node (pos 1) 5))) 5 (some (node (pos 2) 0))

heap-Linked : Linked heap ((7, pos 1) ∷ (5, pos 2) ∷ [])
heap-Linked = (λ e. omega arith, refl, refl, (λ e. omega arith, refl, refl, tt))

add_node_list-adds_example :
    (h' : Heap) × (add_node_list 9 (node (pos 0) 0) heap 7 (pos 3) ≡ some h')
    × Linked h' ((7, pos 1) ∷ (9, pos 3) ∷ (5, pos 2) ∷ [])
    × ((q : ℕ) → q ≢ 7 → q ≢ 9 → h' q ≡ heap q)
add_node_list-adds_example =
    add_node_list-adds 9 (node (pos 0) 0) heap 7 (pos 1) (pos 3) ((5, pos 2) ∷ [])
      (λ e. omega arith) refl heap-Linked
