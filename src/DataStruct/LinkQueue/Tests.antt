-- ===== src/DataStruct/LinkQueue/Tests.antt =====
-- A queue of two items at the addresses 1, 2 and 3, and the theorems at it.
use linux_programs.Common.{◌≡◌, refl, arith, true, none, some, List, [], ◌∷◌}
use linux_programs.Common.Int.{ℤ, pos}
use linux_programs.DataStruct.Heap.{null, Node, Heap, put_node}
use linux_programs.DataStruct.Fifo.{poll}
use linux_programs.DataStruct.LinkQueue.{State, en_queue, de_queue}
use linux_programs.DataStruct.LinkQueue.Chain.{node}
use linux_programs.DataStruct.LinkQueue.Refine.{
  Holds, Released, en_queue-append, de_queue-poll_linked,
}

abbrev junk : Node
junk = node (pos 99) 77

abbrev heap : Heap
heap =
    put_node (put_node (put_node (λ _. none) 1 (some (node (pos 7) 2))) 2 (some (node (pos 8) 3))) 3
      (some (node (pos 9) null))

abbrev two : State
two = record { heap = heap; queue = record { head = 1; tail = 3 } }

abbrev items : List ℤ
items = pos 8 ∷ pos 9 ∷ []

two-Holds : Holds two items
two-Holds = record {
  cells = (2, pos 8) ∷ (3, pos 9) ∷ [];
  dummy = pos 7;
  chain = (ground arith, refl, refl, (ground arith, refl, refl, (ground arith, refl)));
  tail_at = refl;
  order = refl;
}

en_queue-append_example :
    (s' : State) × (en_queue 4 junk two (pos 5) ≡ some (true, s'))
    × Holds s' (pos 8 ∷ pos 9 ∷ pos 5 ∷ [])
en_queue-append_example = en_queue-append 4 junk two (pos 5) (ground arith) refl two-Holds

de_queue-poll_linked_example :
    (s' : State) × (de_queue two (pos 0) ≡ some (true, pos 8, s'))
    × Holds s' (pos 9 ∷ [])
    × Released two s' items
unfolding poll
de_queue-poll_linked_example = de_queue-poll_linked two items (pos 0) two-Holds
