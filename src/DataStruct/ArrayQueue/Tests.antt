-- ===== src/DataStruct/ArrayQueue/Tests.antt =====
-- A queue of three places, and the theorems at it.
use linux_programs.Common.{◌≡◌, refl, true, false, none, some, List, [], ◌∷◌, arith}
use linux_programs.Common.Int.{ℤ, pos, negsuc}
use linux_programs.DataStruct.Fifo
use linux_programs.DataStruct.Fifo.{Op, put, get}
use linux_programs.DataStruct.ArrayQueue.{Queue, init_queue, en_queue, de_queue, run}
use linux_programs.DataStruct.ArrayQueue.Refine.{run-init_queue}

abbrev storage : List ℤ
storage = pos 7 ∷ pos 7 ∷ pos 7 ∷ []

abbrev blank : Queue
blank = record { head = 5; tail = 9; item = none; qlen = 3 }

abbrev script : List Op
script = put (pos 1) ∷ put (negsuc 1) ∷ put (pos 3) ∷ get ∷ put (pos 4) ∷ get ∷ get ∷ get ∷ []

script_replies :
    run (init_queue (some storage) blank).1 script
    ≡ some (
        (true, none)
        ∷ (true, none)
        ∷ (false, none)
        ∷ (true, some (pos 1))
        ∷ (true, none)
        ∷ (true, some (negsuc 1))
        ∷ (true, some (pos 4))
        ∷ (false, none)
        ∷ [])
unfolding run init_queue en_queue de_queue
script_replies = refl

run-init_queue_example :
    run (init_queue (some storage) blank).1 script ≡ some (Fifo.run 2 [] script)
run-init_queue_example = run-init_queue storage blank script (omega arith) (omega arith) refl
