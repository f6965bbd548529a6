-- ===== src/DataStruct/ArrayQueue.antt =====
-- dataStruct/queue/src/queueArray.c: a queue in a circular array of `QLen` places.
-- A function that updates `*Q` returns its result and the new structure; `none` stands for
-- undefined behaviour, an access through NULL or out of range or a remainder by 0. The pointers
-- `Q` and `Item` are valid, as the `assert`s demand.
pub mod Refine
mod Tests
use linux_programs.Common.{
  ℕ, ◌+◌, ◌%◌, Bool, true, false, Option, none, some, List, [], ◌∷◌, get_elem?, set, ltb, ◌==◌,
  if◌then◌else◌, length, not,
}
use linux_programs.Common.Int.{ℤ}
use linux_programs.DataStruct.Fifo.{Op, put, get, Reply}

-- `item` is the array that `malloc` gave, `none` for NULL; of an item only `id` is there.
pub record Queue : Type 0 where
  pub head : ℕ
  pub tail : ℕ
  pub item : Option (List ℤ)
  pub qlen : ℕ

-- `malloced` is what `malloc` returns.
pub init_queue : (malloced : Option (List ℤ)) → Queue → Bool × Queue
init_queue malloced q = (true, record q { item = malloced; head = 0; tail = 0 })

pub queue_empty : Queue → Bool
queue_empty q = if q.head == q.tail then true else false

pub queue_full : Queue → Option Bool
queue_full q =
    if q.qlen == 0
    then none
    else (if (q.tail + 1) % q.qlen == q.head then some true else some false)

-- `Q->item[i].id = v`
store_id : Option (List ℤ) → ℕ → ℤ → Option (List ℤ)
store_id none i v = none
store_id (some items) i v = if ltb i (length items) then some (set items i v) else none

-- `Q->item[i].id`
load_id : Option (List ℤ) → ℕ → Option ℤ
load_id none i = none
load_id (some items) i = get_elem? items i

infixl 5 ◌>>=◌
abbrev ◌>>=◌ : {A B : Type 0} → Option A → (A → Option B) → Option B
none >>= f = none
some a >>= f = f a

pub en_queue : Queue → ℤ → Option (Bool × Queue)
unfolding queue_full store_id
en_queue q id = do
  full ← queue_full q
  if not full
      then (do
        items ← store_id q.item q.tail id
        some (true, record q { item = some items; tail = (q.tail + 1) % q.qlen }))
      else some (false, q)

-- `id` is what `Item->id` holds before the call; it comes back unchanged from an empty queue.
pub de_queue : Queue → ℤ → Option (Bool × ℤ × Queue)
unfolding queue_empty load_id
de_queue q id =
    if not (queue_empty q)
    then (do
      out ← load_id q.item q.head
      if q.qlen == 0 then none else some (true, out, record q { head = (q.head + 1) % q.qlen }))
    else some (false, id, q)

-- The calls of a client in order; a `get` delivers what `DeQueue` stores when it succeeds.
pub run : Queue → List Op → Option (List Reply)
run q [] = some []
run q (put x ∷ ops) = do (ok, q') ← en_queue q x; rest ← run q' ops; some ((ok, none) ∷ rest)
run q (get ∷ ops) = do
  (ok, id, q') ← de_queue q (ℤ.pos 0)
  rest ← run q' ops
  some ((ok, (if ok then some id else none)) ∷ rest)
