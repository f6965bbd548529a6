-- ===== src/DataStruct/LinkQueue.antt =====
-- dataStruct/queue/src/queueLinkList.c: a queue as a chain of nodes behind a dummy node.
-- The nodes live on an explicit heap. A function returns its result, the heap and the structure;
-- `none` stands for undefined behaviour. `fresh` is what `malloc` returns, 0 for NULL; the node
-- that it gives is not initialised, so its fields hold the arbitrary values `junk`.
pub mod Chain
pub mod Refine
mod Tests
use linux_programs.Common.{
  ℕ, Bool, true, false, Option, none, some, ◌==◌, if◌then◌else◌, not, List, [], ◌∷◌,
}
use linux_programs.Common.Int.{ℤ}
use linux_programs.DataStruct.Fifo.{Op, put, get, Reply}
use linux_programs.DataStruct.Heap.{null, Node, Heap, put_node, load, ◌>>=◌}

pub record Queue : Type 0 where
  pub head : ℕ
  pub tail : ℕ

-- The heap and the queue structure after a call.
pub record State : Type 0 where
  pub heap : Heap
  pub queue : Queue

pub init_queue : (fresh : ℕ) (junk : Node) → Heap → Option (Bool × State)
init_queue fresh junk h =
    let q : Queue = record { head = fresh; tail = fresh } in
    if fresh == null
    then some (false, record { heap = h; queue = q })
    else some
        (true, record { heap = put_node h fresh (some (record junk { next = null })); queue = q })

pub is_empty : Queue → Bool
is_empty q = if q.tail == q.head then true else false

-- `Q->tail->next = malloc(...)` comes first, also when it is NULL.
pub en_queue : (fresh : ℕ) (junk : Node) → State → ℤ → Option (Bool × State)
en_queue fresh junk s id = do
  last ← load s.heap s.queue.tail
  let linked = put_node s.heap s.queue.tail (some (record last { next = fresh }))
  if fresh == null
      then some (false, record s { heap = linked })
      else some (
        true,
        record {
          heap = put_node linked fresh (some (record junk { id = id; next = null }));
          queue = record { head = s.queue.head; tail = fresh };
        },
      )

-- `id` is what `node->id` holds before the call.
pub de_queue : State → ℤ → Option (Bool × ℤ × State)
unfolding is_empty
de_queue s id =
    if not (is_empty s.queue)
    then (do
      dummy ← load s.heap s.queue.head
      temp ← load s.heap dummy.next
      let tail' = if s.queue.tail == dummy.next then s.queue.head else s.queue.tail
      let linked = put_node s.heap s.queue.head (some (record dummy { next = temp.next }))
      some (
        true,
        temp.id,
        record {
          heap = put_node linked dummy.next none;
          queue = record { head = s.queue.head; tail = tail' };
        },
      ))
    else some (false, id, s)
