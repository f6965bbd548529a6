-- ===== src/DataStruct/Heap.antt =====
-- The nodes of the linked structures, at addresses. A node is an `int` and a `next` pointer.
use linux_programs.Common.{ℕ, Option, none, some, ◌==◌, if◌then◌else◌}
use linux_programs.Common.Int.{ℤ}

abbrev pub null : ℕ
null = 0

pub record Node : Type 0 where
  pub id : ℤ
  pub next : ℕ

abbrev pub Heap : Type 0
Heap = ℕ → Option Node

abbrev pub put_node : Heap → ℕ → Option Node → Heap
put_node h p c a = if a == p then c else h a

-- `none` for a dereference of NULL or of an address that holds no node.
abbrev pub load : Heap → ℕ → Option Node
load h p = if p == null then none else h p

infixl 5 ◌>>=◌
abbrev pub ◌>>=◌ : {A B : Type 0} → Option A → (A → Option B) → Option B
none >>= f = none
some a >>= f = f a
