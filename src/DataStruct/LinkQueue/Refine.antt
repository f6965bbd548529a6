-- ===== src/DataStruct/LinkQueue/Refine.antt =====
-- The linked queue behaves as a queue without a bound, and gives every node back.
use linux_programs.Common.{
  ℕ, ◌≡◌, ◌≢◌, refl, sym, ap, ◌∙◌, arith, true, false, Option, none, some, List, [], ◌∷◌, ◌++◌,
  ◌==◌, if◌then◌else◌,
}
use linux_programs.Common.Int.{ℤ}
use mathlib.Core.Path.{fun_ext, subst₂}
use linux_programs.DataStruct.Fifo.{poll, delivered}
use linux_programs.DataStruct.Heap.{null, Node, Heap, put_node}
use linux_programs.DataStruct.LinkQueue.{State, init_queue, is_empty, en_queue, de_queue}
use linux_programs.DataStruct.LinkQueue.Chain.{
  Cells, first, last, last_id, ids, node, Chain, Chain-head, Chain-put_node, last-of-Chain,
  has-last, Chain-link, ids-append, last-append,
}

-- The queue holds the items `xs`, oldest first, behind a dummy node.
pub record Holds (s : State) (xs : List ℤ) : Type 0 where
  pub cells : Cells
  pub dummy : ℤ
  pub chain : Chain s.heap s.queue.head dummy cells
  pub tail_at : s.queue.tail ≡ last s.queue.head cells
  pub order : ids cells ≡ xs

-- `isEmpty` is true exactly when there is no item.
empty_test :
    (h : Heap) (p : ℕ) (v : ℤ) (cs : Cells)
    → Chain h p v cs
    → is_empty (record { head = p; tail = last p cs }) ≡ elim cs [ [] ↦ true | _ ∷ _ ↦ false ]
unfolding is_empty
empty_test h p v [] c = ground arith
empty_test h p v ((a, w) ∷ cs) c = ground (arith, has-last p a cs)

-- If `malloc` gives a node, `InitQueue` makes an empty queue.
init_queue-Holds :
    (fresh : ℕ) (junk : Node) (h : Heap)
    → fresh ≢ null
    → (s : State) × (init_queue fresh junk h ≡ some (true, s)) × Holds s []
unfolding init_queue
init_queue-Holds fresh junk h nz =
    let test : (fresh == null) ≡ false = ground arith in
    (
      record {
        heap = put_node h fresh (some (node junk.id null));
        queue = record { head = fresh; tail = fresh };
      },
      rw test,
      record {
        cells = [];
        dummy = junk.id;
        chain = (nz, ground arith);
        tail_at = refl;
        order = refl;
      },
    )

-- If `malloc` gives a node that no live node has, `EnQueue` on a queue that holds `xs` succeeds
-- and the queue then holds `xs` and the new item behind them.
pub en_queue-append :
    (fresh : ℕ) (junk : Node) (s : State) {xs : List ℤ} (x : ℤ)
    → fresh ≢ null
    → s.heap fresh ≡ none
    → Holds s xs
    → (s' : State) × (en_queue fresh junk s x ≡ some (true, s')) × Holds s' (xs ++ (x ∷ []))
unfolding en_queue
en_queue-append fresh junk s x nz un h =
    let at_end = last-of-Chain s.heap s.queue.head h.dummy h.cells h.chain in
    let test : (fresh == null) ≡ false = ground arith in
    let live : (s.queue.tail == null) ≡ false = ground (arith, h.tail_at, at_end) in
    let found : s.heap s.queue.tail ≡ some (node (last_id h.dummy h.cells) null) =
      ap s.heap h.tail_at ∙ at_end.1 in
    (
      record {
        heap =
            put_node (put_node s.heap s.queue.tail (some (node (last_id h.dummy h.cells) fresh)))
              fresh (some (node x null));
        queue = record { head = s.queue.head; tail = fresh };
      },
      rw (live, found, test),
      record {
        cells = h.cells ++ ((fresh, x) ∷ []);
        dummy = h.dummy;
        chain = rw h.tail_at (Chain-link s.heap fresh x s.queue.head h.dummy h.cells nz un h.chain);
        tail_at = sym (last-append s.queue.head h.cells fresh x);
        order = ids-append h.cells fresh x ∙ ap (λ ys. ys ++ (x ∷ [])) h.order;
      },
    )

-- If `malloc` fails, `EnQueue` returns false and leaves heap and queue as they were.
pub en_queue-no_memory :
    (junk : Node) (s : State) {xs : List ℤ} (x : ℤ)
    → Holds s xs
    → en_queue null junk s x ≡ some (false, s)
unfolding en_queue
en_queue-no_memory junk s x h =
    let at_end = last-of-Chain s.heap s.queue.head h.dummy h.cells h.chain in
    let live : (s.queue.tail == null) ≡ false = ground (arith, h.tail_at, at_end) in
    let found : s.heap s.queue.tail ≡ some (node (last_id h.dummy h.cells) null) =
      ap s.heap h.tail_at ∙ at_end.1 in
    rw (live, found)
      (ap (λ (g : Heap). some (false, record { heap = g; queue = s.queue }))
        (fun_ext λ a. ground (arith, found)))

-- If the first node is the last one, `tail` goes back to the dummy.
tail_after :
    (h : Heap) (p : ℕ) (v : ℤ) (a : ℕ) (w : ℤ) (cs : Cells)
    → Chain h p v ((a, w) ∷ cs)
    → (if last a cs == a then p else last a cs) ≡ last p cs
tail_after h p v a w [] c = ground arith
tail_after h p v a w ((b, u) ∷ cs) c = ground (arith, has-last a b cs)

relink :
    (h : Heap) (p : ℕ) (v : ℤ) (a : ℕ) (w : ℤ) (cs : Cells)
    → Chain h p v ((a, w) ∷ cs)
    → Chain (put_node (put_node h p (some (node v (first cs)))) a none) p v cs
relink h p v a w [] c = (c.0, ground arith)
relink h p v a w ((b, u) ∷ cs) c = (
  c.0,
  ground arith,
  ground arith,
  Chain-put_node (put_node h p (some (node v b))) a none b u cs (ground arith) (ground arith)
      (Chain-put_node h p (some (node v b)) b u cs (ground arith) (ground arith) c.3.3),
)

-- `DeQueue` on a queue with a first node.
de_queue-first :
    (h : Heap) (p : ℕ) (v : ℤ) (a : ℕ) (w : ℤ) (cs : Cells) (id : ℤ)
    → Chain h p v ((a, w) ∷ cs)
    → (s' : State) × (de_queue
          (record { heap = h; queue = record { head = p; tail = last a cs } })
          id
        ≡ some (true, w, s'))
      × (s'.queue.head ≡ p)
      × (s'.queue.tail ≡ last p cs)
      × Chain s'.heap p v cs
      × ((b : ℕ) → (b == p) ≡ false → s'.heap b ≡ (if b == a then none else h b))
unfolding de_queue
de_queue-first h p v a w cs id c =
    let next = Chain-head h a w cs c.3 in
    let busy = empty_test h p v ((a, w) ∷ cs) c in
    let live : (p == null) ≡ false = ground (arith, c.0) in
    let live' : (a == null) ≡ false = ground (arith, next) in
    (
      record {
        heap = put_node (put_node h p (some (node v (first cs)))) a none;
        queue = record { head = p; tail = if last a cs == a then p else last a cs };
      },
      rw (busy, live, c.1, live', next.1),
      refl,
      tail_after h p v a w cs c,
      relink h p v a w cs c,
      λ b away. ground (arith, away),
    )

-- What a `DeQueue` does to the heap: nothing without an item; else the node behind the dummy is
-- given back, and only the dummy's link changes besides.
abbrev pub next_of : Option Node → ℕ
next_of none = null
next_of (some n) = n.next

abbrev pub Released : State → State → List ℤ → Type 0
Released s s' [] = s' ≡ s
Released s s' (x ∷ xs) =
    (b : ℕ)
    → (b == s.queue.head) ≡ false
    → s'.heap b ≡ (if b == next_of (s.heap s.queue.head) then none else s.heap b)

abbrev Polled : State → ℤ → List ℤ → Type 0
Polled s id xs =
    (s' : State) × (de_queue s id ≡ some ((poll xs).0, delivered (poll xs).1 id, s'))
    × Holds s' (poll xs).2
    × Released s s' xs

at_end : Heap → ℕ → Cells → State
at_end h p cs = record { heap = h; queue = record { head = p; tail = last p cs } }

de_queue-cells :
    (h : Heap) (p : ℕ) (v : ℤ) (cs : Cells) (id : ℤ)
    → Chain h p v cs
    → Polled (at_end h p cs) id (ids cs)
unfolding poll at_end
de_queue-cells h p v [] id c = (
  at_end h p [],
  unfold de_queue in rw (empty_test h p v [] c),
  record { cells = []; dummy = v; chain = c; tail_at = refl; order = refl },
  refl,
)
de_queue-cells h p v ((a, w) ∷ cs) id c =
    let (s', ran, head, tail, chain, heap) = de_queue-first h p v a w cs id c in
    (
      s',
      ran,
      record { cells = cs; dummy = v; chain = rw head chain; tail_at = rw head tail; order = refl },
      λ b away. rw c.1 (heap b away),
    )

-- On a queue that holds `xs`, `DeQueue` is the poll of a queue: it fails exactly on the empty one,
-- and then leaves everything as it was; else it delivers the oldest item, gives exactly the node
-- that held it back to the heap, and of the other nodes changes the dummy at most.
pub de_queue-poll_linked :
    (s : State) (xs : List ℤ) (id : ℤ)
    → Holds s xs
    → (s' : State) × (de_queue s id ≡ some ((poll xs).0, delivered (poll xs).1 id, s'))
      × Holds s' (poll xs).2
      × Released s s' xs
unfolding at_end
de_queue-poll_linked s xs id h =
    let same : at_end s.heap s.queue.head h.cells ≡ s =
      ap (λ t. record { heap = s.heap; queue = record { head = s.queue.head; tail = t } })
        (sym h.tail_at) in
    subst₂ (λ t ys. Polled t id ys) same h.order
      (de_queue-cells s.heap s.queue.head h.dummy h.cells id h.chain)
