-- ===== src/DataStruct/SingleList.antt =====
-- dataStruct/list/src/list.c: `create_list` and `add_node_list`, on an explicit heap. `fresh` is what `malloc`
-- returns, 0 for NULL, and `junk` what its node holds; `none` is a dereference of NULL. `data` is the `id` of a
-- node.
mod Tests
use linux_programs.Common.{
  ℕ, ◌≡◌, ◌≢◌, refl, ap, ◌∙◌, inl, inr, Bool-cases, arith, Bool, false, none, some, Option, List,
  [], ◌∷◌, true, ◌||◌, ◌==◌, if◌then◌else◌,
}
use linux_programs.Common.Int.{ℤ}
use linux_programs.DataStruct.Heap.{null, Node, Heap, put_node, load, ◌>>=◌}
use linux_programs.DataStruct.LinkQueue.Chain.{Cells, has, first, node}

-- `p->next = q`.
abbrev pub set_next : Heap → (p q : ℕ) → Option Heap
set_next h p q = load h p >>= λ n. some (put_node h p (some (record n { next = q })))

abbrev pub create_list : ℕ
create_list = null

pub add_node_list : (fresh : ℕ) (junk : Node) → Heap → (head : ℕ) → (srcdata : ℤ) → Option Heap
add_node_list fresh junk h head srcdata =
    if fresh == null
    then none
    else (let h1 = put_node h fresh (some (record junk { id = srcdata })) in
        load h1 head >>= λ n. set_next h1 fresh n.next >>= λ h2. set_next h2 head fresh)

-- The distinct nodes `cs`, each of which points to the next, the last to NULL.
abbrev pub Linked : Heap → Cells → Type 0
Linked h [] = Unit
Linked h ((a, w) ∷ cs) =
    (a ≢ null) × (h a ≡ some (node w (first cs))) × (has a cs ≡ false) × Linked h cs

Linked-put_node :
    (h : Heap) (a : ℕ) (n : Option Node) (cs : Cells)
    → has a cs ≡ false
    → Linked h cs
    → Linked (put_node h a n) cs
Linked-put_node h a n [] out l = tt
Linked-put_node h a n ((p, w) ∷ cs) out l =
    (l.0, ground arith, l.2, Linked-put_node h a n cs (ground arith) l.3)

load-node : (h : Heap) (a : ℕ) {n : Node} → a ≢ null → h a ≡ some n → load h a ≡ some n
load-node h a nz held = let test : (a == null) ≡ false = ground arith in rw (test, held) refl

set_next-node :
    (h : Heap) (a q : ℕ) {n : Node}
    → a ≢ null
    → h a ≡ some n
    → set_next h a q ≡ some (put_node h a (some (record n { next = q })))
set_next-node h a q nz held = rw (load-node h a nz held) refl

bind-some :
    {A B : Type 0} {x : Option A} {a : A} (f : A → Option B) {r : Option B}
    → x ≡ some a
    → f a ≡ r
    → (x >>= f) ≡ r
bind-some f e next = ap (λ y. y >>= f) e ∙ next

-- On a list that is not empty, where `malloc` gives a node that is not in the list, `add_node_list` succeeds:
-- the new node stands behind the first one, the other nodes follow as before, and nothing else is changed.
pub add_node_list-adds :
    (fresh : ℕ) (junk : Node) (h : Heap) (a : ℕ) (w x : ℤ) (cs : Cells)
    → fresh ≢ null
    → has fresh ((a, w) ∷ cs) ≡ false
    → Linked h ((a, w) ∷ cs)
    → (h' : Heap) × (add_node_list fresh junk h a x ≡ some h')
      × Linked h' ((a, w) ∷ (fresh, x) ∷ cs)
      × ((q : ℕ) → q ≢ a → q ≢ fresh → h' q ≡ h q)
unfolding add_node_list
add_node_list-adds fresh junk h a w x cs more out linked =
    let new = some (record junk { id = x }) in
    let whole = some (node x (first cs)) in
    let h1 = put_node h fresh new in
    let h2 = put_node h1 fresh whole in
    let h3 = put_node h2 a (some (node w fresh)) in
    let apart : has fresh cs ≡ false = ground arith in
    let test : (fresh == null) ≡ false = ground arith in
    let at_fresh : h1 fresh ≡ new = ground arith in
    let held : h1 a ≡ some (node w (first cs)) = ground (arith, linked) in
    let held' : h2 a ≡ some (node w (first cs)) = ground (arith, linked) in
    let kept : h3 fresh ≡ whole = ground arith in
    let stored : h3 a ≡ some (node w fresh) = ground arith in
    (
      h3,
      ap
            (λ (b : Bool).
              if b
              then none
              else (load h1 a >>= λ n. set_next h1 fresh n.next >>= λ g. set_next g a fresh))
            test
          ∙ bind-some (λ n. set_next h1 fresh n.next >>= λ g. set_next g a fresh)
              (load-node h1 a linked.0 held)
              (bind-some (λ g. set_next g a fresh) (set_next-node h1 fresh (first cs) more at_fresh)
                (set_next-node h2 a fresh linked.0 held')),
      (
        linked.0,
        stored,
        ground (arith, linked),
        (
          more,
          kept,
          apart,
          Linked-put_node h2 a (some (node w fresh)) cs linked.2 (
              Linked-put_node h1 fresh whole cs apart
                (Linked-put_node h fresh new cs apart linked.3)),
        ),
      ),
      λ q away away'. ground arith,
    )

-- On the list that `create_list` gives, `add_node_list` dereferences NULL.
add_node_list-create_list :
    (fresh : ℕ) (junk : Node) (h : Heap) (x : ℤ) → add_node_list fresh junk h create_list x ≡ none
unfolding add_node_list
add_node_list-create_list fresh junk h x = elim (Bool-cases (fresh == null)) [
  | inl failed ↦ rw failed refl
  | inr given ↦ rw given refl
]
