-- ===== src/DataStruct/LinkQueue/Chain.antt =====
-- A node and the nodes that its `next` pointers lead to, and what writes do to them.
use linux_programs.Common.{
  ℕ, ◌≡◌, ◌≢◌, refl, arith, Bool, false, ◌||◌, none, some, Option, List, [], ◌∷◌, ◌++◌, ◌==◌,
}
use linux_programs.Common.Int.{ℤ}
use linux_programs.DataStruct.Heap.{null, Node, Heap, put_node}

-- Address and `id` of each node, in order.
abbrev pub Cells : Type 0
Cells = List (ℕ × ℤ)

abbrev pub has : ℕ → Cells → Bool
has a [] = false
has a ((p, w) ∷ cs) = (a == p) || has a cs

abbrev pub first : Cells → ℕ
first [] = null
first ((p, w) ∷ cs) = p

abbrev pub last : ℕ → Cells → ℕ
last p [] = p
last p ((a, w) ∷ cs) = last a cs

abbrev pub last_id : ℤ → Cells → ℤ
last_id v [] = v
last_id v ((a, w) ∷ cs) = last_id w cs

abbrev pub ids : Cells → List ℤ
ids [] = []
ids ((a, w) ∷ cs) = w ∷ ids cs

abbrev pub node : ℤ → ℕ → Node
node v q = record { id = v; next = q }

-- At `p` stands a node with `id` `v`; its pointers lead through the distinct nodes `cs` to NULL.
abbrev pub Chain : Heap → ℕ → ℤ → Cells → Type 0
Chain h p v [] = (p ≢ null) × (h p ≡ some (node v null))
Chain h p v ((a, w) ∷ cs) =
    (p ≢ null) × (h p ≡ some (node v a)) × (has p ((a, w) ∷ cs) ≡ false) × Chain h a w cs

module _ (h : Heap) where
  pub Chain-head :
      (p : ℕ) (v : ℤ) (cs : Cells) → Chain h p v cs → (p ≢ null) × (h p ≡ some (node v (first cs)))
  Chain-head p v [] c = c
  Chain-head p v ((a, w) ∷ cs) c = (c.0, c.1)

  -- A write elsewhere leaves the chain alone.
  pub Chain-put_node :
      (a : ℕ) (n : Option Node) (p : ℕ) (v : ℤ) (cs : Cells)
      → (a == p) ≡ false
      → has a cs ≡ false
      → Chain h p v cs
      → Chain (put_node h a n) p v cs
  Chain-put_node a n p v [] e out c = (c.0, ground arith)
  Chain-put_node a n p v ((b, w) ∷ cs) e out c =
      (c.0, ground arith, c.2, Chain-put_node a n b w cs (ground arith) (ground arith) c.3)

  pub last-of-Chain :
      (p : ℕ) (v : ℤ) (cs : Cells)
      → Chain h p v cs
      → (last p cs ≢ null) × (h (last p cs) ≡ some (node (last_id v cs) null))
  last-of-Chain p v [] c = c
  last-of-Chain p v ((a, w) ∷ cs) c = last-of-Chain a w cs c.3

  -- `malloc` gives an address that no node of the chain has.
  pub unused_out :
      (a p : ℕ) (v : ℤ) (cs : Cells)
      → h a ≡ none
      → Chain h p v cs
      → ((a == p) ≡ false) × (has a cs ≡ false)
  unused_out a p v [] e c = (ground arith, refl)
  unused_out a p v ((b, w) ∷ cs) e c =
      let rest = unused_out a b w cs e c.3 in (ground arith, ground (arith, rest))

pub has-last :
    (a p : ℕ) (cs : Cells) → (a == p) ≡ false → has a cs ≡ false → (a == last p cs) ≡ false
has-last a p [] e out = e
has-last a p ((b, w) ∷ cs) e out = has-last a b cs (ground arith) (ground arith)

has-append :
    (a b : ℕ) (x : ℤ) (cs : Cells)
    → has a cs ≡ false
    → (a == b) ≡ false
    → has a (cs ++ ((b, x) ∷ [])) ≡ false
has-append a b x [] out e = ground arith
has-append a b x ((p, w) ∷ cs) out e = ground (arith, has-append a b x cs)

-- A new node linked to the last one makes the chain one node longer.
pub Chain-link :
    (h : Heap) (fresh : ℕ) (x : ℤ) (p : ℕ) (v : ℤ) (cs : Cells)
    → fresh ≢ null
    → h fresh ≡ none
    → Chain h p v cs
    → Chain
        (put_node
          (put_node h (last p cs) (some (node (last_id v cs) fresh)))
          fresh
          (some (node x null)))
        p
        v
        (cs ++ ((fresh, x) ∷ []))
Chain-link h fresh x p v [] nz un c = (c.0, ground arith, ground arith, (nz, ground arith))
Chain-link h fresh x p v ((a, w) ∷ cs) nz un c =
    let out = unused_out h fresh p v ((a, w) ∷ cs) un c in
    let far = has-last p a cs (ground arith) (ground arith) in
    (
      c.0,
      ground (arith, far),
      ground (arith, out, has-append p fresh x cs),
      Chain-link h fresh x a w cs nz un c.3,
    )

pub ids-append : (cs : Cells) (a : ℕ) (x : ℤ) → ids (cs ++ ((a, x) ∷ [])) ≡ ids cs ++ (x ∷ [])
ids-append [] a x = refl
ids-append ((b, w) ∷ cs) a x = rw (ids-append cs a x)

pub last-append : (p : ℕ) (cs : Cells) (a : ℕ) (x : ℤ) → last p (cs ++ ((a, x) ∷ [])) ≡ a
last-append p [] a x = refl
last-append p ((b, w) ∷ cs) a x = last-append b cs a x
