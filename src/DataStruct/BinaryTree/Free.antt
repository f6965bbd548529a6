-- ===== src/DataStruct/BinaryTree/Free.antt =====
-- `binaryTree_delete` on an explicit heap: an access to a node that was freed is `none`. Fuel is the depth
-- of the recursion.
use linux_programs.Common.{
  ℕ, zero, suc, ◌≡◌, ◌≢◌, refl, sym, ap, ◌∙◌, inl, inr, arith, Bool, true, false, Bool-cases, ◌||◌,
  Option, none, some, ◌==◌, if◌then◌else◌,
}
use linux_programs.Common.Int.{ℤ}

-- `struct binaryTree` at an address.
pub record Cell : Type 0 where
  pub value : ℤ
  pub left : ℕ
  pub right : ℕ

abbrev pub Memory : Type 0
Memory = ℕ → Option Cell

pub delete_at : (fuel : ℕ) → Memory → (tree : ℕ) → Option Memory
delete_at zero h tree = none
delete_at (suc fuel) h tree = if tree == 0 then some h else elim (h tree) [
  | none ↦ none
  | some c ↦ elim (delete_at fuel h c.left) [
    | none ↦ none
    | some h1 ↦ elim (h1 tree) [
      | none ↦ none
      | some c1 ↦ elim (delete_at fuel h1 c1.right) [
        | none ↦ none
        | some h2 ↦ elim (h2 tree) [
          | none ↦ none
          | some c2 ↦ some (λ a. if a == tree then none else h2 a)
        ]
      ]
    ]
  ]
]

-- A tree with the addresses of its nodes.
pub data Shape : Type 0 where
  nil : Shape
  at : Shape → ℕ → ℤ → Shape → Shape

abbrev pub root : Shape → ℕ
root nil = 0
root (at l p d r) = p

abbrev pub has : ℕ → Shape → Bool
has a nil = false
has a (at l p d r) = (a == p) || (has a l || has a r)

abbrev pub depth_in : Shape → (fuel : ℕ) → Bool
depth_in t zero = false
depth_in nil (suc fuel) = true
depth_in (at l p d r) (suc fuel) = if depth_in l fuel then depth_in r fuel else false

-- The nodes of the tree stand in memory, each once.
abbrev pub Stands : Memory → Shape → Type 0
Stands h nil = Unit
Stands h (at l p d r) =
    (p ≢ 0)
    × (h p ≡ some (record { value = d; left = root l; right = root r }))
    × (has p l ≡ false)
    × (has p r ≡ false)
    × ((a : ℕ) → has a r ≡ true → has a l ≡ false)
    × Stands h l
    × Stands h r

Stands-same :
    (h h' : Memory) (t : Shape) → ((a : ℕ) → has a t ≡ true → h' a ≡ h a) → Stands h t → Stands h' t
Stands-same h h' nil same s = tt
Stands-same h h' (at l p d r) same s = (
  s.0,
  same p (ground arith) ∙ s.1,
  s.2,
  s.3,
  s.4,
  Stands-same h h' l (λ a e. same a (ground arith)) s.5,
  Stands-same h h' r (λ a e. same a (ground arith)) s.6,
)

-- What is left of the memory.
abbrev pub without : Shape → Memory → Memory
without t h a = if has a t then none else h a

depth_in-both :
    (l r : Shape) (p : ℕ) (d : ℤ) (fuel : ℕ)
    → depth_in (at l p d r) (suc fuel) ≡ true
    → (depth_in l fuel ≡ true) × (depth_in r fuel ≡ true)
depth_in-both l r p d fuel e = elim (Bool-cases (depth_in l fuel)) [
  | inl deep ↦ (deep, sym (ap (λ (b : Bool). if b then depth_in r fuel else false) deep) ∙ e)
  | inr shallow ↦ absurd (cc (shallow, e))
]

outside : (t : Shape) (h : Memory) (a : ℕ) → has a t ≡ false → without t h a ≡ h a
outside t h a out = rw out refl

-- A node after its subtrees.
node_round :
    (fuel : ℕ) (h h1 h2 : Memory) (p : ℕ) {c c1 c2 : Cell}
    → p ≢ 0
    → h p ≡ some c
    → delete_at fuel h c.left ≡ some h1
    → h1 p ≡ some c1
    → delete_at fuel h1 c1.right ≡ some h2
    → h2 p ≡ some c2
    → delete_at (suc fuel) h p ≡ some (λ a. if a == p then none else h2 a)
unfolding delete_at
node_round fuel h h1 h2 p nz at_p left at_p1 right at_p2 =
    let test : (p == 0) ≡ false = ground arith in
    rw (delete_at, test, at_p, left, at_p1, right, at_p2) refl

-- When each node of a tree stands in memory once, and the fuel is more than its depth,
-- `binaryTree_delete` ends without an access to a freed node: it frees every node of the tree and leaves
-- all other memory as it was.
pub delete_at-without :
    (t : Shape) (fuel : ℕ) (h : Memory)
    → depth_in t fuel ≡ true
    → Stands h t
    → (h' : Memory) × (delete_at fuel h (root t) ≡ some h') × ((a : ℕ) → h' a ≡ without t h a)
unfolding delete_at
delete_at-without t zero h deep s = absurd (cc deep)
delete_at-without nil (suc fuel) h deep s = (h, refl, λ a. refl)
delete_at-without (at l p d r) (suc fuel) h deep s =
    let (deep_l, deep_r) = depth_in-both l r p d fuel deep in
    let (h1, left, after_l) = delete_at-without l fuel h deep_l s.5 in
    let stands = Stands-same h h1 r (λ a in_r. after_l a ∙ outside l h a (s.4 a in_r)) s.6 in
    let (h2, right, after_r) = delete_at-without r fuel h1 deep_r stands in
    let at_p1 = after_l p ∙ outside l h p s.2 ∙ s.1 in
    let at_p2 = after_r p ∙ outside r h1 p s.3 ∙ at_p1 in
    (
      λ a. if a == p then none else h2 a,
      node_round fuel h h1 h2 p {c = record { value = d; left = root l; right = root r }}
          {c1 = record { value = d; left = root l; right = root r }} s.0 s.1 left at_p1 right at_p2,
      λ a. elim (Bool-cases (a == p)) [
        | inl here ↦ rw here refl
        | inr there ↦ elim (Bool-cases (has a l)) [
          | inl in_l ↦ elim (Bool-cases (has a r)) [
            | inl in_r ↦ absurd (cc (in_l, s.4 a in_r))
            | inr out_r ↦
                rw (there, in_l) (after_r a ∙ outside r h1 a out_r ∙ after_l a ∙ rw in_l refl)
          ]
          | inr out_l ↦ elim (Bool-cases (has a r)) [
            | inl in_r ↦ rw (there, out_l, in_r) (after_r a ∙ rw in_r refl)
            | inr out_r ↦
                rw (there, out_l, out_r)
                  (after_r a ∙ outside r h1 a out_r ∙ after_l a ∙ outside l h a out_l)
          ]
        ]
      ],
    )
