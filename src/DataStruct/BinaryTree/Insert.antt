-- ===== src/DataStruct/BinaryTree/Insert.antt =====
-- Insertion keeps the search order, and prints as insertion into an increasing list.
use linux_programs.Common.{
  ◌≡◌, refl, ap, ◌∙◌, sym, arith, true, false, some, List, [], ◌∷◌, ◌++◌, if◌then◌else◌, Bool-cases,
  inl, inr,
}
use linux_programs.Common.Int.{ℤ, ltb_ℤ, eq_of_parts}
use linux_programs.Common.Tables.{All}
use linux_programs.DataStruct.BinaryTree.{Tree, leaf, node, binary_tree_insert, inorder}

infix 50 ◌<ℤ◌
abbrev pub ◌<ℤ◌ : ℤ → ℤ → Type 0
a <ℤ b = ltb_ℤ a b ≡ true

-- All values on the left are smaller, all on the right larger.
abbrev pub IsSearch : Tree → Type 0
IsSearch leaf = Unit
IsSearch (node l d r) =
    All (λ x. x <ℤ d) (inorder l) × All (λ x. d <ℤ x) (inorder r) × IsSearch l × IsSearch r

-- Insertion into an increasing list without repetitions.
unfoldable pub insert_sorted : ℤ → List ℤ → List ℤ
insert_sorted v [] = v ∷ []
insert_sorted v (x ∷ xs) =
    if ltb_ℤ v x then v ∷ x ∷ xs else (if ltb_ℤ x v then x ∷ insert_sorted v xs else x ∷ xs)

pub lt_trans : (a b c : ℤ) → a <ℤ b → b <ℤ c → a <ℤ c
lt_trans a b c p q = ground arith

lt_asym : (a b : ℤ) → a <ℤ b → ltb_ℤ b a ≡ false
lt_asym a b p = ground arith

insert_sorted-left :
    (v d : ℤ) (xs ys : List ℤ)
    → v <ℤ d
    → insert_sorted v (xs ++ (d ∷ ys)) ≡ insert_sorted v xs ++ (d ∷ ys)
unfolding insert_sorted
insert_sorted-left v d [] ys p = rw p
insert_sorted-left v d (x ∷ xs) ys p = ground (arith, insert_sorted-left v d xs ys p)

insert_sorted-right :
    (v d : ℤ) (xs ys : List ℤ)
    → All (λ x. x <ℤ d) xs
    → d <ℤ v
    → insert_sorted v (xs ++ (d ∷ ys)) ≡ xs ++ (d ∷ insert_sorted v ys)
unfolding insert_sorted
insert_sorted-right v d [] ys h p = rw (lt_asym d v p, p)
insert_sorted-right v d (x ∷ xs) ys h p =
    let below = lt_trans x d v h.0 p in
    rw (lt_asym x v below, below) (ap (λ l. x ∷ l) (insert_sorted-right v d xs ys h.1 p))

insert_sorted-here :
    (d : ℤ) (xs ys : List ℤ)
    → All (λ x. x <ℤ d) xs
    → insert_sorted d (xs ++ (d ∷ ys)) ≡ xs ++ (d ∷ ys)
unfolding insert_sorted
insert_sorted-here d [] ys h = ground arith
insert_sorted-here d (x ∷ xs) ys h =
    rw (lt_asym x d h.0, h.0) (ap (λ l. x ∷ l) (insert_sorted-here d xs ys h.1))

All-insert_sorted :
    (P : ℤ → Type 0) (v : ℤ) (xs : List ℤ) → P v → All P xs → All P (insert_sorted v xs)
unfolding insert_sorted
All-insert_sorted P v [] p h = (p, tt)
All-insert_sorted P v (x ∷ xs) p h = elim (Bool-cases (ltb_ℤ v x)) [
  | inl e ↦ rw e (p, h)
  | inr e ↦ elim (Bool-cases (ltb_ℤ x v)) [
    | inl e' ↦ rw (e, e') (h.0, All-insert_sorted P v xs p h.1)
    | inr e' ↦ rw (e, e') h
  ]
]

abbrev Inserted : Tree → ℤ → Type 0
Inserted t v =
    (t' : Tree) × (binary_tree_insert true t v ≡ some t')
    × IsSearch t'
    × (inorder t' ≡ insert_sorted v (inorder t))

-- Where `malloc` gives a node, an insertion into a search tree succeeds, keeps the search order,
-- and the new tree prints in order what the old one does with the value inserted at its place, or
-- nothing new if it was there.
pub insert-inorder :
    (t : Tree) (v : ℤ)
    → IsSearch t
    → (t' : Tree) × (binary_tree_insert true t v ≡ some t')
      × IsSearch t'
      × (inorder t' ≡ insert_sorted v (inorder t))
unfolding binary_tree_insert inorder
insert-inorder leaf v h = (node leaf v leaf, refl, (tt, tt, tt, tt), unfold insert_sorted in refl)
insert-inorder (node l d r) v h = elim (Bool-cases (ltb_ℤ v d)) [
  | inl e ↦
      let (l', ran, ok, shown) = insert-inorder l v h.2 in
      (
        node l' d r,
        rw (e, ran),
        (rw shown (All-insert_sorted (λ x. x <ℤ d) v (inorder l) e h.0), h.1, ok, h.3),
        rw shown (sym (insert_sorted-left v d (inorder l) (inorder r) e)),
      )
  | inr e ↦ elim (Bool-cases (ltb_ℤ d v)) [
    | inl e' ↦
        let (r', ran, ok, shown) = insert-inorder r v h.3 in
        (
          node l d r',
          rw (e, e', ran),
          (h.0, rw shown (All-insert_sorted (λ x. d <ℤ x) v (inorder r) e' h.1), h.2, ok),
          rw shown (sym (insert_sorted-right v d (inorder l) (inorder r) h.0 e')),
        )
    | inr e' ↦
        let same : d ≡ v = eq_of_parts d v (ground arith) in
        (
          node l d r,
          rw (e, e'),
          h,
          sym (
              ap (λ x. insert_sorted x (inorder l ++ (d ∷ inorder r))) (sym same)
              ∙ insert_sorted-here d (inorder l) (inorder r) h.0),
        )
  ]
]
