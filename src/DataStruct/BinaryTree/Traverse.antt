-- ===== src/DataStruct/BinaryTree/Traverse.antt =====
-- What the traversal in order prints.
use linux_programs.Common.{◌≡◌, refl, ◌∙◌, ap, true, Option, none, some, List, [], ◌∷◌, ◌++◌}
use linux_programs.Common.Int.{ℤ}
use linux_programs.Common.Tables.{All}
use linux_programs.DataStruct.BinaryTree.{Tree, leaf, node, binary_tree_insert, inorder}
use linux_programs.DataStruct.BinaryTree.Insert.{
  ◌<ℤ◌, IsSearch, insert_sorted, insert-inorder, lt_trans,
}

-- Each value is smaller than all that follow it.
abbrev pub IsIncreasing : List ℤ → Type 0
IsIncreasing [] = Unit
IsIncreasing (x ∷ xs) = All (λ y. x <ℤ y) xs × IsIncreasing xs

All-trans : (a b : ℤ) (xs : List ℤ) → a <ℤ b → All (λ y. b <ℤ y) xs → All (λ y. a <ℤ y) xs
All-trans a b [] p h = tt
All-trans a b (x ∷ xs) p h = (lt_trans a b x p h.0, All-trans a b xs p h.1)

All-append : (P : ℤ → Type 0) (xs ys : List ℤ) → All P xs → All P ys → All P (xs ++ ys)
All-append P [] ys h k = k
All-append P (x ∷ xs) ys h k = (h.0, All-append P xs ys h.1 k)

IsIncreasing-append :
    (d : ℤ) (xs ys : List ℤ)
    → All (λ x. x <ℤ d) xs
    → All (λ y. d <ℤ y) ys
    → IsIncreasing xs
    → IsIncreasing ys
    → IsIncreasing (xs ++ (d ∷ ys))
IsIncreasing-append d [] ys h k p q = (k, q)
IsIncreasing-append d (x ∷ xs) ys h k p q = (
  All-append (λ y. x <ℤ y) xs (d ∷ ys) p.0 (h.0, All-trans x d ys h.0 k),
  IsIncreasing-append d xs ys h.1 k p.1 q,
)

inorder-IsIncreasing : (t : Tree) → IsSearch t → IsIncreasing (inorder t)
unfolding inorder
inorder-IsIncreasing leaf h = tt
inorder-IsIncreasing (node l d r) h =
    IsIncreasing-append d (inorder l) (inorder r) h.0 h.1 (inorder-IsIncreasing l h.2)
      (inorder-IsIncreasing r h.3)

-- A client's insertions in order, as in `main`.
unfoldable pub insert_all : Tree → List ℤ → Option Tree
insert_all t [] = some t
insert_all t (v ∷ vs) = elim (binary_tree_insert true t v) [
  | none ↦ none
  | some t' ↦ insert_all t' vs
]

unfoldable pub insert_all_sorted : List ℤ → List ℤ → List ℤ
insert_all_sorted xs [] = xs
insert_all_sorted xs (v ∷ vs) = insert_all_sorted (insert_sorted v xs) vs

-- Where `malloc` gives its nodes, the insertion of any values into a search tree succeeds; printed
-- in order the result is strictly increasing, and it is the old print with each value inserted at
-- its place, once.
pub insert_all-IsIncreasing :
    (vs : List ℤ) (t : Tree)
    → IsSearch t
    → (t' : Tree) × (insert_all t vs ≡ some t')
      × (inorder t' ≡ insert_all_sorted (inorder t) vs)
      × IsIncreasing (inorder t')
unfolding insert_all insert_all_sorted
insert_all-IsIncreasing [] t h = (t, refl, refl, inorder-IsIncreasing t h)
insert_all-IsIncreasing (v ∷ vs) t h =
    let (t₁, ran, ok, shown) = insert-inorder t v h in
    let (t₂, ran', shown', sorted) = insert_all-IsIncreasing vs t₁ ok in
    (t₂, rw (ran, insert_all) ran', shown' ∙ ap (λ xs. insert_all_sorted xs vs) shown, sorted)
