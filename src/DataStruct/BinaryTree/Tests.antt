-- ===== src/DataStruct/BinaryTree/Tests.antt =====
-- The tree of `main`, and the theorems at it.
use linux_programs.DataStruct.BinaryTree.Free.{
  Memory, delete_at, Shape, nil, at, Stands, without, delete_at-without,
}
use linux_programs.Common.{ℕ, arith, none, ◌==◌, if◌then◌else◌, ◌≡◌, refl, some, List, [], ◌∷◌, map}
use linux_programs.Common.Int.{ℤ, pos}
use linux_programs.DataStruct.BinaryTree.{Tree, leaf, node, inorder}
use linux_programs.DataStruct.BinaryTree.Insert.{IsSearch, insert_sorted}
use linux_programs.DataStruct.BinaryTree.Traverse.{
  insert_all, insert_all_sorted, insert_all-IsIncreasing, IsIncreasing,
}

abbrev values : List ℤ
values = map pos (9 ∷ 4 ∷ 15 ∷ 6 ∷ 12 ∷ 17 ∷ 2 ∷ [])

abbrev small : Tree
small = node (node leaf (pos 4) leaf) (pos 9) leaf

small-IsSearch : IsSearch small
unfolding inorder
small-IsSearch = ((refl, tt), tt, (tt, tt, tt, tt), tt)

inorder-values : insert_all_sorted [] values ≡ map pos (2 ∷ 4 ∷ 6 ∷ 9 ∷ 12 ∷ 15 ∷ 17 ∷ [])
unfolding insert_all_sorted insert_sorted
inorder-values = refl

abbrev shape : Shape
shape = at (at nil 5 (pos 4) nil) 7 (pos 9) nil

abbrev memory : Memory
memory a =
    if a == 7
    then some (record { value = pos 9; left = 5; right = 0 })
    else (if a == 5 then some (record { value = pos 4; left = 0; right = 0 }) else none)

shape-Stands : Stands memory shape
shape-Stands = (
  λ e. omega arith,
  refl,
  refl,
  refl,
  λ a e. absurd (cc e),
  (λ e. omega arith, refl, refl, refl, λ a e. absurd (cc e), tt, tt),
  tt,
)

delete_at-without_example :
    (h' : Memory) × (delete_at 3 memory 7 ≡ some h') × ((a : ℕ) → h' a ≡ without shape memory a)
delete_at-without_example = delete_at-without shape 3 memory refl shape-Stands

insert_all-IsIncreasing_example :
    (t : Tree) × (insert_all leaf values ≡ some t)
    × (inorder t ≡ insert_all_sorted (inorder leaf) values)
    × IsIncreasing (inorder t)
insert_all-IsIncreasing_example = insert_all-IsIncreasing values leaf tt
