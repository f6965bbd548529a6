-- ===== src/DataStruct/BinaryTree.antt =====
-- dataStruct/bitree/bitree.c: a binary search tree of `int`s. A pointer to a tree is the tree, NULL
-- is `leaf`; every node has one owner, so an update through `tree **` is the new tree.
pub mod Insert
pub mod Traverse
pub mod Free
mod Tests
use linux_programs.Common.{
  Bool, true, false, Option, none, some, List, [], ◌∷◌, ◌++◌, if◌then◌else◌,
}
use linux_programs.Common.Int.{ℤ, ltb_ℤ}

pub data Tree : Type 0 where
  leaf : Tree
  node : Tree → ℤ → Tree → Tree

abbrev map_option : {A B : Type 0} → (A → B) → Option A → Option B
map_option f none = none
map_option f (some a) = some (f a)

-- `malloced` tells whether `malloc` gives a node; it is called at most once. Its result is not
-- tested, so without memory the code writes through NULL: `none`.
pub binary_tree_insert : (malloced : Bool) → Tree → ℤ → Option Tree
binary_tree_insert malloced leaf val = if malloced then some (node leaf val leaf) else none
binary_tree_insert malloced (node l d r) val =
    let left = map_option (λ t. node t d r) (binary_tree_insert malloced l val) in
    let right = map_option (λ t. node l d t) (binary_tree_insert malloced r val) in
    if ltb_ℤ val d then left else (if ltb_ℤ d val then right else some (node l d r))

-- The values that a traversal prints, in order.
pub preorder : Tree → List ℤ
preorder leaf = []
preorder (node l d r) = d ∷ (preorder l ++ preorder r)

pub inorder : Tree → List ℤ
inorder leaf = []
inorder (node l d r) = inorder l ++ (d ∷ inorder r)

pub postorder : Tree → List ℤ
postorder leaf = []
postorder (node l d r) = postorder l ++ (postorder r ++ (d ∷ []))
