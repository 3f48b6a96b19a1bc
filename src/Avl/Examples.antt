-- ===== src/Avl/Examples.antt =====
-- Runs of avl.c on numbers, and its theorems at concrete inputs.
use Prim.Native.Nat.{compare}
use kernel_utils.Base.{ℕ, ◌≡◌, refl, arith, List, [], ◌∷◌, ◌++◌, some, Bool}
use kernel_utils.Binary.{after, before, inorder, leaf, left, make, node, plug, right, root, up}
use kernel_utils.Binary.Order.{first, last}
use kernel_utils.Avl.Tree.{Balance, even, heavy, Tree, Trail, AvlTree, IsAvl, height}
use kernel_utils.Avl.Order.{IsOrder}
use kernel_utils.Avl.Rotation.{avl_rotation}
use kernel_utils.Avl.Find.{search_place, dlm_avl_find}
use kernel_utils.Avl.Find.Laws.{Finds, dlm_avl_find-Finds}
use kernel_utils.Avl.Remove.{dlm_avl_remove}
use kernel_utils.Avl.Walk.{dlm_avl_walk}
use kernel_utils.Avl.Walk.Laws.{dlm_avl_walk_lem}
use kernel_utils.Avl.Table.{dlm_avl_add, dlm_avl_insert_here, dlm_avl_update}
use kernel_utils.Avl.Table.Valid.{items, IsValid}
use kernel_utils.Avl.Table.Add.{Inserts, dlm_avl_add-IsValid}
use kernel_utils.Avl.Table.Remove.{lower, upper, dlm_avl_remove-IsValid}
use kernel_utils.Avl.Table.Here.{dlm_avl_insert_here-Inserts}
use kernel_utils.Avl.Table.Update.{IsChanged, Restored, dlm_avl_update-Restored}

compare-IsOrder : IsOrder compare
compare-IsOrder = record {
  lt-gt = λ a b h. ground arith;
  gt-lt = λ a b h. ground arith;
  lt_trans = λ a b c h k. ground arith;
}

abbrev one : Tree ℕ
one = node even leaf 1 leaf

abbrev five : Tree ℕ
five = node even leaf 5 leaf

-- 1, 3, 5 and 7.
abbrev sample : AvlTree ℕ
sample = record {
  avl_root = node (heavy right) one 3 (node (heavy right) leaf 5 (node even leaf 7 leaf));
  avl_numnodes = 4;
}

sample-IsValid : IsValid compare sample
unfolding IsAvl height inorder
sample-IsValid = record {
  sound = record { balanced = omega arith; counted = refl };
  sorted = ground arith;
}

dlm_avl_add_run :
    dlm_avl_add compare sample 6
    ≡ some (record {
      avl_root = node (heavy right) one 3 (node even five 6 (node even leaf 7 leaf));
      avl_numnodes = 5;
    })
unfolding dlm_avl_add search_place avl_rotation
dlm_avl_add_run = refl

dlm_avl_add-IsValid_example :
    (tree' : AvlTree ℕ) × (dlm_avl_add compare sample 6 ≡ some tree')
    × IsValid compare tree'
    × (xs : List ℕ) × (ys : List ℕ) × (items sample ≡ xs ++ ys)
    × (items tree' ≡ xs ++ (6 ∷ ys))
unfolding inorder
dlm_avl_add-IsValid_example =
    dlm_avl_add-IsValid compare-IsOrder sample 6 sample-IsValid (ground arith) (omega arith)

-- The place of 3, the root, which has two children.
dlm_avl_remove-IsValid_example :
    (tree' : AvlTree ℕ) × (dlm_avl_remove sample root sample.avl_root ≡ some tree')
    × IsValid compare tree'
    × (items sample
        ≡ lower root one ++ (3 ∷ upper root (node (heavy right) leaf 5 (node even leaf 7 leaf))))
    × (items tree'
        ≡ lower root one ++ upper root (node (heavy right) leaf 5 (node even leaf 7 leaf)))
unfolding plug
dlm_avl_remove-IsValid_example =
    dlm_avl_remove-IsValid compare sample root (heavy right) one 3
      (node (heavy right) leaf 5 (node even leaf 7 leaf)) sample-IsValid refl

dlm_avl_find-Finds_example : Finds compare 5 (items sample) (dlm_avl_find compare sample 5)
dlm_avl_find-Finds_example = dlm_avl_find-Finds compare-IsOrder sample 5 sample-IsValid.sorted

-- The place of 1.
abbrev at_one : Trail ℕ
at_one = up left (heavy right) 3 (node (heavy right) leaf 5 (node even leaf 7 leaf)) root

dlm_avl_insert_here-Inserts_example :
    Inserts 2
      (lower at_one leaf ++ (1 ∷ []))
      (upper at_one leaf)
      (dlm_avl_insert_here sample 2 at_one one right)
    × Inserts 2
        (lower at_one leaf)
        (1 ∷ upper at_one leaf)
        (dlm_avl_insert_here sample 2 at_one one left)
unfolding plug make
dlm_avl_insert_here-Inserts_example =
    dlm_avl_insert_here-Inserts sample 2 at_one even leaf 1 leaf sample-IsValid.sound refl
      (omega arith)

dlm_avl_walk_lem_example :
    (dlm_avl_walk right at_one one ≡ first (inorder {L = Balance} {A = ℕ} leaf ++ after at_one))
    × (dlm_avl_walk left at_one one ≡ last (before at_one ++ inorder {L = Balance} leaf))
dlm_avl_walk_lem_example = dlm_avl_walk_lem at_one even leaf 1 leaf

-- The item 1 has been changed to 6.
abbrev changed : AvlTree ℕ
changed = record {
  avl_root =
      node (heavy right) (node even leaf 6 leaf) 3
        (node (heavy right) leaf 5 (node even leaf 7 leaf));
  avl_numnodes = 4;
}

changed-IsChanged : IsChanged compare changed at_one even leaf 6 leaf
unfolding IsAvl height inorder plug make before after
changed-IsChanged = record {
  sound = record { balanced = omega arith; counted = refl };
  place = refl;
  others = ground arith;
  absent = ground arith;
  small = omega arith;
}

dlm_avl_update-Restored_example :
    (t' : AvlTree ℕ) × (moved : Bool) × (dlm_avl_update compare changed at_one
        (node even leaf 6 leaf)
        6
      ≡ some (t', moved))
    × Restored compare 6 (lower at_one leaf ++ upper at_one leaf) t'
dlm_avl_update-Restored_example =
    dlm_avl_update-Restored compare-IsOrder changed at_one even leaf 6 leaf changed-IsChanged

-- The item 7 has been changed to 4.
abbrev lowered : AvlTree ℕ
lowered = record {
  avl_root = node (heavy right) one 3 (node (heavy right) leaf 5 (node even leaf 4 leaf));
  avl_numnodes = 4;
}

abbrev at_last : Trail ℕ
at_last = up right (heavy right) 5 leaf (up right (heavy right) 3 one root)
