-- ===== src/Avl/Table/Valid.antt =====
-- Well-formed trees: balanced, in order, and with the right count.
use kernel_utils.Base.{◌≡◌, List, Ordering, length}
use kernel_utils.Binary.{inorder}
use kernel_utils.Avl.Tree.{AvlTree, IsAvl}
use kernel_utils.Avl.Order.{IsSorted}

module _ {ℓ} {A : Type ℓ} where
  -- The items of a tree, in order.
  abbrev pub items : AvlTree A → List A
  items tree = inorder tree.avl_root

  -- The shape and the count are right, whatever the order of the items.
  pub record IsSound (tree : AvlTree A) : Type 0 where
    pub balanced : IsAvl tree.avl_root
    pub counted : tree.avl_numnodes ≡ length (items tree)

  pub record IsValid (cmp : A → A → Ordering) (tree : AvlTree A) : Type 0 where
    pub sound : IsSound tree
    pub sorted : IsSorted cmp (items tree)
