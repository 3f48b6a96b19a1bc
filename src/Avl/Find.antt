-- ===== src/Avl/Find.antt =====
-- `dlm_avl_find` of avl.c.
pub mod Laws
use kernel_utils.Base.{Option, none, some, Ordering, lt, eq, gt}
use kernel_utils.Binary.{leaf, left, node, right, root, up}
use kernel_utils.Avl.Tree.{Tree, Trail, AvlTree}

module _ {ℓ} {A : Type ℓ} where
  -- The loop: from the subtree at the end of a trail down to a node that equals `value`, or to the
  -- null child where that node would be.
  pub find_from : (A → A → Ordering) → A → Tree A → Trail A → Trail A × Tree A
  find_from avl_compar value leaf p = (p, leaf)
  find_from avl_compar value (node b l x r) p = elim (avl_compar value x) [
    | eq ↦ (p, node b l x r)
    | lt ↦ find_from avl_compar value l (up left b x r p)
    | gt ↦ find_from avl_compar value r (up right b x l p)
  ]

  -- Where the search from the root ends: the node found with its parents, or a null child with its
  -- parents, which is the `avl_index_t` that `dlm_avl_find` sets.
  unfoldable pub search_place : (A → A → Ordering) → AvlTree A → A → Trail A × Tree A
  unfolding find_from
  search_place avl_compar tree value = find_from avl_compar value tree.avl_root root

  unfoldable pub item_at : Tree A → Option A
  item_at leaf = none
  item_at (node b l x r) = some x

  unfoldable pub dlm_avl_find : (A → A → Ordering) → AvlTree A → A → Option A
  unfolding item_at
  dlm_avl_find avl_compar tree value = item_at (search_place avl_compar tree value).1
