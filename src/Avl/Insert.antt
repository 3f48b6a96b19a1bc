-- ===== src/Avl/Insert.antt =====
-- `dlm_avl_insert` of avl.c.
pub mod Laws
use kernel_utils.Base.{
  Bool, true, false, Option, none, some, ◌>>=◌, ℕ, ◌+◌, ◌%◌, ◌^◌, if◌then◌else◌,
}
use kernel_utils.Binary.{Side, leaf, make, node, plug, root, side_eq, up}
use kernel_utils.Avl.Tree.{Balance, even, heavy, Tree, Trail, AvlTree}
use kernel_utils.Avl.Rotation.{avl_rotation}

module _ {ℓ} {A : Type ℓ} where
  -- The loop: `t` is the subtree that has just become one level higher, and the trail its parents.
  -- An even parent leans towards `t` and passes the growth on; a parent that leans the other way
  -- becomes even; a parent that leans towards `t` is rotated.
  pub insert_up : Trail A → Tree A → Option (Tree A)
  unfolding make plug
  insert_up root t = some t
  insert_up (up s even x other p) t = insert_up p (make s (heavy s) t x other)
  insert_up (up s (heavy lean) x other p) t =
      if side_eq s lean
      then avl_rotation s x t other >>= (λ r. some (plug p r.0))
      else some (plug p (make s even t x other))

  -- `where_` is the place that `dlm_avl_find` has left behind.
  unfoldable pub dlm_avl_insert : AvlTree A → A → Trail A → Option (AvlTree A)
  unfolding insert_up
  dlm_avl_insert tree new_data where_ = insert_up where_ (node even leaf new_data leaf) >>= λ t.
      some (record { avl_root = t; avl_numnodes = (tree.avl_numnodes + 1) % 2 ^ 64 })
