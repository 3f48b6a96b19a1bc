-- ===== src/Rb/Walk.antt =====
-- The walks of rbtree.c, in order and in postorder, and `rb_replace_node`.
pub mod Laws
use kernel_utils.Base.{Option, none, some}
use kernel_utils.Binary.{left, right, leaf, node, root, up, plug, extreme, walk}
use kernel_utils.Rb.Tree.{Color, RbNode, RbTrail}

module _ {ℓ} {A : Type ℓ} where
  unfoldable pub rb_first : RbNode A → Option A
  unfolding extreme
  rb_first t = extreme left t

  unfoldable pub rb_last : RbNode A → Option A
  unfolding extreme
  rb_last t = extreme right t

  -- The node stands in the tree, so that RB_EMPTY_NODE does not hold of it.
  unfoldable pub rb_next : RbTrail A → RbNode A → Option A
  unfolding walk
  rb_next p t = walk right p t

  unfoldable pub rb_prev : RbTrail A → RbNode A → Option A
  unfolding walk
  rb_prev p t = walk left p t

  -- The node `victim` makes place for `new`, which takes its pointers and its colour.
  unfoldable pub rb_replace_node : RbTrail A → Color → RbNode A → A → A → RbNode A → RbNode A
  unfolding plug
  rb_replace_node p c l victim new r = plug p (node c l new r)

  unfoldable pub rb_left_deepest_node : RbNode A → Option A
  rb_left_deepest_node leaf = none
  rb_left_deepest_node (node c (node c' l' x' r') x r) = rb_left_deepest_node (node c' l' x' r')
  rb_left_deepest_node (node c leaf x (node c' l' x' r')) = rb_left_deepest_node (node c' l' x' r')
  rb_left_deepest_node (node c leaf x leaf) = some x

  unfoldable pub rb_first_postorder : RbNode A → Option A
  unfolding rb_left_deepest_node
  rb_first_postorder leaf = none
  rb_first_postorder (node c l x r) = rb_left_deepest_node (node c l x r)

  -- From the node at the end of a trail.
  unfoldable pub rb_next_postorder : RbTrail A → Option A
  unfolding rb_left_deepest_node
  rb_next_postorder root = none
  rb_next_postorder (up left c x (node c' l' x' r') p) = rb_left_deepest_node (node c' l' x' r')
  rb_next_postorder (up left c x leaf p) = some x
  rb_next_postorder (up right c x other p) = some x
