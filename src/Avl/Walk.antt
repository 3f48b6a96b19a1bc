-- ===== src/Avl/Walk.antt =====
-- `dlm_avl_first`, `dlm_avl_last`, `dlm_avl_walk` (AVL_NEXT, AVL_PREV) and `dlm_avl_nearest` of avl.c.
pub mod Laws
use kernel_utils.Base.{Bool, true, false, Option, none, some, if◌then◌else◌}
use kernel_utils.Binary.{
  Side, extreme, flip, leaf, left, make, node, pick, right, root, side_eq, up, walk,
}
use kernel_utils.Avl.Tree.{Tree, Trail, AvlTree}

module _ {ℓ} {A : Type ℓ} where
  -- The loop of `dlm_avl_first` and `dlm_avl_last`, with `prev` the node passed before.
  pub farthest : Side → Tree A → Option A → Option A
  farthest s leaf prev = prev
  farthest left (node b l x r) prev = farthest left l (some x)
  farthest right (node b l x r) prev = farthest right r (some x)

  unfoldable pub dlm_avl_first : AvlTree A → Option A
  unfolding farthest
  dlm_avl_first tree = farthest left tree.avl_root none

  unfoldable pub dlm_avl_last : AvlTree A → Option A
  unfolding farthest
  dlm_avl_last tree = farthest right tree.avl_root none

  -- From the node at the end of a trail to the next one on side `s`; NULL at a null node.
  unfoldable pub dlm_avl_walk : Side → Trail A → Tree A → Option A
  unfolding walk
  dlm_avl_walk s p oldnode = walk s p oldnode

  -- From an insertion point, whose parent is the first node of the trail.
  unfoldable pub dlm_avl_nearest : Trail A → Side → Option A
  unfolding dlm_avl_walk make
  dlm_avl_nearest root direction = none
  dlm_avl_nearest (up child b x other p) direction =
      if side_eq child direction
      then dlm_avl_walk direction p (make child b leaf x other)
      else some x
