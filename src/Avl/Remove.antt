-- ===== src/Avl/Remove.antt =====
-- `dlm_avl_remove` of avl.c. The node to remove is given by its trail and its parts, which is what
-- its parent pointer, child index and child pointers say.
pub mod Laws
pub mod Unlink
use kernel_utils.Base.{
  Bool, true, false, Option, none, some, ◌>>=◌, ℕ, ◌+◌, ◌-◌, ◌%◌, ◌^◌, if◌then◌else◌, ltb,
}
use kernel_utils.Binary.{
  extreme, descend, Side, flip, leaf, left, make, node, pick, plug, right, root, side_eq, up,
}
use kernel_utils.Avl.Tree.{Balance, balance2child, even, heavy, Tree, Trail, AvlTree}
use kernel_utils.Avl.Rotation.{avl_rotation}

module _ {ℓ} {A : Type ℓ} where
  -- The loop: `t` is the subtree that has just become one level lower, and the trail its parents.
  pub remove_up : Trail A → Tree A → Option (Tree A)
  unfolding make plug flip
  remove_up root t = some t
  remove_up (up s even x other p) t = some (plug p (make s (heavy (flip s)) t x other))
  remove_up (up s (heavy lean) x other p) t = elim (side_eq s lean) [
    | true ↦ remove_up p (make s even t x other)
    | false ↦ avl_rotation (flip s) x other t >>= λ r. elim r.1 [
      | true ↦ remove_up p r.0
      | false ↦ some (plug p r.0)
    ]
  ]

  -- A node with two children takes the item of its neighbour, the last one on the other side of its
  -- child on side `s`; the neighbour, which has one child at most, is taken out instead.
  pub via_neighbour : Side → Trail A → Balance → Tree A → Tree A → Option (Tree A)
  unfolding remove_up extreme descend pick flip
  via_neighbour s p b l r =
      let near = pick s l r in
      let other = pick (flip s) l r in
      extreme (flip s) near >>= λ z.
      let (q, child) = descend (flip s) near (up s b z other p) in remove_up q child

  -- The neighbour is taken from the higher side.
  pub unlink : Trail A → Balance → Tree A → A → Tree A → Option (Tree A)
  unfolding remove_up via_neighbour balance2child
  unlink p b leaf x r = remove_up p r
  unlink p b (node b' l' x' r') x leaf = remove_up p (node b' l' x' r')
  unlink p b (node b' l' x' r') x (node c m y n) =
      via_neighbour (balance2child b) p b (node b' l' x' r') (node c m y n)

  -- The assertion fails on a tree that counts no nodes; a leaf is a null node.
  unfoldable pub dlm_avl_remove : AvlTree A → Trail A → Tree A → Option (AvlTree A)
  unfolding unlink
  dlm_avl_remove tree p leaf = none
  dlm_avl_remove tree p (node b l x r) =
      if ltb 0 tree.avl_numnodes
      then (unlink p b l x r >>= λ t.
          some (record { avl_root = t; avl_numnodes = tree.avl_numnodes - 1 }))
      else none
