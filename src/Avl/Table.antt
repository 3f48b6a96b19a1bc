-- ===== src/Avl/Table.antt =====
-- The rest of avl.c: the operations on a whole tree that put the search, the insertion, the removal
-- and the walks together.
pub mod Valid
pub mod Add
pub mod Remove
pub mod Here
pub mod Update
use kernel_utils.Base.{
  Bool, true, false, Option, none, some, ◌>>=◌, ℕ, Ordering, lt, eq, gt, if◌then◌else◌, ◌==◌,
}
use kernel_utils.Binary.{Side, flip, leaf, left, node, pick, right, root, up}
use kernel_utils.Avl.Tree.{Tree, Trail, AvlTree}
use kernel_utils.Avl.Find.{search_place, dlm_avl_find}
use kernel_utils.Avl.Insert.{dlm_avl_insert}
use kernel_utils.Avl.Remove.{dlm_avl_remove}
use kernel_utils.Avl.Walk.{dlm_avl_walk}

module _ {ℓ} {A : Type ℓ} where
  unfoldable pub dlm_avl_create : AvlTree A
  dlm_avl_create = record { avl_root = leaf; avl_numnodes = 0 }

  unfoldable pub dlm_avl_numnodes : AvlTree A → ℕ
  dlm_avl_numnodes tree = tree.avl_numnodes

  unfoldable pub dlm_avl_is_empty : AvlTree A → Bool
  dlm_avl_is_empty tree = tree.avl_numnodes == 0

  -- The assertion fails, which is a fault here, if an equal item is in the tree.
  unfoldable pub dlm_avl_add : (A → A → Ordering) → AvlTree A → A → Option (AvlTree A)
  unfolding dlm_avl_find dlm_avl_insert
  dlm_avl_add avl_compar tree new_node = elim (dlm_avl_find avl_compar tree new_node) [
    | some found ↦ none
    | none ↦ dlm_avl_insert tree new_node (search_place avl_compar tree new_node).0
  ]

  -- The loop of `dlm_avl_insert_here`: down on side `s` to a null child.
  pub bottom : Side → Tree A → Trail A → Trail A
  bottom s leaf p = p
  bottom left (node b l x r) p = bottom left l (up left b x r p)
  bottom right (node b l x r) p = bottom right r (up right b x l p)

  -- `here` is the node at the end of the trail. The new item goes to the end of the child on the
  -- side `direction`, or in its place if it is null.
  unfoldable pub dlm_avl_insert_here : AvlTree A → A → Trail A → Tree A → Side → Option (AvlTree A)
  unfolding bottom dlm_avl_insert pick flip
  dlm_avl_insert_here tree new_data p leaf direction = none
  dlm_avl_insert_here tree new_data p (node b l x r) direction = dlm_avl_insert tree new_data (
      bottom (flip direction) (pick direction l r) (up direction b x (pick (flip direction) l r) p))

  -- AVL_REINSERT.
  unfoldable pub reinsert :
      (A → A → Ordering) → AvlTree A → Trail A → Tree A → A → Option (AvlTree A)
  unfolding dlm_avl_remove dlm_avl_add
  reinsert avl_compar t p u obj = dlm_avl_remove t p u >>= λ t'. dlm_avl_add avl_compar t' obj

  -- A comparison with a neighbour that may be NULL.
  unfoldable pub compares : (A → A → Ordering) → A → Option A → Ordering → Bool
  compares avl_compar obj none o = false
  compares avl_compar obj (some neighbor) lt = elim (avl_compar obj neighbor) [
    | lt ↦ true
    | _ ↦ false
  ]
  compares avl_compar obj (some neighbor) eq = elim (avl_compar obj neighbor) [
    | eq ↦ true
    | _ ↦ false
  ]
  compares avl_compar obj (some neighbor) gt = elim (avl_compar obj neighbor) [
    | gt ↦ true
    | _ ↦ false
  ]

  -- The item `obj` of the node at the end of the trail has been changed in place. The result says
  -- whether the node was moved.
  unfoldable pub dlm_avl_update :
      (A → A → Ordering) → AvlTree A → Trail A → Tree A → A → Option (AvlTree A × Bool)
  unfolding dlm_avl_walk reinsert compares
  dlm_avl_update avl_compar t p u obj =
      if compares avl_compar obj (dlm_avl_walk left p u) lt
      then (reinsert avl_compar t p u obj >>= λ t'. some (t', true))
      else if compares avl_compar obj (dlm_avl_walk right p u) gt
      then (reinsert avl_compar t p u obj >>= λ t'. some (t', true))
      else some (t, false)

  -- Its assertion: `obj` is not above the next item.
  unfoldable pub dlm_avl_update_lt :
      (A → A → Ordering) → AvlTree A → Trail A → Tree A → A → Option (AvlTree A × Bool)
  unfolding dlm_avl_walk reinsert compares
  dlm_avl_update_lt avl_compar t p u obj =
      if compares avl_compar obj (dlm_avl_walk right p u) gt
      then none
      else if compares avl_compar obj (dlm_avl_walk left p u) lt
      then (reinsert avl_compar t p u obj >>= λ t'. some (t', true))
      else some (t, false)

  -- Its assertion: `obj` is not below the previous item.
  unfoldable pub dlm_avl_update_gt :
      (A → A → Ordering) → AvlTree A → Trail A → Tree A → A → Option (AvlTree A × Bool)
  unfolding dlm_avl_walk reinsert compares
  dlm_avl_update_gt avl_compar t p u obj =
      if compares avl_compar obj (dlm_avl_walk left p u) lt
      then none
      else if compares avl_compar obj (dlm_avl_walk right p u) gt
      then (reinsert avl_compar t p u obj >>= λ t'. some (t', true))
      else some (t, false)
