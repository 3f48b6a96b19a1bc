-- ===== src/Rb/Insert.antt =====
-- `__rb_insert` of rbtree.c, which `rb_insert_color` calls after `rb_link_node`.
pub mod Laws
use kernel_utils.Base.{Bool, true, false, Option, none, some, if◌then◌else◌}
use kernel_utils.Binary.{Side, flip, side_eq, leaf, node, make, pick, root, up, plug}
use kernel_utils.Rb.Tree.{Color, red, black, RbNode, RbTrail, recolor}

module _ {ℓ} {A : Type ℓ} where
  -- Case 3: the grandparent goes down on the other side of the parent, which takes its colour `c`.
  -- `n` is the red node below the parent, and `tmp` the parent's other child.
  pub rotate_gparent : Side → Color → RbNode A → A → RbNode A → A → RbNode A → RbNode A
  unfolding make recolor
  rotate_gparent g c n parent tmp gparent uncle =
      make g c n parent (make g red (recolor black tmp) gparent uncle)

  -- Cases 2 and 3, where the uncle is black: the parent hangs on side `g` of the grandparent, and
  -- the node on side `s` of the parent. In case 2, where the sides differ, the node and the parent
  -- change places first.
  pub rotate_insert :
      Side → Side → Color → RbNode A → A → RbNode A → A → RbNode A → Option (RbNode A)
  unfolding rotate_gparent pick flip
  rotate_insert g s c leaf parent sibling gparent uncle = none
  rotate_insert g s c (node nc l x r) parent sibling gparent uncle =
      if side_eq g s
      then some (rotate_gparent g c (node nc l x r) parent sibling gparent uncle)
      else some (
          rotate_gparent g c (make g red sibling parent (recolor black (pick g l r))) x
            (pick (flip g) l r) gparent uncle)

  -- `if (tmp && rb_is_red(tmp))`.
  unfoldable pub is_red_node : RbNode A → Bool
  is_red_node leaf = false
  is_red_node (node red l x r) = true
  is_red_node (node black l x r) = false

  -- The loop, at a red node with its parents. A red parent with no parent of its own is a null
  -- dereference.
  pub __rb_insert : RbTrail A → RbNode A → Option (RbNode A)
  unfolding plug make recolor rotate_insert
  __rb_insert root t = some (recolor black t)
  __rb_insert (up s black x sibling p) t = some (plug (up s black x sibling p) t)
  __rb_insert (up s red x sibling root) t = none
  __rb_insert (up s red x sibling (up g c z uncle p)) t = elim (is_red_node uncle) [
    | true ↦ __rb_insert p (make g red (make s black t x sibling) z (recolor black uncle))
    | false ↦ elim (rotate_insert g s c t x sibling z uncle) [
      | none ↦ none
      | some u ↦ some (plug p u)
    ]
  ]

  -- `rb_link_node` at a null child, and `rb_insert_color`.
  unfoldable pub rb_insert_color : RbTrail A → A → Option (RbNode A)
  unfolding __rb_insert
  rb_insert_color p x = __rb_insert p (node red leaf x leaf)
