-- ===== src/Rb/Erase.antt =====
-- `rb_erase` of rbtree.c: `__rb_erase_augmented` of rbtree_augmented.h, which takes the node out, and
-- `____rb_erase_color`, which makes up for a missing black node.
pub mod Siblings
pub mod Loop
pub mod Laws
use kernel_utils.Base.{not, Bool, true, false, Option, none, some, if◌then◌else◌, ◌>>=◌}
use kernel_utils.Binary.{
  Side, left, right, flip, leaf, node, make, pick, root, up, plug, extreme, descend,
}
use kernel_utils.Rb.Tree.{Color, red, black, RbNode, RbTrail, recolor}
use kernel_utils.Rb.Insert.{is_red_node}

abbrev pub is_red : Color → Bool
is_red red = true
is_red black = false

module _ {ℓ} {A : Type ℓ} where
  -- Case 4: the sibling, with item `y` and children `near` and `far`, goes up and takes the parent's
  -- colour `c`; the parent and the far child become black.
  pub rotate_parent : Side → Color → RbNode A → A → RbNode A → A → RbNode A → RbNode A
  unfolding make recolor
  rotate_parent s c t x near y far = make s c (make s black t x near) y (recolor black far)

  -- Case 3, then case 4: the near child goes up in the place of the sibling first.
  pub rotate_sibling : Side → Color → RbNode A → A → RbNode A → A → RbNode A → Option (RbNode A)
  unfolding make recolor rotate_parent pick flip
  rotate_sibling s c t x leaf y far = none
  rotate_sibling s c t x (node nc l z r) y far = some (
      rotate_parent s c t x (pick s l r) z (make s black (recolor black (pick (flip s) l r)) y far))

  -- Cases 2 to 4, at a sibling that is not red: the subtree in the parent's place, and whether it
  -- lacks a black node still. `c` is the parent's colour. In case 2 the sibling becomes red, and
  -- either the parent, if it is red, becomes black, or the loop goes on at the parent.
  unfoldable pub fix_sibling : Side → Color → RbNode A → A → RbNode A → Option (RbNode A × Bool)
  unfolding make pick flip rotate_parent rotate_sibling
  fix_sibling s c t x leaf = none
  fix_sibling s c t x (node sc l y r) =
      let near = pick s l r in
      let far = pick (flip s) l r in
      if is_red_node far
      then some (rotate_parent s c t x near y far, false)
      else if is_red_node near
      then (rotate_sibling s c t x near y far >>= λ u. some (u, false))
      else some (make s black t x (node red l y r), not (is_red c))

  -- The loop: `t` lacks a black node, and the trail holds its parents.
  pub ____rb_erase_color : RbTrail A → RbNode A → Option (RbNode A)
  unfolding plug make pick flip recolor
  ____rb_erase_color root t = some t
  ____rb_erase_color (up s c x leaf p) t = none
  ____rb_erase_color (up s c x (node black l y r) p) t =
      fix_sibling s c t x (node black l y r) >>= λ u. elim u.1 [
        | true ↦ ____rb_erase_color p u.0
        | false ↦ some (plug p u.0)
      ]
  ____rb_erase_color (up s c x (node red l y r) p) t =
      -- Case 1: the red sibling goes up and takes the parent's colour; the parent becomes red, and
      -- the near child, which becomes black, is its new sibling.
      fix_sibling s red t x (recolor black (pick s l r)) >>= λ u.
      some (plug p (make s c u.0 y (pick (flip s) l r)))

  -- A node with one child: the child takes its place and its colour.
  pub replace_by_child : RbTrail A → Color → RbNode A → Option (RbNode A)
  unfolding plug recolor ____rb_erase_color
  replace_by_child p c (node k l y r) = some (plug p (node c l y r))
  replace_by_child p black leaf = ____rb_erase_color p leaf
  replace_by_child p red leaf = some (plug p leaf)

  -- The colour of the leftmost node.
  unfoldable pub leftmost_color : RbNode A → Option Color
  leftmost_color leaf = none
  leftmost_color (node c leaf x r) = some c
  leftmost_color (node c (node c' l' x' r') x r) = leftmost_color (node c' l' x' r')

  -- The place of the successor, once it has moved: its right child `child2` becomes black, or, where
  -- there is none and the successor was black, a black node is missing there.
  pub close_gap : RbTrail A → Color → RbNode A → Option (RbNode A)
  unfolding plug ____rb_erase_color
  close_gap q sc (node k l y r) = some (plug q (node black l y r))
  close_gap q black leaf = ____rb_erase_color q leaf
  close_gap q red leaf = some (plug q leaf)

  -- The node at the end of the trail is taken out. With two children, its successor takes its place
  -- and its colour.
  unfoldable pub rb_erase : RbTrail A → Color → RbNode A → A → RbNode A → Option (RbNode A)
  unfolding replace_by_child close_gap extreme descend leftmost_color
  rb_erase p c leaf x r = replace_by_child p c r
  rb_erase p c (node k l y m) x leaf = replace_by_child p c (node k l y m)
  rb_erase p c (node k l y m) x (node k' l' y' m') = extreme left (node k' l' y' m') >>= λ z.
      leftmost_color (node k' l' y' m') >>= λ sc.
      let (q, child2) = descend left (node k' l' y' m') (up right c z (node k l y m) p) in
      close_gap q sc child2
