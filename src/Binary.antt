-- ===== src/Binary.antt =====
-- Binary trees by value, as the nodes of avl.c and rbtree.c form them, and the way up from a node to
-- the root, which the parent pointers hold, as a trail. A node has a label, its balance or its colour.
pub mod Order
use kernel_utils.Base.{Bool, true, false, Option, none, some, List, [], ◌∷◌, ◌++◌, if◌then◌else◌}

-- A child index: `left` is 0 and `right` is 1.
pub data Side : Type 0 where
  left right : Side

-- `1 - child`.
unfoldable pub flip : Side → Side
flip left = right
flip right = left

abbrev pub side_eq : Side → Side → Bool
side_eq left left = true
side_eq right right = true
side_eq left right = false
side_eq right left = false

pub data Tree {ℓ} (L : Type 0) (A : Type ℓ) : Type ℓ where
  leaf : Tree L A
  node : L → Tree L A → A → Tree L A → Tree L A

-- The parents of a node, innermost first: the side on which the node hangs, the parent's label and
-- item, and the parent's other child.
pub data Trail {ℓ} (L : Type 0) (A : Type ℓ) : Type ℓ where
  root : Trail L A
  up : Side → L → A → Tree L A → Trail L A → Trail L A

module _ {ℓ} {L : Type 0} {A : Type ℓ} where
  -- A node whose child on side `s` is `near`, and whose other child is `far`.
  unfoldable pub make : Side → L → Tree L A → A → Tree L A → Tree L A
  make left b near x far = node b near x far
  make right b near x far = node b far x near

  -- The child on side `s`, of a node with children `l` and `r`.
  unfoldable pub pick : Side → Tree L A → Tree L A → Tree L A
  pick left l r = l
  pick right l r = r

  unfoldable pub inorder : Tree L A → List A
  inorder leaf = []
  inorder (node b l x r) = inorder l ++ (x ∷ inorder r)

  -- The whole tree, with a subtree put where a trail ends.
  unfoldable pub plug : Trail L A → Tree L A → Tree L A
  unfolding make
  plug root t = t
  plug (up s b x other p) t = plug p (make s b t x other)

  -- The items before and after the place where a trail ends.
  unfoldable pub before : Trail L A → List A
  unfolding inorder
  before root = []
  before (up left b x other p) = before p
  before (up right b x other p) = before p ++ (inorder other ++ (x ∷ []))

  unfoldable pub after : Trail L A → List A
  unfolding inorder
  after root = []
  after (up left b x other p) = x ∷ (inorder other ++ after p)
  after (up right b x other p) = after p

  -- The last node of a subtree in direction `d`: its item.
  unfoldable pub extreme : Side → Tree L A → Option A
  extreme d leaf = none
  extreme left (node b leaf x r) = some x
  extreme left (node b (node b' l' x' r') x r) = extreme left (node b' l' x' r')
  extreme right (node b l x leaf) = some x
  extreme right (node b l x (node b' l' x' r')) = extreme right (node b' l' x' r')

  -- The same walk: the trail of that node, and the only child that it can have.
  unfoldable pub descend : Side → Tree L A → Trail L A → Trail L A × Tree L A
  descend d leaf p = (p, leaf)
  descend left (node b leaf x r) p = (p, r)
  descend left (node b (node b' l' x' r') x r) p = descend left (node b' l' x' r') (up left b x r p)
  descend right (node b l x leaf) p = (p, l)
  descend right (node b l x (node b' l' x' r')) p =
      descend right (node b' l' x' r') (up right b x l p)

  -- The way back through the parents, until one is reached from its child on the other side.
  unfoldable pub climb : Side → Trail L A → Option A
  unfolding flip
  climb s root = none
  climb s (up was_child b x other p) =
      let rest = climb s p in if side_eq was_child (flip s) then some x else rest

  -- From the node at the end of a trail to the next one on side `s`; NULL at a null node.
  unfoldable pub walk : Side → Trail L A → Tree L A → Option A
  unfolding climb extreme pick flip
  walk s p leaf = none
  walk s p (node b l x r) = elim (pick s l r) [
    | leaf ↦ climb s p
    | node b' l' x' r' ↦ extreme (flip s) (node b' l' x' r')
  ]
