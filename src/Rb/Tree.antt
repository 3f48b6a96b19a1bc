-- ===== src/Rb/Tree.antt =====
-- The nodes of rbtree.c (`struct rb_node`): binary trees whose labels are colours, and what makes
-- them red-black trees.
pub mod Shape
use kernel_utils.Base.{ℕ, suc, ◌≡◌}
use kernel_utils.Binary
use kernel_utils.Binary.{leaf, node, root, up}

-- RB_RED and RB_BLACK.
pub data Color : Type 0 where
  red black : Color

abbrev pub RbNode {ℓ} : Type ℓ → Type ℓ
RbNode A = Binary.Tree Color A

abbrev pub RbTrail {ℓ} : Type ℓ → Type ℓ
RbTrail A = Binary.Trail Color A

module _ {ℓ} {A : Type ℓ} where
  -- `if (tmp) rb_set_parent_color(tmp, parent, color)`: the colour is set, if there is a node.
  unfoldable pub recolor : Color → RbNode A → RbNode A
  recolor c leaf = leaf
  recolor c (node c' l x r) = node c l x r

  -- The black nodes on the way down on the left.
  unfoldable pub black_height : RbNode A → ℕ
  black_height leaf = 0
  black_height (node red l x r) = black_height l
  black_height (node black l x r) = suc (black_height l)

  -- A null child counts as black.
  abbrev pub IsBlack : RbNode A → Type 0
  IsBlack leaf = Unit
  IsBlack (node black l x r) = Unit
  IsBlack (node red l x r) = ⊥

  -- Every path down has the same number of black nodes, and the children of a red node are black.
  unfoldable pub IsRb : RbNode A → Type 0
  unfolding black_height
  IsRb leaf = Unit
  IsRb (node red l x r) =
      IsRb l × IsRb r × (black_height l ≡ black_height r) × IsBlack l × IsBlack r
  IsRb (node black l x r) = IsRb l × IsRb r × (black_height l ≡ black_height r)

  -- The properties of a whole tree: also, the root is black.
  abbrev pub IsRbTree : RbNode A → Type 0
  IsRbTree t = IsRb t × IsBlack t

  -- The parent at the end of a trail is there and black, so that a red node may hang there.
  abbrev pub AllowsRed : RbTrail A → Type 0
  AllowsRed root = ⊥
  AllowsRed (up s red x other p) = ⊥
  AllowsRed (up s black x other p) = Unit

  -- A subtree is red only where the trail allows it.
  abbrev pub Admits : RbTrail A → RbNode A → Type 0
  Admits p leaf = Unit
  Admits p (node black l x r) = Unit
  Admits p (node red l x r) = AllowsRed p

  -- A trail is right for a subtree of black height `h`.
  unfoldable pub IsRbTrail : RbTrail A → ℕ → Type 0
  unfolding IsRb black_height
  IsRbTrail root h = Unit
  IsRbTrail (up s red x other p) h =
      IsRb other × (black_height other ≡ h) × IsBlack other × AllowsRed p × IsRbTrail p h
  IsRbTrail (up s black x other p) h = IsRb other × (black_height other ≡ h) × IsRbTrail p (suc h)
