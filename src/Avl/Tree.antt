-- ===== src/Avl/Tree.antt =====
-- The nodes of avl.c (`struct avl_node`, avl_impl.h): binary trees whose labels are balances.
use kernel_utils.Base.{ℕ, suc, max, ◌≡◌}
use kernel_utils.Binary
use kernel_utils.Binary.{Side, left, right, leaf, node, root, up}

-- The balance of a node: `even` is 0, `heavy left` is -1 and `heavy right` is 1.
pub data Balance : Type 0 where
  even : Balance
  heavy : Side → Balance

-- `avl_balance2child[1 + balance]`.
unfoldable pub balance2child : Balance → Side
balance2child even = left
balance2child (heavy s) = s

-- The balance says which child is higher, and by at most one.
abbrev pub Fits : Balance → ℕ → ℕ → Type 0
Fits even l r = l ≡ r
Fits (heavy left) l r = l ≡ suc r
Fits (heavy right) l r = r ≡ suc l

abbrev pub Tree {ℓ} : Type ℓ → Type ℓ
Tree A = Binary.Tree Balance A

abbrev pub Trail {ℓ} : Type ℓ → Type ℓ
Trail A = Binary.Trail Balance A

module _ {ℓ} {A : Type ℓ} where
  unfoldable pub height : Tree A → ℕ
  height leaf = 0
  height (node b l x r) = suc (max (height l) (height r))

  unfoldable pub IsAvl : Tree A → Type 0
  IsAvl leaf = Unit
  IsAvl (node b l x r) = IsAvl l × IsAvl r × Fits b (height l) (height r)

  -- A trail is right for a subtree of height `h`: plugging one in makes an AVL tree.
  unfoldable pub IsTrail : Trail A → ℕ → Type 0
  unfolding height IsAvl
  IsTrail root h = Unit
  IsTrail (up left b x other p) h =
      IsAvl other × Fits b h (height other) × IsTrail p (suc (max h (height other)))
  IsTrail (up right b x other p) h =
      IsAvl other × Fits b (height other) h × IsTrail p (suc (max (height other) h))

-- `struct avl_tree`; the comparison function is an argument of the functions that call it.
pub record AvlTree {ℓ} (A : Type ℓ) : Type ℓ where
  pub avl_root : Tree A
  pub avl_numnodes : ℕ
