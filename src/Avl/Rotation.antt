-- ===== src/Avl/Rotation.antt =====
-- `avl_rotation` of avl.c.
pub mod Laws
use kernel_utils.Base.{
  suc, ℕ, max, ◌≡◌, Bool, true, false, Option, none, some, List, [], ◌∷◌, ◌++◌, append_assoc, refl,
  arith, if◌then◌else◌, Returns, ◌+◌,
}
use kernel_utils.Binary.{Side, flip, inorder, leaf, left, make, node, pick, right, side_eq}
use kernel_utils.Avl.Tree.{Balance, even, heavy, Tree, height, IsAvl, Fits}

abbrev pub balance_eq : Balance → Balance → Bool
balance_eq even even = true
balance_eq (heavy s) (heavy t) = side_eq s t
balance_eq even (heavy t) = false
balance_eq (heavy s) even = false

-- `-balance`.
pub opposite : Balance → Balance
unfolding flip
opposite even = even
opposite (heavy s) = heavy (flip s)

-- `balance + avl_child2balance[s]`; `none` stands for -2 and for 2.
pub add_balance : Balance → Side → Option Balance
add_balance even s = some (heavy s)
add_balance (heavy left) left = none
add_balance (heavy left) right = some even
add_balance (heavy right) left = some even
add_balance (heavy right) right = none

module _ {ℓ} {A : Type ℓ} where
  -- Case 1: the child goes up, and the node becomes its child on the other side.
  pub single_rotation : Side → Balance → Tree A → A → Tree A → A → Tree A → Tree A × Bool
  unfolding make flip opposite
  single_rotation l child_bal near y cright x far = (
    make l child_bal near y (make l (opposite child_bal) cright x far),
    balance_eq child_bal even,
  )

  -- Case 2: the grandchild goes up.
  pub double_rotation : Side → Tree A → A → Tree A → A → Tree A → Option (Tree A × Bool)
  unfolding make flip pick
  double_rotation l near y leaf x far = none
  double_rotation l near y (node b gl z gr) x far =
      let r = flip l in
      let child_bal = if balance_eq b (heavy r) then heavy l else even in
      let node_bal = if balance_eq b (heavy l) then heavy r else even in
      some (
        make l even (make l child_bal near y (pick l gl gr)) z
            (make l node_bal (pick r gl gr) x far),
        true,
      )

  -- The node has item `x`, the child `child` on its overly heavy side `l`, and the child `far`. The
  -- result is the new subtree, and whether it is lower than the old one.
  unfoldable pub avl_rotation : Side → A → Tree A → Tree A → Option (Tree A × Bool)
  unfolding single_rotation double_rotation add_balance pick flip
  avl_rotation l x leaf far = none
  avl_rotation l x (node b cl y cr) far =
      let r = flip l in
      let near = pick l cl cr in
      let cright = pick r cl cr in
      if balance_eq b (heavy r)
      then double_rotation l near y cright x far
      else elim (add_balance b r) [
        | none ↦ none
        | some child_bal ↦ some (single_rotation l child_bal near y cright x far)
      ]
