-- ===== src/Avl/Rotation/Laws.antt =====
-- What a rotation keeps and what it restores.
use kernel_utils.Base.{
  suc, ◌≡◌, Bool, true, append_assoc, arith, if◌then◌else◌, Returns, Ensures, ◌+◌, not,
}
use kernel_utils.Binary.{Side, flip, inorder, leaf, left, make, node, pick, right}
use kernel_utils.Avl.Tree.{even, heavy, Tree, height, IsAvl}
use kernel_utils.Avl.Rotation.{balance_eq, avl_rotation, opposite}

module _ {ℓ} {A : Type ℓ} where
  abbrev pub is_even : Tree A → Bool
  is_even leaf = true
  is_even (node b l x r) = balance_eq b even

  -- The subtree that a rotation returns is balanced; it is lower than the unbalanced one exactly if
  -- the child was not even.
  pub record IsRotated (child : Tree A) (result : Tree A × Bool) : Type 0 where
    pub balanced : IsAvl result.0
    pub shrunk : result.1 ≡ not (is_even child)
    pub level : height result.0 + (if result.1 then 1 else 0) ≡ suc (height child)

  abbrev IsUneven : Side → A → Tree A → Tree A → Type 0
  IsUneven s x child far = IsAvl child × IsAvl far × (height child ≡ suc (suc (height far)))

  -- At a node whose child on one side is two levels higher than the other one, both balanced,
  -- `avl_rotation` succeeds: the new subtree is balanced, it is reported as lower exactly if the
  -- child was not even, and it is as high as it should be: one level above the child, or as high as
  -- the child if reported as lower.
  pub avl_rotation-IsRotated :
      (s : Side) (x : A) (child far : Tree A)
      → IsAvl child
      → IsAvl far
      → height child ≡ suc (suc (height far))
      → Returns (avl_rotation s x child far) (IsRotated child)
  unfolding avl_rotation make pick flip opposite IsAvl height
  avl_rotation-IsRotated s x leaf far h k e = absurd (ground arith)
  avl_rotation-IsRotated left x (node even cl y cr) far h k e = ground arith
  avl_rotation-IsRotated left x (node (heavy left) cl y cr) far h k e = ground arith
  avl_rotation-IsRotated left x (node (heavy right) cl y leaf) far h k e = absurd (ground arith)
  avl_rotation-IsRotated left x (node (heavy right) cl y (node b gl z gr)) far h k e = ground arith
  avl_rotation-IsRotated right x (node even cl y cr) far h k e = ground arith
  avl_rotation-IsRotated right x (node (heavy right) cl y cr) far h k e = ground arith
  avl_rotation-IsRotated right x (node (heavy left) leaf y cr) far h k e = absurd (ground arith)
  avl_rotation-IsRotated right x (node (heavy left) (node b gl z gr) y cr) far h k e = ground arith

  -- A rotation keeps the order of the items.
  pub inorder-avl_rotation :
      (s : Side) (x : A) (child far : Tree A)
      → Ensures (avl_rotation s x child far) (λ r. inorder r.0 ≡ inorder (make s even child x far))
  unfolding avl_rotation make pick flip opposite inorder
  inorder-avl_rotation s x leaf far = tt
  inorder-avl_rotation left x (node even cl y cr) far = simp append_assoc
  inorder-avl_rotation left x (node (heavy left) cl y cr) far = simp append_assoc
  inorder-avl_rotation left x (node (heavy right) cl y leaf) far = tt
  inorder-avl_rotation left x (node (heavy right) cl y (node b gl z gr)) far = simp append_assoc
  inorder-avl_rotation right x (node even cl y cr) far = simp append_assoc
  inorder-avl_rotation right x (node (heavy right) cl y cr) far = simp append_assoc
  inorder-avl_rotation right x (node (heavy left) leaf y cr) far = tt
  inorder-avl_rotation right x (node (heavy left) (node b gl z gr) y cr) far = simp append_assoc
