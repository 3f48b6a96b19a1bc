-- ===== src/Avl/Table/Here.antt =====
-- `dlm_avl_insert_here`: the new item goes next to a node that the caller names.
use kernel_utils.Base.{◌<◌, ◌^◌, ◌≡◌, [], ◌∷◌, ◌++◌, append_assoc, append-nil, refl, ◌+◌, ◌∙◌, sym}
use kernel_utils.Binary.{
  Side, after, before, flip, inorder, leaf, left, make, node, pick, plug, right, up,
}
use kernel_utils.Avl.Tree.{Balance, Tree, Trail, AvlTree}
use kernel_utils.Avl.Table.{bottom, dlm_avl_insert_here}
use kernel_utils.Avl.Table.Valid.{IsSound}
use kernel_utils.Avl.Table.Add.{Inserts, dlm_avl_insert-Inserts}
use kernel_utils.Avl.Table.Remove.{lower, upper}

module _ {ℓ} {A : Type ℓ} where
  plug-bottom : (s : Side) (t : Tree A) (p : Trail A) → plug (bottom s t p) leaf ≡ plug p t
  unfolding bottom plug make
  plug-bottom s leaf p = refl
  plug-bottom left (node b l x r) p = plug-bottom left l (up left b x r p)
  plug-bottom right (node b l x r) p = plug-bottom right r (up right b x l p)

  bottom_left :
      (t : Tree A) (p : Trail A)
      → (before (bottom left t p) ≡ before p) × (after (bottom left t p) ≡ inorder t ++ after p)
  unfolding bottom before after inorder
  bottom_left leaf p = (refl, refl)
  bottom_left (node b l x r) p =
      let (e, f) = bottom_left l (up left b x r p) in (e, f ∙ simp append_assoc)

  bottom_right :
      (t : Tree A) (p : Trail A)
      → (before (bottom right t p) ≡ before p ++ inorder t) × (after (bottom right t p) ≡ after p)
  unfolding bottom before after inorder
  bottom_right leaf p = (sym (append-nil (before p)), refl)
  bottom_right (node b l x r) p =
      let (e, f) = bottom_right r (up right b x l p) in (e ∙ simp append_assoc, f)

  -- On a sound tree (balanced and counted), whose count is far enough from its bound,
  -- `dlm_avl_insert_here` succeeds at every node, keeps the tree sound, and puts the new item just
  -- after the item of the node, or just before it.
  pub dlm_avl_insert_here-Inserts :
      (tree : AvlTree A) (v : A) (p : Trail A) (b : Balance) (l : Tree A) (x : A) (r : Tree A)
      → IsSound tree
      → plug p (node b l x r) ≡ tree.avl_root
      → tree.avl_numnodes + 1 < 2 ^ 64
      → Inserts v
          (lower p l ++ (x ∷ []))
          (upper p r)
          (dlm_avl_insert_here tree v p (node b l x r) right)
        × Inserts v (lower p l) (x ∷ upper p r) (dlm_avl_insert_here tree v p (node b l x r) left)
  unfolding dlm_avl_insert_here pick flip before after plug make
  dlm_avl_insert_here-Inserts tree v p b l x r s e small =
      let after_ = bottom_left r (up right b x l p) in
      let before_ = bottom_right l (up left b x r p) in
      (
        rw append_assoc (
            rw (after_.0, after_.1) at
              (dlm_avl_insert-Inserts tree v (bottom left r (up right b x l p)) s
                (plug-bottom left r (up right b x l p) ∙ e) small)),
        rw (before_.0, before_.1) at
            (dlm_avl_insert-Inserts tree v (bottom right l (up left b x r p)) s
              (plug-bottom right l (up left b x r p) ∙ e) small),
      )
