-- ===== src/Avl/Table/Remove.antt =====
-- Removing a node: `dlm_avl_remove`.
use kernel_utils.Base.{
  ◌-◌, ◌≡◌, true, some, List, ◌∷◌, ◌++◌, append_assoc, arith, Returns_both, ◌∙◌, sym, ap, Ordering,
  length, length_middle, ltb,
}
use kernel_utils.Binary.{after, before, inorder, node, plug}
use kernel_utils.Binary.Order.{inorder-plug}
use kernel_utils.Avl.Tree.{Balance, Tree, IsAvl, Trail, AvlTree}
use kernel_utils.Avl.Shape.{plug-IsAvl_inv}
use kernel_utils.Avl.Order.{IsSorted-without}
use kernel_utils.Avl.Remove.{unlink, dlm_avl_remove}
use kernel_utils.Avl.Remove.Unlink.{unlink-IsAvl, inorder-unlink}
use kernel_utils.Avl.Table.Valid.{items, IsSound, IsValid}

module _ {ℓ} {A : Type ℓ} where
  -- What is before and after a node, in order.
  abbrev pub lower : Trail A → Tree A → List A
  lower p l = before p ++ inorder l

  abbrev pub upper : Trail A → Tree A → List A
  upper p r = inorder r ++ after p

  pub items-at :
      (p : Trail A) (b : Balance) (l : Tree A) (x : A) (r : Tree A)
      → inorder (plug p (node b l x r)) ≡ lower p l ++ (x ∷ upper p r)
  unfolding inorder
  items-at p b l x r = inorder-plug p (node b l x r) ∙ simp append_assoc

  -- At every node of a sound tree `dlm_avl_remove` succeeds, and what is left is sound and has the
  -- other items in their order.
  pub dlm_avl_remove-IsSound :
      (tree : AvlTree A) (p : Trail A) (b : Balance) (l : Tree A) (x : A) (r : Tree A)
      → IsSound tree
      → plug p (node b l x r) ≡ tree.avl_root
      → (tree' : AvlTree A) × (dlm_avl_remove tree p (node b l x r) ≡ some tree')
        × IsSound tree'
        × (items tree ≡ lower p l ++ (x ∷ upper p r))
        × (items tree' ≡ lower p l ++ upper p r)
  unfolding dlm_avl_remove
  dlm_avl_remove-IsSound tree p b l x r s e =
      let old : items tree ≡ lower p l ++ (x ∷ upper p r) =
        ap inorder (sym e) ∙ items-at p b l x r in
      let fits = plug-IsAvl_inv p (node b l x r) (rw e s.balanced) in
      let (t, returns, avl, order) =
        Returns_both (unlink p b l x r) IsAvl _ (unlink-IsAvl p b l x r fits.0 fits.1)
          (inorder-unlink p b l x r) in
      let new : inorder t ≡ lower p l ++ upper p r = order ∙ simp append_assoc in
      let nonzero : ltb 0 tree.avl_numnodes ≡ true =
        ground (arith, s.counted, ap length old, length_middle (lower p l) x (upper p r)) in
      (
        record { avl_root = t; avl_numnodes = tree.avl_numnodes - 1 },
        rw (nonzero, returns),
        record {
          balanced = avl;
          counted = omega (
            arith,
            s.counted,
            ap length old,
            ap length new,
            length_middle (lower p l) x (upper p r),
          );
        },
        old,
        new,
      )

  -- At every node of a valid tree `dlm_avl_remove` succeeds: the new tree is valid, and its items
  -- are the old ones without the item of the node.
  pub dlm_avl_remove-IsValid :
      (cmp : A → A → Ordering) (tree : AvlTree A) (p : Trail A) (b : Balance) (l : Tree A) (x : A)
      (r : Tree A)
      → IsValid cmp tree
      → plug p (node b l x r) ≡ tree.avl_root
      → (tree' : AvlTree A) × (dlm_avl_remove tree p (node b l x r) ≡ some tree')
        × IsValid cmp tree'
        × (items tree ≡ lower p l ++ (x ∷ upper p r))
        × (items tree' ≡ lower p l ++ upper p r)
  dlm_avl_remove-IsValid cmp tree p b l x r valid e =
      let (tree', returns, sound, old, new) = dlm_avl_remove-IsSound tree p b l x r valid.sound e in
      (
        tree',
        returns,
        record {
          sound = sound;
          sorted = rw new (IsSorted-without cmp (lower p l) x (upper p r) (rw old at valid.sorted));
        },
        old,
        new,
      )
