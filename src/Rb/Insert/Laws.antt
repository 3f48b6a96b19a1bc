-- ===== src/Rb/Insert/Laws.antt =====
-- The red-black properties and the order of the items after `rb_insert_color`.
use kernel_utils.Base.{
  ℕ, suc, ◌≡◌, sym, arith, refl, Returns, Ensures, List, ◌∷◌, ◌++◌, append_assoc, ◌∙◌, Option, some,
  none, true, false, append-nil, Returns_both, Bool-cases, inl, inr,
}
use kernel_utils.Binary.{
  Side, left, right, flip, leaf, node, root, up, plug, make, pick, inorder, before, after,
}
use kernel_utils.Binary.Order.{inorder-plug, inorder-make, inorder-make_congr}
use kernel_utils.Rb.Tree.{
  Color, red, black, RbNode, RbTrail, recolor, black_height, IsBlack, IsRb, IsRbTree, IsRbTrail,
}
use kernel_utils.Rb.Tree.Shape.{
  IsRbTrail-at, Admits-black, recolor_black, inorder-recolor, IsBlack-Admits, plug-IsRbTree,
  plug-IsRbTree_inv,
}
use kernel_utils.Rb.Insert.{
  rotate_gparent, rotate_insert, is_red_node, __rb_insert, rb_insert_color,
}

module _ {ℓ} {A : Type ℓ} where
  abbrev pub IsRed : RbNode A → Type 0
  IsRed leaf = ⊥
  IsRed (node red l x r) = Unit
  IsRed (node black l x r) = ⊥

  -- The result of the rotations is a subtree with a black root, in place of the grandparent.
  rotate_insert-IsRb :
      (g s : Side) (t : RbNode A) (x : A) (sibling : RbNode A) (z : A) (uncle : RbNode A)
      → IsRed t
      → IsRb t
      → IsRb sibling
      → IsRb uncle
      → IsBlack sibling
      → IsBlack uncle
      → black_height t ≡ black_height sibling
      → black_height sibling ≡ black_height uncle
      → Returns
          (rotate_insert g s black t x sibling z uncle)
          (λ u. IsRb u × IsBlack u × (black_height u ≡ suc (black_height uncle)))
  unfolding rotate_insert rotate_gparent make pick flip recolor IsRb black_height
  rotate_insert-IsRb left left (node red l y r) x sibling z uncle n h i j b c e f =
      rw (recolor_black sibling b) ((h, (i, j, f, b, c), e), tt, omega arith)
  rotate_insert-IsRb left right (node red l y r) x sibling z uncle n h i j b c e f =
      let (hl, hr, lr, bl, br) = h in
      rw (recolor_black l bl, recolor_black r br)
        (((i, hl, sym e, b, bl), (hr, j, omega arith, br, c), omega arith), tt, omega arith)
  rotate_insert-IsRb right left (node red l y r) x sibling z uncle n h i j b c e f =
      let (hl, hr, lr, bl, br) = h in
      rw (recolor_black l bl, recolor_black r br)
        (((j, hl, omega arith, c, bl), (hr, i, omega arith, br, b), omega arith), tt, omega arith)
  rotate_insert-IsRb right right (node red l y r) x sibling z uncle n h i j b c e f =
      rw (recolor_black sibling b) (((j, i, sym f, c, b), h, omega arith), tt, omega arith)
  rotate_insert-IsRb g s (node black l y r) x sibling z uncle n h i j b c e f = absurd n
  rotate_insert-IsRb g s leaf x sibling z uncle n h i j b c e f = absurd n

  rotate_insert-inorder :
      (g s : Side) (c : Color) (t : RbNode A) (x : A) (sibling : RbNode A) (z : A)
      (uncle : RbNode A)
      → Ensures
          (rotate_insert g s c t x sibling z uncle)
          (λ u. inorder u ≡ inorder (make g c (make s red t x sibling) z uncle))
  unfolding rotate_insert rotate_gparent make pick flip inorder
  rotate_insert-inorder left left c (node k l y r) x sibling z uncle =
      rw (inorder-recolor black sibling) (simp append_assoc)
  rotate_insert-inorder left right c (node k l y r) x sibling z uncle =
      rw (inorder-recolor black l, inorder-recolor black r) (simp append_assoc)
  rotate_insert-inorder right left c (node k l y r) x sibling z uncle =
      rw (inorder-recolor black l, inorder-recolor black r) (simp append_assoc)
  rotate_insert-inorder right right c (node k l y r) x sibling z uncle =
      rw (inorder-recolor black sibling) (simp append_assoc)
  rotate_insert-inorder left left c leaf x sibling z uncle = tt
  rotate_insert-inorder left right c leaf x sibling z uncle = tt
  rotate_insert-inorder right left c leaf x sibling z uncle = tt
  rotate_insert-inorder right right c leaf x sibling z uncle = tt

  pub is_red_node-false : (t : RbNode A) → is_red_node t ≡ false → IsBlack t
  unfolding is_red_node
  is_red_node-false leaf h = tt
  is_red_node-false (node black l x r) h = tt
  is_red_node-false (node red l x r) h = cc

  -- Case 1: the colours of the parents are exchanged, and the grandparent is the red node now.
  flipped-IsRb :
      (g s : Side) (t : RbNode A) (x : A) (sibling : RbNode A) (z : A) (uncle : RbNode A)
      → IsRb t
      → IsRb sibling
      → IsRb uncle
      → is_red_node uncle ≡ true
      → black_height t ≡ black_height sibling
      → black_height sibling ≡ black_height uncle
      → let u = make g red (make s black t x sibling) z (recolor black uncle) in
        IsRed u × IsRb u × (black_height u ≡ suc (black_height uncle))
  unfolding make recolor IsRb black_height is_red_node
  flipped-IsRb left left t x sibling z (node red l y r) h i j n e f =
      (tt, ((h, i, e), (j.0, j.1, j.2), omega arith, tt, tt), omega arith)
  flipped-IsRb left right t x sibling z (node red l y r) h i j n e f =
      (tt, ((i, h, sym e), (j.0, j.1, j.2), omega arith, tt, tt), omega arith)
  flipped-IsRb right left t x sibling z (node red l y r) h i j n e f =
      (tt, ((j.0, j.1, j.2), (h, i, e), omega arith, tt, tt), omega arith)
  flipped-IsRb right right t x sibling z (node red l y r) h i j n e f =
      (tt, ((j.0, j.1, j.2), (i, h, sym e), omega arith, tt, tt), omega arith)
  flipped-IsRb g s t x sibling z leaf h i j n e f = cc
  flipped-IsRb g s t x sibling z (node black l y r) h i j n e f = cc

  rotated :
      (p : RbTrail A) (o : Option (RbNode A)) (h : ℕ)
      → IsRbTrail p (suc h)
      → Returns o (λ u. IsRb u × IsBlack u × (black_height u ≡ suc h))
      → Returns (elim o [ none ↦ none | some u ↦ some (plug p u) ]) IsRbTree
  rotated p none h k n = n
  rotated p (some u) h k (i, b, e) =
      plug-IsRbTree p u i (IsBlack-Admits p u b) (IsRbTrail-at p _ _ k (sym e))

  pub __rb_insert-IsRbTree :
      (p : RbTrail A) (t : RbNode A)
      → IsRed t
      → IsRb t
      → IsRbTrail p (black_height t)
      → Returns (__rb_insert p t) IsRbTree
  unfolding __rb_insert IsRbTrail
  __rb_insert-IsRbTree root (node red l y r) n h k = ((h.0, h.1, h.2), tt)
  __rb_insert-IsRbTree root (node black l y r) n h k = absurd n
  __rb_insert-IsRbTree root leaf n h k = absurd n
  __rb_insert-IsRbTree (up s black x sibling p) t n h k =
      plug-IsRbTree (up s black x sibling p) t h (Admits-black s x sibling p t) k
  __rb_insert-IsRbTree (up s red x sibling root) t n h (_, _, _, k, _) = k
  __rb_insert-IsRbTree (up s red x sibling (up g red z uncle p)) t n h (_, _, _, k, _) = absurd k
  __rb_insert-IsRbTree (up s red x sibling (up g black z uncle p)) t n h (i, e, b, _, (j, f, k)) =
      elim (Bool-cases (is_red_node uncle)) [
        | inl red_uncle ↦
            let (m, v, w) =
              flipped-IsRb g s t x sibling z uncle h i j red_uncle (sym e) (omega arith) in
            rw (red_uncle, __rb_insert)
              (__rb_insert-IsRbTree p _ m v (IsRbTrail-at p _ _ k (omega arith)))
        | inr black_uncle ↦
            rw (black_uncle, __rb_insert)
              (rotated p _ (black_height uncle) (IsRbTrail-at p _ _ k (omega arith)) (
                rotate_insert-IsRb g s t x sibling z uncle n h i j b
                  (is_red_node-false uncle black_uncle) (sym e) (omega arith)))
      ]

  rotated-inorder :
      (p : RbTrail A) (o : Option (RbNode A)) (m l : List A)
      → Ensures o (λ u. inorder u ≡ m)
      → before p ++ (m ++ after p) ≡ l
      → Ensures (elim o [ none ↦ none | some u ↦ some (plug p u) ]) (λ u. inorder u ≡ l)
  rotated-inorder p none m l h e = tt
  rotated-inorder p (some u) m l h e = inorder-plug p u ∙ rw h e

  pub inorder-__rb_insert :
      (p : RbTrail A) (t : RbNode A) (l : List A)
      → before p ++ (inorder t ++ after p) ≡ l
      → Ensures (__rb_insert p t) (λ u. inorder u ≡ l)
  unfolding __rb_insert
  inorder-__rb_insert root t l e =
      inorder-recolor black t ∙ unfold before after in sym (append-nil (inorder t)) ∙ e
  inorder-__rb_insert (up s black x sibling p) t l e = inorder-plug (up s black x sibling p) t ∙ e
  inorder-__rb_insert (up s red x sibling root) t l e = tt
  inorder-__rb_insert (up s red x sibling (up g c z uncle p)) t l e =
      let whole : before p ++ (inorder (make g c (make s red t x sibling) z uncle) ++ after p) ≡ l =
        inorder-make g c (make s red t x sibling) z uncle p
        ∙ inorder-make s red t x sibling (up g c z uncle p)
        ∙ e in
      elim (Bool-cases (is_red_node uncle)) [
        | inl red_uncle ↦
            rw (red_uncle, __rb_insert)
              (inorder-__rb_insert p (make g red (make s black t x sibling) z (recolor black uncle))
                l
                (rw
                  (inorder-make_congr g red c (make s black t x sibling) (make s red t x sibling) z
                    (recolor black uncle) uncle
                    (inorder-make_congr s black red t t x sibling sibling refl refl)
                    (inorder-recolor black uncle))
                  whole))
        | inr black_uncle ↦
            rw (black_uncle, __rb_insert)
              (rotated-inorder p _ _ l (rotate_insert-inorder g s c t x sibling z uncle) whole)
      ]

  -- On a red-black tree `rb_insert_color`, after `rb_link_node` at a null child, succeeds: the new
  -- tree is a red-black tree, and the new item stands at that place in the order.
  pub rb_insert_color-IsRbTree :
      (p : RbTrail A) (x : A)
      → IsRbTree (plug p leaf)
      → (t : RbNode A) × (rb_insert_color p x ≡ some t)
        × IsRbTree t
        × (inorder (plug p leaf) ≡ before p ++ after p)
        × (inorder t ≡ before p ++ (x ∷ after p))
  unfolding rb_insert_color IsRb black_height inorder
  rb_insert_color-IsRbTree p x h =
      let (t, returns, tree, order) =
        Returns_both (__rb_insert p (node red leaf x leaf)) IsRbTree _
          (__rb_insert-IsRbTree p (node red leaf x leaf) tt (tt, tt, refl, tt, tt)
            (plug-IsRbTree_inv p leaf h).2)
          (inorder-__rb_insert p (node red leaf x leaf) (before p ++ (x ∷ after p)) refl) in
      (t, returns, tree, inorder-plug p leaf, order)
