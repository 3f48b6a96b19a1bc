-- ===== src/Rb/Erase/Laws.antt =====
-- The red-black properties and the order of the items after `rb_erase`.
use kernel_utils.Base.{
  ℕ, ◌≡◌, sym, arith, refl, Returns, Ensures, Ensures-self, Returns->>=, Ensures->>=, Returns_both,
  List, ◌∷◌, ◌++◌, append_assoc, ◌∙◌, Option, some, none, ◌>>=◌,
}
use kernel_utils.Binary.{
  Side, left, right, leaf, node, up, plug, make, inorder, before, after, extreme, descend,
}
use kernel_utils.Binary.Order.{IsNode, inorder-plug, extreme_total, descend_left-inorder}
use kernel_utils.Rb.Tree.{
  Color, red, black, RbNode, RbTrail, black_height, IsBlack, IsRb, IsRbTree, IsRbTrail, Admits,
}
use kernel_utils.Rb.Tree.Shape.{
  IsRbTrail-at, plug-IsRbTree, plug-IsRbTree_inv, IsBlack-Admits, Admits-black,
}
use kernel_utils.Rb.Erase.{replace_by_child, leftmost_color, close_gap, rb_erase}
use kernel_utils.Rb.Erase.Loop.{____rb_erase_color-IsRbTree, inorder-____rb_erase_color}

abbrev weight : Color → ℕ
weight red = 0
weight black = 1

module _ {ℓ} {A : Type ℓ} where
  -- A child of a node of colour `c`.
  abbrev Suits : Color → RbNode A → Type 0
  Suits red t = IsBlack t
  Suits black t = Unit

  -- The only child of a node is red or null, so that black nodes are counted right without it.
  replace_by_child-IsRbTree :
      (p : RbTrail A) (c : Color) (t : RbNode A)
      → IsRb t
      → black_height t ≡ 0
      → Suits c t
      → IsRbTrail p (weight c)
      → Returns (replace_by_child p c t) IsRbTree
  unfolding replace_by_child IsRb black_height
  replace_by_child-IsRbTree p black (node red l y r) (i, j, e, b, d) g s k =
      plug-IsRbTree p (node black l y r) (i, j, e) tt (IsRbTrail-at p _ _ k (omega arith))
  replace_by_child-IsRbTree p red (node red l y r) h g s k = absurd s
  replace_by_child-IsRbTree p c (node black l y r) h g s k = absurd (omega arith)
  replace_by_child-IsRbTree p black leaf h g s k = ____rb_erase_color-IsRbTree p leaf tt tt k
  replace_by_child-IsRbTree p red leaf h g s k = plug-IsRbTree p leaf tt tt k

  close_gap-IsRbTree :
      (p : RbTrail A) (c : Color) (t : RbNode A)
      → IsRb t
      → black_height t ≡ 0
      → Suits c t
      → IsRbTrail p (weight c)
      → Returns (close_gap p c t) IsRbTree
  unfolding close_gap IsRb black_height
  close_gap-IsRbTree p black (node red l y r) (i, j, e, b, d) g s k =
      plug-IsRbTree p (node black l y r) (i, j, e) tt (IsRbTrail-at p _ _ k (omega arith))
  close_gap-IsRbTree p red (node red l y r) h g s k = absurd s
  close_gap-IsRbTree p c (node black l y r) h g s k = absurd (omega arith)
  close_gap-IsRbTree p black leaf h g s k = ____rb_erase_color-IsRbTree p leaf tt tt k
  close_gap-IsRbTree p red leaf h g s k = plug-IsRbTree p leaf tt tt k

  -- The trail of the child on side `s` of a node in its place.
  under :
      (s : Side) (p : RbTrail A) (c : Color) (t : RbNode A) (x : A) (other : RbNode A)
      → IsRb (make s c t x other)
      → Admits p (make s c t x other)
      → IsRbTrail p (black_height (make s c t x other))
      → IsRb t
        × Suits c t
        × Admits (up s c x other p) t
        × IsRbTrail (up s c x other p) (black_height t)
        × (black_height other ≡ black_height t)
  unfolding make IsRb IsRbTrail black_height
  under left p red t x other (i, j, e, b, d) a k =
      (i, b, IsBlack-Admits (up left red x other p) t b, (j, sym e, d, a, k), sym e)
  under left p black t x other (i, j, e) a k =
      (i, tt, Admits-black left x other p t, (j, sym e, k), sym e)
  under right p red t x other (j, i, e, d, b) a k =
      (i, b, IsBlack-Admits (up right red x other p) t b, (j, e, d, a, IsRbTrail-at p _ _ k e), e)
  under right p black t x other (j, i, e) a k =
      (i, tt, Admits-black right x other p t, (j, e, IsRbTrail-at p _ _ k (ground arith)), e)

  -- The place of the leftmost node.
  descend-IsRbTrail :
      (t : RbNode A) (p : RbTrail A)
      → IsNode t
      → IsRb t
      → Admits p t
      → IsRbTrail p (black_height t)
      → let (q, child2) = descend left t p in
        Returns
          (leftmost_color t)
          (λ c. IsRb child2 × (black_height child2 ≡ 0) × Suits c child2 × IsRbTrail q (weight c))
  unfolding descend leftmost_color black_height IsRb make
  descend-IsRbTrail leaf p n h a k = absurd n
  descend-IsRbTrail (node red leaf x r) p n (i, j, e, b, d) a k = (j, sym e, d, k)
  descend-IsRbTrail (node black leaf x r) p n (i, j, e) a k = (j, sym e, tt, k)
  descend-IsRbTrail (node c (node c' l' x' r') x r) p n h a k =
      let (i, _, b, t, _) = under left p c (node c' l' x' r') x r h a k in
      descend-IsRbTrail (node c' l' x' r') (up left c x r p) tt i b t

  one_child :
      (s : Side) (p : RbTrail A) (c : Color) (t : RbNode A) (x : A)
      → IsRb (make s c t x leaf)
      → Admits p (make s c t x leaf)
      → IsRbTrail p (black_height (make s c t x leaf))
      → Returns (replace_by_child p c t) IsRbTree
  unfolding make black_height
  one_child left p red t x h a k =
      let (i, s, _, _, e) = under left p red t x leaf h a k in
      replace_by_child-IsRbTree p red t i (sym e) s (IsRbTrail-at p _ _ k (sym e))
  one_child left p black t x h a k =
      let (i, s, _, _, e) = under left p black t x leaf h a k in
      replace_by_child-IsRbTree p black t i (sym e) s (IsRbTrail-at p _ _ k (ground arith))
  one_child right p red t x h a k =
      let (i, s, _, _, e) = under right p red t x leaf h a k in
      replace_by_child-IsRbTree p red t i (sym e) s k
  one_child right p black t x h a k =
      let (i, s, _, _, e) = under right p black t x leaf h a k in
      replace_by_child-IsRbTree p black t i (sym e) s k

  two_children :
      (p : RbTrail A) (c : Color) (l : RbNode A) (x : A) (r : RbNode A) (z : A)
      → IsNode r
      → IsRb (node c l x r)
      → Admits p (node c l x r)
      → IsRbTrail p (black_height (node c l x r))
      → IsRb r × Admits (up right c z l p) r × IsRbTrail (up right c z l p) (black_height r)
  unfolding make IsRb IsRbTrail black_height
  two_children p red l x r z n h a k =
      let (i, _, b, t, _) = under right p red r z l h a k in (i, b, t)
  two_children p black l x r z n h a k =
      let (i, _, b, t, _) = under right p black r z l h a k in (i, b, t)

  leftmost-IsRbTree :
      (q : RbTrail A) (o : Option Color) (t : RbNode A)
      → Returns o (λ c. IsRb t × (black_height t ≡ 0) × Suits c t × IsRbTrail q (weight c))
      → Returns (o >>= λ sc. close_gap q sc t) IsRbTree
  leftmost-IsRbTree q none t h = h
  leftmost-IsRbTree q (some c) t (i, g, s, k) = close_gap-IsRbTree q c t i g s k

  rb_erase_total :
      (p : RbTrail A) (c : Color) (l : RbNode A) (x : A) (r : RbNode A)
      → IsRb (node c l x r)
      → Admits p (node c l x r)
      → IsRbTrail p (black_height (node c l x r))
      → Returns (rb_erase p c l x r) IsRbTree
  unfolding rb_erase make
  rb_erase_total p c leaf x r h a k = one_child right p c r x h a k
  rb_erase_total p c (node d l y m) x leaf h a k = one_child left p c (node d l y m) x h a k
  rb_erase_total p c (node d l y m) x (node d' l' y' m') h a k =
      Returns->>= _ _ _ IsRbTree (extreme_total left (node d' l' y' m') tt) λ z _.
        let (i, b, t) = two_children p c (node d l y m) x (node d' l' y' m') z tt h a k in
        leftmost-IsRbTree _ _ _
          (descend-IsRbTrail (node d' l' y' m') (up right c z (node d l y m) p) tt i b t)

  replace_by_child-inorder :
      (p : RbTrail A) (c : Color) (t : RbNode A)
      → Ensures (replace_by_child p c t) (λ u. inorder u ≡ before p ++ (inorder t ++ after p))
  unfolding replace_by_child inorder
  replace_by_child-inorder p c (node k l y r) = inorder-plug p (node c l y r)
  replace_by_child-inorder p black leaf = inorder-____rb_erase_color p leaf _ refl
  replace_by_child-inorder p red leaf = inorder-plug p leaf

  close_gap-inorder :
      (p : RbTrail A) (c : Color) (t : RbNode A)
      → Ensures (close_gap p c t) (λ u. inorder u ≡ before p ++ (inorder t ++ after p))
  unfolding close_gap inorder
  close_gap-inorder p c (node k l y r) = inorder-plug p (node black l y r)
  close_gap-inorder p black leaf = inorder-____rb_erase_color p leaf _ refl
  close_gap-inorder p red leaf = inorder-plug p leaf

  leftmost-inorder :
      (q : RbTrail A) (o : Option Color) (t : RbNode A) (l : List A)
      → before q ++ (inorder t ++ after q) ≡ l
      → Ensures (o >>= λ sc. close_gap q sc t) (λ u. inorder u ≡ l)
  leftmost-inorder q none t l e = tt
  leftmost-inorder q (some c) t l e = rw (sym e) (close_gap-inorder q c t)

  rb_erase-inorder :
      (p : RbTrail A) (c : Color) (l : RbNode A) (x : A) (r : RbNode A)
      → Ensures
          (rb_erase p c l x r)
          (λ t. inorder t ≡ before p ++ (inorder l ++ (inorder r ++ after p)))
  unfolding rb_erase inorder before after
  rb_erase-inorder p c leaf x r = replace_by_child-inorder p c r
  rb_erase-inorder p c (node d l y m) x leaf = replace_by_child-inorder p c (node d l y m)
  rb_erase-inorder p c (node d l y m) x (node d' l' y' m') =
      Ensures->>= (extreme left (node d' l' y' m')) _ _ _
        (Ensures-self (extreme left (node d' l' y' m')))
        λ z e.
          let walk = descend_left-inorder (node d' l' y' m') (up right c z (node d l y m) p) z e in
          let (q, child2) = descend left (node d' l' y' m') (up right c z (node d l y m) p) in
          leftmost-inorder q (leftmost_color (node d' l' y' m')) child2 _
            (rw walk.1 (simp append_assoc (rw walk.0 (simp append_assoc))))

  -- At a node of a red-black tree `rb_erase` succeeds: the new tree is a red-black tree, and its items
  -- are those of the old one in the same order, without the item of that node.
  pub rb_erase-IsRbTree :
      (p : RbTrail A) (c : Color) (l : RbNode A) (x : A) (r : RbNode A)
      → IsRbTree (plug p (node c l x r))
      → (t : RbNode A) × (rb_erase p c l x r ≡ some t)
        × IsRbTree t
        × (inorder (plug p (node c l x r))
            ≡ (before p ++ inorder l) ++ (x ∷ (inorder r ++ after p)))
        × (inorder t ≡ (before p ++ inorder l) ++ (inorder r ++ after p))
  unfolding inorder
  rb_erase-IsRbTree p c l x r h =
      let (i, a, k) = plug-IsRbTree_inv p (node c l x r) h in
      let (t, returns, tree, order) =
        Returns_both (rb_erase p c l x r) IsRbTree _ (rb_erase_total p c l x r i a k)
          (rb_erase-inorder p c l x r) in
      (
        t,
        returns,
        tree,
        inorder-plug p (node c l x r) ∙ simp append_assoc,
        order ∙ simp append_assoc,
      )
