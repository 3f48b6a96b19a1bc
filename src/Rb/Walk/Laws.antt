-- ===== src/Rb/Walk/Laws.antt =====
-- The walks of rbtree.c beside the lists of the items, in order and in postorder.
use kernel_utils.Base.{◌≡◌, refl, List, [], ◌∷◌, ◌++◌, append_assoc, append-nil, none, ◌∙◌, sym, ap}
use kernel_utils.Binary.{after, before, inorder, leaf, left, make, node, plug, right, root, up}
use kernel_utils.Binary.Order.{
  IsNode, first, last, walk_lem, extreme_left-first, extreme_right-last, inorder-plug,
}
use kernel_utils.Rb.Tree.{Color, red, black, RbNode, RbTrail, IsRb, IsRbTree, black_height}
use kernel_utils.Rb.Tree.Shape.{plug-IsRbTree, plug-IsRbTree_inv}
use kernel_utils.Rb.Walk.{
  rb_first, rb_last, rb_next, rb_prev, rb_replace_node, rb_left_deepest_node, rb_first_postorder,
  rb_next_postorder,
}

module _ {ℓ} {A : Type ℓ} where
  -- `rb_first` and `rb_last` return the ends of the items in order, and NULL on an empty tree.
  pub rb_first_lem :
      (t : RbNode A) → (rb_first t ≡ first (inorder t)) × (rb_last t ≡ last (inorder t))
  unfolding rb_first rb_last inorder
  rb_first_lem leaf = unfold kernel_utils.Binary.extreme in (refl, refl)
  rb_first_lem (node c l x r) =
      (extreme_left-first c l x r [] ∙ ap first (append-nil _), extreme_right-last c l x r none)

  -- `rb_next` and `rb_prev` go from a node to the item just after it, or just before it, in order,
  -- and return NULL at the end; together with the node these are the items of the tree.
  pub rb_next_lem :
      (p : RbTrail A) (c : Color) (l : RbNode A) (x : A) (r : RbNode A)
      → (inorder (plug p (node c l x r)) ≡ (before p ++ inorder l) ++ (x ∷ (inorder r ++ after p)))
        × (rb_next p (node c l x r) ≡ first (inorder r ++ after p))
        × (rb_prev p (node c l x r) ≡ last (before p ++ inorder l))
  unfolding rb_next rb_prev inorder
  rb_next_lem p c l x r =
      let (next, prev) = walk_lem p c l x r in
      (inorder-plug p (node c l x r) ∙ simp append_assoc, next, prev)

  -- At a node of a red-black tree `rb_replace_node` leaves a red-black tree, in whose order the new
  -- item stands at the place of the old one.
  pub rb_replace_node-IsRbTree :
      (p : RbTrail A) (c : Color) (l : RbNode A) (victim new : A) (r : RbNode A)
      → IsRbTree (plug p (node c l victim r))
      → IsRbTree (rb_replace_node p c l victim new r)
        × (inorder (plug p (node c l victim r))
            ≡ (before p ++ inorder l) ++ (victim ∷ (inorder r ++ after p)))
        × (inorder (rb_replace_node p c l victim new r)
            ≡ (before p ++ inorder l) ++ (new ∷ (inorder r ++ after p)))
  unfolding rb_replace_node inorder IsRb black_height
  rb_replace_node-IsRbTree p red l victim new r h =
      let (i, a, k) = plug-IsRbTree_inv p (node red l victim r) h in
      (
        plug-IsRbTree p (node red l new r) i a k,
        (rb_next_lem p red l victim r).0,
        (rb_next_lem p red l new r).0,
      )
  rb_replace_node-IsRbTree p black l victim new r h =
      let (i, a, k) = plug-IsRbTree_inv p (node black l victim r) h in
      (
        plug-IsRbTree p (node black l new r) i a k,
        (rb_next_lem p black l victim r).0,
        (rb_next_lem p black l new r).0,
      )

  -- The children before their parent.
  unfoldable pub postorder : RbNode A → List A
  postorder leaf = []
  postorder (node c l x r) = postorder l ++ (postorder r ++ (x ∷ []))

  -- The items that come after those of the subtree where a trail ends, in postorder, and before.
  unfoldable pub postorder_after : RbTrail A → List A
  unfolding postorder
  postorder_after root = []
  postorder_after (up left c x other p) = postorder other ++ (x ∷ postorder_after p)
  postorder_after (up right c x other p) = x ∷ postorder_after p

  unfoldable pub postorder_before : RbTrail A → List A
  unfolding postorder
  postorder_before root = []
  postorder_before (up left c x other p) = postorder_before p
  postorder_before (up right c x other p) = postorder_before p ++ postorder other

  postorder-plug :
      (p : RbTrail A) (t : RbNode A)
      → postorder (plug p t) ≡ postorder_before p ++ (postorder t ++ postorder_after p)
  unfolding plug postorder_before postorder_after postorder make
  postorder-plug root t = sym (append-nil (postorder t))
  postorder-plug (up left c x other p) t = simp (postorder-plug p, append_assoc)
  postorder-plug (up right c x other p) t = simp (postorder-plug p, append_assoc)

  rb_left_deepest_node-first :
      (t : RbNode A) (ys : List A) → IsNode t → rb_left_deepest_node t ≡ first (postorder t ++ ys)
  unfolding rb_left_deepest_node postorder
  rb_left_deepest_node-first leaf ys n = absurd n
  rb_left_deepest_node-first (node c leaf x leaf) ys n = refl
  rb_left_deepest_node-first (node c leaf x (node d m y k)) ys n =
      rb_left_deepest_node-first (node d m y k) ((x ∷ []) ++ ys) tt
      ∙ ap first (sym (append_assoc _ (x ∷ []) ys))
  rb_left_deepest_node-first (node c (node d m y k) x r) ys n =
      rb_left_deepest_node-first (node d m y k) ((postorder r ++ (x ∷ [])) ++ ys) tt
      ∙ ap first (sym (append_assoc _ (postorder r ++ (x ∷ [])) ys))

  rb_first_postorder-first : (t : RbNode A) → rb_first_postorder t ≡ first (postorder t)
  unfolding rb_first_postorder postorder
  rb_first_postorder-first leaf = refl
  rb_first_postorder-first (node c l x r) =
      rb_left_deepest_node-first (node c l x r) [] tt ∙ ap first (append-nil _)

  rb_next_postorder-first : (p : RbTrail A) → rb_next_postorder p ≡ first (postorder_after p)
  unfolding rb_next_postorder postorder_after postorder
  rb_next_postorder-first root = refl
  rb_next_postorder-first (up left c x leaf p) = refl
  rb_next_postorder-first (up left c x (node d m y n) p) =
      rb_left_deepest_node-first (node d m y n) (x ∷ postorder_after p) tt
  rb_next_postorder-first (up right c x other p) = refl

  -- `rb_first_postorder` returns the first item in postorder, and `rb_next_postorder` goes from a
  -- node to the item just after it in postorder; both return NULL where there is none.
  pub rb_next_postorder_lem :
      (p : RbTrail A) (c : Color) (l : RbNode A) (x : A) (r : RbNode A)
      → let t = plug p (node c l x r) in
        (postorder t
          ≡ (postorder_before p ++ (postorder l ++ postorder r)) ++ (x ∷ postorder_after p))
        × (rb_first_postorder t ≡ first (postorder t))
        × (rb_next_postorder p ≡ first (postorder_after p))
  unfolding postorder
  rb_next_postorder_lem p c l x r = (
    postorder-plug p (node c l x r) ∙ simp append_assoc,
    rb_first_postorder-first (plug p (node c l x r)),
    rb_next_postorder-first p,
  )
