-- ===== src/Avl/Walk/Laws.antt =====
-- The walks of avl.c beside the list of the items.
use kernel_utils.Base.{◌≡◌, refl, [], ◌∷◌, ◌++◌, append-nil, Option, some, none, ◌∙◌, sym, ap}
use kernel_utils.Binary.{after, before, inorder, leaf, left, make, node, right, root, up}
use kernel_utils.Binary.Order.{
  first, first_or, first_or-append, first_or-none, last, last_or, last_or-append, walk_lem,
}
use kernel_utils.Avl.Tree.{Balance, Tree, Trail, AvlTree}
use kernel_utils.Avl.Walk.{farthest, dlm_avl_first, dlm_avl_last, dlm_avl_walk, dlm_avl_nearest}

module _ {ℓ} {A : Type ℓ} where
  farthest_left-first : (t : Tree A) (o : Option A) → farthest left t o ≡ first_or (inorder t) o
  unfolding farthest inorder
  farthest_left-first leaf o = refl
  farthest_left-first (node b l x r) o =
      farthest_left-first l (some x) ∙ sym (first_or-append (inorder l) (x ∷ inorder r) o)

  farthest_right-last : (t : Tree A) (o : Option A) → farthest right t o ≡ last_or (inorder t) o
  unfolding farthest inorder
  farthest_right-last leaf o = refl
  farthest_right-last (node b l x r) o =
      farthest_right-last r (some x) ∙ sym (last_or-append (inorder l) (x ∷ inorder r) o)

  -- `dlm_avl_first` and `dlm_avl_last` return the ends of the items in order, and NULL on an empty
  -- tree.
  pub dlm_avl_ends :
      (tree : AvlTree A)
      → (dlm_avl_first tree ≡ first (inorder tree.avl_root))
        × (dlm_avl_last tree ≡ last (inorder tree.avl_root))
  unfolding dlm_avl_first dlm_avl_last
  dlm_avl_ends tree = (
    farthest_left-first tree.avl_root none ∙ first_or-none _,
    farthest_right-last tree.avl_root none,
  )

  -- `dlm_avl_walk` goes from a node to the item just after it, or just before it, in order; it
  -- returns NULL at the end.
  pub dlm_avl_walk_lem :
      (p : Trail A) (b : Balance) (l : Tree A) (x : A) (r : Tree A)
      → (dlm_avl_walk right p (node b l x r) ≡ first (inorder r ++ after p))
        × (dlm_avl_walk left p (node b l x r) ≡ last (before p ++ inorder l))
  unfolding dlm_avl_walk
  dlm_avl_walk_lem p b l x r = walk_lem p b l x r

  -- From an insertion point `dlm_avl_nearest` returns the item just after it (AVL_AFTER) or just
  -- before it (AVL_BEFORE), and NULL where there is none.
  pub dlm_avl_nearest_lem :
      (where_ : Trail A)
      → (dlm_avl_nearest where_ right ≡ first (after where_))
        × (dlm_avl_nearest where_ left ≡ last (before where_))
  unfolding dlm_avl_nearest make before after inorder
  dlm_avl_nearest_lem root = (refl, refl)
  dlm_avl_nearest_lem (up left b x other p) =
      (refl, (dlm_avl_walk_lem p b leaf x other).1 ∙ ap last (append-nil (before p)))
  dlm_avl_nearest_lem (up right b x other p) = (
    (dlm_avl_walk_lem p b other x leaf).0,
    sym (
        last_or-append (before p) (inorder other ++ (x ∷ [])) none
        ∙ last_or-append (inorder other) (x ∷ []) _),
  )
