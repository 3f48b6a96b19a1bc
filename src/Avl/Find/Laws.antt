-- ===== src/Avl/Find/Laws.antt =====
-- Where a search ends, and what it finds.
use kernel_utils.Base.{
  Ordering-cases, is_lt, is_eq, is_gt, ◌≡◌, refl, List, [], ◌∷◌, ◌++◌, append_assoc, Ordering, eq,
  All-append, Option, some, none, ◌∙◌,
}
use kernel_utils.Binary.{after, before, inorder, leaf, left, make, node, plug, right, root, up}
use kernel_utils.Binary.Order.{inorder-plug}
use kernel_utils.Avl.Tree.{Tree, Trail, AvlTree}
use kernel_utils.Avl.Order.{
  IsOrder, IsSorted, IsBelow, IsAbove, IsAbsent, IsSorted-left, IsSorted-right, IsSorted-IsBelow,
  IsAbove-trans, IsBelow-trans, IsBelow-IsAbsent, IsAbove-IsAbsent,
}
use kernel_utils.Avl.Find.{find_from, search_place, item_at, dlm_avl_find}

module _ {ℓ} {A : Type ℓ} (cmp : A → A → Ordering) where
  -- What a search ends at equals the value, if it is a node.
  abbrev pub IsHit : A → Tree A → Type 0
  IsHit v leaf = Unit
  IsHit v (node b l x r) = cmp v x ≡ eq

  -- `place` is a place in the tree `t`; all before it is below the value, and all after it above.
  pub record IsPlace (v : A) (t : Tree A) (place : Trail A × Tree A) : Type ℓ where
    pub whole : plug place.0 place.1 ≡ t
    pub below : IsBelow cmp v (before place.0)
    pub above : IsAbove cmp v (after place.0)
    pub hit : IsHit v place.1

  -- What a lookup of `v` may answer on the items `l`: an item that equals `v`, or nothing where no
  -- item equals `v`.
  abbrev pub Finds : A → List A → Option A → Type ℓ
  Finds v l none = IsAbsent cmp v l × Unit {ℓ}
  Finds v l (some x) = (xs : List A) × (ys : List A) × (l ≡ xs ++ (x ∷ ys)) × (cmp v x ≡ eq)

module _ {ℓ} {A : Type ℓ} {cmp : A → A → Ordering} (o : IsOrder cmp) where
  pub find_from-IsPlace :
      (v : A) (t : Tree A) (p : Trail A)
      → IsSorted cmp (inorder t)
      → IsBelow cmp v (before p)
      → IsAbove cmp v (after p)
      → IsPlace cmp v (plug p t) (find_from cmp v t p)
  unfolding find_from inorder before after plug make
  find_from-IsPlace v leaf p s b a = record { whole = refl; below = b; above = a; hit = tt }
  find_from-IsPlace v (node b l x r) p s bel abv = elim (Ordering-cases (cmp v x)) [
    | is_lt e ↦
        rw (e, find_from)
          (find_from-IsPlace v l (up left b x r p) (IsSorted-left cmp _ _ s) bel (
            e,
            All-append _ (inorder r) (after p)
                (IsAbove-trans o v x (inorder r) e (IsSorted-right cmp (inorder l) _ s).0) abv,
          ))
    | is_eq e ↦ rw (e, find_from) (record { whole = refl; below = bel; above = abv; hit = e })
    | is_gt e ↦
        rw (e, find_from)
          (find_from-IsPlace v r (up right b x l p) (IsSorted-right cmp (inorder l) _ s).1
            (All-append _ (before p) (inorder l ++ (x ∷ [])) bel (
              All-append _ (inorder l) (x ∷ [])
                (IsBelow-trans o v x (inorder l) (o.gt-lt v x e)
                  (IsSorted-IsBelow cmp (inorder l) _ x s))
                (o.gt-lt v x e, tt)))
            abv)
  ]

  pub search_place-IsPlace :
      (tree : AvlTree A) (v : A)
      → IsSorted cmp (inorder tree.avl_root)
      → IsPlace cmp v tree.avl_root (search_place cmp tree v)
  unfolding search_place plug before after
  search_place-IsPlace tree v s = find_from-IsPlace v tree.avl_root root s tt tt

  pub place-Finds :
      (v : A) (t : Tree A) (place : Trail A × Tree A)
      → IsPlace cmp v t place
      → Finds cmp v (inorder t) (item_at place.1)
  unfolding item_at inorder
  place-Finds v t (p, leaf) h = (
    rw (← h.whole, inorder-plug p leaf)
        (All-append _ (before p) (after p) (IsBelow-IsAbsent o v (before p) h.below)
          (IsAbove-IsAbsent o v (after p) h.above)),
    tt,
  )
  place-Finds v t (p, node b l x r) h = (
    before p ++ inorder l,
    inorder r ++ after p,
    rw (← h.whole) (inorder-plug p (node b l x r) ∙ simp append_assoc),
    h.hit,
  )

  -- With an ordering comparison, on a tree in order, `dlm_avl_find` returns an item of the tree
  -- that equals the value, and NULL only if no item of the tree equals it.
  pub dlm_avl_find-Finds :
      (tree : AvlTree A) (v : A)
      → IsSorted cmp (inorder tree.avl_root)
      → Finds cmp v (inorder tree.avl_root) (dlm_avl_find cmp tree v)
  unfolding dlm_avl_find
  dlm_avl_find-Finds tree v s =
      place-Finds v tree.avl_root (search_place cmp tree v) (search_place-IsPlace tree v s)
