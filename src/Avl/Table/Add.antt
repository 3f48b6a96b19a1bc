-- ===== src/Avl/Table/Add.antt =====
-- Adding an item: `dlm_avl_insert` at an insertion point, and `dlm_avl_add`.
use kernel_utils.Base.{
  ◌<◌, ◌%◌, ◌^◌, ◌≡◌, inl, Option, none, some, List, ◌∷◌, ◌++◌, refl, arith, Returns_both, ◌+◌, ◌∙◌,
  sym, ap, Ordering, eq, length, length_middle, All-left, All-right, ◌≢◌,
}
use kernel_utils.Binary.{after, before, inorder, leaf, node, plug}
use kernel_utils.Binary.Order.{inorder-plug}
use kernel_utils.Avl.Tree.{Balance, even, Tree, height, IsAvl, Trail, AvlTree}
use kernel_utils.Avl.Shape.{plug-IsAvl_inv}
use kernel_utils.Avl.Order.{IsOrder, IsSorted, IsAbsent, IsSorted-insert, IsBelow, IsAbove}
use kernel_utils.Avl.Insert.{insert_up, dlm_avl_insert}
use kernel_utils.Avl.Insert.Laws.{IsGrown, insert_up-IsAvl, inorder-insert_up}
use kernel_utils.Avl.Find.{search_place, item_at, dlm_avl_find}
use kernel_utils.Avl.Find.Laws.{IsPlace, search_place-IsPlace, place-Finds}
use kernel_utils.Avl.Table.{dlm_avl_add}
use kernel_utils.Avl.Table.Valid.{items, IsSound, IsValid}

module _ {ℓ} {A : Type ℓ} where
  -- The outcome of putting `v` between the items `xs` and `ys`.
  pub record Inserts (v : A) (xs ys : List A) (result : Option (AvlTree A)) : Type ℓ where
    pub tree : AvlTree A
    pub returns : result ≡ some tree
    pub sound : IsSound tree
    pub order : items tree ≡ xs ++ (v ∷ ys)

  leaf-IsGrown : (v : A) → IsGrown 0 (node even leaf v leaf)
  unfolding IsAvl height
  leaf-IsGrown v = record { balanced = (tt, tt, refl); taller = refl; leans = inl refl }

  -- At every null child of a sound tree `dlm_avl_insert` succeeds, and the new item stands exactly
  -- there in the order.
  pub dlm_avl_insert-Inserts :
      (tree : AvlTree A) (v : A) (where_ : Trail A)
      → IsSound tree
      → plug where_ leaf ≡ tree.avl_root
      → tree.avl_numnodes + 1 < 2 ^ 64
      → Inserts v (before where_) (after where_) (dlm_avl_insert tree v where_)
  unfolding dlm_avl_insert inorder height
  dlm_avl_insert-Inserts tree v p s e small =
      let old : items tree ≡ before p ++ after p = ap inorder (sym e) ∙ inorder-plug p leaf in
      let fits = (plug-IsAvl_inv p leaf (rw e s.balanced)).1 in
      let (t, returns, avl, order) =
        Returns_both (insert_up p (node even leaf v leaf)) IsAvl _
          (insert_up-IsAvl p (node even leaf v leaf) 0 fits (leaf-IsGrown v))
          (inorder-insert_up p (node even leaf v leaf) _ refl) in
      record {
        tree = record { avl_root = t; avl_numnodes = (tree.avl_numnodes + 1) % 2 ^ 64 };
        returns = rw returns;
        sound = record {
          balanced = avl;
          counted = omega (
            arith,
            s.counted,
            ap length old,
            ap length order,
            length_middle (before p) v (after p),
          );
        };
        order = order;
      }

  Inserts-IsValid :
      {cmp : A → A → Ordering} (o : IsOrder cmp) {v : A} {xs ys : List A}
      {result : Option (AvlTree A)} (i : Inserts v xs ys result)
      → IsSorted cmp (xs ++ ys)
      → IsBelow cmp v xs
      → IsAbove cmp v ys
      → IsValid cmp i.tree
  Inserts-IsValid o i s b a = record {
    sound = i.sound;
    sorted = rw i.order (IsSorted-insert o _ _ _ s b a);
  }

  module _ (cmp : A → A → Ordering) (tree : AvlTree A) (v : A) where
    dlm_avl_add_missing :
        (p : Trail A)
        → search_place cmp tree v ≡ (p, leaf)
        → dlm_avl_add cmp tree v ≡ dlm_avl_insert tree v p
    unfolding dlm_avl_add dlm_avl_find item_at
    dlm_avl_add_missing p e = rw (e, dlm_avl_add) (rw e)

    dlm_avl_add_present :
        (p : Trail A) (b : Balance) (l : Tree A) (x : A) (r : Tree A)
        → search_place cmp tree v ≡ (p, node b l x r)
        → dlm_avl_add cmp tree v ≡ none
    unfolding dlm_avl_add dlm_avl_find item_at
    dlm_avl_add_present p b l x r e = rw (e, dlm_avl_add)

  hit-absent :
      (cmp : A → A → Ordering) (v : A) (p : Trail A) (l r : List A) (x : A)
      → IsAbsent cmp v (before p ++ ((l ++ (x ∷ r)) ++ after p))
      → cmp v x ≢ eq
  hit-absent cmp v p l r x h =
      (All-right _ l (x ∷ r) (All-left _ (l ++ (x ∷ r)) (after p) (All-right _ (before p) _ h))).0

  -- What adding `v` does on a valid tree that has no equal item.
  abbrev pub Adds : (cmp : A → A → Ordering) → AvlTree A → A → Type ℓ
  Adds cmp tree v =
      (tree' : AvlTree A) × (dlm_avl_add cmp tree v ≡ some tree')
      × IsValid cmp tree'
      × (xs : List A) × (ys : List A) × (items tree ≡ xs ++ ys)
      × (items tree' ≡ xs ++ (v ∷ ys))

  add_at :
      {cmp : A → A → Ordering} (o : IsOrder cmp) (tree : AvlTree A) (v : A)
      → IsValid cmp tree
      → IsAbsent cmp v (items tree)
      → tree.avl_numnodes + 1 < 2 ^ 64
      → (place : Trail A × Tree A) → search_place cmp tree v ≡ place
      → IsPlace cmp v tree.avl_root place
      → Adds cmp tree v
  unfolding inorder
  add_at {cmp} o tree v valid absent small (p, leaf) e at_p =
      let i = dlm_avl_insert-Inserts tree v p valid.sound at_p.whole small in
      let old : items tree ≡ before p ++ after p =
        ap inorder (sym at_p.whole) ∙ inorder-plug p leaf in
      (
        i.tree,
        dlm_avl_add_missing cmp tree v p e ∙ i.returns,
        Inserts-IsValid o i (rw old at valid.sorted) at_p.below at_p.above,
        before p,
        after p,
        old,
        i.order,
      )
  add_at {cmp} o tree v valid absent small (p, node b l x r) e at_p =
      let whole : items tree ≡ before p ++ ((inorder l ++ (x ∷ inorder r)) ++ after p) =
        ap inorder (sym at_p.whole) ∙ inorder-plug p (node b l x r) in
      absurd (hit-absent cmp v p (inorder l) (inorder r) x (rw whole at absent) at_p.hit)

  -- With an ordering comparison, on a valid tree (balanced, in order, counted) that holds no equal
  -- item and whose count is far enough from its bound, `dlm_avl_add` succeeds: the new tree is
  -- valid, and its items are the old ones with the new one put in.
  pub dlm_avl_add-IsValid :
      {cmp : A → A → Ordering} (o : IsOrder cmp) (tree : AvlTree A) (v : A)
      → IsValid cmp tree
      → IsAbsent cmp v (items tree)
      → tree.avl_numnodes + 1 < 2 ^ 64
      → (tree' : AvlTree A) × (dlm_avl_add cmp tree v ≡ some tree')
        × IsValid cmp tree'
        × (xs : List A) × (ys : List A) × (items tree ≡ xs ++ ys)
        × (items tree' ≡ xs ++ (v ∷ ys))
  dlm_avl_add-IsValid {cmp} o tree v valid absent small =
      add_at o tree v valid absent small (search_place cmp tree v) refl
        (search_place-IsPlace o tree v valid.sorted)

  add_refused_at :
      {cmp : A → A → Ordering} (o : IsOrder cmp) (tree : AvlTree A) (v : A)
      → ¬ IsAbsent cmp v (items tree)
      → (place : Trail A × Tree A) → search_place cmp tree v ≡ place
      → IsPlace cmp v tree.avl_root place
      → dlm_avl_add cmp tree v ≡ none
  unfolding inorder item_at
  add_refused_at {cmp} o tree v present (p, node b l x r) e at_p =
      dlm_avl_add_present cmp tree v p b l x r e
  add_refused_at {cmp} o tree v present (p, leaf) e at_p =
      absurd (present (place-Finds o v tree.avl_root (p, leaf) at_p).0)

  -- With an ordering comparison, on a tree in order that holds an equal item, the assertion of
  -- `dlm_avl_add` fails.
  pub dlm_avl_add_duplicate :
      {cmp : A → A → Ordering} (o : IsOrder cmp) (tree : AvlTree A) (v : A)
      → IsSorted cmp (items tree)
      → ¬ IsAbsent cmp v (items tree)
      → dlm_avl_add cmp tree v ≡ none
  dlm_avl_add_duplicate {cmp} o tree v sorted present =
      add_refused_at o tree v present (search_place cmp tree v) refl
        (search_place-IsPlace o tree v sorted)
