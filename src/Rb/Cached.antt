-- ===== src/Rb/Cached.antt =====
-- `struct rb_root_cached` of rbtree.h: a red-black tree with a pointer to its leftmost node.
use kernel_utils.Base.{
  is_empty, ◌≡◌, refl, List, [], ◌∷◌, ◌++◌, Option, some, none, ◌∙◌, sym, ap, Bool, true, false,
  if◌then◌else◌, ◌>>=◌, All,
}
use kernel_utils.Binary.{after, before, inorder, leaf, node, plug}
use kernel_utils.Binary.Order.{first}
use kernel_utils.Rb.Tree.{Color, RbNode, RbTrail, IsRbTree}
use kernel_utils.Rb.Insert.{rb_insert_color}
use kernel_utils.Rb.Insert.Laws.{rb_insert_color-IsRbTree}
use kernel_utils.Rb.Erase.{rb_erase}
use kernel_utils.Rb.Erase.Laws.{rb_erase-IsRbTree}
use kernel_utils.Rb.Walk.{rb_next, rb_replace_node}
use kernel_utils.Rb.Walk.Laws.{rb_next_lem, rb_replace_node-IsRbTree}

pub record RbRootCached {ℓ} (A : Type ℓ) : Type ℓ where
  pub rb_root : RbNode A
  pub rb_leftmost : Option A

module _ {ℓ} {A : Type ℓ} where
  -- `leftmost` is what the caller found on the way down to the place.
  unfoldable pub rb_insert_color_cached :
      RbTrail A → A → RbRootCached A → Bool → Option (RbRootCached A)
  unfolding rb_insert_color
  rb_insert_color_cached p x root leftmost = rb_insert_color p x >>= λ t.
      some (record { rb_root = t; rb_leftmost = if leftmost then some x else root.rb_leftmost })

  -- `root->rb_leftmost == node`, where `same` compares two nodes.
  abbrev is_leftmost : (A → A → Bool) → Option A → A → Bool
  is_leftmost same none x = false
  is_leftmost same (some y) x = same y x

  unfoldable pub rb_erase_cached :
      (A → A → Bool)
      → RbTrail A
      → Color
      → RbNode A
      → A
      → RbNode A
      → RbRootCached A
      → Option (RbRootCached A)
  unfolding rb_erase rb_next
  rb_erase_cached same p c l x r root =
      let leftmost =
        if is_leftmost same root.rb_leftmost x
        then rb_next p (node c l x r)
        else root.rb_leftmost in
      rb_erase p c l x r >>= λ t. some (record { rb_root = t; rb_leftmost = leftmost })

  unfoldable pub rb_replace_node_cached :
      (A → A → Bool)
      → RbTrail A
      → Color
      → RbNode A
      → A
      → A
      → RbNode A
      → RbRootCached A
      → RbRootCached A
  unfolding rb_replace_node
  rb_replace_node_cached same p c l victim new r root = record {
    rb_root = rb_replace_node p c l victim new r;
    rb_leftmost = if is_leftmost same root.rb_leftmost victim then some new else root.rb_leftmost;
  }

  -- A red-black tree whose leftmost node is known.
  abbrev pub IsCached : RbRootCached A → Type ℓ
  IsCached root = IsRbTree root.rb_root × (root.rb_leftmost ≡ first (inorder root.rb_root))

  leftmost_inserted :
      (pre post : List A) (x : A) (m : Option A) (leftmost : Bool)
      → m ≡ first (pre ++ post)
      → leftmost ≡ is_empty pre
      → (if leftmost then some x else m) ≡ first (pre ++ (x ∷ post))
  leftmost_inserted [] post x m leftmost e b = rw b refl
  leftmost_inserted (y ∷ pre) post x m leftmost e b = rw b e

  leftmost_replaced :
      (same : A → A → Bool) (pre post : List A) (x y : A) (m : Option A)
      → ((z : A) → same z z ≡ true)
      → All (λ z. same z x ≡ false) pre
      → m ≡ first (pre ++ (x ∷ post))
      → (if is_leftmost same m x then some y else m) ≡ first (pre ++ (y ∷ post))
  leftmost_replaced same [] post x y m reflexive d e = rw (e, reflexive x) refl
  leftmost_replaced same (z ∷ pre) post x y m reflexive d e = rw (e, d.0) refl

  leftmost_erased :
      (same : A → A → Bool) (pre post : List A) (x : A) (m : Option A)
      → ((z : A) → same z z ≡ true)
      → All (λ z. same z x ≡ false) pre
      → m ≡ first (pre ++ (x ∷ post))
      → (if is_leftmost same m x then first post else m) ≡ first (pre ++ post)
  leftmost_erased same [] post x m reflexive d e = rw (e, reflexive x) refl
  leftmost_erased same (z ∷ pre) post x m reflexive d e = rw (e, d.0) refl

  -- At a null child of a red-black tree whose `rb_leftmost` is its first item,
  -- `rb_insert_color_cached`, told rightly whether the place is the leftmost one, succeeds: the
  -- tree stays a red-black tree, `rb_leftmost` its first item, and the new item stands at that
  -- place in the order.
  pub rb_insert_color_cached-IsCached :
      (p : RbTrail A) (x : A) (root : RbRootCached A) (leftmost : Bool)
      → IsCached root
      → root.rb_root ≡ plug p leaf
      → leftmost ≡ is_empty (before p)
      → (u : RbRootCached A) × (rb_insert_color_cached p x root leftmost ≡ some u)
        × IsCached u
        × (inorder u.rb_root ≡ before p ++ (x ∷ after p))
  unfolding rb_insert_color_cached
  rb_insert_color_cached-IsCached p x root leftmost (h, m) e b =
      let (t, returns, tree, old, order) = rb_insert_color-IsRbTree p x (rw (sym e) h) in
      (
        record { rb_root = t; rb_leftmost = if leftmost then some x else root.rb_leftmost },
        rw returns refl,
        (
          tree,
          leftmost_inserted (before p) (after p) x root.rb_leftmost leftmost
                (m ∙ ap (λ t. first (inorder t)) e ∙ ap first old) b
              ∙ ap first (sym order),
        ),
        order,
      )

  -- At a node of a red-black tree whose `rb_leftmost` is its first item, where the nodes before it
  -- differ from it, `rb_erase_cached` succeeds: the tree stays a red-black tree of the other items
  -- in their order, and `rb_leftmost` its first item.
  pub rb_erase_cached-IsCached :
      (same : A → A → Bool) (p : RbTrail A) (c : Color) (l : RbNode A) (x : A) (r : RbNode A)
      (root : RbRootCached A)
      → ((z : A) → same z z ≡ true)
      → All (λ z. same z x ≡ false) (before p ++ inorder l)
      → IsCached root
      → root.rb_root ≡ plug p (node c l x r)
      → (u : RbRootCached A) × (rb_erase_cached same p c l x r root ≡ some u)
        × IsCached u
        × (inorder u.rb_root ≡ (before p ++ inorder l) ++ (inorder r ++ after p))
  unfolding rb_erase_cached
  rb_erase_cached-IsCached same p c l x r root reflexive distinct (h, m) e =
      let (t, returns, tree, old, order) = rb_erase-IsRbTree p c l x r (rw (sym e) h) in
      let (_, next, _) = rb_next_lem p c l x r in
      (
        record {
          rb_root = t;
          rb_leftmost =
              if is_leftmost same root.rb_leftmost x
              then rb_next p (node c l x r)
              else root.rb_leftmost;
        },
        rw returns refl,
        (
          tree,
          rw (next, order)
              (leftmost_erased same (before p ++ inorder l) (inorder r ++ after p) x
                root.rb_leftmost reflexive distinct
                (m ∙ ap (λ t. first (inorder t)) e ∙ ap first old)),
        ),
        order,
      )

  -- At a node of a red-black tree whose `rb_leftmost` is its first item, where the nodes before it
  -- differ from it, `rb_replace_node_cached` leaves a red-black tree whose `rb_leftmost` is its
  -- first item.
  pub rb_replace_node_cached-IsCached :
      (same : A → A → Bool) (p : RbTrail A) (c : Color) (l : RbNode A) (victim new : A)
      (r : RbNode A) (root : RbRootCached A)
      → ((z : A) → same z z ≡ true)
      → All (λ z. same z victim ≡ false) (before p ++ inorder l)
      → IsCached root
      → root.rb_root ≡ plug p (node c l victim r)
      → IsCached (rb_replace_node_cached same p c l victim new r root)
  unfolding rb_replace_node_cached
  rb_replace_node_cached-IsCached same p c l victim new r root reflexive distinct (h, m) e =
      let (tree, old, order) = rb_replace_node-IsRbTree p c l victim new r (rw (sym e) h) in
      (
        tree,
        leftmost_replaced same (before p ++ inorder l) (inorder r ++ after p) victim new
              root.rb_leftmost reflexive distinct (m ∙ ap (λ t. first (inorder t)) e ∙ ap first old)
            ∙ ap first (sym order),
      )
