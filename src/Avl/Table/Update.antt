-- ===== src/Avl/Table/Update.antt =====
-- `dlm_avl_update` and its two one-sided variants: the item of a node has been changed in place.
use kernel_utils.Base.{
  ◌<◌, ◌^◌, ◌≡◌, ◌≢◌, List, [], ◌∷◌, ◌++◌, refl, ◌+◌, ◌∙◌, sym, ap, some, Bool, true, false,
  Ordering, lt, eq, gt, All-left, All-right, arith, Bool-cases, inl, inr, length, length_middle,
}
use kernel_utils.Binary.{inorder, left, node, plug, right}
use kernel_utils.Binary.Order.{first, last}
use kernel_utils.Avl.Tree.{Balance, Tree, Trail, AvlTree}
use kernel_utils.Avl.Order.{
  IsOrder, IsSorted, IsBelow, IsAbove, IsAbsent, IsSorted-left, IsSorted-right, IsSorted-insert,
  IsAbove-trans,
}
use kernel_utils.Avl.Walk.{dlm_avl_walk}
use kernel_utils.Avl.Walk.Laws.{dlm_avl_walk_lem}
use kernel_utils.Avl.Table.{
  compares, reinsert, dlm_avl_update, dlm_avl_update_lt, dlm_avl_update_gt,
}
use kernel_utils.Avl.Table.Valid.{items, IsSound, IsValid}
use kernel_utils.Avl.Table.Add.{dlm_avl_add-IsValid}
use kernel_utils.Avl.Table.Remove.{lower, upper, items-at, dlm_avl_remove-IsSound}

module _ {ℓ} {A : Type ℓ} {cmp : A → A → Ordering} (o : IsOrder cmp) (obj : A) where
  compares-lt-false :
      (x : A) → cmp obj x ≢ eq → compares cmp obj (some x) lt ≡ false → cmp x obj ≡ lt
  unfolding compares
  compares-lt-false x ne h = ground (arith, o.gt-lt obj x)

  compares-gt-false :
      (x : A) → cmp obj x ≢ eq → compares cmp obj (some x) gt ≡ false → cmp obj x ≡ lt
  unfolding compares
  compares-gt-false x ne h = ground arith

  -- If the previous item is not above `obj`, then all before it are below.
  IsBelow-last :
      (xs : List A)
      → IsSorted cmp xs
      → IsAbsent cmp obj xs
      → compares cmp obj (last xs) lt ≡ false
      → IsBelow cmp obj xs
  IsBelow-last [] s a h = tt
  IsBelow-last (x ∷ []) s a h = (compares-lt-false x a.0 h, tt)
  IsBelow-last (x ∷ y ∷ ys) s a h =
      let rest = IsBelow-last (y ∷ ys) s.1 a.1 h in (o.lt_trans x y obj s.0.0 rest.0, rest)

  IsAbove-first :
      (xs : List A)
      → IsSorted cmp xs
      → IsAbsent cmp obj xs
      → compares cmp obj (first xs) gt ≡ false
      → IsAbove cmp obj xs
  IsAbove-first [] s a h = tt
  IsAbove-first (x ∷ xs) s a h =
      let above = compares-gt-false x a.0 h in (above, IsAbove-trans o obj x xs above s.0)

-- The tree is sound, and in order but for the item at one node.
pub record IsChanged {ℓ} {A : Type ℓ} (cmp : A → A → Ordering) (t : AvlTree A) (p : Trail A)
    (b : Balance) (l : Tree A) (obj : A) (r : Tree A) : Type ℓ where
  pub sound : IsSound t
  pub place : plug p (node b l obj r) ≡ t.avl_root
  pub others : IsSorted cmp (lower p l ++ upper p r)
  pub absent : IsAbsent cmp obj (lower p l ++ upper p r)
  pub small : t.avl_numnodes < 2 ^ 64

-- The result of an update: a valid tree with `obj` at its place among the other items.
pub record Restored {ℓ} {A : Type ℓ} (cmp : A → A → Ordering) (obj : A) (others : List A)
    (t : AvlTree A) : Type ℓ where
  pub valid : IsValid cmp t
  pub front : List A
  pub back : List A
  pub split : others ≡ front ++ back
  pub order : items t ≡ front ++ (obj ∷ back)

module _ {ℓ} {A : Type ℓ} {cmp : A → A → Ordering} (o : IsOrder cmp) (t : AvlTree A) (p : Trail A)
    (b : Balance) (l : Tree A) (obj : A) (r : Tree A) (c : IsChanged cmp t p b l obj r) where
  reinsert-Restored :
      (t' : AvlTree A) × (reinsert cmp t p (node b l obj r) obj ≡ some t')
      × Restored cmp obj (lower p l ++ upper p r) t'
  unfolding reinsert
  reinsert-Restored =
      let (t₁, removed, sound, old, new) = dlm_avl_remove-IsSound t p b l obj r c.sound c.place in
      let valid : IsValid cmp t₁ = record { sound = sound; sorted = rw new c.others } in
      let fits : t₁.avl_numnodes + 1 < 2 ^ 64 = omega (
        arith,
        c.small,
        c.sound.counted,
        sound.counted,
        ap length old,
        ap length new,
        length_middle (lower p l) obj (upper p r),
      ) in
      let (t₂, added, valid₂, xs, ys, e, f) =
        dlm_avl_add-IsValid o t₁ obj valid (rw new c.absent) fits in
      (
        t₂,
        rw removed added,
        record { valid = valid₂; front = xs; back = ys; split = sym new ∙ e; order = f },
      )

  -- If both neighbours are right, nothing has to be done.
  stay-Restored :
      compares cmp obj (dlm_avl_walk left p (node b l obj r)) lt ≡ false
      → compares cmp obj (dlm_avl_walk right p (node b l obj r)) gt ≡ false
      → Restored cmp obj (lower p l ++ upper p r) t
  stay-Restored h k =
      let (next, prev) = dlm_avl_walk_lem p b l obj r in
      let old : items t ≡ lower p l ++ (obj ∷ upper p r) =
        ap inorder (sym c.place) ∙ items-at p b l obj r in
      record {
        valid = record {
          sound = c.sound;
          sorted = rw old (
              IsSorted-insert o (lower p l) obj (upper p r) c.others
                (IsBelow-last o obj (lower p l) (IsSorted-left cmp (lower p l) (upper p r) c.others)
                  (All-left _ (lower p l) (upper p r) c.absent) (rw prev at h))
                (IsAbove-first o obj (upper p r)
                  (IsSorted-right cmp (lower p l) (upper p r) c.others)
                  (All-right _ (lower p l) (upper p r) c.absent) (rw next at k)));
        };
        front = lower p l;
        back = upper p r;
        split = refl;
        order = old;
      }

  -- After the item of a node has been changed in place, in a tree that is sound and whose other
  -- items are in order and none of them equal to it, `dlm_avl_update` returns a valid tree with the
  -- changed item at its place among the others.
  pub dlm_avl_update-Restored :
      (t' : AvlTree A) × (moved : Bool) × (dlm_avl_update cmp t p (node b l obj r) obj
        ≡ some (t', moved))
      × Restored cmp obj (lower p l ++ upper p r) t'
  unfolding dlm_avl_update
  dlm_avl_update-Restored =
      let (t', e, restored) = reinsert-Restored in
      elim (Bool-cases (compares cmp obj (dlm_avl_walk left p (node b l obj r)) lt)) [
        | inl h ↦ (t', true, rw h (rw e refl), restored)
        | inr h ↦ elim (Bool-cases (compares cmp obj (dlm_avl_walk right p (node b l obj r)) gt)) [
          | inl k ↦ (t', true, rw h (rw k (rw e refl)), restored)
          | inr k ↦ (t, false, rw h (rw k refl), stay-Restored h k)
        ]
      ]

  -- The same for `dlm_avl_update_lt`, where its assertion holds that the changed item is not above
  -- the next one.
  pub dlm_avl_update_lt-Restored :
      compares cmp obj (dlm_avl_walk right p (node b l obj r)) gt ≡ false
      → (t' : AvlTree A) × (moved : Bool) × (dlm_avl_update_lt cmp t p (node b l obj r) obj
          ≡ some (t', moved))
        × Restored cmp obj (lower p l ++ upper p r) t'
  unfolding dlm_avl_update_lt
  dlm_avl_update_lt-Restored k =
      let (t', e, restored) = reinsert-Restored in
      elim (Bool-cases (compares cmp obj (dlm_avl_walk left p (node b l obj r)) lt)) [
        | inl h ↦ (t', true, rw k (rw h (rw e refl)), restored)
        | inr h ↦ (t, false, rw k (rw h refl), stay-Restored h k)
      ]

  -- The same for `dlm_avl_update_gt`, where its assertion holds that the changed item is not below
  -- the previous one.
  pub dlm_avl_update_gt-Restored :
      compares cmp obj (dlm_avl_walk left p (node b l obj r)) lt ≡ false
      → (t' : AvlTree A) × (moved : Bool) × (dlm_avl_update_gt cmp t p (node b l obj r) obj
          ≡ some (t', moved))
        × Restored cmp obj (lower p l ++ upper p r) t'
  unfolding dlm_avl_update_gt
  dlm_avl_update_gt-Restored h =
      let (t', e, restored) = reinsert-Restored in
      elim (Bool-cases (compares cmp obj (dlm_avl_walk right p (node b l obj r)) gt)) [
        | inl k ↦ (t', true, rw h (rw k (rw e refl)), restored)
        | inr k ↦ (t, false, rw h (rw k refl), stay-Restored h k)
      ]
