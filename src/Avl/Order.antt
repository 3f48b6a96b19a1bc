-- ===== src/Avl/Order.antt =====
-- The comparison functions that the callers of avl.c pass in, and ascending lists.
use kernel_utils.Base.{
  ◌≡◌, ◌≢◌, List, [], ◌∷◌, ◌++◌, Ordering, lt, eq, gt, All, All-append, All-left, All-right,
  All-map, arith,
}

-- `avl_compar` returns -1, 0 or 1, and its callers may rely on these laws of an order.
pub record IsOrder {ℓ} {A : Type ℓ} (cmp : A → A → Ordering) : Type ℓ where
  pub lt-gt : (a b : A) → cmp a b ≡ lt → cmp b a ≡ gt
  pub gt-lt : (a b : A) → cmp a b ≡ gt → cmp b a ≡ lt
  pub lt_trans : (a b c : A) → cmp a b ≡ lt → cmp b c ≡ lt → cmp a c ≡ lt

module _ {ℓ} {A : Type ℓ} (cmp : A → A → Ordering) where
  -- Every item comes strictly before all later ones.
  abbrev pub IsSorted : List A → Type 0
  IsSorted [] = Unit
  IsSorted (x ∷ xs) = All (λ y. cmp x y ≡ lt) xs × IsSorted xs

  -- All of a list is below, or above, a value.
  abbrev pub IsBelow : A → List A → Type 0
  IsBelow v = All (λ y. cmp y v ≡ lt)

  abbrev pub IsAbove : A → List A → Type 0
  IsAbove v = All (λ y. cmp v y ≡ lt)

  -- No item of a list equals a value.
  abbrev pub IsAbsent : A → List A → Type 0
  IsAbsent v = All (λ y. cmp v y ≢ eq)

module _ {ℓ} {A : Type ℓ} (cmp : A → A → Ordering) where
  pub IsSorted-left : (xs ys : List A) → IsSorted cmp (xs ++ ys) → IsSorted cmp xs
  IsSorted-left [] ys s = tt
  IsSorted-left (x ∷ xs) ys s = (All-left _ xs ys s.0, IsSorted-left xs ys s.1)

  pub IsSorted-right : (xs ys : List A) → IsSorted cmp (xs ++ ys) → IsSorted cmp ys
  IsSorted-right [] ys s = s
  IsSorted-right (x ∷ xs) ys s = IsSorted-right xs ys s.1

  pub IsSorted-IsBelow : (xs ys : List A) (v : A) → IsSorted cmp (xs ++ (v ∷ ys)) → IsBelow cmp v xs
  IsSorted-IsBelow [] ys v s = tt
  IsSorted-IsBelow (x ∷ xs) ys v s = ((All-right _ xs (v ∷ ys) s.0).0, IsSorted-IsBelow xs ys v s.1)

  -- Taking out a middle part.
  pub IsSorted-without :
      (xs : List A) (v : A) (ys : List A) → IsSorted cmp (xs ++ (v ∷ ys)) → IsSorted cmp (xs ++ ys)
  IsSorted-without [] v ys s = s.1
  IsSorted-without (x ∷ xs) v ys s = (
    All-append _ xs ys (All-left _ xs (v ∷ ys) s.0) (All-right _ xs (v ∷ ys) s.0).1,
    IsSorted-without xs v ys s.1,
  )

module _ {ℓ} {A : Type ℓ} {cmp : A → A → Ordering} (o : IsOrder cmp) where
  pub IsAbove-trans : (v x : A) (xs : List A) → cmp v x ≡ lt → IsAbove cmp x xs → IsAbove cmp v xs
  IsAbove-trans v x xs h = All-map _ _ (λ y k. o.lt_trans v x y h k) xs

  pub IsBelow-trans : (v x : A) (xs : List A) → cmp x v ≡ lt → IsBelow cmp x xs → IsBelow cmp v xs
  IsBelow-trans v x xs h = All-map _ _ (λ y k. o.lt_trans y x v k h) xs

  -- Putting a value between what is below it and what is above it.
  pub IsSorted-insert :
      (xs : List A) (v : A) (ys : List A)
      → IsSorted cmp (xs ++ ys)
      → IsBelow cmp v xs
      → IsAbove cmp v ys
      → IsSorted cmp (xs ++ (v ∷ ys))
  IsSorted-insert [] v ys s b a = (a, s)
  IsSorted-insert (x ∷ xs) v ys s b a = (
    All-append _ xs (v ∷ ys) (All-left _ xs ys s.0) (b.0, All-right _ xs ys s.0),
    IsSorted-insert xs v ys s.1 b.1 a,
  )

  pub IsBelow-IsAbsent : (v : A) (xs : List A) → IsBelow cmp v xs → IsAbsent cmp v xs
  IsBelow-IsAbsent v = All-map _ _ (λ y h e. ground (arith, o.lt-gt y v h))

  pub IsAbove-IsAbsent : (v : A) (xs : List A) → IsAbove cmp v xs → IsAbsent cmp v xs
  IsAbove-IsAbsent v = All-map _ _ (λ y h e. ground (arith))
