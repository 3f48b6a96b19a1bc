-- ===== src/ListSort/Order.antt =====
-- What `list_sort.c` asks of a comparison function, and what a stable sort does.
use kernel_utils.Base.{
  ◌≡◌, refl, Bool, true, false, ◌&&◌, List, [], ◌∷◌, ◌++◌, All, if◌then◌else◌, ◌∙◌, Bool-cases, inl,
  inr,
}
use mathlib.Core.List.{Perm}
use mathlib.Core.List.Perm

-- `in_order a b` says that `a` is not to be sorted after `b`: a total preorder.
pub record IsCmp {ℓ} {A : Type ℓ} (in_order : A → A → Bool) : Type ℓ where
  pub total : (a b : A) → in_order a b ≡ false → in_order b a ≡ true
  pub transitive : (a b c : A) → in_order a b ≡ true → in_order b c ≡ true → in_order a c ≡ true

module _ {ℓ} {A : Type ℓ} where
  abbrev pub IsNonempty : List A → Type 0
  IsNonempty [] = ⊥
  IsNonempty (x ∷ xs) = Unit

module _ {ℓ} {A : Type ℓ} (in_order : A → A → Bool) where
  abbrev pub IsSorted : List A → Type 0
  IsSorted [] = Unit
  IsSorted (x ∷ xs) = All (λ y. in_order x y ≡ true) xs × IsSorted xs

  -- The items that compare equal to `z`, in their order.
  abbrev pub equal_items : A → List A → List A
  equal_items z [] = []
  equal_items z (x ∷ xs) =
      let rest = equal_items z xs in if in_order z x && in_order x z then x ∷ rest else rest

  -- Lists that exchanges of neighbours make from each other, where the neighbours were out of order.
  pub data Moves : List A → List A → Type ℓ where
    stay : {xs : List A} → Moves xs xs
    swap : (x y : A) (xs : List A) → in_order x y ≡ false → Moves (x ∷ y ∷ xs) (y ∷ x ∷ xs)
    keep : (x : A) {xs ys : List A} → Moves xs ys → Moves (x ∷ xs) (x ∷ ys)
    followed : {xs ys zs : List A} → Moves xs ys → Moves ys zs → Moves xs zs

  pub Moves-Perm : {xs ys : List A} → Moves xs ys → Perm xs ys
  Moves-Perm stay = Perm.rfl
  Moves-Perm (swap x y xs h) = Perm.swap y x xs
  Moves-Perm (keep x m) = Perm.cons x (Moves-Perm m)
  Moves-Perm (followed m n) = Perm.trans (Moves-Perm m) (Moves-Perm n)

  pub Moves-prefix : (xs : List A) {ys zs : List A} → Moves ys zs → Moves (xs ++ ys) (xs ++ zs)
  Moves-prefix [] m = m
  Moves-prefix (x ∷ xs) m = keep x (Moves-prefix xs m)

  pub All-implied : {P Q : A → Type 0} → ((x : A) → P x → Q x) → (xs : List A) → All P xs → All Q xs
  All-implied f [] h = tt
  All-implied f (x ∷ xs) h = (f x h.0, All-implied f xs h.1)

  pub Moves-All : (P : A → Type 0) {xs ys : List A} → Moves xs ys → All P xs → All P ys
  Moves-All P stay h = h
  Moves-All P (swap x y xs e) (a, (b, h)) = (b, (a, h))
  Moves-All P (keep x m) (a, h) = (a, Moves-All P m h)
  Moves-All P (followed m n) h = Moves-All P n (Moves-All P m h)

  pub Moves-IsNonempty : {xs ys : List A} → Moves xs ys → IsNonempty xs → IsNonempty ys
  Moves-IsNonempty stay h = h
  Moves-IsNonempty (swap x y xs e) h = tt
  Moves-IsNonempty (keep x m) h = tt
  Moves-IsNonempty (followed m n) h = Moves-IsNonempty n (Moves-IsNonempty m h)

  -- A sorted list that is not empty.
  abbrev pub IsRun : List A → Type 0
  IsRun xs = IsNonempty xs × IsSorted xs

  both : (a b : Bool) → (a && b) ≡ true → (a ≡ true) × (b ≡ true)
  both true true h = (refl, refl)
  both true false h = cc
  both false b h = cc

  out_of_order :
      IsCmp in_order
      → (x y z : A) → in_order x y ≡ false
      → in_order x z ≡ true
      → in_order z y ≡ true
      → ⊥
  out_of_order c x y z h a b = let x_y = c.transitive x z y a b in cc

  pub Moves-suffix : (zs : List A) {xs ys : List A} → Moves xs ys → Moves (xs ++ zs) (ys ++ zs)
  Moves-suffix zs stay = stay
  Moves-suffix zs (swap x y xs h) = swap x y (xs ++ zs) h
  Moves-suffix zs (keep x m) = keep x (Moves-suffix zs m)
  Moves-suffix zs (followed m n) = followed (Moves-suffix zs m) (Moves-suffix zs n)

  -- Exchanges of items out of order leave the items that compare equal in their order.
  pub Moves-equal_items :
      IsCmp in_order → (z : A) {xs ys : List A} → Moves xs ys → equal_items z xs ≡ equal_items z ys
  Moves-equal_items c z stay = refl
  Moves-equal_items c z (keep x m) = rw (Moves-equal_items c z m) refl
  Moves-equal_items c z (followed m n) = Moves-equal_items c z m ∙ Moves-equal_items c z n
  Moves-equal_items c z (swap x y xs h) = elim (Bool-cases (in_order z x && in_order x z)) [
    | inr other ↦ rw other refl
    | inl same_x ↦ elim (Bool-cases (in_order z y && in_order y z)) [
      | inr other ↦ rw other refl
      | inl same_y ↦ absurd (out_of_order c x y z h (both _ _ same_x).1 (both _ _ same_y).0)
    ]
  ]
