-- ===== src/ListSort/Merge.antt =====
-- Merging two sorted lists.
use kernel_utils.Base.{
  ◌≡◌, refl, Bool, true, false, some, List, [], ◌∷◌, ◌++◌, append-nil, All, All-append, Bool-cases,
  ◌⊎◌, inl, inr,
}
use kernel_utils.ListSort.{merge_from, merge_loop, merge, merge_final}
use kernel_utils.ListSort.Order.{
  IsCmp, IsSorted, Moves, stay, swap, keep, followed, Moves-All, All-implied, IsRun,
  Moves-IsNonempty,
}

module _ {ℓ} {A : Type ℓ} (in_order : A → A → Bool) (c : IsCmp in_order) where
  -- An item goes to the front of the items that are to be sorted after it.
  Moves-front :
      (xs : List A) (b : A) (bs : List A)
      → All (λ y. in_order y b ≡ false) xs
      → Moves in_order (xs ++ (b ∷ bs)) (b ∷ (xs ++ bs))
  Moves-front [] b bs h = stay
  Moves-front (x ∷ xs) b bs h =
      followed (keep x (Moves-front xs b bs h.1)) (swap x b (xs ++ bs) h.0)

  All-before :
      (a b : A) (xs : List A)
      → in_order a b ≡ true
      → All (λ y. in_order b y ≡ true) xs
      → All (λ y. in_order a y ≡ true) xs
  All-before a b xs e h = All-implied in_order (λ y k. c.transitive a b y e k) xs h

  All-out_of_order :
      (a b : A) (xs : List A)
      → in_order a b ≡ false
      → All (λ y. in_order a y ≡ true) xs
      → All (λ y. in_order y b ≡ false) xs
  All-out_of_order a b xs e h =
      All-implied in_order (λ y k. later y k (Bool-cases (in_order y b))) xs h
    where
      later :
          (y : A)
          → in_order a y ≡ true
          → (in_order y b ≡ true) ⊎ (in_order y b ≡ false)
          → in_order y b ≡ false
      later y k (inl t) = let a_b = c.transitive a y b k t in cc
      later y k (inr f) = f

  merge_from-IsSorted :
      (a : A) (a_next : List A) (rest : List A → List A) (b : List A)
      → ((b : List A)
          → IsSorted in_order b
          → Moves in_order (a_next ++ b) (rest b) × IsSorted in_order (rest b))
      → IsSorted in_order (a ∷ a_next)
      → IsSorted in_order b
      → Moves in_order (a ∷ (a_next ++ b)) (merge_from in_order a a_next rest b)
        × IsSorted in_order (merge_from in_order a a_next rest b)
  unfolding merge_from
  merge_from-IsSorted a a_next rest [] r h k = (rw (append-nil a_next) stay, h)
  merge_from-IsSorted a a_next rest (b ∷ b_next) r h k = elim (Bool-cases (in_order a b)) [
    | inl first_a ↦
        let (moves, sorted) = r (b ∷ b_next) k in
        rw first_a (
          keep a moves,
          (
            Moves-All in_order _ moves
                (All-append _ a_next (b ∷ b_next) h.0 (first_a, All-before a b b_next first_a k.0)),
            sorted,
          ),
        )
    | inr first_b ↦
        let (moves, sorted) = merge_from-IsSorted a a_next rest b_next r h k.1 in
        let b_a = c.total a b first_b in
        rw first_b (
          followed
              (Moves-front (a ∷ a_next) b b_next (first_b, All-out_of_order a b a_next first_b h.0))
              (keep b moves),
          (
            Moves-All in_order _ moves
                (b_a, All-append _ a_next b_next (All-before b a a_next b_a h.0) k.0),
            sorted,
          ),
        )
  ]

  merge_loop-IsSorted :
      (a b : List A)
      → IsSorted in_order a
      → IsSorted in_order b
      → Moves in_order (a ++ b) (merge_loop in_order a b)
        × IsSorted in_order (merge_loop in_order a b)
  unfolding merge_loop
  merge_loop-IsSorted [] b h k = (stay, k)
  merge_loop-IsSorted (a ∷ a_next) b h k =
      merge_from-IsSorted a a_next (merge_loop in_order a_next) b
        (λ b' k'. merge_loop-IsSorted a_next b' h.1 k') h k

  -- Two runs are merged into a run of their items, and equal ones keep their order.
  pub merge-IsRun :
      (a b : List A)
      → IsRun in_order a
      → IsRun in_order b
      → (m : List A) × (merge in_order a b ≡ some m)
        × (merge_final in_order a b ≡ some m)
        × IsRun in_order m
        × Moves in_order (a ++ b) m
  unfolding merge merge_final
  merge-IsRun [] b h k = absurd h.0
  merge-IsRun (a ∷ a_next) [] h k = absurd k.0
  merge-IsRun (a ∷ a_next) (b ∷ b_next) h k =
      let (moves, sorted) = merge_loop-IsSorted (a ∷ a_next) (b ∷ b_next) h.1 k.1 in
      (
        merge_loop in_order (a ∷ a_next) (b ∷ b_next),
        refl,
        refl,
        (Moves-IsNonempty in_order moves tt, sorted),
        moves,
      )
