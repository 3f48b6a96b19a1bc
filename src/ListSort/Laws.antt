-- ===== src/ListSort/Laws.antt =====
-- The result of `util_list_sort`.
use kernel_utils.Base.{
  ℕ, ◌<◌, ◌≤◌, ◌^◌, length, arith, ◌≡◌, refl, sym, Bool, none, some, List, [], ◌∷◌, All,
}
use mathlib.Core.List.{Perm}
use kernel_utils.ListSort.{util_list_sort, merge_pending}
use kernel_utils.ListSort.Order.{
  IsCmp, IsSorted, equal_items, IsRun, Moves, stay, followed, Moves-Perm, Moves-equal_items,
}
use kernel_utils.ListSort.Rounds.{IsPending, content, rounds-Moves, merge_pending-Moves}

module _ {ℓ} {A : Type ℓ} (in_order : A → A → Bool) (c : IsCmp in_order) where
  -- Two items or more leave two pending lists or more.
  final_merges :
      (count : ℕ) (p : List (List A)) (xs : List A)
      → 2 ≤ count
      → IsPending count p
      → All (IsRun in_order) p
      → Moves in_order xs (content p)
      → (ys : List A) × (elim p [ [] ↦ none | newest ∷ older ↦ merge_pending in_order newest older ]
          ≡ some ys)
        × IsSorted in_order ys
        × Moves in_order xs ys
  unfolding IsPending content
  final_merges count [] xs b h runs moves = absurd (omega arith)
  final_merges count (newest ∷ []) xs b h runs moves = absurd (omega arith)
  final_merges count (newest ∷ next ∷ older) xs b h runs moves =
      let (m, returns, is_run, moves') =
        merge_pending-Moves in_order c newest (next ∷ older) runs.0 runs.1 tt in
      (m, returns, is_run.1, followed moves moves')

  util_list_sort-Moves :
      (xs : List A)
      → length xs < 2 ^ 64
      → (ys : List A) × (util_list_sort in_order xs ≡ some ys)
        × IsSorted in_order ys
        × Moves in_order xs ys
  unfolding util_list_sort IsPending content
  util_list_sort-Moves [] b = ([], refl, tt, stay)
  util_list_sort-Moves (x ∷ []) b = (x ∷ [], refl, (tt, tt), stay)
  util_list_sort-Moves (x ∷ y ∷ list) b =
      let (p, returns, runs, pending, moves) =
        rounds-Moves in_order c 0 [] (x ∷ y ∷ list) (omega arith) refl tt in
      let (ys, returns', sorted, moves') =
        final_merges _ p (x ∷ y ∷ list) (omega arith) pending runs moves in
      (ys, rw (returns, returns') refl, sorted, moves')

  -- For a comparison function that is a total preorder, and a list shorter than 2^64,
  -- `util_list_sort` runs to its end without a null dereference. Its result is in order and a
  -- permutation of the list, in which items that compare equal stand in their old order.
  pub util_list_sort-IsSorted :
      (xs : List A)
      → length xs < 2 ^ 64
      → (ys : List A) × (util_list_sort in_order xs ≡ some ys)
        × IsSorted in_order ys
        × Perm xs ys
        × ((z : A) → equal_items in_order z ys ≡ equal_items in_order z xs)
  util_list_sort-IsSorted xs b =
      let (ys, returns, sorted, moves) = util_list_sort-Moves xs b in
      (
        ys,
        returns,
        sorted,
        Moves-Perm in_order moves,
        λ z. sym (Moves-equal_items in_order c z moves),
      )
