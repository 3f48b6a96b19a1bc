-- ===== src/ListSort.antt =====
-- list_sort.c. A null-terminated list is a list of items, and `pending`, the list of lists, a list of
-- them, newest first. The comparison function is a parameter: `in_order a b` says that
-- `cmp(priv, a, b) <= 0`.
pub mod Order
pub mod Merge
pub mod Rounds
pub mod Laws
mod Examples
use kernel_utils.Base.{
  ℕ, ◌+◌, ◌/◌, ◌%◌, ◌^◌, ◌==◌, Bool, true, false, Option, none, some, ◌>>=◌, List, [], ◌∷◌,
  if◌then◌else◌,
}

module _ {ℓ} {A : Type ℓ} (in_order : A → A → Bool) where
  -- The rest of the loop of `merge` with `a` in front of `a_next` as the first list; `rest` is the
  -- loop with `a_next` as the first list.
  pub merge_from : A → List A → (List A → List A) → List A → List A
  merge_from a a_next rest [] = a ∷ a_next
  merge_from a a_next rest (b ∷ b_next) =
      let take_b = b ∷ merge_from a a_next rest b_next in
      if in_order a b then a ∷ rest (b ∷ b_next) else take_b

  pub merge_loop : List A → List A → List A
  unfolding merge_from
  merge_loop [] b = b
  merge_loop (a ∷ a_next) b = merge_from a a_next (merge_loop a_next) b

  -- Both lists are nonnull.
  pub merge : List A → List A → Option (List A)
  unfolding merge_loop
  merge [] b = none
  merge (a ∷ a_next) [] = none
  merge (a ∷ a_next) (b ∷ b_next) = some (merge_loop (a ∷ a_next) (b ∷ b_next))

  -- The same loop, which also restores the links of the circular list.
  pub merge_final : List A → List A → Option (List A)
  unfolding merge_loop
  merge_final [] b = none
  merge_final (a ∷ a_next) [] = none
  merge_final (a ∷ a_next) (b ∷ b_next) = some (merge_loop (a ∷ a_next) (b ∷ b_next))

  -- `*tail` and the list before it are merged, and the result is installed in their place.
  pub merge_pair : List (List A) → Option (List (List A))
  unfolding merge
  merge_pair [] = none
  merge_pair (a ∷ []) = none
  merge_pair (a ∷ b ∷ before) = merge b a >>= λ merged. some (merged ∷ before)

  -- The walk over the low bits of the count that are set, and the merge. A walk past the end of
  -- `pending` is a null dereference.
  pub merge_round : ℕ → List (List A) → Option (List (List A))
  unfolding merge_pair
  merge_round bits [] = if bits % 2 == 1 then none else if bits == 0 then some [] else none
  merge_round bits (a ∷ pending) =
      let rest = merge_round (bits / 2) pending in
      if bits % 2 == 1
      then (rest >>= λ merged. some (a ∷ merged))
      else if bits == 0
      then some (a ∷ pending)
      else merge_pair (a ∷ pending)

  -- The loop over the input.
  pub rounds : ℕ → List (List A) → List A → Option (List (List A))
  unfolding merge_round
  rounds count pending [] = some pending
  rounds count pending (x ∷ list) =
      merge_round count pending >>= λ merged. rounds ((count + 1) % 2 ^ 64) ((x ∷ []) ∷ merged) list

  -- All pending lists are merged, from the newest to the oldest, which takes part in the final merge.
  pub merge_pending : List A → List (List A) → Option (List A)
  unfolding merge merge_final
  merge_pending list [] = none
  merge_pending list (oldest ∷ []) = merge_final oldest list
  merge_pending list (pending ∷ next ∷ older) =
      merge pending list >>= λ merged. merge_pending merged (next ∷ older)

  unfoldable pub util_list_sort : List A → Option (List A)
  unfolding rounds merge_pending
  util_list_sort [] = some []
  util_list_sort (x ∷ []) = some (x ∷ [])
  util_list_sort (x ∷ y ∷ list) = rounds 0 [] (x ∷ y ∷ list) >>= λ pending. elim pending [
    | [] ↦ none
    | newest ∷ older ↦ merge_pending newest older
  ]
