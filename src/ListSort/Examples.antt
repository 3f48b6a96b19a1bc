-- ===== src/ListSort/Examples.antt =====
-- Runs of `util_list_sort`, and its theorems at concrete lists of numbers.
use kernel_utils.Base.{ℕ, ◌/◌, arith, ◌≡◌, refl, Bool, some, List, [], ◌∷◌, leb}
use mathlib.Core.List.{Perm}
use kernel_utils.ListSort.{util_list_sort}
use kernel_utils.ListSort.Order.{IsCmp, IsSorted, equal_items}
use kernel_utils.ListSort.Laws.{util_list_sort-IsSorted}

-- Numbers compare by their tens.
abbrev by_tens : ℕ → ℕ → Bool
by_tens a b = leb (a / 10) (b / 10)

by_tens-IsCmp : IsCmp by_tens
by_tens-IsCmp = record { total = λ a b h. ground arith; transitive = λ a b d h k. ground arith }

abbrev numbers : List ℕ
numbers = 31 ∷ 12 ∷ 25 ∷ 11 ∷ 30 ∷ 24 ∷ 13 ∷ []

-- Items with equal tens keep their order.
numbers_sorted : util_list_sort by_tens numbers ≡ some (12 ∷ 11 ∷ 13 ∷ 25 ∷ 24 ∷ 31 ∷ 30 ∷ [])
unfolding util_list_sort
numbers_sorted = refl

util_list_sort-IsSorted_example :
    (ys : List ℕ) × (util_list_sort by_tens numbers ≡ some ys)
    × IsSorted by_tens ys
    × Perm numbers ys
    × ((z : ℕ) → equal_items by_tens z ys ≡ equal_items by_tens z numbers)
util_list_sort-IsSorted_example =
    util_list_sort-IsSorted by_tens by_tens-IsCmp numbers (omega arith)
