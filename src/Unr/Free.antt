-- ===== src/Unr/Free.antt =====
-- `free_unr` of unr.c.
use kernel_utils.Base.{
  ℕ, ◌==◌, leb, ltb, Bool, true, false, ◌&&◌, Option, none, some, ◌>>=◌, List, [], ◌∷◌,
  if◌then◌else◌,
}
use kernel_utils.Bits.{bit_test, bit_clear}
use kernel_utils.Unr.{
  add32, sub32, Unr, free_run, allocated_run, bitmap, new_unr, Unrhdr, Place, check_unrhdr,
  clean_unrhdrl, uncached, with_cached,
}
use kernel_utils.Unr.Collapse.{collapse_unr}
use kernel_utils.Unr.Alloc.{locate, new_run}

-- The list with its first chunk one longer, if that is a free run.
abbrev pub longer_free : List Unr → Option (List Unr)
longer_free (free_run n ∷ us) = some (free_run (add32 n 1) ∷ us)
longer_free (allocated_run n ∷ us) = none
longer_free (bitmap n ub ∷ us) = none
longer_free [] = none

-- An allocated run of `n`, with the number in place `item`, is cut in up to three.
unfoldable pub split_run : Unrhdr → ℕ → ℕ → List Unr → List Unr → Option Unrhdr
unfolding new_run collapse_unr
split_run uh n item before after =
    let pl = sub32 n (add32 1 item) in
    new_run uh.memory pl after (allocated_run pl) >>= λ r.
    new_run r.0 item before (allocated_run item) >>= λ s.
    collapse_unr (record uh { memory = s.0 })
      (record { before = s.1; up = free_run 1; after = r.1 })

-- The number is the last one of its run, or the next run does not take it.
unfoldable pub free_last : Unrhdr → ℕ → ℕ → List Unr → List Unr → Option Unrhdr
unfolding split_run collapse_unr
free_last uh n item before after = elim (if item == sub32 n 1 then longer_free after else none) [
  | none ↦ split_run uh n item before after
  | some after' ↦
      collapse_unr uh (record { before = before; up = allocated_run (sub32 n 1); after = after' })
]

unfoldable pub free_run_item : Unrhdr → ℕ → ℕ → List Unr → List Unr → Option Unrhdr
unfolding free_last collapse_unr
free_run_item uh n item before after =
    if n == 1
    then collapse_unr uh (record { before = before; up = free_run n; after = after })
    else elim (if item == 0 then longer_free before else none) [
      | none ↦ free_last uh n item before after
      | some before' ↦
          collapse_unr uh
            (record { before = before'; up = allocated_run (sub32 n 1); after = after })
    ]

-- The number in place `item` of a chunk is freed. `busy` is counted down on every branch before
-- `collapse_unr`.
unfoldable pub free_inside : Unrhdr → ℕ → Place → Option Unrhdr
unfolding free_run_item collapse_unr
free_inside uh item p =
    let uh' = record uh { busy = sub32 uh.busy 1 } in
    elim p.up [
      | bitmap n ub ↦
          if bit_test ub item
          then collapse_unr uh' (record p { up = bitmap n (bit_clear ub item) })
          else none
      | free_run n ↦ none
      | allocated_run n ↦ free_run_item uh' n item p.before p.after
    ]

-- A number that no chunk has is looked up through NULL.
abbrev pub free_located : Unrhdr → ℕ × List Unr × Option Place → Option Unrhdr
free_located uh (item, before, none) = none
free_located uh (item, before, some p) = free_inside uh item p

-- A run of the numbers from `item` to `first`, in front of the list.
unfoldable pub open_first : Unrhdr → ℕ → Option Unrhdr
unfolding new_unr
open_first uh item =
    if ltb item uh.first
    then (new_unr uh.memory >>= λ m.
        let n = sub32 uh.first item in
        some (record uh { head = allocated_run n ∷ uh.head; first = sub32 uh.first n; memory = m }))
    else some uh

abbrev pub is_nil : List Unr → Bool
is_nil [] = true
is_nil (u ∷ us) = false

unfoldable pub free_unrl : Unrhdr → ℕ → Option Unrhdr
unfolding check_unrhdr open_first locate free_inside
free_unrl uh number =
    if leb uh.low number && leb number uh.high
    then (check_unrhdr uh >>= λ checked.
        let item = sub32 number uh.low in
        if (add32 item 1 == uh.first) && is_nil uh.head
        then check_unrhdr
            (record uh { last = add32 uh.last 1; first = sub32 uh.first 1; busy = sub32 uh.busy 1 })
        else open_first uh item >>= λ opened.
            free_located opened (locate [] opened.head (sub32 item opened.first)))
    else none

-- Two chunks are cached before, and what is left of them is freed.
unfoldable pub free_unr : Unrhdr → ℕ → Option Unrhdr
unfolding free_unrl clean_unrhdrl
free_unr uh item = free_unrl (with_cached uh) item >>= λ r. some (uncached (clean_unrhdrl r))
