-- ===== src/Unr/Alloc.antt =====
-- `alloc_unr` and `alloc_unr_specific` of unr.c. The result -1 is `none`.
use kernel_utils.Base.{ℕ, ◌==◌, ltb, ◌||◌, Option, none, some, ◌>>=◌, List, [], ◌∷◌, if◌then◌else◌}
use kernel_utils.Bits.{bit_test, bit_set, bit_ffc}
use kernel_utils.Unr.{
  add32, sub32, Unr, free_run, allocated_run, bitmap, len, Memory, new_unr, Unrhdr, Place,
  check_unrhdr, clean_unrhdrl, uncached, with_cached,
}
use kernel_utils.Unr.Collapse.{collapse_unr}

-- From the first chunk: the memory stays as it is, `first`, what is added to `x`, and the chunk.
unfoldable pub alloc_first : ℕ → Unr → Option (ℕ × ℕ × Unr)
alloc_first first (allocated_run n) = none
alloc_first first (free_run n) = some (add32 first 1, 0, free_run (sub32 n 1))
alloc_first first (bitmap n ub) = bit_ffc ub n >>= λ y. some (first, y, bitmap n (bit_set ub y))

unfoldable pub alloc_unrl : Unrhdr → Option (Option ℕ × Unrhdr)
unfolding check_unrhdr alloc_first collapse_unr
alloc_unrl uh = check_unrhdr uh >>= λ checked. elim uh.head [
  | [] ↦
      if ltb 0 uh.last
      then some (
        some (add32 uh.low uh.first),
        record uh { first = add32 uh.first 1; last = sub32 uh.last 1; busy = add32 uh.busy 1 },
      )
      else some (none, uh)
  | up ∷ after ↦ alloc_first uh.first up >>= λ r.
      collapse_unr (record uh { first = r.0; busy = add32 uh.busy 1 })
        (record { before = []; up = r.2; after = after })
      >>= λ uh'. some (some (add32 (add32 uh.low uh.first) r.1), uh')
]

-- The mutex is held throughout.
unfoldable pub alloc_unr : Unrhdr → Option (Option ℕ × Unrhdr)
unfolding alloc_unrl clean_unrhdrl
alloc_unr uh = alloc_unrl uh >>= λ r. some (r.0, clean_unrhdrl r.1)

-- The loop that finds the chunk with number `i` of the list, and the number in that chunk.
unfoldable pub locate : List Unr → List Unr → ℕ → ℕ × List Unr × Option Place
locate before [] i = (i, before, none)
locate before (up ∷ us) i =
    if ltb i (len up)
    then (i, before, some (record { before = before; up = up; after = us }))
    else locate (up ∷ before) us (sub32 i (len up))

-- `last`, but no more than the numbers above the one that is allocated.
unfoldable pub lower_last : Unrhdr → ℕ → ℕ
lower_last uh item =
    let last = sub32 (sub32 uh.high uh.low) (sub32 item uh.low) in
    if ltb last uh.last then last else uh.last

-- The label `done`.
unfoldable pub done : Unrhdr → ℕ → Place → Option (Option ℕ × Unrhdr)
unfolding lower_last collapse_unr check_unrhdr
done uh item p =
    collapse_unr (record uh { last = lower_last uh item; busy = add32 uh.busy 1 }) p >>= λ uh'.
    check_unrhdr uh' >>= λ checked. some (some item, uh')

-- A new free run of `n` in front of what was passed, where `n` is not 0.
unfoldable pub new_run : Memory → ℕ → List Unr → Unr → Option (Memory × List Unr)
unfolding new_unr
new_run m n us u = if ltb 0 n then (new_unr m >>= λ m'. some (m', u ∷ us)) else some (m, us)

-- No chunk has the number: it lies in `last`.
unfoldable pub alloc_beyond : Unrhdr → ℕ → ℕ → List Unr → Option (Option ℕ × Unrhdr)
unfolding new_run new_unr done
alloc_beyond uh item i before = new_run uh.memory i before (free_run i) >>= λ r.
    new_unr r.0 >>= λ m.
    done (record uh { memory = m }) item (record { before = r.1; up = allocated_run 1; after = [] })

-- The chunk has the number in place `i`.
unfoldable pub alloc_inside : Unrhdr → ℕ → ℕ → Place → Option (Option ℕ × Unrhdr)
unfolding new_run done
alloc_inside uh item i p = elim p.up [
  | bitmap n ub ↦
      if bit_test ub i
      then some (none, uh)
      else done uh item (record p { up = bitmap n (bit_set ub i) })
  | allocated_run n ↦ some (none, uh)
  | free_run n ↦
      let tl = sub32 n (add32 1 i) in
      new_run uh.memory tl p.after (free_run tl) >>= λ r.
      new_run r.0 i p.before (free_run i) >>= λ s.
      done (record uh { memory = s.0 }) item
        (record { before = s.1; up = allocated_run 1; after = r.1 })
]

abbrev pub alloc_located : Unrhdr → ℕ → ℕ × List Unr × Option Place → Option (Option ℕ × Unrhdr)
alloc_located uh item (i, before, none) = alloc_beyond uh item i before
alloc_located uh item (i, before, some p) = alloc_inside uh item i p

-- The empty list: all numbers below `first` are allocated.
unfoldable pub alloc_split : Unrhdr → ℕ → Option (Option ℕ × Unrhdr)
unfolding check_unrhdr new_unr
alloc_split uh item =
    if sub32 item uh.low == uh.first
    then (check_unrhdr
          (record uh { first = add32 uh.first 1; last = sub32 uh.last 1; busy = add32 uh.busy 1 })
        >>= λ uh'. some (some item, uh'))
    else let i = sub32 (sub32 item uh.low) uh.first in
      new_unr uh.memory >>= λ m1. new_unr m1 >>= λ m2.
      check_unrhdr (record uh {
        head = free_run i ∷ allocated_run 1 ∷ [];
        last = sub32 (sub32 uh.high uh.low) i;
        busy = add32 uh.busy 1;
        memory = m2;
      })
      >>= λ uh'. some (some item, uh')

unfoldable pub alloc_unr_specificl : Unrhdr → ℕ → Option (Option ℕ × Unrhdr)
unfolding alloc_split locate alloc_beyond alloc_inside
alloc_unr_specificl uh item =
    if ltb item (add32 uh.low uh.first) || ltb uh.high item then some (none, uh) else elim uh.head [
      | [] ↦ alloc_split uh item
      | u ∷ us ↦ alloc_located uh item (locate [] (u ∷ us) (sub32 (sub32 item uh.low) uh.first))
    ]

-- Two chunks are cached before, and what is left of them is freed.
unfoldable pub alloc_unr_specific : Unrhdr → ℕ → Option (Option ℕ × Unrhdr)
unfolding alloc_unr_specificl
alloc_unr_specific uh item =
    alloc_unr_specificl (with_cached uh) item >>= λ r. some (r.0, uncached r.1)
