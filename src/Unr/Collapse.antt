-- ===== src/Unr/Collapse.antt =====
-- `collapse_unr` of unr.c: a chunk that has changed is merged with its neighbours.
use kernel_utils.Base.{
  ℕ, suc, ◌==◌, Option, none, some, ◌>>=◌, List, [], ◌∷◌, length, if◌then◌else◌,
}
use kernel_utils.Unr.{
  add32, Unr, free_run, allocated_run, bitmap, len, same_ptr, ub_empty, ub_full, Memory, delete_unr,
  Unrhdr, Place, rewind,
}
use kernel_utils.Unr.Optimize.{optimize_all}

-- A bitmap that is all set or clear becomes a run.
unfoldable pub settle : Memory → Unr → Memory × Unr
unfolding delete_unr
settle m (free_run n) = (m, free_run n)
settle m (allocated_run n) = (m, allocated_run n)
settle m (bitmap n ub) =
    if ub_full ub n
    then (delete_unr m, allocated_run n)
    else if ub_empty ub n
    then (delete_unr m, free_run n)
    else (m, bitmap n ub)

-- The chunk before the deleted one, else the one after it.
abbrev pub neighbour : List Unr → List Unr → Option Place
neighbour (u ∷ before) after = some (record { before = before; up = u; after = after })
neighbour [] (u ∷ after) = some (record { before = []; up = u; after = after })
neighbour [] [] = none

unfoldable pub reap : Memory → Place → Memory × Option Place
unfolding delete_unr
reap m p = if len p.up == 0 then (delete_unr m, neighbour p.before p.after) else (m, some p)

-- `up->len += n`.
abbrev pub longer : Unr → ℕ → Unr
longer (free_run n) k = free_run (add32 n k)
longer (allocated_run n) k = allocated_run (add32 n k)
longer (bitmap n ub) k = bitmap (add32 n k) ub

unfoldable pub merge_previous : Memory → List Unr → Unr → Memory × List Unr × Unr
unfolding delete_unr
merge_previous m [] up = (m, [], up)
merge_previous m (upp ∷ before) up =
    if same_ptr up upp then (delete_unr m, before, longer up (len upp)) else (m, upp ∷ before, up)

unfoldable pub merge_next : Memory → Unr → List Unr → Memory × List Unr
unfolding delete_unr
merge_next m up [] = (m, up ∷ [])
merge_next m up (upp ∷ after) =
    if same_ptr up upp then (delete_unr m, longer up (len upp) ∷ after) else (m, up ∷ upp ∷ after)

-- The hot spot, if there is one still, with its neighbours.
unfoldable pub merge_around : Memory → Option Place → Memory × List Unr
unfolding merge_previous merge_next
merge_around m none = (m, [])
merge_around m (some p) =
    let (m', before, up) = merge_previous m p.before p.up in
    let (m'', us) = merge_next m' up p.after in (m'', rewind before us)

-- A first chunk that is an allocated run goes into `first`.
unfoldable pub merge_first : Memory → ℕ → List Unr → Memory × ℕ × List Unr
unfolding delete_unr
merge_first m first (allocated_run n ∷ us) = (delete_unr m, add32 first n, us)
merge_first m first (free_run n ∷ us) = (m, first, free_run n ∷ us)
merge_first m first (bitmap n ub ∷ us) = (m, first, bitmap n ub ∷ us)
merge_first m first [] = (m, first, [])

-- A last chunk that is a free run goes into `last`.
unfoldable pub merge_last : Memory → ℕ → List Unr → Memory × ℕ × List Unr
unfolding delete_unr
merge_last m last [] = (m, last, [])
merge_last m last (free_run n ∷ []) = (delete_unr m, add32 last n, [])
merge_last m last (allocated_run n ∷ []) = (m, last, allocated_run n ∷ [])
merge_last m last (bitmap n ub ∷ []) = (m, last, bitmap n ub ∷ [])
merge_last m last (u ∷ v ∷ us) =
    let (m', last', vs) = merge_last m last (v ∷ us) in (m', last', u ∷ vs)

-- Everything up to the bitmaps: the memory, `first`, `last` and the list.
unfoldable pub merge_all : Memory → ℕ → ℕ → Place → Memory × ℕ × ℕ × List Unr
unfolding settle reap merge_around merge_first merge_last
merge_all m first last p =
    let (m1, up) = settle m p.up in
    let (m2, spot) = reap m1 (record p { up = up }) in
    let (m3, us3) = merge_around m2 spot in
    let (m4, first', us4) = merge_first m3 first us3 in
    let (m5, last', us5) = merge_last m4 last us4 in (m5, first', last', us5)

-- The list of the header is the one that the place is in. One call of `optimize_unr` for each chunk
-- is fuel enough.
unfoldable pub collapse_unr : Unrhdr → Place → Option Unrhdr
unfolding merge_all optimize_all
collapse_unr uh p =
    let (m, first, last, us) = merge_all uh.memory uh.first uh.last p in
    optimize_all (suc (length us)) m us >>= λ r.
    some (record uh { head = r.1; first = first; last = last; memory = r.0 })
