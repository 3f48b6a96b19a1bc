-- ===== src/Unr/Ends.antt =====
-- `collapse_unr` of unr.c: the ends of the list go into `first` and `last`, and all steps together.
use kernel_utils.Base.{
  ℕ, suc, ◌+◌, ◌^◌, ◌≤◌, arith, ◌≡◌, refl, sym, ap, ◌∙◌, Bool, true, false, Returns, Returns->>=,
  List, [], ◌∷◌, ◌++◌, append_assoc, append-nil, length, length-append, All,
}
use kernel_utils.Bits.{replicate}
use kernel_utils.Bits.Laws.{replicate_add, length-replicate}
use kernel_utils.Unr.{add32, Unr, free_run, allocated_run, bitmap, Memory, Unrhdr, Place, whole}
use kernel_utils.Unr.Optimize.{optimize_all}
use kernel_utils.Unr.Collapse.{
  settle, reap, merge_around, merge_first, merge_last, merge_all, collapse_unr,
}
use kernel_utils.Unr.View.{
  items, all_items, numbers, pieces_of, total, IsChunk, Kind, free, allocated, mixed, kind,
  IsBetween,
}
use kernel_utils.Unr.Bitmaps.{IsCounted, delete_unr-IsCounted}
use kernel_utils.Unr.Tidy.{IsTidy}
use kernel_utils.Unr.Shrink.{IsKept, optimize_all-IsTidy}
use kernel_utils.Unr.Settle.{IsLoose, IsAround, settle-reap-IsOpen}
use kernel_utils.Unr.Merge.{IsRough, merge_around-IsRough}

record IsFirst (xs : List Bool) (m : Memory) (first : ℕ) (us : List Unr) : Type 0 where
  chunks : All IsChunk us
  apart : IsBetween allocated us mixed
  counted : IsCounted m (total us)
  same : replicate first true ++ all_items us ≡ xs

merge_first-IsFirst :
    (xs : List Bool) (m : Memory) (first : ℕ) (us : List Unr)
    → IsRough xs m us
    → first + length xs ≤ 2 ^ 31
    → let (m', first', us') = merge_first m first us in
      IsFirst (replicate first true ++ xs) m' first' us'
unfolding merge_first
merge_first-IsFirst xs m first [] h l = record {
  chunks = tt;
  apart = tt;
  counted = h.counted;
  same = rw h.same refl;
}
merge_first-IsFirst xs m first (free_run n ∷ us) h l = record {
  chunks = h.chunks;
  apart = (tt, h.apart.1);
  counted = h.counted;
  same = rw h.same refl;
}
merge_first-IsFirst xs m first (bitmap n ub ∷ us) h l = record {
  chunks = h.chunks;
  apart = (tt, h.apart.1);
  counted = h.counted;
  same = rw h.same refl;
}
merge_first-IsFirst xs m first (allocated_run n ∷ us) h l =
    let fits : add32 first n ≡ first + n = omega (
      arith,
      ap length h.same,
      length-append (replicate n true) (all_items us),
      length-replicate n true,
    ) in
    record {
      chunks = h.chunks.1;
      apart = h.apart.1;
      counted = delete_unr-IsCounted m (total us) (omega (arith, h.counted));
      same = rw (fits, replicate_add first n true, append_assoc, h.same) refl;
    }

record IsLast (xs : List Bool) (j : Kind) (n : ℕ) (m : Memory) (last : ℕ) (us : List Unr)
    : Type 0 where
  chunks : All IsChunk us
  apart : IsBetween j us free
  counted : IsCounted m (n + total us)
  same : all_items us ++ replicate last false ≡ xs

merge_last-IsLast :
    (j : Kind) (n : ℕ) (u : Unr) (us : List Unr) (m : Memory) (last : ℕ)
    → All IsChunk (u ∷ us)
    → IsBetween j (u ∷ us) mixed
    → IsCounted m (n + total (u ∷ us))
    → length (all_items (u ∷ us)) + last ≤ 2 ^ 31
    → let (m', last', us') = merge_last m last (u ∷ us) in
      IsLast (all_items (u ∷ us) ++ replicate last false) j n m' last' us'
unfolding merge_last
merge_last-IsLast j n (free_run k) [] m last h a c l =
    let e : add32 last k ≡ k + last =
      omega (arith, length-append (replicate k false) [], length-replicate k false) in
    record {
      chunks = tt;
      apart = a.0;
      counted = delete_unr-IsCounted m (n + 0) (omega arith);
      same = rw (e, replicate_add k last false, append-nil) refl;
    }
merge_last-IsLast j n (allocated_run k) [] m last h a c l = record {
  chunks = h;
  apart = (a.0, tt);
  counted = c;
  same = refl;
}
merge_last-IsLast j n (bitmap k ub) [] m last h a c l = record {
  chunks = h;
  apart = (a.0, tt);
  counted = c;
  same = refl;
}
merge_last-IsLast j n u (v ∷ us) m last h a c l =
    let (m', last', vs) = merge_last m last (v ∷ us) in
    let t : IsLast (all_items (v ∷ us) ++ replicate last false) (kind u) (n + pieces_of u) m' last'
        vs =
      merge_last-IsLast (kind u) (n + pieces_of u) v us m last h.1 a.1 (omega arith)
        (omega (arith, length-append (items u) (all_items (v ∷ us)))) in
    record {
      chunks = (h.0, t.chunks);
      apart = (a.0, t.apart);
      counted = omega (arith, t.counted);
      same =
          append_assoc (items u) (all_items vs) (replicate last' false)
          ∙ ap (λ ys. items u ++ ys) t.same
          ∙ sym (append_assoc (items u) (all_items (v ∷ us)) (replicate last false));
    }

merged-IsLast :
    (us : List Unr) (m : Memory) (last : ℕ)
    → All IsChunk us
    → IsBetween allocated us mixed
    → IsCounted m (total us)
    → length (all_items us) + last ≤ 2 ^ 31
    → let (m', last', us') = merge_last m last us in
      IsLast (all_items us ++ replicate last false) allocated 0 m' last' us'
unfolding merge_last
merged-IsLast [] m last h a c l = record { chunks = tt; apart = tt; counted = c; same = refl }
merged-IsLast (u ∷ us) m last h a c l =
    merge_last-IsLast allocated 0 u us m last h a (omega arith) l

-- The list is tidy after the merges, and the numbers are the same.
record IsMergedAll (xs : List Bool) (r : Memory × ℕ × ℕ × List Unr) : Type 0 where
  tidy : IsTidy r.0 r.3
  same : replicate r.1 true ++ (all_items r.3 ++ replicate r.2 false) ≡ xs

merge_all-IsMergedAll :
    (m : Memory) (first last : ℕ) (p : Place)
    → IsAround p
    → IsLoose p.up
    → IsCounted m (total (whole p))
    → first + length (all_items (whole p)) + last ≤ 2 ^ 31
    → IsMergedAll
        (replicate first true ++ (all_items (whole p) ++ replicate last false))
        (merge_all m first last p)
unfolding merge_all
merge_all-IsMergedAll m first last p h u c l =
    let xs = all_items (whole p) in
    let (m1, up) = settle m p.up in
    let (m2, spot) = reap m1 (record p { up = up }) in
    let (m3, us3) = merge_around m2 spot in
    let (m4, first', us4) = merge_first m3 first us3 in
    let (m5, last', us5) = merge_last m4 last us4 in
    let rough : IsRough xs m3 us3 =
      merge_around-IsRough xs m2 spot (settle-reap-IsOpen m p h u c) (omega arith) in
    let f : IsFirst (replicate first true ++ xs) m4 first' us4 =
      merge_first-IsFirst xs m3 first us3 rough (omega arith) in
    let e : IsLast (all_items us4 ++ replicate last false) allocated 0 m5 last' us5 =
      merged-IsLast us4 m4 last f.chunks f.apart f.counted (
        omega (
          arith,
          ap length f.same,
          length-append (replicate first true) xs,
          length-append (replicate first' true) (all_items us4),
          length-replicate first true,
        )) in
    record {
      tidy = record { chunks = e.chunks; apart = e.apart; counted = omega (arith, e.counted) };
      same =
          ap (λ ys. replicate first' true ++ ys) e.same
          ∙ sym (append_assoc (replicate first' true) (all_items us4) (replicate last false))
          ∙ ap (λ ys. ys ++ replicate last false) f.same
          ∙ append_assoc (replicate first true) xs (replicate last false);
    }

-- What `collapse_unr` leaves.
pub record IsCollapsed (uh : Unrhdr) (xs : List Bool) (r : Unrhdr) : Type 0 where
  pub tidy : IsTidy r.memory r.head
  pub same : numbers r ≡ xs
  pub low : r.low ≡ uh.low
  pub high : r.high ≡ uh.high
  pub busy : r.busy ≡ uh.busy

-- At a place where the chunk has changed (its run may be empty, its bitmap full or empty, and it
-- may be of the kind of a neighbour), the other chunks being in order, the memory counted and the
-- numbers no more than 2^31, `collapse_unr` does not fault and comes to an end. It leaves the same
-- numbers, the same bounds and the same count of allocated ones, and a tidy list: no two neighbours
-- merge, no run is empty, no bitmap is full or empty, the first chunk is no allocated run and the
-- last one no free run.
pub collapse_unr-IsCollapsed :
    (uh : Unrhdr) (p : Place)
    → IsAround p
    → IsLoose p.up
    → IsCounted uh.memory (total (whole p))
    → uh.first + length (all_items (whole p)) + uh.last ≤ 2 ^ 31
    → Returns (collapse_unr uh p) (
        IsCollapsed uh
          (replicate uh.first true ++ (all_items (whole p) ++ replicate uh.last false)))
unfolding collapse_unr
collapse_unr-IsCollapsed uh p h u c l =
    let (m, first, last, us) = merge_all uh.memory uh.first uh.last p in
    let xs = replicate uh.first true ++ (all_items (whole p) ++ replicate uh.last false) in
    let t = merge_all-IsMergedAll uh.memory uh.first uh.last p h u c l in
    Returns->>= (optimize_all (suc (length us)) m us) _ (IsKept us) (IsCollapsed uh xs)
      (optimize_all-IsTidy (suc (length us)) us m t.tidy (omega arith))
      (λ r k. record { tidy = k.0; same = rw k.1 t.same; low = refl; high = refl; busy = refl })
