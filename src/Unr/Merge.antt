-- ===== src/Unr/Merge.antt =====
-- The middle steps of `collapse_unr` of unr.c: the changed chunk is merged with its neighbours, and
-- the ends of the list with `first` and `last`.
use kernel_utils.Base.{
  ℕ, ◌+◌, ◌^◌, ◌≤◌, arith, ◌≡◌, refl, sym, ap, ◌∙◌, Bool, true, false, Option, none, some, List, [],
  ◌∷◌, ◌++◌, append_assoc, length, length-append, All, Bool-cases, inl, inr,
}
use kernel_utils.Bits.Laws.{replicate_add}
use kernel_utils.Unr.{
  add32, Unr, free_run, allocated_run, bitmap, len, same_ptr, Memory, Place, rewind, whole,
}
use kernel_utils.Unr.Collapse.{longer, merge_previous, merge_next, merge_around}
use kernel_utils.Unr.View.{
  items, all_items, pieces_of, total, IsChunk, Kind, free, allocated, mixed, kind, IsApart,
  IsBetween, IsBetween-weaken_right, IsBehind, IsBehind-tail, IsBehind-weaken, IsApart-mixed_left,
  IsApart-mixed_right, IsBetween-rewind, nearest, all_items-rewind, all_items_split, total-rewind,
  All-rewind,
}
use kernel_utils.Unr.Absorb.{length-items}
use kernel_utils.Unr.Bitmaps.{IsCounted, delete_unr-IsCounted}
use kernel_utils.Unr.Settle.{IsOpen}

-- Chunks of which no two neighbours merge, with those numbers.
pub record IsRough (xs : List Bool) (m : Memory) (us : List Unr) : Type 0 where
  pub chunks : All IsChunk us
  pub apart : IsBetween mixed us mixed
  pub counted : IsCounted m (total us)
  pub same : all_items us ≡ xs

-- Two chunks that merge.
IsMerged : Unr → Unr → Unr → Type 0
IsMerged u v w =
    IsChunk w
    × (kind w ≡ kind u)
    × (pieces_of w ≡ 1)
    × (pieces_of v ≡ 1)
    × (pieces_of u ≡ 1)
    × (kind v ≡ kind u)
    × (items w ≡ items u ++ items v)
    × (items w ≡ items v ++ items u)

longer-IsMerged :
    (u v : Unr)
    → IsChunk u
    → IsChunk v
    → same_ptr u v ≡ true
    → len u + len v ≤ 2 ^ 31
    → IsMerged u v (longer u (len v))
unfolding IsMerged
longer-IsMerged (free_run n) (free_run k) c d e h =
    let s : add32 n k ≡ n + k = omega arith in
    let t : n + k ≡ k + n = omega arith in
    rw s (
      omega arith,
      refl,
      refl,
      refl,
      refl,
      refl,
      replicate_add n k false,
      rw t (replicate_add k n false),
    )
longer-IsMerged (allocated_run n) (allocated_run k) c d e h =
    let s : add32 n k ≡ n + k = omega arith in
    let t : n + k ≡ k + n = omega arith in
    rw s (
      omega arith,
      refl,
      refl,
      refl,
      refl,
      refl,
      replicate_add n k true,
      rw t (replicate_add k n true),
    )
longer-IsMerged (free_run n) (allocated_run k) c d e h = ground arith
longer-IsMerged (free_run n) (bitmap k ub) c d e h = ground arith
longer-IsMerged (allocated_run n) (free_run k) c d e h = ground arith
longer-IsMerged (allocated_run n) (bitmap k ub) c d e h = ground arith
longer-IsMerged (bitmap n ub) v c d e h = ground arith

different-IsApart : (u v : Unr) → same_ptr u v ≡ false → IsApart (kind u) (kind v)
different-IsApart (free_run n) (free_run k) e = ground arith
different-IsApart (allocated_run n) (allocated_run k) e = ground arith
different-IsApart (free_run n) (allocated_run k) e = tt
different-IsApart (allocated_run n) (free_run k) e = tt
different-IsApart u (bitmap k ub) e = IsApart-mixed_right (kind u)
different-IsApart (bitmap n ub) v e = IsApart-mixed_left (kind v)

IsApart-swap : (j k : Kind) → IsApart j k → IsApart k j
IsApart-swap free free h = h
IsApart-swap free allocated h = tt
IsApart-swap free mixed h = tt
IsApart-swap allocated free h = tt
IsApart-swap allocated allocated h = h
IsApart-swap allocated mixed h = tt
IsApart-swap mixed k h = IsApart-mixed_right k

nearest-mixed :
    (before : List Unr) (k : Kind)
    → IsApart (nearest allocated before) k
    → IsApart (nearest mixed before) k
nearest-mixed [] k h = IsApart-mixed_left k
nearest-mixed (u ∷ before) k h = h

-- Neighbours have no more numbers than the list.
length-pair :
    (before : List Unr) (u v : Unr) (after : List Unr)
    → IsChunk u
    → IsChunk v
    → len u + len v ≤ length (all_items (rewind before (u ∷ v ∷ after)))
length-pair before u v after c d =
    let ys = items v ++ all_items after in
    omega (
      arith,
      ap length (all_items_split before (u ∷ v ∷ after)),
      length-append (all_items (rewind before [])) (items u ++ ys),
      length-append (items u) ys,
      length-append (items v) (all_items after),
      length-items u c,
      length-items v d,
    )

-- The place after `merge_previous`.
record IsBack (xs : List Bool) (after : List Unr) (m : Memory) (before : List Unr) (up : Unr)
    : Type 0 where
  chunks : All IsChunk before
  chunk : IsChunk up
  behind : IsBehind mixed before
  apart : IsApart (nearest mixed before) (kind up)
  counted : IsCounted m (total before + (pieces_of up + total after))
  same : all_items (rewind before (up ∷ after)) ≡ xs

merge_previous-IsBack :
    (before after : List Unr) (up : Unr) (m : Memory)
    → All IsChunk before
    → IsChunk up
    → IsBehind allocated before
    → IsCounted m (total before + (pieces_of up + total after))
    → length (all_items (rewind before (up ∷ after))) ≤ 2 ^ 31
    → let (m', before', up') = merge_previous m before up in
      IsBack (all_items (rewind before (up ∷ after))) after m' before' up'
unfolding merge_previous IsMerged
merge_previous-IsBack [] after up m h u b c l = record {
  chunks = tt;
  chunk = u;
  behind = tt;
  apart = IsApart-mixed_left (kind up);
  counted = c;
  same = refl;
}
merge_previous-IsBack (v ∷ before) after up m h u b c l =
    let t = IsBehind-tail allocated v before b in
    elim (Bool-cases (same_ptr up v)) [
      | inl e ↦
          let w =
            longer-IsMerged up v u h.0 e (omega (arith, length-pair before v up after h.0 u)) in
          rw e (record {
            chunks = h.1;
            chunk = w.0;
            behind = IsBehind-weaken allocated before t.0;
            apart = nearest-mixed before _ (rw (w.1, ← w.5) t.1);
            counted = delete_unr-IsCounted m _ (omega (arith, w.2, w.3, w.4));
            same =
                all_items-rewind before (longer up (len v) ∷ after) (v ∷ up ∷ after)
                  (rw (w.7, append_assoc) refl);
          })
      | inr e ↦ rw e (record {
        chunks = h;
        chunk = u;
        behind = IsBehind-weaken allocated (v ∷ before) b;
        apart = IsApart-swap (kind up) (kind v) (different-IsApart up v e);
        counted = c;
        same = refl;
      })
    ]

record IsAhead (xs : List Bool) (j : Kind) (n : ℕ) (m : Memory) (us : List Unr) : Type 0 where
  chunks : All IsChunk us
  apart : IsBetween j us mixed
  counted : IsCounted m (n + total us)
  same : all_items us ≡ xs

merge_next-IsAhead :
    (j : Kind) (n : ℕ) (up : Unr) (after : List Unr) (m : Memory)
    → All IsChunk after
    → IsChunk up
    → IsApart j (kind up)
    → IsBetween mixed after free
    → IsCounted m (n + (pieces_of up + total after))
    → length (all_items (up ∷ after)) ≤ 2 ^ 31
    → let (m', us) = merge_next m up after in IsAhead (all_items (up ∷ after)) j n m' us
unfolding merge_next IsMerged
merge_next-IsAhead j n up [] m h u a b c l = record {
  chunks = (u, tt);
  apart = (a, IsApart-mixed_right (kind up));
  counted = omega arith;
  same = refl;
}
merge_next-IsAhead j n up (v ∷ after) m h u a b c l = elim (Bool-cases (same_ptr up v)) [
  | inl e ↦
      let w = longer-IsMerged up v u h.0 e (omega (arith, length-pair [] up v after u h.0)) in
      let apart : IsBetween (kind up) after mixed =
        IsBetween-weaken_right (kind up) free after (rw (← w.5) b.1) in
      rw e (record {
        chunks = (w.0, h.1);
        apart = rw w.1 (a, apart);
        counted = delete_unr-IsCounted m _ (omega (arith, w.2, w.3, w.4));
        same = rw (w.6, append_assoc) refl;
      })
  | inr e ↦ rw e (record {
    chunks = (u, h);
    apart = (a, (different-IsApart up v e, IsBetween-weaken_right (kind v) free after b.1));
    counted = omega arith;
    same = refl;
  })
]

length_part : (before us : List Unr) → length (all_items us) ≤ length (all_items (rewind before us))
length_part before us = omega (
  arith,
  ap length (all_items_split before us),
  length-append (all_items (rewind before [])) (all_items us),
)

pub merge_around-IsRough :
    (xs : List Bool) (m : Memory) (spot : Option Place)
    → IsOpen xs m spot
    → length xs ≤ 2 ^ 31
    → let (m', us) = merge_around m spot in IsRough xs m' us
unfolding merge_around
merge_around-IsRough xs m none h l = record {
  chunks = tt;
  apart = tt;
  counted = h.1;
  same = sym h.0;
}
merge_around-IsRough xs m (some p) (around, chunk, same, counted) l =
    let (m', before, up) = merge_previous m p.before p.up in
    let b : IsBack (all_items (whole p)) p.after m' before up =
      merge_previous-IsBack p.before p.after p.up m around.before chunk around.behind counted
        (rw same l) in
    let (m'', us) = merge_next m' up p.after in
    let a : IsAhead (all_items (up ∷ p.after)) (nearest mixed before) (total before) m'' us =
      merge_next-IsAhead (nearest mixed before) (total before) up p.after m' around.after b.chunk
        b.apart around.ahead b.counted
        (omega (arith, length_part before (up ∷ p.after), ap length b.same, ap length same)) in
    record {
      chunks = All-rewind IsChunk before us b.chunks a.chunks;
      apart = IsBetween-rewind mixed before us mixed b.behind a.apart;
      counted = omega (arith, total-rewind before us, a.counted);
      same = all_items-rewind before us (up ∷ p.after) a.same ∙ b.same ∙ same;
    }
