-- ===== src/Unr/Settle.antt =====
-- The first steps of `collapse_unr` of unr.c: a bitmap that is full or empty becomes a run, and a
-- chunk without numbers is deleted.
use kernel_utils.Base.{
  ℕ, ◌+◌, ◌^◌, ◌==◌, ◌≤◌, arith, ◌≡◌, refl, sym, ap, ◌∙◌, Bool, true, false, Option, none, some,
  Option-cases, List, [], ◌∷◌, ◌++◌, All, Bool-cases, inl, inr,
}
use kernel_utils.Bits.{replicate, take, first_of}
use kernel_utils.Bits.Laws.{length-take, none_clear, none_set, first_set-count, first_clear-count}
use kernel_utils.Unr.{
  Unr, free_run, allocated_run, bitmap, len, Memory, delete_unr, Place, rewind, whole,
}
use kernel_utils.Unr.Collapse.{settle, reap, neighbour}
use kernel_utils.Unr.View.{
  items, all_items, pieces_of, total, IsMap, IsChunk, free, allocated, mixed, kind, IsBetween,
  IsBetween-weaken, IsBehind, IsBehind-tail, all_items-rewind, total-rewind,
}
use kernel_utils.Unr.Absorb.{len-positive}
use kernel_utils.Unr.Bitmaps.{IsCounted, delete_unr-IsCounted}

-- A chunk that has changed: a run may be empty, a bitmap full or empty.
abbrev pub IsLoose : Unr → Type 0
IsLoose (free_run n) = n ≤ 2 ^ 31
IsLoose (allocated_run n) = n ≤ 2 ^ 31
IsLoose (bitmap n ub) = IsMap n ub

abbrev IsSettled : Unr → Type 0
IsSettled (free_run n) = n ≤ 2 ^ 31
IsSettled (allocated_run n) = n ≤ 2 ^ 31
IsSettled (bitmap n ub) = IsChunk (bitmap n ub)

-- The chunks around a place.
pub record IsAround (p : Place) : Type 0 where
  pub before : All IsChunk p.before
  pub after : All IsChunk p.after
  pub behind : IsBehind allocated p.before
  pub ahead : IsBetween mixed p.after free

abbrev SettlesTo : ℕ → Unr → Memory × Unr → Type 0
SettlesTo n u r = IsSettled r.1 × (items r.1 ≡ items u) × IsCounted r.0 (pieces_of r.1 + n)

settle_bitmap :
    (m : Memory) (n k : ℕ) (ub : List Bool)
    → IsMap n ub
    → IsCounted m (2 + k)
    → SettlesTo k (bitmap n ub) (settle m (bitmap n ub))
unfolding settle
settle_bitmap m n k ub h c =
    let l = length-take n ub (omega arith) in
    elim (Option-cases (first_of false (take n ub))) [
      | inl e ↦
          let full : take n ub ≡ replicate n true =
            none_clear (take n ub) e ∙ ap (λ i. replicate i true) l in
          rw e (omega arith, sym full, delete_unr-IsCounted m (1 + k) (omega arith))
      | inr (i, e) ↦ elim (Option-cases (first_of true (take n ub))) [
        | inl f ↦
            let empty : take n ub ≡ replicate n false =
              none_set (take n ub) f ∙ ap (λ i. replicate i false) l in
            rw (e, f) (omega arith, sym empty, delete_unr-IsCounted m (1 + k) (omega arith))
        | inr (j, f) ↦
            rw (e, f)
              (
                (h, (first_set-count (take n ub) j f, first_clear-count (take n ub) i e)),
                refl,
                omega arith,
              )
      ]
    ]

settle_lem :
    (m : Memory) (u : Unr) (n : ℕ)
    → IsLoose u
    → IsCounted m (pieces_of u + n)
    → SettlesTo n u (settle m u)
unfolding settle
settle_lem m (free_run i) n h c = (h, refl, c)
settle_lem m (allocated_run i) n h c = (h, refl, c)
settle_lem m (bitmap i ub) n h c = settle_bitmap m i n ub h c

-- What `reap` leaves: nothing, or a place in a list whose chunks are all there.
abbrev pub IsOpen : List Bool → Memory → Option Place → Type 0
IsOpen xs m none = (xs ≡ []) × IsCounted m 0
IsOpen xs m (some p) =
    IsAround p
    × IsChunk p.up
    × (all_items (whole p) ≡ xs)
    × IsCounted m (total p.before + (pieces_of p.up + total p.after))

neighbour-IsOpen :
    (before after : List Unr) (m : Memory) (u : Unr)
    → IsAround (record { before = before; up = u; after = after })
    → IsCounted m (total before + total after)
    → IsOpen (all_items (rewind before after)) m (neighbour before after)
neighbour-IsOpen [] [] m u h c = (refl, c)
neighbour-IsOpen (v ∷ before) after m u h c =
    let around : IsAround (record { before = before; up = v; after = after }) = record {
      before = h.before.1;
      after = h.after;
      behind = (IsBehind-tail allocated v before h.behind).0;
      ahead = h.ahead;
    } in
    (around, h.before.0, refl, omega arith)
neighbour-IsOpen [] (v ∷ after) m u h c =
    let around : IsAround (record { before = []; up = v; after = after }) = record {
      before = tt;
      after = h.after.1;
      behind = tt;
      ahead = IsBetween-weaken (kind v) free after h.ahead.1;
    } in
    (around, h.after.0, refl, omega arith)

no_items : (u : Unr) → IsSettled u → (len u == 0) ≡ true → (items u ≡ []) × (pieces_of u ≡ 1)
no_items (free_run n) h e = let z : n ≡ 0 = ground arith in rw z (refl, refl)
no_items (allocated_run n) h e = let z : n ≡ 0 = ground arith in rw z (refl, refl)
no_items (bitmap n ub) h e = absurd (ground (arith, len-positive (bitmap n ub) h))

some_items : (u : Unr) → IsSettled u → (len u == 0) ≡ false → IsChunk u
some_items (free_run n) h e = ground arith
some_items (allocated_run n) h e = ground arith
some_items (bitmap n ub) h e = h

reap-IsOpen :
    (m : Memory) (p : Place)
    → IsAround p
    → IsSettled p.up
    → IsCounted m (total p.before + (pieces_of p.up + total p.after))
    → let (m', p') = reap m p in IsOpen (all_items (whole p)) m' p'
unfolding reap
reap-IsOpen m p h s c = elim (Bool-cases (len p.up == 0)) [
  | inl t ↦
      let (e, one) = no_items p.up s t in
      let same : all_items (whole p) ≡ all_items (rewind p.before p.after) =
        all_items-rewind p.before (p.up ∷ p.after) p.after (ap (λ xs. xs ++ all_items p.after) e) in
      rw (t, same)
        (neighbour-IsOpen p.before p.after (delete_unr m) p.up h
          (delete_unr-IsCounted m (total p.before + total p.after) (omega arith)))
  | inr t ↦ rw t (h, some_items p.up s t, refl, c)
]

-- Both steps together.
pub settle-reap-IsOpen :
    (m : Memory) (p : Place)
    → IsAround p
    → IsLoose p.up
    → IsCounted m (total (whole p))
    → let (m1, up) = settle m p.up in
      let (m2, p') = reap m1 (record p { up = up }) in IsOpen (all_items (whole p)) m2 p'
settle-reap-IsOpen m p h l c =
    let n = total p.before + total p.after in
    let (s, e, k) = settle_lem m p.up n l (omega (arith, total-rewind p.before (p.up ∷ p.after))) in
    let q : Place = record p { up = (settle m p.up).1 } in
    let around : IsAround q = record {
      before = h.before;
      after = h.after;
      behind = h.behind;
      ahead = h.ahead;
    } in
    let same : all_items (whole q) ≡ all_items (whole p) =
      all_items-rewind p.before (q.up ∷ p.after) (p.up ∷ p.after)
        (ap (λ xs. xs ++ all_items p.after) e) in
    rw (← same) (reap-IsOpen (settle m p.up).0 q around s (omega arith))
