-- ===== src/Unr/Tidy.antt =====
-- The lists of chunks that unr.c keeps, and what `optimize_unr` leaves of them.
use kernel_utils.Base.{
  ℕ, suc, ◌+◌, ◌≤◌, ◌<◌, arith, ◌≡◌, refl, leb, ltb, Bool, true, false, Option, none, some, Returns,
  Returns_map, List, [], ◌∷◌, append_assoc, length, All, if◌then◌else◌, Bool-cases, inl, inr,
}
use kernel_utils.Unr.{
  add32, nbits, Unr, free_run, allocated_run, bitmap, len, is_bitmap, Memory, delete_unr, Place,
  rewind, whole,
}
use kernel_utils.Unr.Optimize.{
  pieces, gather, best, first_bits, Absorbed, make_bitmap, absorb, begin_bitmap,
}
use kernel_utils.Unr.View.{
  all_items, pieces_of, total, IsChunk, Kind, free, allocated, kind, IsBetween, IsBetween-weaken,
}
use kernel_utils.Unr.Absorb.{
  length-write_chunk, take-write_chunk, length-first_bits, take-first_bits, IsMixed-pair,
}
use kernel_utils.Unr.Bitmaps.{
  IsCounted, delete_unr-IsCounted, IsAbsorbed, IsReady, absorb-IsAbsorbed, absorb_one, room,
  no_wrap,
}

-- The list between two operations: the first chunk is no allocated run, the last one no free run,
-- and no two neighbours merge.
pub record IsTidy (m : Memory) (us : List Unr) : Type 0 where
  pub chunks : All IsChunk us
  pub apart : IsBetween allocated us free
  pub counted : IsCounted m (total us)

-- What a search for the best place has found in a list.
unfoldable pub IsFound : List Unr → ℕ → Option Place → Type 0
IsFound head ba none = ba ≡ 0
IsFound head ba (some p) =
    (whole p ≡ head)
    × (leb nbits (len p.up) ≡ false)
    × (gather (pieces p.up) (len p.up) p.after ≡ ba)

pub best-IsFound :
    (head before us : List Unr) (ba : ℕ) (found : Option Place)
    → rewind before us ≡ head
    → IsFound head ba found
    → let (ba', found') = best before us ba found in IsFound head ba' found'
unfolding best IsFound
best-IsFound head before [] ba found e h = h
best-IsFound head before (uf ∷ us) ba found e h = elim (Bool-cases (leb nbits (len uf))) [
  | inl t ↦ rw t (best-IsFound head (uf ∷ before) us ba found e h)
  | inr t ↦ elim (Bool-cases (ltb ba (gather (pieces uf) (len uf) us))) [
    | inl b ↦
        let p : Place = record { before = before; up = uf; after = us } in
        rw (t, b)
          (best-IsFound head (uf ∷ before) us (gather (pieces uf) (len uf) us) (some p) e
            (e, t, refl))
    | inr b ↦ rw (t, b) (best-IsFound head (uf ∷ before) us ba found e h)
  ]
]

-- The chunk after a place fits.
unfoldable pub Fits : Unr → List Unr → Type 0
Fits u [] = ⊥
Fits u (v ∷ us) = ltb nbits (add32 (len v) (len u)) ≡ false

few : (u : Unr) → ltb (pieces u) 3 ≡ true
few (free_run n) = refl
few (allocated_run n) = refl
few (bitmap n ub) = refl

pub gather-Fits :
    (u : Unr) (us : List Unr) → ltb (gather (pieces u) (len u) us) 3 ≡ false → Fits u us
unfolding gather Fits
gather-Fits u [] h = ground (arith, few u)
gather-Fits u (v ∷ us) h = elim (Bool-cases (ltb nbits (add32 (len v) (len u)))) [
  | inl t ↦ ground (arith, few u, t)
  | inr t ↦ t
]

module _ (n : ℕ) (k : Kind) where
  abbrev IsBegun : List Bool → List Unr → Absorbed → Type 0
  IsBegun xs us a = IsReady xs (n + 2) k a.memory a.bits a.ub a.after × (a.after ≡ us)

  abbrev pub IsCollected : Unr → List Unr → Absorbed → Type 0
  IsCollected u us a =
      (c : ℕ) × (suc c ≤ length us)
      × IsAbsorbed (all_items (u ∷ us)) (n + 2) c k (absorb a.memory a.bits a.ub a.after)

  -- A run and the chunk after it become a bitmap.
  make_bitmap-IsReady :
      (u v : Unr) (us : List Unr) (m : Memory)
      → len u < nbits
      → ltb nbits (add32 (len v) (len u)) ≡ false
      → pieces_of u ≡ 1
      → IsCounted m (n + total (u ∷ v ∷ us))
      → All IsChunk (u ∷ v ∷ us)
      → IsBetween (kind u) (v ∷ us) k
      → Returns (make_bitmap m u (v ∷ us)) (IsBegun (all_items (u ∷ v ∷ us)) us)
  unfolding make_bitmap
  make_bitmap-IsReady u v us m s t one c h a =
      let small : len u ≤ nbits = omega arith in
      let e = no_wrap v (len u) h.1.0 small in
      let swap : len v + len u ≡ len u + len v = omega arith in
      let fits = room v (len u) h.1.0 small t in
      let l = length-first_bits u h.0 in
      let below = take-first_bits u h.0 s in
      let written = take-write_chunk v (first_bits u) (len u) h.1.0 (omega arith) in
      (
        record {
          same = rw (e, swap, written, below, append_assoc) refl;
          fits = rw (e, length-write_chunk v (first_bits u) (len u)) (omega arith, l);
          both = rw (e, swap, written, below) (IsMixed-pair u v h.0 h.1.0 a.0);
          chunks = h.1.1;
          apart = IsBetween-weaken (kind v) k us a.1;
          counted = kept v c;
        },
        refl,
      )
    where
      kept :
          (v : Unr)
          → IsCounted m (n + total (u ∷ v ∷ us))
          → IsCounted (if is_bitmap v then delete_unr m else m) (n + 2 + total us)
      kept (free_run i) c = omega (arith, one)
      kept (allocated_run i) c = omega (arith, one)
      kept (bitmap i ub) c = delete_unr-IsCounted m (n + 2 + total us) (omega (arith, one))

  collected :
      (us : List Unr) (xs : List Bool) (a : Absorbed)
      → IsReady xs (n + 2) k a.memory a.bits a.ub a.after
      → (a.after ≡ us)
      → IsAbsorbed xs (n + 2) (length us) k (absorb a.memory a.bits a.ub a.after)
  collected us xs a r e = rw (← e) (absorb-IsAbsorbed xs (n + 2) k a.after a.memory a.bits a.ub r)

  -- The chunk at the place and the one after it, at least, become one bitmap.
  pub collect_from :
      (u : Unr) (us : List Unr) (m : Memory)
      → leb nbits (len u) ≡ false
      → Fits u us
      → IsCounted m (n + total (u ∷ us))
      → All IsChunk (u ∷ us)
      → IsBetween (kind u) us k
      → Returns (begin_bitmap m u us) (IsCollected u us)
  unfolding Fits
  collect_from u [] m s f c h a = absurd f
  collect_from (bitmap l ub) (v ∷ us) m s f c h a =
      let r : IsReady _ (n + 2) k m l ub (v ∷ us) = record {
        same = refl;
        fits = h.0.0;
        both = h.0.1;
        chunks = h.1;
        apart = a;
        counted = omega arith;
      } in
      (length us, omega arith, absorb_one _ (n + 2) k v us m l ub f r)
  collect_from (free_run i) (v ∷ us) m s f c h a =
      Returns_map (make_bitmap m (free_run i) (v ∷ us)) (IsBegun _ us)
        (IsCollected (free_run i) (v ∷ us))
        (make_bitmap-IsReady (free_run i) v us m (ground (arith, s)) f refl c h a)
        (λ b r. (length us, omega arith, collected us _ b r.0 r.1))
  collect_from (allocated_run i) (v ∷ us) m s f c h a =
      Returns_map (make_bitmap m (allocated_run i) (v ∷ us)) (IsBegun _ us)
        (IsCollected (allocated_run i) (v ∷ us))
        (make_bitmap-IsReady (allocated_run i) v us m (ground (arith, s)) f refl c h a)
        (λ b r. (length us, omega arith, collected us _ b r.0 r.1))
