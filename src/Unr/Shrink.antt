-- ===== src/Unr/Shrink.antt =====
-- `optimize_unr` of unr.c on a tidy list, called as long as it finds something to do.
use kernel_utils.Base.{
  ℕ, zero, suc, ◌≤◌, ◌<◌, arith, ◌≡◌, refl, ◌∙◌, leb, ltb, Bool, true, false, Option, none, some,
  ◌>>=◌, Returns, Returns->>=, Returns_map, List, [], ◌∷◌, length, Bool-cases, inl, inr,
}
use kernel_utils.Unr.{Unr, bitmap, len, Memory, Place, rewind, whole}
use kernel_utils.Unr.Optimize.{
  best, Absorbed, absorb, begin_bitmap, collect, collect_at, optimize_unr, optimize_all,
}
use kernel_utils.Unr.View.{
  all_items, total, IsChunk, free, allocated, IsApart-mixed_right, IsBetween-rewind,
  IsBetween-unwind, nearest, all_items-rewind, total-rewind, length-rewind, All-rewind, All-unwind,
}
use kernel_utils.Unr.Tidy.{
  IsTidy, IsFound, best-IsFound, Fits, gather-Fits, IsCollected, collect_from,
}

-- The same numbers in fewer chunks.
abbrev pub IsShrunk : List Unr → Memory × List Unr → Type 0
IsShrunk head r = IsTidy r.0 r.1 × (all_items r.1 ≡ all_items head) × (length r.1 < length head)

shrunk :
    (p : Place) (a : Absorbed) (m : Memory)
    → IsTidy m (whole p)
    → IsCollected (total p.before) free p.up p.after a
    → let b = absorb a.memory a.bits a.ub a.after in
      IsShrunk (whole p) (b.memory, rewind p.before (bitmap b.bits b.ub ∷ b.after))
shrunk p a m t (c, fewer, h) =
    let b = absorb a.memory a.bits a.ub a.after in
    let (before, after) = All-unwind IsChunk p.before (p.up ∷ p.after) t.chunks in
    let (behind, ahead) = IsBetween-unwind allocated p.before (p.up ∷ p.after) free t.apart in
    let us = bitmap b.bits b.ub ∷ b.after in
    (
      record {
        chunks = All-rewind IsChunk p.before us before ((h.fits, h.both), h.chunks);
        apart =
            IsBetween-rewind allocated p.before us free behind
              (IsApart-mixed_right (nearest allocated p.before), h.apart);
        counted = omega (arith, total-rewind p.before us, h.counted);
      },
      all_items-rewind p.before us (p.up ∷ p.after) h.same,
      omega (
        arith,
        length-rewind p.before us,
        length-rewind p.before (p.up ∷ p.after),
        h.fewer,
        fewer,
      ),
    )

collect-IsShrunk :
    (p : Place) (m : Memory)
    → IsTidy m (whole p)
    → leb 256 (len p.up) ≡ false
    → Fits p.up p.after
    → Returns (collect m p) (IsShrunk (whole p))
unfolding collect
collect-IsShrunk p m t s f =
    let (before, after) = All-unwind IsChunk p.before (p.up ∷ p.after) t.chunks in
    let (behind, ahead) = IsBetween-unwind allocated p.before (p.up ∷ p.after) free t.apart in
    Returns->>= (begin_bitmap m p.up p.after) _ (IsCollected (total p.before) free p.up p.after)
      (IsShrunk (whole p))
      (collect_from (total p.before) free p.up p.after m s f
        (omega (arith, total-rewind p.before (p.up ∷ p.after), t.counted)) after ahead.1)
      (λ a h. shrunk p a m t h)

-- A call of `optimize_unr` does not fault. The list stays tidy, with the same numbers, and is shorter
-- if the call returns 1.
abbrev pub IsOptimized : List Unr → Bool × Memory × List Unr → Type 0
IsOptimized head r =
    IsTidy r.1 r.2
    × (all_items r.2 ≡ all_items head)
    × (r.0 ≡ true → length r.2 < length head)
    × (length r.2 ≤ length head)

collect_at-IsOptimized :
    (head : List Unr) (m : Memory) (ba : ℕ) (found : Option Place)
    → IsTidy m head
    → IsFound head ba found
    → ltb ba 3 ≡ false
    → Returns (collect_at m found >>= λ r. some (true, r.0, r.1)) (IsOptimized head)
unfolding IsFound
collect_at-IsOptimized head m ba none t f h = ground arith
collect_at-IsOptimized head m ba (some p) t (e, s, g) h =
    let fits = gather-Fits p.up p.after (rw g h) in
    Returns->>= (collect m p) _ (IsShrunk head) (IsOptimized head)
      (rw (← e) (collect-IsShrunk p m (rw e t) s fits))
      (λ r k. (k.0, k.1, (λ x. k.2), omega (arith, k.2)))

pub optimize_unr-IsOptimized :
    (head : List Unr) (m : Memory)
    → IsTidy m head
    → Returns (optimize_unr m head) (IsOptimized head)
unfolding optimize_unr IsFound
optimize_unr-IsOptimized head m t =
    let (ba, found) = best [] head 0 none in
    let h : IsFound head ba found = best-IsFound head [] head 0 none refl refl in
    elim (Bool-cases (ltb ba 3)) [
      | inl b ↦ rw b (t, refl, (λ e. ground arith), omega arith)
      | inr b ↦ rw b (collect_at-IsOptimized head m ba found t h b)
    ]

abbrev pub IsKept : List Unr → Memory × List Unr → Type 0
IsKept head r = IsTidy r.0 r.1 × (all_items r.1 ≡ all_items head)

-- On a tidy list with its memory counted, the calls of `optimize_unr` come to an end after no more
-- of them than there are chunks, and one, without a fault. The list is tidy afterwards, and has the
-- same numbers.
pub optimize_all-IsTidy :
    (fuel : ℕ) (head : List Unr) (m : Memory)
    → IsTidy m head
    → length head < fuel
    → Returns (optimize_all fuel m head) (IsKept head)
unfolding optimize_all
optimize_all-IsTidy zero head m t h = absurd (omega arith)
optimize_all-IsTidy (suc fuel) head m t h =
    Returns->>= (optimize_unr m head) _ (IsOptimized head) (IsKept head)
      (optimize_unr-IsOptimized head m t)
      (λ r o. elim (Bool-cases r.0) [
        | inl b ↦
            let fewer : length r.2 < length head = o.2 b in
            rw b (
              Returns_map (optimize_all fuel r.1 r.2) (IsKept r.2) (IsKept head)
                (optimize_all-IsTidy fuel r.2 r.1 o.0 (omega arith)) (λ s k. (k.0, k.1 ∙ o.1)))
        | inr b ↦ rw b (o.0, o.1)
      ])
