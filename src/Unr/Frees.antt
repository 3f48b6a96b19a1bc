-- ===== src/Unr/Frees.antt =====
-- `free_unr` of unr.c at the chunk that has the number.
use kernel_utils.Base.{
  ℕ, ◌+◌, ◌-◌, ◌==◌, ◌≤◌, arith, ◌≡◌, refl, ◌∙◌, Bool, true, false, Option, none, some, Returns,
  Ensures, ==_iff, List, [], ◌∷◌, if◌then◌else◌, Bool-cases, inl, inr,
}
use kernel_utils.Bits.{replicate, write}
use kernel_utils.Unr.{add32, sub32, Unr, free_run, allocated_run, bitmap, Unrhdr}
use kernel_utils.Unr.Collapse.{collapse_unr}
use kernel_utils.Unr.Free.{longer_free, split_run, free_last, free_run_item}
use kernel_utils.Unr.View.{free, allocated, IsBetween-weaken, total-rewind}
use kernel_utils.Unr.Valid.{IsNow}
use kernel_utils.Unr.Cut.{allocated_run-IsRunOf, cut_around}
use kernel_utils.Unr.Ready.{IsReadyFor, collapses}
use kernel_utils.Unr.Shifts.{IsHeld, cut, shift_next, shift_previous}

-- A neighbour takes the number, or none does.
either :
    (o : Option (List Unr)) (d : Option Unrhdr) (f : List Unr → Option Unrhdr) (P : Unrhdr → Type 0)
    → Returns d P
    → Ensures o (λ us. Returns (f us) P)
    → Returns (elim o [ none ↦ d | some us ↦ f us ]) P
either none d f P h k = h
either (some us) d f P h k = k

module _ (uh : Unrhdr) (ys : List Bool) (ready : IsReadyFor ys uh) (n k : ℕ) where
  split_run-IsNow :
      (before after : List Unr)
      → IsHeld uh ys ready n k before after
      → Returns (split_run uh n k before after) (IsNow ys uh)
  unfolding split_run
  split_run-IsNow before after h =
      let pl : sub32 n (add32 1 k) ≡ n - (1 + k) = omega (arith, h.inside, h.run) in
      rw pl (
        cut_around uh.first uh.last k (n - (1 + k)) before after (allocated_run k) (free_run 1)
          (allocated_run (n - (1 + k))) uh.memory _ (IsNow ys uh)
          (allocated_run-IsRunOf k (omega (arith, h.inside, h.run)))
          (allocated_run-IsRunOf (n - (1 + k)) (omega (arith, h.run))) refl
          (omega (arith, h.cached)) h.counted h.little h.chunks h.chunks_after h.behind h.apart
          h.ahead
          (λ r s split.
            collapses (record uh { memory = s.0 })
              (record { before = s.1; up = free_run 1; after = r.1 }) ys
              (record {
                range = ready.range;
                busy = ready.busy;
                ordered = ready.ordered;
                small = ready.small;
              })
              split.around (omega arith)
              (omega (arith, split.counted, total-rewind s.1 (free_run 1 ∷ r.1)))
              (split.same ∙ cut uh ys ready n k before after h)))

  next_takes :
      (before after : List Unr)
      → IsHeld uh ys ready n k before after
      → k ≡ n - 1
      → 2 ≤ n
      → Ensures (longer_free after) (λ after'.
        Returns
          (collapse_unr uh
            (record { before = before; up = allocated_run (sub32 n 1); after = after' }))
          (IsNow ys uh))
  next_takes before [] h e two = tt
  next_takes before (free_run j ∷ after) h e two = shift_next uh ys ready n k before after j h e two
  next_takes before (allocated_run j ∷ after) h e two = tt
  next_takes before (bitmap j ub ∷ after) h e two = tt

  free_last-IsNow :
      (before after : List Unr)
      → IsHeld uh ys ready n k before after
      → 2 ≤ n
      → Returns (free_last uh n k before after) (IsNow ys uh)
  unfolding free_last
  free_last-IsNow before after h two =
      either (if k == sub32 n 1 then longer_free after else none) _ _ (IsNow ys uh)
        (split_run-IsNow before after h)
        (elim (Bool-cases (k == sub32 n 1)) [
          | inl t ↦
              let last : k ≡ n - 1 = omega (arith, (==_iff k (sub32 n 1)).0 t, h.run) in
              rw t (next_takes before after h last two)
          | inr t ↦ rw t tt
        ])

  previous_takes :
      (before after : List Unr)
      → IsHeld uh ys ready n k before after
      → k ≡ 0
      → 2 ≤ n
      → Ensures (longer_free before) (λ before'.
        Returns
          (collapse_unr uh
            (record { before = before'; up = allocated_run (sub32 n 1); after = after }))
          (IsNow ys uh))
  previous_takes [] after h e two = tt
  previous_takes (free_run j ∷ before) after h e two =
      shift_previous uh ys ready n k before after j h e two
  previous_takes (allocated_run j ∷ before) after h e two = tt
  previous_takes (bitmap j ub ∷ before) after h e two = tt

  pub free_run_item-IsNow :
      (before after : List Unr)
      → IsHeld uh ys ready n k before after
      → Returns (free_run_item uh n k before after) (IsNow ys uh)
  unfolding free_run_item
  free_run_item-IsNow before after h = elim (Bool-cases (n == 1)) [
    | inl t ↦
        let one : n ≡ 1 = (==_iff n 1).0 t in
        let at_zero : k ≡ 0 = omega (arith, h.inside) in
        let freed : write (replicate n true) k false ≡ replicate n false = rw (one, at_zero) refl in
        rw t (
          collapses uh (record { before = before; up = free_run n; after = after }) ys ready
            (record {
              before = h.chunks;
              after = h.chunks_after;
              behind = h.behind;
              ahead = IsBetween-weaken allocated free after h.ahead;
            })
            h.run.1 (omega (arith, h.counted)) (rw (← freed) h.written))
    | inr t ↦
        let two : 2 ≤ n = ground (arith, t, h.run) in
        rw t (
          either (if k == 0 then longer_free before else none) _ _ (IsNow ys uh)
            (free_last-IsNow before after h two)
            (elim (Bool-cases (k == 0)) [
              | inl z ↦ rw z (previous_takes before after h ((==_iff k 0).0 z) two)
              | inr z ↦ rw z tt
            ]))
  ]
