-- ===== src/Unr/Shifts.antt =====
-- `free_unr` of unr.c where the run beside the chunk takes the number.
use kernel_utils.Base.{
  ℕ, suc, ◌+◌, ◌-◌, ◌^◌, ◌≤◌, ◌<◌, min, arith, ◌≡◌, sym, ap, ◌∙◌, Bool, true, false, Returns, List,
  [], ◌∷◌, ◌++◌, append_assoc, length, length-append, All,
}
use kernel_utils.Bits.{replicate, write}
use kernel_utils.Bits.Laws.{length-replicate, length-write, replicate_snoc}
use kernel_utils.Bits.Writes.{write-replicate}
use kernel_utils.Unr.{add32, sub32, Unr, free_run, allocated_run, Unrhdr}
use kernel_utils.Unr.Collapse.{collapse_unr}
use kernel_utils.Unr.View.{
  all_items, total, IsRun, IsChunk, free, allocated, IsApart, IsBetween, IsBetween-weaken, IsBehind,
  IsBehind-cons, IsBehind-tail, nearest,
}
use kernel_utils.Unr.Bitmaps.{IsCounted}
use kernel_utils.Unr.Valid.{IsNow, before_place, after_place}
use kernel_utils.Unr.Cut.{before_place-cons}
use kernel_utils.Unr.Ready.{IsReadyFor, collapses}

length_middle_two :
    (xs us vs ws zs : List Bool) → length us + length vs ≤ length (xs ++ (us ++ ((vs ++ ws) ++ zs)))
length_middle_two xs us vs ws zs = omega (
  arith,
  length-append xs (us ++ ((vs ++ ws) ++ zs)),
  length-append us ((vs ++ ws) ++ zs),
  length-append (vs ++ ws) zs,
  length-append vs ws,
)

length_middle_pair :
    (xs us vs zs : List Bool) → length us + length vs ≤ length (xs ++ (us ++ (vs ++ zs)))
length_middle_pair xs us vs zs =
    omega
      (arith, length-append xs (us ++ (vs ++ zs)), length-append us (vs ++ zs), length-append vs zs)

module _ (uh : Unrhdr) (ys : List Bool) (ready : IsReadyFor ys uh) (n k : ℕ) where
  -- An allocated run of `n` with the number in place `k`, which becomes free in `ys`.
  pub record IsHeld (before after : List Unr) : Type 0 where
    pub run : IsRun n
    pub inside : k < n
    pub chunks : All IsChunk before
    pub chunks_after : All IsChunk after
    pub behind : IsBehind allocated before
    pub apart : 1 ≤ k → IsApart (nearest allocated before) allocated
    pub ahead : IsBetween allocated after free
    pub counted : IsCounted uh.memory (total before + (1 + total after))
    pub little : uh.memory.alloc < 2 ^ 32 - 3
    pub cached : min k 1 + 1 ≤ uh.memory.cached
    pub written :
        before_place uh.first before
          ++ (write (replicate n true) k false ++ after_place after uh.last)
        ≡ ys

  pub cut :
      (before after : List Unr)
      → IsHeld before after
      → before_place uh.first before
          ++ ((replicate k true ++ (false ∷ replicate (n - (1 + k)) true))
              ++ after_place after uh.last)
        ≡ ys
  cut before after h = rw (← write-replicate n k true false h.inside) h.written

  -- The next run takes the number.
  pub shift_next :
      (before after : List Unr) (j : ℕ)
      → IsHeld before (free_run j ∷ after)
      → k ≡ n - 1
      → 2 ≤ n
      → Returns
          (collapse_unr uh (record {
            before = before;
            up = allocated_run (sub32 n 1);
            after = free_run (add32 j 1) ∷ after;
          }))
          (IsNow ys uh)
  shift_next before after j h e two =
      let bound =
        length_middle_two (before_place uh.first before) (write (replicate n true) k false)
          (replicate j false) (all_items after) (replicate uh.last false) in
      let total_length = ap length h.written in
      let long = length-write (replicate n true) k false in
      let long' = length-replicate n true in
      let next = length-replicate j false in
      let range = ready.range in
      let small = ready.small in
      let more : add32 j 1 ≡ suc j = omega arith in
      let fewer : sub32 n 1 ≡ k = omega (arith, h.run) in
      let none_left : n - (1 + k) ≡ 0 = omega (arith, h.inside) in
      let tail = (replicate j false ++ all_items after) ++ replicate uh.last false in
      rw (more, fewer)
        (collapses uh
          (record { before = before; up = allocated_run k; after = free_run (suc j) ∷ after }) ys
          ready
          (record {
            before = h.chunks;
            after = (omega arith, h.chunks_after.1);
            behind = h.behind;
            ahead = (tt, h.ahead.1);
          })
          (omega (arith, h.run)) (omega (arith, h.counted))
          (ap (λ xs. before_place uh.first before ++ xs)
              (sym (append_assoc (replicate k true) (false ∷ []) tail))
            ∙ ap
                (λ i.
                  before_place uh.first before
                  ++ ((replicate k true ++ (false ∷ replicate i true)) ++ tail))
                (sym none_left)
            ∙ cut before (free_run j ∷ after) h))

  -- The previous run takes it.
  pub shift_previous :
      (before after : List Unr) (j : ℕ)
      → IsHeld (free_run j ∷ before) after
      → k ≡ 0
      → 2 ≤ n
      → Returns
          (collapse_unr uh (record {
            before = free_run (add32 j 1) ∷ before;
            up = allocated_run (sub32 n 1);
            after = after;
          }))
          (IsNow ys uh)
  shift_previous before after j h e two =
      let place = before_place uh.first (free_run j ∷ before) in
      let rest = after_place after uh.last in
      let bound =
        length_middle_pair (before_place uh.first before) (replicate j false)
          (write (replicate n true) k false) rest in
      let total_length =
        ap (λ xs. length (xs ++ (write (replicate n true) k false ++ rest)))
          (sym (before_place-cons uh.first (free_run j) before))
        ∙ ap length h.written in
      let same_length = ap length (
        append_assoc (before_place uh.first before) (replicate j false)
          (write (replicate n true) k false ++ rest)) in
      let long = length-write (replicate n true) k false in
      let long' = length-replicate n true in
      let previous = length-replicate j false in
      let range = ready.range in
      let small = ready.small in
      let more : add32 j 1 ≡ j + 1 = omega arith in
      let fewer : sub32 n 1 ≡ n - (1 + 0) = omega (arith, h.run) in
      let behind = IsBehind-tail allocated (free_run j) before h.behind in
      let split : before_place uh.first (free_run (j + 1) ∷ before) ≡ place ++ (false ∷ []) =
        before_place-cons uh.first (free_run (j + 1)) before
        ∙ ap (λ xs. before_place uh.first before ++ xs) (replicate_snoc j false)
        ∙ sym (append_assoc (before_place uh.first before) (replicate j false) (false ∷ []))
        ∙ ap (λ xs. xs ++ (false ∷ [])) (sym (before_place-cons uh.first (free_run j) before)) in
      rw (more, fewer)
        (collapses uh
          (record {
            before = free_run (j + 1) ∷ before;
            up = allocated_run (n - (1 + 0));
            after = after;
          })
          ys ready
          (record {
            before = (omega arith, h.chunks.1);
            after = h.chunks_after;
            behind = IsBehind-cons allocated (free_run (j + 1)) before behind.0 behind.1;
            ahead = IsBetween-weaken allocated free after h.ahead;
          })
          (omega (arith, h.run)) (omega (arith, h.counted))
          (ap (λ xs. xs ++ (replicate (n - (1 + 0)) true ++ rest)) split
            ∙ append_assoc place (false ∷ []) (replicate (n - (1 + 0)) true ++ rest)
            ∙ ap
                (λ i.
                  place ++ ((replicate i true ++ (false ∷ replicate (n - (1 + i)) true)) ++ rest))
                (sym e)
            ∙ cut (free_run j ∷ before) after h))
