-- ===== src/Unr/Claims.antt =====
-- `alloc_unr_specific` of unr.c at the chunk that has the number, and behind the list.
use kernel_utils.Base.{
  ℕ, ◌+◌, ◌-◌, ◌^◌, ◌==◌, ◌≤◌, ◌<◌, arith, ◌≡◌, refl, sym, ap, ◌∙◌, ltb, Bool, true, false, Option,
  some, Returns, Returns->>=, Returns_passed, List, [], ◌∷◌, ◌++◌, append_assoc, All, if◌then◌else◌,
}
use kernel_utils.Bits.{replicate, write, bit_test}
use kernel_utils.Bits.Laws.{length-write}
use kernel_utils.Bits.Writes.{bit_test-replicate, bit_test-take, take-write_inside, write-replicate}
use kernel_utils.Unr.{
  add32, sub32, Unr, free_run, allocated_run, bitmap, len, Memory, new_unr, Unrhdr, Place,
  check_unrhdr,
}
use kernel_utils.Unr.Alloc.{done, new_run, alloc_beyond, alloc_inside, lower_last}
use kernel_utils.Unr.Collapse.{collapse_unr}
use kernel_utils.Unr.View.{
  items, total, pieces_of, IsChunk, free, allocated, kind, IsApart, IsBetween, IsBehind, nearest,
  total-rewind,
}
use kernel_utils.Unr.Bitmaps.{IsCounted}
use kernel_utils.Unr.Settle.{IsLoose, IsAround}
use kernel_utils.Unr.Valid.{IsNow, check_unrhdr_lem, before_place, after_place}
use kernel_utils.Unr.Cut.{free_run-IsRunOf, cut_around, IsCutBefore, cut_before}
use kernel_utils.Unr.Ready.{IsReadyFor, collapses}

-- The number asked for is handed out.
abbrev pub Claims : List Bool → Unrhdr → ℕ → Option ℕ × Unrhdr → Type 0
Claims ys uh item r = (r.0 ≡ some item) × IsNow ys uh r.1

lower_last_lem :
    (uh : Unrhdr) (item last' : ℕ)
    → sub32 (sub32 uh.high uh.low) (sub32 item uh.low) ≡ uh.high - item
    → (if ltb (uh.high - item) uh.last then uh.high - item else uh.last) ≡ last'
    → lower_last uh item ≡ last'
unfolding lower_last
lower_last_lem uh item last' e f = rw e f

done-Claims :
    (uh : Unrhdr) (item last' : ℕ) (p : Place) (ys : List Bool)
    → uh.low ≤ item
    → item ≤ uh.high
    → (if ltb (uh.high - item) uh.last then uh.high - item else uh.last) ≡ last'
    → IsReadyFor ys (record uh { last = last'; busy = add32 uh.busy 1 })
    → IsAround p
    → IsLoose p.up
    → IsCounted uh.memory (total p.before + (pieces_of p.up + total p.after))
    → before_place uh.first p.before ++ (items p.up ++ after_place p.after last') ≡ ys
    → Returns (done uh item p) (Claims ys uh item)
unfolding done
done-Claims uh item last' p ys a b e r h u c w =
    let s = r.small in
    let to_end : sub32 (sub32 uh.high uh.low) (sub32 item uh.low) ≡ uh.high - item = omega arith in
    let lowered = lower_last_lem uh item last' to_end e in
    let uh' : Unrhdr = record uh { last = lower_last uh item; busy = add32 uh.busy 1 } in
    Returns->>= (collapse_unr uh' p) _ (IsNow ys uh) (Claims ys uh item)
      (collapses uh' p ys
        (record { range = r.range; busy = r.busy; ordered = r.ordered; small = r.small }) h u c
        (rw lowered w))
      (λ s n.
        Returns_passed (check_unrhdr s) s _ (Claims ys uh item) (check_unrhdr_lem s n.valid)
          (refl, n))

-- A place whose chunk has a free number in place `k`, which becomes allocated in `ys`.
pub record IsClaiming (ys : List Bool) (uh : Unrhdr) (item k : ℕ) (p : Place) : Type 0 where
  pub ready : IsReadyFor ys (record uh { busy = add32 uh.busy 1 })
  pub above : uh.low ≤ item
  pub below : item ≤ uh.high
  pub end : uh.last ≤ uh.high - item
  pub around : IsAround p
  pub chunk : IsChunk p.up
  pub inside : k < len p.up
  pub clear : bit_test (items p.up) k ≡ false
  pub ahead : IsBetween (kind p.up) p.after free
  pub apart : IsApart (nearest allocated p.before) (kind p.up)
  pub counted : IsCounted uh.memory (total p.before + (pieces_of p.up + total p.after))
  pub little : uh.memory.alloc < 2 ^ 32 - 3
  pub cached : 2 ≤ uh.memory.cached
  pub written :
      before_place uh.first p.before ++ (write (items p.up) k true ++ after_place p.after uh.last)
      ≡ ys

pub alloc_inside-Claims :
    (uh : Unrhdr) (ys : List Bool) (item k : ℕ) (before : List Unr) (up : Unr) (after : List Unr)
    → IsClaiming ys uh item k (record { before = before; up = up; after = after })
    → Returns
        (alloc_inside uh item k (record { before = before; up = up; after = after }))
        (Claims ys uh item)
unfolding alloc_inside
alloc_inside-Claims uh ys item k before (allocated_run n) after h =
    ground (arith, h.clear, bit_test-replicate n k true h.inside)
alloc_inside-Claims uh ys item k before (bitmap n ub) after h =
    let clear : bit_test ub k ≡ false = sym (bit_test-take n k ub h.inside) ∙ h.clear in
    let same_last : (if ltb (uh.high - item) uh.last then uh.high - item else uh.last) ≡ uh.last =
      ground (arith, h.end) in
    rw clear (
      done-Claims uh item uh.last
        (record { before = before; up = bitmap n (write ub k true); after = after }) ys h.above
        h.below same_last h.ready
        (record {
          before = h.around.before;
          after = h.around.after;
          behind = h.around.behind;
          ahead = h.around.ahead;
        })
        (h.chunk.0.0, length-write ub k true ∙ h.chunk.0.1) h.counted
        (rw (take-write_inside n k ub true h.inside) h.written))
alloc_inside-Claims uh ys item k before (free_run n) after h =
    let tl : sub32 n (add32 1 k) ≡ n - (1 + k) = omega (arith, h.inside, h.chunk) in
    let same_last : (if ltb (uh.high - item) uh.last then uh.high - item else uh.last) ≡ uh.last =
      ground (arith, h.end) in
    let cut : before_place uh.first before
          ++ ((replicate k false ++ (true ∷ replicate (n - (1 + k)) false))
              ++ after_place after uh.last)
        ≡ ys =
      rw (← write-replicate n k false true h.inside) h.written in
    rw tl (
      cut_around uh.first uh.last k (n - (1 + k)) before after (free_run k) (allocated_run 1)
        (free_run (n - (1 + k))) uh.memory _ (Claims ys uh item)
        (free_run-IsRunOf k (omega (arith, h.inside, h.chunk)))
        (free_run-IsRunOf (n - (1 + k)) (omega (arith, h.chunk))) refl (omega (arith, h.cached))
        h.counted h.little h.around.before h.around.after h.around.behind (λ _. h.apart) h.ahead
        (λ r s split.
          done-Claims (record uh { memory = s.0 }) item uh.last
            (record { before = s.1; up = allocated_run 1; after = r.1 }) ys h.above h.below
            same_last
            (record {
              range = h.ready.range;
              busy = h.ready.busy;
              ordered = h.ready.ordered;
              small = h.ready.small;
            })
            split.around (omega arith)
            (omega (arith, split.counted, total-rewind s.1 (allocated_run 1 ∷ r.1)))
            (split.same ∙ cut)))

pub taken_one :
    (m : Memory)
    → (m.cached == 0) ≡ false
    → new_unr m ≡ some (record m { alloc = add32 m.alloc 1; cached = m.cached - 1 })
unfolding new_unr
taken_one m e = rw e refl

-- Behind the list: the number is in place `k` of `last`.
pub alloc_beyond-Claims :
    (uh : Unrhdr) (ys : List Bool) (item k : ℕ) (before : List Unr)
    → IsReadyFor ys (record uh { busy = add32 uh.busy 1 })
    → uh.low ≤ item
    → item ≤ uh.high
    → k < uh.last
    → uh.high - item ≡ uh.last - (1 + k)
    → uh.last ≤ 2 ^ 31
    → All IsChunk before
    → IsBehind allocated before
    → IsApart (nearest allocated before) free
    → IsCounted uh.memory (total before)
    → uh.memory.alloc < 2 ^ 32 - 3
    → 2 ≤ uh.memory.cached
    → before_place uh.first before ++ write (replicate uh.last false) k true ≡ ys
    → Returns (alloc_beyond uh item k before) (Claims ys uh item)
unfolding alloc_beyond
alloc_beyond-Claims uh ys item k before ready above below inside end long chunks behind apart
      counted little cached written =
    let is_run = free_run-IsRunOf k (omega arith) in
    let cut : before_place uh.first before
          ++ (replicate k false ++ (true ∷ replicate (uh.high - item) false))
        ≡ ys =
      rw end (rw (← write-replicate uh.last k false true inside) written) in
    let same_last : (if ltb (uh.high - item) uh.last then uh.high - item else uh.last)
        ≡ uh.high - item =
      ground (arith, end) in
    Returns->>= (new_run uh.memory k before (free_run k)) _
      (IsCutBefore k (free_run k) uh.memory is_run (omega arith) (omega arith) uh.first before)
      (Claims ys uh item)
      (cut_before k (free_run k) uh.memory is_run (omega arith) (omega arith) uh.first before chunks
        behind (λ _. apart))
      (λ r (taken, chunks', behind', head_items).
        let there : (r.0.cached == 0) ≡ false = ground (arith, taken.cached) in
        Returns_passed (new_unr r.0)
          (record (r.0) { alloc = add32 r.0.alloc 1; cached = r.0.cached - 1 }) _
          (Claims ys uh item) (taken_one r.0 there)
          (done-Claims
            (record uh {
              memory = record (r.0) { alloc = add32 r.0.alloc 1; cached = r.0.cached - 1 };
            })
            item (uh.high - item) (record { before = r.1; up = allocated_run 1; after = [] }) ys
            above below same_last
            (record {
              range = ready.range;
              busy = ready.busy;
              ordered = ready.ordered;
              small = ready.small;
            })
            (record { before = chunks'; after = tt; behind = behind'; ahead = tt }) (omega arith)
            (omega (arith, taken.alloc, taken.little))
            (ap (λ xs. xs ++ (true ∷ replicate (uh.high - item) false)) head_items
              ∙ append_assoc (before_place uh.first before) (replicate k false)
                  (true ∷ replicate (uh.high - item) false)
              ∙ cut)))
