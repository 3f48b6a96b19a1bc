-- ===== src/Unr/Claimed.antt =====
-- `alloc_unr_specific` of unr.c on a valid header.
use kernel_utils.Base.{
  ℕ, ◌+◌, ◌-◌, ◌^◌, ◌≤◌, ◌<◌, arith, ◌≡◌, refl, sym, ap, ◌∙◌, ltb, Bool, true, false, Option, none,
  some, Returns, List, [], ◌∷◌, ◌++◌, append_assoc, length, length-append, Bool-cases, inl, inr,
}
use kernel_utils.Bits.{replicate, write, bit_test}
use kernel_utils.Bits.Laws.{length-replicate, length-write, count_bound}
use kernel_utils.Bits.Writes.{bit_test-left, bit_test-replicate, write-right, count-write-true}
use kernel_utils.Unr.{add32, Unr, Unrhdr, Place, rewind, whole}
use kernel_utils.Unr.Alloc.{locate, alloc_located}
use kernel_utils.Unr.View.{
  all_items, numbers, IsChunk, free, allocated, IsBetween-unwind, total-rewind, All-unwind,
}
use kernel_utils.Unr.Tidy.{IsTidy}
use kernel_utils.Unr.Valid.{IsValid, length-numbers, total_bound, before_place, after_place}
use kernel_utils.Unr.Locate.{
  passed, IsLocated, locate_lem, tidy_around, index_inside, bit_test-place, write-place,
}
use kernel_utils.Unr.Ready.{IsReadyFor}
use kernel_utils.Unr.Claims.{Claims, alloc_inside-Claims, alloc_beyond-Claims}

module _ (uh : Unrhdr) (item : ℕ) (v : IsValid uh) (above : uh.low ≤ item) (below : item ≤ uh.high)
    (clear : bit_test (numbers uh) (item - uh.low) ≡ false) (cached : 2 ≤ uh.memory.cached) where
  abbrev pub claimed : List Bool
  claimed = write (numbers uh) (item - uh.low) true

  pub ready : IsReadyFor claimed (record uh { busy = add32 uh.busy 1 })
  ready =
      let r = v.range in
      let s = v.small in
      let y = v.busy in
      let c = count-write-true (numbers uh) (item - uh.low) (omega arith) clear in
      let b = count_bound (numbers uh) in
      record {
        range = omega (arith, length-write (numbers uh) (item - uh.low) true);
        busy = omega arith;
        ordered = v.ordered;
        small = v.small;
      }

  little_memory : uh.memory.alloc < 2 ^ 31 + 1
  little_memory = omega (
    arith,
    v.tidy.counted,
    total_bound uh.head v.tidy.chunks,
    length-numbers uh,
    v.range,
    v.small,
  )

  -- The numbers in `first` are allocated.
  pub not_first : uh.first ≤ item - uh.low
  not_first = elim (Bool-cases (ltb (item - uh.low) uh.first)) [
    | inl t ↦
        let h : item - uh.low < uh.first = ground arith in
        let set : bit_test (numbers uh) (item - uh.low) ≡ true =
          bit_test-left (replicate uh.first true) (after_place uh.head uh.last) (item - uh.low)
            (omega (arith, length-replicate uh.first true))
          ∙ bit_test-replicate uh.first (item - uh.low) true h in
        ground (arith, set, clear)
    | inr t ↦ ground arith
  ]

  at_found :
      (r : ℕ × List Unr × Option Place)
      → IsLocated uh.head (item - uh.low - uh.first) r
      → Returns (alloc_located uh item r) (Claims claimed uh item)
  at_found (k, before, none) (e, at) =
      let h = not_first in
      let l = length-numbers uh in
      let r = v.range in
      let s = v.small in
      let t : IsTidy uh.memory (rewind before []) = rw e v.tidy in
      let (chunks, _) = All-unwind IsChunk before [] t.chunks in
      let (behind, apart) = IsBetween-unwind allocated before [] free t.apart in
      let place : before_place uh.first before ≡ replicate uh.first true ++ all_items uh.head =
        ap (λ us. replicate uh.first true ++ all_items us) e in
      let regroup : numbers uh ≡ before_place uh.first before ++ replicate uh.last false =
        sym (append_assoc (replicate uh.first true) (all_items uh.head) (replicate uh.last false))
        ∙ ap (λ xs. xs ++ replicate uh.last false) (sym place) in
      let index : item - uh.low ≡ length (before_place uh.first before) + k = omega (
        arith,
        ap length place,
        length-append (replicate uh.first true) (all_items uh.head),
        length-replicate uh.first true,
      ) in
      alloc_beyond-Claims uh claimed item k before ready above below (omega arith) (omega arith)
        (omega arith) chunks behind apart (omega (arith, t.counted, total-rewind before []))
        (omega (arith, little_memory)) cached
        (rw (regroup, index)
          (sym (write-right (before_place uh.first before) (replicate uh.last false) k true)))
  at_found (k, before, some p) (e, inside, at) =
      let h = not_first in
      let l = length-numbers uh in
      let r = v.range in
      let t : IsTidy uh.memory (whole p) = rw e v.tidy in
      let (around, chunk) = tidy_around uh.memory p t in
      let (behind, ahead) = IsBetween-unwind allocated p.before (p.up ∷ p.after) free t.apart in
      let xs = replicate uh.first true ++ (all_items (whole p) ++ replicate uh.last false) in
      let same : xs ≡ numbers uh =
        ap (λ us. replicate uh.first true ++ (all_items us ++ replicate uh.last false)) e in
      let index : uh.first + (passed p.before + k) ≡ item - uh.low = omega arith in
      let moved : bit_test xs (uh.first + (passed p.before + k)) ≡ false = rw (same, index) clear in
      let target : write xs (uh.first + (passed p.before + k)) true ≡ claimed =
        rw (same, index) refl in
      let within : passed p.before + k < length (all_items uh.head) =
        omega (arith, index_inside p k inside chunk, ap (λ us. length (all_items us)) e) in
      alloc_inside-Claims uh claimed item k p.before p.up p.after (record {
        ready = ready;
        above = above;
        below = below;
        end = omega arith;
        around = around;
        chunk = chunk;
        inside = inside;
        clear = sym (bit_test-place uh.first uh.last p k inside chunk) ∙ moved;
        ahead = ahead.1;
        apart = ahead.0;
        counted = omega (arith, t.counted, total-rewind p.before (p.up ∷ p.after));
        little = omega (arith, little_memory);
        cached = cached;
        written = sym (write-place uh.first uh.last p k inside chunk true) ∙ target;
      })

  -- A list with chunks.
  pub located :
      Returns
        (alloc_located uh item (locate [] uh.head (item - uh.low - uh.first)))
        (Claims claimed uh item)
  located =
      let s = v.small in
      at_found (locate [] uh.head (item - uh.low - uh.first))
        (locate_lem uh.head (item - uh.low - uh.first) v.tidy.chunks (omega arith))
