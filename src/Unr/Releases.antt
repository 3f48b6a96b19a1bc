-- ===== src/Unr/Releases.antt =====
-- `free_unr` of unr.c on the numbers of a valid header.
use kernel_utils.Base.{
  ℕ, zero, suc, ◌+◌, ◌-◌, ◌^◌, ◌≤◌, ◌<◌, min, arith, ◌≡◌, refl, sym, ap, ◌∙◌, leb, Bool, true,
  false, Option, none, some, Returns, List, [], ◌∷◌, ◌++◌, length, Bool-cases, inl, inr,
}
use kernel_utils.Bits.{replicate, write, bit_test}
use kernel_utils.Bits.Laws.{length-replicate, length-write, count_bound}
use kernel_utils.Bits.Writes.{
  bit_test-replicate, bit_test-take, bit_test_beyond, bit_test-right, take-write_inside,
  count-write-false,
}
use kernel_utils.Unr.{sub32, Unr, free_run, allocated_run, bitmap, len, Unrhdr, Place, whole}
use kernel_utils.Unr.Alloc.{locate}
use kernel_utils.Unr.Free.{free_inside, free_located, is_nil}
use kernel_utils.Unr.View.{
  items, all_items, numbers, total, pieces_of, IsChunk, free, allocated, kind, IsApart, IsBetween,
  IsBetween-unwind, nearest, total-rewind,
}
use kernel_utils.Unr.Bitmaps.{IsCounted}
use kernel_utils.Unr.Tidy.{IsTidy}
use kernel_utils.Unr.Settle.{IsAround}
use kernel_utils.Unr.Valid.{IsValid, IsNow, length-numbers, total_bound, before_place, after_place}
use kernel_utils.Unr.Locate.{
  passed, IsLocated, locate_lem, tidy_around, bit_test-place, write-place,
}
use kernel_utils.Unr.Ready.{IsReadyFor, collapses}
use kernel_utils.Unr.Frees.{free_run_item-IsNow}

-- A place whose chunk has an allocated number in place `k`, which becomes free in `ys`.
pub record IsFreeing (ys : List Bool) (uh : Unrhdr) (k : ℕ) (p : Place) : Type 0 where
  pub around : IsAround p
  pub chunk : IsChunk p.up
  pub inside : k < len p.up
  pub set : bit_test (items p.up) k ≡ true
  pub ahead : IsBetween (kind p.up) p.after free
  pub apart : 1 ≤ k → IsApart (nearest allocated p.before) (kind p.up)
  pub counted : IsCounted uh.memory (total p.before + (pieces_of p.up + total p.after))
  pub little : uh.memory.alloc < 2 ^ 32 - 3
  pub cached : min k 1 + 1 ≤ uh.memory.cached
  pub written :
      before_place uh.first p.before ++ (write (items p.up) k false ++ after_place p.after uh.last)
      ≡ ys

unfoldable pub counted_down : Unrhdr → Unrhdr
counted_down uh = record uh { busy = sub32 uh.busy 1 }

pub free_inside-IsNow :
    (uh : Unrhdr) (ys : List Bool) (k : ℕ) (before : List Unr) (up : Unr) (after : List Unr)
    → IsReadyFor ys (counted_down uh)
    → IsFreeing ys uh k (record { before = before; up = up; after = after })
    → Returns (free_inside uh k (record { before = before; up = up; after = after })) (IsNow ys uh)
unfolding free_inside counted_down
free_inside-IsNow uh ys k before (free_run n) after r h =
    ground (arith, h.set, bit_test-replicate n k false h.inside)
free_inside-IsNow uh ys k before (bitmap n ub) after r h =
    let set : bit_test ub k ≡ true = sym (bit_test-take n k ub h.inside) ∙ h.set in
    rw set (
      collapses (counted_down uh)
        (record { before = before; up = bitmap n (write ub k false); after = after }) ys r
        (record {
          before = h.around.before;
          after = h.around.after;
          behind = h.around.behind;
          ahead = h.around.ahead;
        })
        (h.chunk.0.0, length-write ub k false ∙ h.chunk.0.1) h.counted
        (rw (take-write_inside n k ub false h.inside) h.written))
free_inside-IsNow uh ys k before (allocated_run n) after r h =
    free_run_item-IsNow (counted_down uh) ys r n k before after (record {
      run = h.chunk;
      inside = h.inside;
      chunks = h.around.before;
      chunks_after = h.around.after;
      behind = h.around.behind;
      apart = h.apart;
      ahead = h.ahead;
      counted = h.counted;
      little = h.little;
      cached = h.cached;
      written = h.written;
    })

pub clear_run : (n i : ℕ) → bit_test (replicate n false) i ≡ false
clear_run zero i = refl
clear_run (suc n) zero = refl
clear_run (suc n) (suc i) = clear_run n i

pub set_inside : (xs : List Bool) (i : ℕ) → bit_test xs i ≡ true → i < length xs
set_inside xs i h = elim (Bool-cases (leb (length xs) i)) [
  | inl t ↦ ground (arith, h, bit_test_beyond xs i (ground arith))
  | inr t ↦ ground arith
]

pub is_nil_lem : (us : List Unr) → is_nil us ≡ true → us ≡ []
is_nil_lem [] e = refl
is_nil_lem (u ∷ us) e = ground arith

module _ (uh : Unrhdr) (i : ℕ) (v : IsValid uh) (set : bit_test (numbers uh) i ≡ true)
    (cached : uh.memory.cached ≡ 2) where
  abbrev pub after_free : List Bool
  after_free = write (numbers uh) i false

  pub ready : IsReadyFor after_free (counted_down uh)
  unfolding counted_down
  ready =
      let c = count-write-false (numbers uh) i set in
      let b = count_bound (numbers uh) in
      let r = v.range in
      let s = v.small in
      let y = v.busy in
      record {
        range = omega (arith, length-write (numbers uh) i false);
        busy = omega arith;
        ordered = v.ordered;
        small = v.small;
      }

  pub little_memory : uh.memory.alloc < 2 ^ 31 + 1
  little_memory = omega (
    arith,
    v.tidy.counted,
    total_bound uh.head v.tidy.chunks,
    length-numbers uh,
    v.range,
    v.small,
  )

  -- The number lies behind the list: it is free.
  pub beyond : (k : ℕ) → k + length (all_items uh.head) ≡ i - uh.first → uh.first ≤ i → ⊥
  beyond k e h =
      let at : i ≡ length (replicate uh.first true) + (length (all_items uh.head) + k) =
        omega (arith, length-replicate uh.first true) in
      let clear : bit_test (numbers uh) i ≡ false = rw at (
        bit_test-right (replicate uh.first true) (all_items uh.head ++ replicate uh.last false)
          (length (all_items uh.head) + k)
        ∙ bit_test-right (all_items uh.head) (replicate uh.last false) k
        ∙ clear_run uh.last k) in
      ground (arith, set, clear)

  at_found :
      (r : ℕ × List Unr × Option Place)
      → IsLocated uh.head (i - uh.first) r
      → uh.first ≤ i
      → Returns (free_located uh r) (IsNow after_free uh)
  at_found (k, before, none) l h = absurd (beyond k l.1 h)
  at_found (k, before, some p) (e, inside, at) h =
      let t : IsTidy uh.memory (whole p) = rw e v.tidy in
      let (around, chunk) = tidy_around uh.memory p t in
      let (behind, ahead) = IsBetween-unwind allocated p.before (p.up ∷ p.after) free t.apart in
      let xs = replicate uh.first true ++ (all_items (whole p) ++ replicate uh.last false) in
      let same : xs ≡ numbers uh =
        ap (λ us. replicate uh.first true ++ (all_items us ++ replicate uh.last false)) e in
      let index : uh.first + (passed p.before + k) ≡ i = omega arith in
      let moved : bit_test xs (uh.first + (passed p.before + k)) ≡ true = rw (same, index) set in
      let target : write xs (uh.first + (passed p.before + k)) false ≡ after_free =
        rw (same, index) refl in
      let cache = cached in
      free_inside-IsNow uh after_free k p.before p.up p.after ready (record {
        around = around;
        chunk = chunk;
        inside = inside;
        set = sym (bit_test-place uh.first uh.last p k inside chunk) ∙ moved;
        ahead = ahead.1;
        apart = (λ _. ahead.0);
        counted = omega (arith, t.counted, total-rewind p.before (p.up ∷ p.after));
        little = omega (arith, little_memory);
        cached = omega arith;
        written = sym (write-place uh.first uh.last p k inside chunk false) ∙ target;
      })

  pub located :
      uh.first ≤ i
      → Returns (free_located uh (locate [] uh.head (i - uh.first))) (IsNow after_free uh)
  located h =
      let b = set_inside (numbers uh) i set in
      let r = v.range in
      let s = v.small in
      at_found (locate [] uh.head (i - uh.first))
        (locate_lem uh.head (i - uh.first) v.tidy.chunks (omega arith)) h
