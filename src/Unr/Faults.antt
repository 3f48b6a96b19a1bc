-- ===== src/Unr/Faults.antt =====
-- `free_unr` of unr.c on a number that is not allocated.
use kernel_utils.Base.{
  ℕ, ◌+◌, ◌-◌, ◌^◌, ◌==◌, ◌≤◌, ◌<◌, arith, ◌≡◌, refl, sym, ap, ◌∙◌, leb, ltb, true, false, ◌&&◌,
  ◌⊎◌, Option, none, some, ◌>>=◌, List, [], ◌++◌, if◌then◌else◌, Bool-cases, inl, inr,
}
use kernel_utils.Bits.{replicate, bit_test}
use kernel_utils.Bits.Laws.{length-replicate}
use kernel_utils.Bits.Writes.{bit_test-left, bit_test-replicate, bit_test-take}
use kernel_utils.Unr.{
  add32, sub32, Unr, free_run, allocated_run, bitmap, len, Unrhdr, Place, whole, check_unrhdr,
  with_cached,
}
use kernel_utils.Unr.Alloc.{locate}
use kernel_utils.Unr.Free.{free_inside, free_located, open_first, is_nil, free_unrl, free_unr}
use kernel_utils.Unr.View.{all_items, numbers, items}
use kernel_utils.Unr.Tidy.{IsTidy}
use kernel_utils.Unr.Valid.{IsValid, check_unrhdr_lem, length-numbers, after_place}
use kernel_utils.Unr.Locate.{passed, IsLocated, locate_lem, tidy_around, bit_test-place}
use kernel_utils.Unr.Released.{with_cached-IsValid}

stops :
    (uh : Unrhdr) (k : ℕ) (before : List Unr) (up : Unr) (after : List Unr)
    → k < len up
    → bit_test (items up) k ≡ false
    → free_inside uh k (record { before = before; up = up; after = after }) ≡ none
unfolding free_inside
stops uh k before (free_run n) after h e = refl
stops uh k before (bitmap n ub) after h e =
    let clear : bit_test ub k ≡ false = sym (bit_test-take n k ub h) ∙ e in rw clear refl
stops uh k before (allocated_run n) after h e = ground (arith, e, bit_test-replicate n k true h)

module _ (uh : Unrhdr) (i : ℕ) (v : IsValid uh) (clear : bit_test (numbers uh) i ≡ false) where
  not_first : uh.first ≤ i
  not_first = elim (Bool-cases (ltb i uh.first)) [
    | inl t ↦
        let h : i < uh.first = ground arith in
        let set : bit_test (numbers uh) i ≡ true =
          bit_test-left (replicate uh.first true) (after_place uh.head uh.last) i
            (omega (arith, length-replicate uh.first true))
          ∙ bit_test-replicate uh.first i true h in
        ground (arith, set, clear)
    | inr t ↦ ground arith
  ]

  at_found :
      (r : ℕ × List Unr × Option Place)
      → IsLocated uh.head (i - uh.first) r
      → free_located uh r ≡ none
  at_found (k, before, none) l = refl
  at_found (k, before, some p) (e, inside, at) =
      let h = not_first in
      let t : IsTidy uh.memory (whole p) = rw e v.tidy in
      let (around, chunk) = tidy_around uh.memory p t in
      let xs = replicate uh.first true ++ (all_items (whole p) ++ replicate uh.last false) in
      let same : xs ≡ numbers uh =
        ap (λ us. replicate uh.first true ++ (all_items us ++ replicate uh.last false)) e in
      let index : uh.first + (passed p.before + k) ≡ i = omega arith in
      let moved : bit_test xs (uh.first + (passed p.before + k)) ≡ false = rw (same, index) clear in
      stops uh k p.before p.up p.after inside
        (sym (bit_test-place uh.first uh.last p k inside chunk) ∙ moved)

  found_free :
      i < 2 ^ 31
      → ((if (add32 i 1 == uh.first) && is_nil uh.head
            then check_unrhdr (record uh {
              last = add32 uh.last 1;
              first = sub32 uh.first 1;
              busy = sub32 uh.busy 1;
            })
            else (open_first uh i >>= λ o. free_located o (locate [] o.head (sub32 i o.first))))
          ≡ none)
  unfolding open_first
  found_free b =
      let h = not_first in
      let l = length-numbers uh in
      let r = v.range in
      let s = v.small in
      let not_last : (add32 i 1 == uh.first) ≡ false = ground arith in
      let not_below : ltb i uh.first ≡ false = ground arith in
      let less : sub32 i uh.first ≡ i - uh.first = omega arith in
      rw (not_last, not_below, open_first, less)
        (at_found (locate [] uh.head (i - uh.first))
          (locate_lem uh.head (i - uh.first) v.tidy.chunks (omega arith)))

free_unrl-none :
    (uh : Unrhdr) (item : ℕ)
    → IsValid uh
    → (item < uh.low) ⊎ (bit_test (numbers uh) (item - uh.low) ≡ false)
    → free_unrl uh item ≡ none
unfolding free_unrl
free_unrl-none uh item v (inl below) = let t : leb uh.low item ≡ false = ground arith in rw t refl
free_unrl-none uh item v (inr clear) = elim (Bool-cases (leb uh.low item)) [
  | inr t ↦ rw t refl
  | inl t ↦ elim (Bool-cases (leb item uh.high)) [
    | inr u ↦ rw (t, u) refl
    | inl u ↦
        let s = v.small in
        let index : sub32 item uh.low ≡ item - uh.low = ground (arith, t, u) in
        rw (t, u, check_unrhdr_lem uh v, index)
          (found_free uh (item - uh.low) v clear (ground (arith, t, u)))
  ]
]

-- On a valid header, `free_unr` of a number that is not allocated, or is below the range, ends the
-- program: an assertion fails, or the search ends at a null pointer. It never returns.
pub free_unr_fault :
    (uh : Unrhdr) (item : ℕ)
    → IsValid uh
    → (item < uh.low) ⊎ (bit_test (numbers uh) (item - uh.low) ≡ false)
    → free_unr uh item ≡ none
unfolding free_unr
free_unr_fault uh item v h =
    rw (free_unrl-none (with_cached uh) item (with_cached-IsValid uh v) h) refl
