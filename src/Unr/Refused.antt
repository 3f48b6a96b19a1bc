-- ===== src/Unr/Refused.antt =====
-- `alloc_unr_specific` of unr.c on a number that it cannot hand out.
use kernel_utils.Base.{
  ℕ, ◌+◌, ◌-◌, ◌^◌, ◌≤◌, ◌<◌, arith, ◌≡◌, refl, sym, ap, ◌∙◌, ltb, Bool, true, false, ◌||◌, ◌⊎◌,
  Option, none, some, Returns, Returns_passed, List, [], ◌∷◌, ◌++◌, Bool-cases, inl, inr,
}
use kernel_utils.Bits.{replicate, bit_test}
use kernel_utils.Bits.Writes.{bit_test-replicate, bit_test-take}
use kernel_utils.Unr.{
  add32, sub32, Unr, free_run, allocated_run, bitmap, len, Unrhdr, Place, whole, with_cached,
}
use kernel_utils.Unr.Alloc.{
  locate, alloc_inside, alloc_located, alloc_unr_specificl, alloc_unr_specific,
}
use kernel_utils.Unr.View.{items, all_items, numbers}
use kernel_utils.Unr.Tidy.{IsTidy}
use kernel_utils.Unr.Valid.{IsValid, IsNow, length-numbers}
use kernel_utils.Unr.Locate.{passed, IsLocated, locate_lem, tidy_around, bit_test-place}
use kernel_utils.Unr.Released.{with_cached-IsValid}
use kernel_utils.Unr.Releases.{beyond}
use kernel_utils.Unr.Requests.{uncached-IsNow}

is_taken :
    (uh : Unrhdr) (item k : ℕ) (before : List Unr) (up : Unr) (after : List Unr)
    → k < len up
    → bit_test (items up) k ≡ true
    → alloc_inside uh item k (record { before = before; up = up; after = after }) ≡ some (none, uh)
unfolding alloc_inside
is_taken uh item k before (free_run n) after h e = ground (arith, e, bit_test-replicate n k false h)
is_taken uh item k before (allocated_run n) after h e = refl
is_taken uh item k before (bitmap n ub) after h e =
    let set : bit_test ub k ≡ true = sym (bit_test-take n k ub h) ∙ e in rw set refl

module _ (uh : Unrhdr) (item : ℕ) where
  abbrev on_list : List Unr → Unrhdr
  on_list us = record uh { head = us }

  at_found :
      (us : List Unr) (r : ℕ × List Unr × Option Place)
      → IsValid (on_list us)
      → uh.memory.cached ≡ 2
      → bit_test (numbers (on_list us)) (item - uh.low) ≡ true
      → uh.first ≤ item - uh.low
      → IsLocated us (item - uh.low - uh.first) r
      → alloc_located (on_list us) item r ≡ some (none, on_list us)
  at_found us (k, before, none) v c set h (e, at) =
      absurd (beyond (on_list us) (item - uh.low) v set c k at h)
  at_found us (k, before, some p) v c set h (e, inside, at) =
      let t : IsTidy uh.memory (whole p) = rw e v.tidy in
      let (around, chunk) = tidy_around uh.memory p t in
      let xs = replicate uh.first true ++ (all_items (whole p) ++ replicate uh.last false) in
      let same : xs ≡ numbers (on_list us) =
        ap (λ vs. replicate uh.first true ++ (all_items vs ++ replicate uh.last false)) e in
      let index : uh.first + (passed p.before + k) ≡ item - uh.low = omega arith in
      let moved : bit_test xs (uh.first + (passed p.before + k)) ≡ true = rw (same, index) set in
      is_taken (on_list us) item k p.before p.up p.after inside
        (sym (bit_test-place uh.first uh.last p k inside chunk) ∙ moved)

  guarded :
      (us : List Unr)
      → ltb item (add32 uh.low uh.first) || ltb uh.high item ≡ true
      → alloc_unr_specificl (on_list us) item ≡ some (none, on_list us)
  unfolding alloc_unr_specificl
  guarded us e = rw e refl

  taken :
      (us : List Unr)
      → IsValid (on_list us)
      → uh.memory.cached ≡ 2
      → ltb item (add32 uh.low uh.first) || ltb uh.high item ≡ false
      → bit_test (numbers (on_list us)) (item - uh.low) ≡ true
      → uh.first ≤ item - uh.low
      → sub32 (sub32 item uh.low) uh.first ≡ item - uh.low - uh.first
      → item - uh.low - uh.first < 2 ^ 32
      → alloc_unr_specificl (on_list us) item ≡ some (none, on_list us)
  unfolding alloc_unr_specificl
  taken [] v c e set h index b =
      absurd
        (beyond (on_list []) (item - uh.low) v set c (item - uh.low - uh.first) (omega arith) h)
  taken (u ∷ us) v c e set h index b =
      rw (e, index)
        (at_found (u ∷ us) (locate [] (u ∷ us) (item - uh.low - uh.first)) v c set h
          (locate_lem (u ∷ us) (item - uh.low - uh.first) v.tidy.chunks b))

  refused :
      (us : List Unr)
      → IsValid (on_list us)
      → uh.memory.cached ≡ 2
      → (item < uh.low)
        ⊎ ((uh.high < item) ⊎ (bit_test (numbers (on_list us)) (item - uh.low) ≡ true))
      → alloc_unr_specificl (on_list us) item ≡ some (none, on_list us)
  refused us v c why = elim (Bool-cases (ltb item (add32 uh.low uh.first) || ltb uh.high item)) [
    | inl e ↦ guarded us e
    | inr e ↦
        let (a, b) = neither (ltb item (add32 uh.low uh.first)) (ltb uh.high item) e in
        let s = v.small in
        let r = v.range in
        let o = v.ordered in
        let l = length-numbers (on_list us) in
        let above : uh.low + uh.first ≤ item = ground arith in
        let below : item ≤ uh.high = ground arith in
        elim why [
          | inl low ↦ absurd (omega arith)
          | inr (inl high) ↦ absurd (omega arith)
          | inr (inr set) ↦ taken us v c e set (omega arith) (omega arith) (omega arith)
        ]
  ]
    where
      neither : (x y : Bool) → x || y ≡ false → (x ≡ false) × (y ≡ false)
      neither false false e = (refl, refl)
      neither false true e = ground (arith, e)
      neither true y e = ground (arith, e)

-- On a valid header, `alloc_unr_specific` of a number that is allocated, or not in the range, does
-- not fault. It returns -1 and changes no number; the header stays valid.
pub alloc_unr_specific_refused :
    (uh : Unrhdr) (item : ℕ)
    → IsValid uh
    → (item < uh.low) ⊎ ((uh.high < item) ⊎ (bit_test (numbers uh) (item - uh.low) ≡ true))
    → Returns (alloc_unr_specific uh item) (λ r. (r.0 ≡ none) × IsNow (numbers uh) uh r.1)
unfolding alloc_unr_specific
alloc_unr_specific_refused uh item v why =
    let w = with_cached-IsValid uh v in
    Returns_passed (alloc_unr_specificl (with_cached uh) item) (none, with_cached uh) _ _
      (refused (with_cached uh) item uh.head w refl why)
      (
        refl,
        uncached-IsNow (numbers uh) uh (with_cached uh)
            (record { valid = w; same = refl; low = refl; high = refl }),
      )
