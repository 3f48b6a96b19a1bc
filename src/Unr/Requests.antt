-- ===== src/Unr/Requests.antt =====
-- `alloc_unr_specific` of unr.c on a valid header.
use kernel_utils.Base.{
  ℕ, ◌+◌, ◌-◌, ◌==◌, ◌≤◌, ◌<◌, arith, ◌≡◌, refl, ltb, Bool, true, false, ◌||◌, ◌⊎◌, some, Returns,
  Returns->>=, List, [], ◌∷◌, length, Bool-cases, inl, inr,
}
use kernel_utils.Bits.{write, bit_test}
use kernel_utils.Unr.{add32, sub32, Unr, Unrhdr, uncached, with_cached}
use kernel_utils.Unr.Alloc.{alloc_unr_specificl, alloc_unr_specific}
use kernel_utils.Unr.View.{numbers}
use kernel_utils.Unr.Valid.{IsValid, IsNow}
use kernel_utils.Unr.Claimed.{not_first, located}
use kernel_utils.Unr.Released.{with_cached-IsValid}
use kernel_utils.Unr.Claims.{Claims}
use kernel_utils.Unr.Specific.{split_first, split_rest, split_wrong}

-- With chunks in the list, without numbers in `first`, or for the first number after these.
abbrev pub KeepsLast : Unrhdr → ℕ → Type 0
KeepsLast uh item = uh.head ≡ [] → (uh.first ≡ 0) ⊎ (item ≡ uh.low + uh.first)

above_first :
    (uh : Unrhdr) (item : ℕ)
    → IsValid uh
    → uh.low ≤ item
    → item ≤ uh.high
    → uh.first ≤ item - uh.low
    → ltb item (add32 uh.low uh.first) || ltb uh.high item ≡ false
above_first uh item v above below h =
    let s = v.small in
    let e : ltb item (add32 uh.low uh.first) ≡ false = ground arith in
    let f : ltb uh.high item ≡ false = ground arith in rw (e, f) refl

module _ (uh : Unrhdr) (item : ℕ) where
  abbrev on_list : List Unr → Unrhdr
  on_list us = record uh { head = us }

  specificl-Claims :
      (us : List Unr)
      → IsValid (on_list us)
      → uh.memory.cached ≡ 2
      → uh.low ≤ item
      → item ≤ uh.high
      → bit_test (numbers (on_list us)) (item - uh.low) ≡ false
      → KeepsLast (on_list us) item
      → Returns
          (alloc_unr_specificl (on_list us) item)
          (Claims (write (numbers (on_list us)) (item - uh.low) true) (on_list us) item)
  unfolding alloc_unr_specificl
  specificl-Claims [] v c above below clear k =
      let h = not_first (on_list []) item v above below clear (omega arith) in
      rw (above_first (on_list []) item v above below h) (elim (k refl) [
        | inl zero_first ↦ elim (Bool-cases (item == uh.low)) [
          | inl t ↦
              let at : item ≡ uh.low + uh.first = ground arith in
              split_first uh.low uh.high uh.busy uh.first uh.last uh.memory item v at below
          | inr t ↦
              let later : uh.low < item = ground arith in
              split_rest uh.low uh.high uh.busy uh.first uh.last uh.memory item v c zero_first later
                below clear
        ]
        | inr at ↦ split_first uh.low uh.high uh.busy uh.first uh.last uh.memory item v at below
      ])
  specificl-Claims (u ∷ us) v c above below clear k =
      let cached : 2 ≤ uh.memory.cached = omega arith in
      let h = not_first (on_list (u ∷ us)) item v above below clear cached in
      let s = v.small in
      let index : sub32 (sub32 item uh.low) uh.first ≡ item - uh.low - uh.first = omega arith in
      rw (above_first (on_list (u ∷ us)) item v above below h, index)
        (located (on_list (u ∷ us)) item v above below clear cached)

  specificl_wrong :
      (us : List Unr)
      → us ≡ []
      → IsValid (on_list us)
      → uh.memory.cached ≡ 2
      → uh.low + uh.first < item
      → item ≤ uh.high
      → Returns (alloc_unr_specificl (on_list us) item) (λ r.
        (r.0 ≡ some item)
        × (r.1.low ≡ uh.low)
        × (r.1.high ≡ uh.high)
        × (length (numbers r.1) ≡ length (numbers (on_list us)) + uh.first))
  unfolding alloc_unr_specificl
  specificl_wrong [] e v c above below =
      rw (above_first (on_list []) item v (omega arith) below (omega arith))
        (split_wrong uh.low uh.high uh.busy uh.first uh.last uh.memory item v c above below)
  specificl_wrong (u ∷ us) e v c above below = absurd (cons_is_nil e)
    where
      cons_is_nil : u ∷ us ≡ [] → ⊥
      cons_is_nil e = ground (arith, e)

pub uncached-IsNow : (xs : List Bool) (uh r : Unrhdr) → IsNow xs uh r → IsNow xs uh (uncached r)
uncached-IsNow xs uh r n =
    let v = n.valid in
    record {
      valid = record {
        tidy = record { chunks = v.tidy.chunks; apart = v.tidy.apart; counted = v.tidy.counted };
        range = v.range;
        busy = v.busy;
        ordered = v.ordered;
        small = v.small;
      };
      same = n.same;
      low = n.low;
      high = n.high;
    }

-- On a valid header, `alloc_unr_specific` of a free number of the range does not fault. It returns
-- the number and allocates it, nothing else changes, and the header stays valid, on these
-- conditions: the list has a chunk, or no number is counted in `first`, or the number is the first
-- one after these.
pub alloc_unr_specific-Claims :
    (uh : Unrhdr) (item : ℕ)
    → IsValid uh
    → uh.low ≤ item
    → item ≤ uh.high
    → bit_test (numbers uh) (item - uh.low) ≡ false
    → KeepsLast uh item
    → Returns
        (alloc_unr_specific uh item)
        (Claims (write (numbers uh) (item - uh.low) true) uh item)
unfolding alloc_unr_specific
alloc_unr_specific-Claims uh item v above below clear k =
    let xs = write (numbers uh) (item - uh.low) true in
    Returns->>= (alloc_unr_specificl (with_cached uh) item) _ (Claims xs uh item)
      (Claims xs uh item)
      (specificl-Claims (with_cached uh) item uh.head (with_cached-IsValid uh v) refl above below
        clear k)
      (λ r h. (h.0, uncached-IsNow xs uh r.1 h.1))

-- On a valid header without chunks, `alloc_unr_specific` of a number of the range beyond the first
-- free one returns it without a fault, but `last` counts too many afterwards: the header has as
-- many numbers too many as `first` counts, with the bounds as they were.
pub alloc_unr_specific_wrong :
    (uh : Unrhdr) (item : ℕ)
    → IsValid uh
    → uh.head ≡ []
    → uh.low + uh.first < item
    → item ≤ uh.high
    → Returns (alloc_unr_specific uh item) (λ r.
      (r.0 ≡ some item)
      × (r.1.low ≡ uh.low)
      × (r.1.high ≡ uh.high)
      × (length (numbers r.1) ≡ length (numbers uh) + uh.first))
unfolding alloc_unr_specific
alloc_unr_specific_wrong uh item v e above below =
    Returns->>= (alloc_unr_specificl (with_cached uh) item) _ _ _
      (specificl_wrong (with_cached uh) item uh.head e (with_cached-IsValid uh v) refl above below)
      (λ r h. h)
