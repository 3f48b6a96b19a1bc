-- ===== src/Unr/Released.antt =====
-- `free_unr` of unr.c on an allocated number of a valid header.
use kernel_utils.Base.{
  ℕ, ◌-◌, ◌==◌, ◌≤◌, ◌<◌, arith, ◌≡◌, refl, leb, ltb, Bool, true, false, ◌&&◌, ◌>>=◌, Returns,
  Returns->>=, Returns_passed, ==_iff, List, [], length, if◌then◌else◌, Bool-cases, inl, inr,
}
use kernel_utils.Bits.{write, bit_test}
use kernel_utils.Unr.{add32, sub32, Unrhdr, check_unrhdr, clean_unrhdrl, uncached, with_cached}
use kernel_utils.Unr.Alloc.{locate}
use kernel_utils.Unr.Free.{free_located, open_first, is_nil, free_unrl, free_unr}
use kernel_utils.Unr.View.{numbers}
use kernel_utils.Unr.Valid.{IsValid, IsNow, check_unrhdr_lem, length-numbers}
use kernel_utils.Unr.Releases.{set_inside, is_nil_lem, located}
use kernel_utils.Unr.Opens.{opened, split}

pub both : (a b : Bool) → a && b ≡ true → (a ≡ true) × (b ≡ true)
both true true e = (refl, refl)
both true false e = ground arith
both false b e = ground arith

free_unrl-IsNow :
    (uh : Unrhdr) (item : ℕ)
    → IsValid uh
    → uh.memory.cached ≡ 2
    → uh.low ≤ item
    → bit_test (numbers uh) (item - uh.low) ≡ true
    → Returns (free_unrl uh item) (IsNow (write (numbers uh) (item - uh.low) false) uh)
unfolding free_unrl
free_unrl-IsNow uh item v c low set =
    let i = item - uh.low in
    let b = set_inside (numbers uh) i set in
    let r = v.range in
    let s = v.small in
    let l = length-numbers uh in
    let above : leb uh.low item ≡ true = ground arith in
    let below : leb item uh.high ≡ true = ground arith in
    let index : sub32 item uh.low ≡ i = omega arith in
    rw (above, below)
      (Returns_passed (check_unrhdr uh) uh _ (IsNow (write (numbers uh) i false) uh)
        (check_unrhdr_lem uh v) (rw index (checked i index b set)))
  where
    checked :
        (i : ℕ)
        → sub32 item uh.low ≡ i
        → i < length (numbers uh)
        → (set : bit_test (numbers uh) i ≡ true)
        → Returns
            (if (add32 i 1 == uh.first) && is_nil uh.head
              then check_unrhdr (record uh {
                last = add32 uh.last 1;
                first = sub32 uh.first 1;
                busy = sub32 uh.busy 1;
              })
              else (open_first uh i >>= λ o. free_located o (locate [] o.head (sub32 i o.first))))
            (IsNow (write (numbers uh) i false) uh)
    checked i e b set =
        let r = v.range in
        let s = v.small in
        let l = length-numbers uh in
        elim (Bool-cases ((add32 i 1 == uh.first) && is_nil uh.head)) [
          | inl t ↦
              let (at, nil) = both (add32 i 1 == uh.first) (is_nil uh.head) t in
              rw t
                (split uh i v set c ((==_iff (add32 i 1) uh.first).0 at) (is_nil_lem uh.head nil))
          | inr t ↦ elim (Bool-cases (ltb i uh.first)) [
            | inl u ↦ rw t (opened uh i v set c (ground arith))
            | inr u ↦
                let less : sub32 i uh.first ≡ i - uh.first = ground (arith, u) in
                rw (t, u, open_first, less) (located uh i v set c (ground arith))
          ]
        ]

pub with_cached-IsValid : (uh : Unrhdr) → IsValid uh → IsValid (with_cached uh)
with_cached-IsValid uh v = record {
  tidy = record { chunks = v.tidy.chunks; apart = v.tidy.apart; counted = v.tidy.counted };
  range = v.range;
  busy = v.busy;
  ordered = v.ordered;
  small = v.small;
}

pub emptied-IsNow :
    (xs : List Bool) (uh r : Unrhdr) → IsNow xs uh r → IsNow xs uh (uncached (clean_unrhdrl r))
unfolding clean_unrhdrl
emptied-IsNow xs uh r n =
    let v = n.valid in
    record {
      valid = record {
        tidy = record { chunks = v.tidy.chunks; apart = v.tidy.apart; counted = v.tidy.counted };
        range = v.range;
        busy = v.busy;
        ordered = v.ordered;
        small = v.small;
      };
      same = n.same;
      low = n.low;
      high = n.high;
    }

-- On a valid header `free_unr` of an allocated number does not fault: no assertion of it fails, it
-- has memory enough, and the search finds the number. Afterwards that number is free, nothing else
-- has changed, and the header is valid.
pub free_unr-IsNow :
    (uh : Unrhdr) (item : ℕ)
    → IsValid uh
    → uh.low ≤ item
    → bit_test (numbers uh) (item - uh.low) ≡ true
    → Returns (free_unr uh item) (IsNow (write (numbers uh) (item - uh.low) false) uh)
unfolding free_unr
free_unr-IsNow uh item v low set =
    let xs = write (numbers uh) (item - uh.low) false in
    Returns->>= (free_unrl (with_cached uh) item) _ (IsNow xs uh) (IsNow xs uh)
      (free_unrl-IsNow (with_cached uh) item (with_cached-IsValid uh v) refl low set)
      (λ r n. emptied-IsNow xs uh r n)
