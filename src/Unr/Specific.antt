-- ===== src/Unr/Specific.antt =====
-- `alloc_unr_specific` of unr.c where the list is empty, and all of it.
use kernel_utils.Base.{
  ℕ, ◌+◌, ◌-◌, ◌==◌, ◌≤◌, ◌<◌, arith, ◌≡◌, refl, sym, ap, ◌∙◌, true, false, some, Returns,
  Returns_passed, ==_iff, [], ◌∷◌, ◌++◌, append_assoc, length, length-append,
}
use kernel_utils.Bits.{replicate, write, bit_test}
use kernel_utils.Bits.Laws.{length-replicate}
use kernel_utils.Bits.Writes.{write-replicate, write-right}
use kernel_utils.Unr.{
  add32, sub32, free_run, allocated_run, Memory, Unrhdr, check_from, check_unrhdr,
}
use kernel_utils.Unr.Alloc.{alloc_split}
use kernel_utils.Unr.View.{numbers}
use kernel_utils.Unr.Valid.{IsValid, IsNow, check_unrhdr_lem, length-numbers, count-numbers}
use kernel_utils.Unr.Allocates.{split-IsNow}
use kernel_utils.Unr.Claimed.{ready}
use kernel_utils.Unr.Claims.{Claims, taken_one}

module _ (low high busy first last : ℕ) (m : Memory) (item : ℕ) where
  abbrev pub empty : Unrhdr
  empty = record {
    head = [];
    low = low;
    high = high;
    busy = busy;
    first = first;
    last = last;
    memory = m;
  }

  abbrev ideal : Unrhdr
  ideal = record {
    head = [];
    low = low;
    high = high;
    busy = add32 busy 1;
    first = add32 first 1;
    last = sub32 last 1;
    memory = m;
  }

  -- The list that `alloc_split` makes of the empty one.
  abbrev made : ℕ → Memory → Unrhdr
  made i m' = record {
    head = free_run i ∷ allocated_run 1 ∷ [];
    low = low;
    high = high;
    busy = add32 busy 1;
    first = first;
    last = sub32 (sub32 high low) i;
    memory = m';
  }

  pub split_first :
      (v : IsValid empty)
      → item ≡ low + first
      → item ≤ high
      → Returns
          (alloc_split empty item)
          (Claims (write (numbers empty) (item - low) true) empty item)
  unfolding alloc_split
  split_first v e below =
      let l = length-numbers empty in
      let r = v.range in
      let s = v.small in
      let (clear, now) = split-IsNow low high busy first last m (omega arith) v in
      let at : sub32 item low ≡ first = omega arith in
      let same : (first == first) ≡ true = ground arith in
      let index : item - low ≡ first + 0 = omega arith in
      rw (at, same, index)
        (Returns_passed (check_unrhdr ideal) ideal (λ x. some (some item, x))
          (Claims (write (numbers empty) (first + 0) true) empty item)
          (check_unrhdr_lem ideal now.valid) (refl, now))

  -- The memory after two chunks have been taken.
  abbrev twice : Memory
  twice = record m { alloc = add32 (add32 m.alloc 1) 1; cached = m.cached - 1 - 1 }

  made_checks :
      (i : ℕ) → IsValid empty → first ≤ high → check_unrhdr (made i twice) ≡ some (made i twice)
  unfolding check_unrhdr check_from
  made_checks i v h =
      let y = v.busy in
      let s = v.small in
      let c = count-numbers empty in
      let z = v.tidy.counted in
      let e : (add32 first 1 == add32 busy 1) ≡ true = (==_iff _ _).1 (omega arith) in
      let f : (add32 (add32 0 1) 1 == add32 (add32 m.alloc 1) 1) ≡ true =
        (==_iff _ _).1 (omega arith) in
      rw (e, f) refl

  -- A free run up to the number, and a run of it alone.
  split_list :
      IsValid empty
      → m.cached ≡ 2
      → low + first < item
      → item ≤ high
      → alloc_split empty item ≡ some (some item, made (item - low - first) twice)
  unfolding alloc_split
  split_list v cached above below =
      let s = v.small in
      let other : (sub32 item low == first) ≡ false = ground arith in
      let index : sub32 (sub32 item low) first ≡ item - low - first = omega arith in
      let there : (m.cached == 0) ≡ false = ground arith in
      let there' : (m.cached - 1 == 0) ≡ false = ground arith in
      rw
        (
          other,
          index,
          taken_one m there,
          taken_one (record m { alloc = add32 m.alloc 1; cached = m.cached - 1 }) there',
          made_checks (item - low - first) v (omega arith),
        )
        refl

  -- What `last` ought to be, in the numbers after the write.
  made_numbers :
      IsValid empty
      → low + first < item
      → item ≤ high
      → replicate first true
          ++ ((replicate (item - low - first) false ++ (true ∷ []))
              ++ replicate (last - (1 + (item - low - first))) false)
        ≡ write (numbers empty) (item - low) true
  made_numbers v above below =
      let i = item - low - first in
      let l = length-numbers empty in
      let r = v.range in
      let index : item - low ≡ length (replicate first true) + i =
        omega (arith, length-replicate first true) in
      ap (λ xs. replicate first true ++ xs)
        (append_assoc (replicate i false) (true ∷ []) (replicate (last - (1 + i)) false)
          ∙ sym (write-replicate last i false true (omega arith)))
      ∙ sym (write-right (replicate first true) (replicate last false) i true)
      ∙ ap (λ k. write (numbers empty) k true) (sym index)

  -- Without numbers in `first`, the header is right.
  pub split_rest :
      (v : IsValid empty)
      → m.cached ≡ 2
      → first ≡ 0
      → low < item
      → item ≤ high
      → bit_test (numbers empty) (item - low) ≡ false
      → Returns
          (alloc_split empty item)
          (Claims (write (numbers empty) (item - low) true) empty item)
  split_rest v cached zero_first above below clear =
      let i = item - low - first in
      let r = v.range in
      let s = v.small in
      let l = length-numbers empty in
      let ready_for = ready empty item v (omega arith) below clear (omega arith) in
      let z = v.tidy.counted in
      let rest : sub32 (sub32 high low) i ≡ last - (1 + i) = omega arith in
      let same : numbers (made i twice) ≡ write (numbers empty) (item - low) true =
        rw rest (made_numbers v (omega arith) below) in
      let now : IsNow (write (numbers empty) (item - low) true) empty (made i twice) = record {
        valid = record {
          tidy = record {
            chunks = (omega arith, (omega arith, tt));
            apart = (tt, (tt, tt));
            counted = omega arith;
          };
          range = rw same ready_for.range;
          busy = rw same ready_for.busy;
          ordered = v.ordered;
          small = v.small;
        };
        same = same;
        low = refl;
        high = refl;
      } in
      rw (split_list v cached (omega arith) below) (refl, now)

  -- With numbers in `first`, `last` counts so many too much.
  pub split_wrong :
      (v : IsValid empty)
      → m.cached ≡ 2
      → low + first < item
      → item ≤ high
      → Returns (alloc_split empty item) (λ r.
        (r.0 ≡ some item)
        × (r.1.low ≡ low)
        × (r.1.high ≡ high)
        × (length (numbers r.1) ≡ length (numbers empty) + first))
  split_wrong v cached above below =
      let i = item - low - first in
      let s = v.small in
      let r = v.range in
      let l = length-numbers (made i twice) in
      let k = length-append (replicate i false) (true ∷ []) in
      let j = length-replicate i false in
      let rest : sub32 (sub32 high low) i ≡ high - low - i = omega arith in
      rw (split_list v cached above below) (refl, refl, refl, omega arith)
