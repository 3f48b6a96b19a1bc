-- ===== src/Unr/Opens.antt =====
-- `free_unr` of unr.c on a number below `first`.
use kernel_utils.Base.{
  ℕ, suc, ◌+◌, ◌-◌, ◌==◌, ◌<◌, arith, ◌≡◌, refl, sym, ap, ◌∙◌, ltb, Bool, true, false, ◌>>=◌,
  Returns, List, [], ◌∷◌, ◌++◌, append_assoc, append-nil,
}
use kernel_utils.Bits.{replicate, write, bit_test}
use kernel_utils.Bits.Laws.{length-replicate}
use kernel_utils.Bits.Writes.{bit_test-replicate, write-replicate, write-left}
use kernel_utils.Unr.{add32, sub32, allocated_run, Memory, new_unr, Unrhdr, check_unrhdr}
use kernel_utils.Unr.Alloc.{locate}
use kernel_utils.Unr.Free.{free_located, open_first}
use kernel_utils.Unr.View.{all_items, numbers, free, allocated, IsBetween-weaken}
use kernel_utils.Unr.Settle.{IsAround}
use kernel_utils.Unr.Valid.{IsValid, IsNow, check_unrhdr_lem, length-numbers, after_place}
use kernel_utils.Unr.Releases.{
  counted_down, free_inside-IsNow, set_inside, after_free, ready, little_memory,
}

module _ (uh : Unrhdr) (i : ℕ) (v : IsValid uh) (set : bit_test (numbers uh) i ≡ true)
    (cached : uh.memory.cached ≡ 2) where
  abbrev pub freed : List Bool
  freed = after_free uh i v set cached

  -- What the write does to the numbers in `first`.
  freed_lem :
      i < uh.first
      → replicate i true
          ++ ((false ∷ replicate (uh.first - (1 + i)) true) ++ after_place uh.head uh.last)
        ≡ freed
  freed_lem h =
      sym (
        append_assoc (replicate i true) (false ∷ replicate (uh.first - (1 + i)) true)
          (after_place uh.head uh.last))
      ∙ ap (λ xs. xs ++ after_place uh.head uh.last) (sym (write-replicate uh.first i true false h))
      ∙ sym (
          write-left (replicate uh.first true) (after_place uh.head uh.last) i false
            (omega (arith, length-replicate uh.first true)))

  -- A run is opened in `first`, from the number on.
  pub opened :
      i < uh.first
      → Returns
          (open_first uh i >>= λ o. free_located o (locate [] o.head (sub32 i o.first)))
          (IsNow freed uh)
  unfolding open_first new_unr locate counted_down
  opened h =
      let b = set_inside (numbers uh) i set in
      let l = length-numbers uh in
      let r = v.range in
      let s = v.small in
      let m = little_memory uh i v set cached in
      let t : ltb i uh.first ≡ true = ground arith in
      let there : (uh.memory.cached == 0) ≡ false = ground arith in
      let n : sub32 uh.first i ≡ uh.first - i = omega arith in
      let left : sub32 uh.first (uh.first - i) ≡ i = omega arith in
      let none_left : sub32 i i ≡ 0 = omega arith in
      let positive : ltb 0 (uh.first - i) ≡ true = ground arith in
      let ready_for = ready uh i v set cached in
      let memory : Memory = record (uh.memory) {
        alloc = add32 uh.memory.alloc 1;
        cached = uh.memory.cached - 1;
      } in
      let o : Unrhdr = record uh {
        head = allocated_run (uh.first - i) ∷ uh.head;
        first = i;
        memory = memory;
      } in
      let around : IsAround
          (record { before = []; up = allocated_run (uh.first - i); after = uh.head }) =
        record {
          before = tt;
          after = v.tidy.chunks;
          behind = tt;
          ahead = IsBetween-weaken allocated free uh.head v.tidy.apart;
        } in
      let rest : uh.first - i - (1 + 0) ≡ uh.first - (1 + i) = omega arith in
      let cut : write (replicate (uh.first - i) true) 0 false
          ≡ false ∷ replicate (uh.first - (1 + i)) true =
        write-replicate (uh.first - i) 0 true false (omega arith)
        ∙ ap (λ k. false ∷ replicate k true) rest in
      rw (t, there, n, left, none_left, positive)
        (free_inside-IsNow o freed 0 [] (allocated_run (uh.first - i)) uh.head
          (record {
            range = ready_for.range;
            busy = ready_for.busy;
            ordered = ready_for.ordered;
            small = ready_for.small;
          })
          (record {
            around = around;
            chunk = omega arith;
            inside = omega arith;
            set = bit_test-replicate (uh.first - i) 0 true (omega arith);
            ahead = v.tidy.apart;
            apart = (λ p. absurd (omega arith));
            counted = omega (arith, v.tidy.counted);
            little = omega arith;
            cached = omega arith;
            written =
                ap
                  (λ xs.
                    xs
                    ++ (write (replicate (uh.first - i) true) 0 false
                        ++ after_place uh.head uh.last))
                  (append-nil (replicate i true))
                ∙ ap (λ xs. replicate i true ++ (xs ++ after_place uh.head uh.last)) cut
                ∙ freed_lem h;
          }))

  -- The list is empty, and the number is the last one of `first`.
  pub split :
      add32 i 1 ≡ uh.first
      → uh.head ≡ []
      → Returns
          (check_unrhdr (record uh {
            last = add32 uh.last 1;
            first = sub32 uh.first 1;
            busy = sub32 uh.busy 1;
          }))
          (IsNow freed uh)
  unfolding counted_down
  split e nil =
      let b = set_inside (numbers uh) i set in
      let l = length-numbers uh in
      let r = v.range in
      let s = v.small in
      let ready_for = ready uh i v set cached in
      let first' : sub32 uh.first 1 ≡ i = omega arith in
      let last' : add32 uh.last 1 ≡ suc uh.last = omega arith in
      let none_left : uh.first - (1 + i) ≡ 0 = omega arith in
      let same : replicate (sub32 uh.first 1) true
            ++ (all_items uh.head ++ replicate (add32 uh.last 1) false)
          ≡ freed =
        rw (first', last')
          (ap (λ us. replicate i true ++ (all_items us ++ replicate (suc uh.last) false)) nil
            ∙ ap (λ us. replicate i true ++ ((false ∷ []) ++ after_place us uh.last)) (sym nil)
            ∙ ap
                (λ k.
                  replicate i true ++ ((false ∷ replicate k true) ++ after_place uh.head uh.last))
                (sym none_left)
            ∙ freed_lem (omega arith)) in
      let uh' : Unrhdr = record uh {
        last = add32 uh.last 1;
        first = sub32 uh.first 1;
        busy = sub32 uh.busy 1;
      } in
      let w : IsValid uh' = record {
        tidy = v.tidy;
        range = rw same ready_for.range;
        busy = rw same ready_for.busy;
        ordered = v.ordered;
        small = v.small;
      } in
      let now : IsNow freed uh uh' = record { valid = w; same = same; low = refl; high = refl } in
      rw (check_unrhdr_lem uh' w) now
