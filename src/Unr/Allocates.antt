-- ===== src/Unr/Allocates.antt =====
-- `alloc_unr` of unr.c on the numbers of a valid header.
use kernel_utils.Base.{
  ℕ, ◌+◌, ◌-◌, ◌≤◌, arith, ◌≡◌, refl, sym, ap, ◌∙◌, ltb, Bool, true, false, Option, none, some,
  Option-cases, Returns, Returns->>=, Returns_passed, Bool-cases, List, [], ◌∷◌, ◌++◌, append_assoc,
  append-nil, length, inl, inr,
}
use kernel_utils.Bits.{replicate, take, count, first_of, write}
use kernel_utils.Bits.Laws.{
  length-replicate, length-take, length-write, count_bound, none_clear, replicate_snoc,
  replicate_cons, count-replicate-true,
}
use kernel_utils.Bits.Writes.{
  write-left, write-right, take-write_inside, count-write-true, first_clear_test,
  first_of-replicate, first_of-full, first_of-left,
}
use kernel_utils.Unr.{
  add32, sub32, Unr, free_run, allocated_run, bitmap, Memory, Unrhdr, Place, check_unrhdr,
}
use kernel_utils.Unr.Collapse.{collapse_unr}
use kernel_utils.Unr.Alloc.{alloc_first, alloc_unrl}
use kernel_utils.Unr.View.{items, all_items, numbers, pieces_of, free, kind, IsBetween-weaken}
use kernel_utils.Unr.Tidy.{IsTidy}
use kernel_utils.Unr.Settle.{IsLoose, IsAround}
use kernel_utils.Unr.Valid.{
  IsValid, check_unrhdr_lem, length-numbers, IsNow, before_place, after_place, collapse_unr-IsNow,
}

-- The number in place `k` is handed out, or none is.
abbrev pub Serves : List Bool → Unrhdr → Option ℕ → Option ℕ × Unrhdr → Type 0
Serves xs uh none r = (r.0 ≡ none) × IsNow xs uh r.1
Serves xs uh (some k) r = (r.0 ≡ some (uh.low + k)) × IsNow (write xs k true) uh r.1

-- A chunk that is changed stays in a tidy list's place at its front.
front :
    (m : Memory) (u v : Unr) (us : List Unr)
    → IsTidy m (u ∷ us)
    → IsAround (record { before = []; up = v; after = us })
front m u v us t = record {
  before = tt;
  after = t.chunks.1;
  behind = tt;
  ahead = IsBetween-weaken (kind u) free us t.apart.1;
}

module _ (low high busy first last : ℕ) (m : Memory) where
  abbrev header : List Unr → Unrhdr
  header us = record {
    head = us;
    low = low;
    high = high;
    busy = busy;
    first = first;
    last = last;
    memory = m;
  }

  -- What was written, where the header has been counted up.
  counts :
      (us : List Unr) (k : ℕ)
      → IsValid (header us)
      → first_of false (numbers (header us)) ≡ some k
      → let xs = write (numbers (header us)) k true in
        (length xs + low ≡ high + 1) × (count xs ≡ add32 busy 1) × (low + k ≤ high)
  counts us k v e =
      let xs = numbers (header us) in
      let (t, b) = first_clear_test xs k e in
      let w = count-write-true xs k b t in
      let r = v.range in
      let y = v.busy in let s = v.small in omega (arith, length-write xs k true, count_bound xs)

  abbrev ServesFirst : List Unr → Option ℕ × Unrhdr → Type 0
  ServesFirst us = Serves (numbers (header us)) (header us) (first_of false (numbers (header us)))

  -- The first clear number, where the list does not start with an allocated one.
  clear_after_first :
      (us : List Unr) (y : ℕ)
      → first_of false (all_items us ++ replicate last false) ≡ some y
      → first_of false (numbers (header us)) ≡ some (first + y)
  clear_after_first us y e = first_of-replicate first (all_items us ++ replicate last false) y e

  write_after_first :
      (us : List Unr) (y : ℕ)
      → write (numbers (header us)) (first + y) true
        ≡ replicate first true ++ write (all_items us ++ replicate last false) y true
  write_after_first us y =
      ap (λ n. write (numbers (header us)) (n + y) true) (sym (length-replicate first true))
      ∙ write-right (replicate first true) (all_items us ++ replicate last false) y true

  -- The first number of the empty list's `last` goes into `first`.
  pub split-IsNow :
      1 ≤ last
      → IsValid (header [])
      → (first_of false (numbers (header [])) ≡ some (first + 0))
        × IsNow
            (write (numbers (header [])) (first + 0) true)
            (header [])
            (record (header []) { first = add32 first 1; last = sub32 last 1; busy = add32 busy 1 })
  split-IsNow t v =
      let l = length-numbers (header []) in
      let r = v.range in
      let s = v.small in
      let cut : replicate last false ≡ false ∷ replicate (last - 1) false =
        replicate_cons last false t in
      let clear : first_of false (numbers (header [])) ≡ some (first + 0) =
        clear_after_first [] 0 (rw cut refl) in
      let (range, count, bound) = counts [] (first + 0) v clear in
      let more : add32 first 1 ≡ first + 1 = omega arith in
      let fewer : sub32 last 1 ≡ last - 1 = omega arith in
      let same : replicate (add32 first 1) true ++ replicate (sub32 last 1) false
          ≡ write (numbers (header [])) (first + 0) true =
        rw (more, fewer, replicate_snoc first true, append_assoc)
          (sym (write_after_first [] 0 ∙ ap (λ xs. replicate first true ++ write xs 0 true) cut)) in
      (
        clear,
        record {
          valid = record {
            tidy = v.tidy;
            range = rw same range;
            busy = rw same count;
            ordered = v.ordered;
            small = v.small;
          };
          same = same;
          low = refl;
          high = refl;
        },
      )

  split_some :
      ltb 0 last ≡ true
      → IsValid (header [])
      → ServesFirst [] (
        some (add32 low first),
        record (header []) { first = add32 first 1; last = sub32 last 1; busy = add32 busy 1 },
      )
  split_some t v =
      let (clear, now) = split-IsNow (ground arith) v in
      let l = length-numbers (header []) in
      let r = v.range in let s = v.small in rw clear (ap some (omega arith), now)

  split_none : ltb 0 last ≡ false → IsValid (header []) → ServesFirst [] (none, header [])
  split_none t v =
      let z : last ≡ 0 = ground arith in
      let full : first_of false (numbers (header [])) ≡ none =
        rw z (ap (first_of false) (append-nil (replicate first true)) ∙ first_of-full first) in
      rw full (refl, record { valid = v; same = refl; low = refl; high = refl })

  pub split_allocates : IsValid (header []) → Returns (alloc_unrl (header [])) (ServesFirst [])
  unfolding alloc_unrl
  split_allocates v =
      Returns_passed (check_unrhdr (header [])) (header []) _ (ServesFirst [])
        (check_unrhdr_lem (header []) v)
        (elim (Bool-cases (ltb 0 last)) [
          | inl t ↦ rw t (split_some t v)
          | inr t ↦ rw t (split_none t v)
        ])

  -- From the first chunk, whose first clear number is in place `y`.
  chunk_allocates :
      (u w : Unr) (us : List Unr) (first' y : ℕ)
      → IsValid (header (u ∷ us))
      → alloc_first first u ≡ some (first', y, w)
      → first_of false (items u) ≡ some y
      → IsLoose w
      → pieces_of w ≡ pieces_of u
      → before_place first' [] ++ (items w ++ after_place us last)
        ≡ replicate first true ++ (write (items u) y true ++ after_place us last)
      → Returns (alloc_unrl (header (u ∷ us))) (ServesFirst (u ∷ us))
  unfolding alloc_unrl
  chunk_allocates u w us first' y v e f loose pieces g =
      let xs = numbers (header (u ∷ us)) in
      let rest = append_assoc (items u) (all_items us) (replicate last false) in
      let clear : first_of false xs ≡ some (first + y) =
        clear_after_first (u ∷ us) y
          (rw rest (first_of-left (items u) (after_place us last) y f)) in
      let (range, count, bound) = counts (u ∷ us) (first + y) v clear in
      let ys = write xs (first + y) true in
      let inside = first_clear_test (items u) y f in
      let written : before_place first' [] ++ (items w ++ after_place us last) ≡ ys =
        g
        ∙ sym (
            write_after_first (u ∷ us) y
            ∙ ap (λ zs. replicate first true ++ zs)
                (ap (λ zs. write zs y true) rest
                  ∙ write-left (items u) (after_place us last) y true inside.1)) in
      let uh' = record (header (u ∷ us)) { first = first'; busy = add32 busy 1 } in
      let p : Place = record { before = []; up = w; after = us } in
      let collapses : Returns (collapse_unr uh' p) (IsNow ys uh') =
        collapse_unr-IsNow uh' p ys (front m u w us v.tidy) loose
          (omega (arith, v.tidy.counted, pieces)) written range count v.ordered v.small in
      let answer : add32 (add32 low first) y ≡ low + (first + y) =
        omega (arith, v.small, v.range, length-numbers (header (u ∷ us))) in
      Returns_passed (check_unrhdr (header (u ∷ us))) (header (u ∷ us)) _ (ServesFirst (u ∷ us))
        (check_unrhdr_lem (header (u ∷ us)) v)
        (Returns_passed (alloc_first first u) (first', y, w) _ (ServesFirst (u ∷ us)) e
          (Returns->>= (collapse_unr uh' p) _ (IsNow ys uh') (ServesFirst (u ∷ us)) collapses
            (λ r n. rw clear (
              ap some answer,
              record { valid = n.valid; same = n.same; low = n.low; high = n.high },
            ))))

  pub first_allocates :
      (u : Unr) (us : List Unr)
      → IsValid (header (u ∷ us))
      → Returns (alloc_unrl (header (u ∷ us))) (ServesFirst (u ∷ us))
  unfolding alloc_first
  first_allocates (allocated_run n) us v = absurd v.tidy.apart.0
  first_allocates (free_run n) us v =
      let positive = v.tidy.chunks.0 in
      let r = v.range in
      let s = v.small in
      let l = length-numbers (header (free_run n ∷ us)) in
      let cut : replicate n false ≡ false ∷ replicate (n - 1) false =
        replicate_cons n false (omega arith) in
      let more : add32 first 1 ≡ first + 1 = omega arith in
      let fewer : sub32 n 1 ≡ n - 1 = omega arith in
      chunk_allocates (free_run n) (free_run (sub32 n 1)) us (add32 first 1) 0 v refl (rw cut refl)
        (omega arith) refl
        (rw (more, fewer, cut)
          (ap (λ zs. zs ++ (replicate (n - 1) false ++ after_place us last))
              (append-nil (replicate (first + 1) true) ∙ replicate_snoc first true)
            ∙ append_assoc (replicate first true) (true ∷ []) _))
  first_allocates (bitmap n ub) us v =
      let (h, both) = v.tidy.chunks.0 in
      elim (Option-cases (first_of false (take n ub))) [
        | inl e ↦
            let full =
              ap count (none_clear (take n ub) e) ∙ count-replicate-true (length (take n ub)) in
            absurd (omega (arith, full))
        | inr (y, e) ↦
            let inside = first_clear_test (take n ub) y e in
            let l = length-take n ub (omega arith) in
            let w : take n (write ub y true) ≡ write (take n ub) y true =
              take-write_inside n y ub true (omega arith) in
            chunk_allocates (bitmap n ub) (bitmap n (write ub y true)) us first y v (rw e refl) e
              (h.0, length-write ub y true ∙ h.1) refl
              (rw w (
                ap (λ zs. zs ++ (write (take n ub) y true ++ after_place us last))
                  (append-nil (replicate first true))))
      ]
