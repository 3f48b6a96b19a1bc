-- ===== src/Unr/Absorb.antt =====
-- How `optimize_unr` of unr.c writes chunks into a bitmap.
use kernel_utils.Base.{
  ℕ, zero, suc, ◌+◌, ◌-◌, ◌^◌, ◌≤◌, ◌<◌, arith, ◌≡◌, refl, sym, ap, ◌∙◌, Bool, true, false, List,
  ◌++◌, append_assoc, append-nil, length, length-append, if◌then◌else◌,
}
use kernel_utils.Bits.{replicate, take, drop, write, bit_test, bit_set, bit_clear, fill}
use kernel_utils.Bits.Laws.{
  length-replicate, length-take, length-write, take-write, length-fill, take-fill, count-append,
  count_bound, count-replicate-true, count-replicate-false, take-replicate, take_prefix, drop_next,
}
use kernel_utils.Unr.{nbits, Unr, free_run, allocated_run, bitmap, len}
use kernel_utils.Unr.Optimize.{copy, write_chunk, cleared, first_bits}
use kernel_utils.Unr.View.{items, IsMixed, IsChunk, kind, IsApart}

pub length-items : (u : Unr) → IsChunk u → length (items u) ≡ len u
length-items (free_run n) h = length-replicate n false
length-items (allocated_run n) h = length-replicate n true
length-items (bitmap n ub) h = length-take n ub (omega arith)

pub len-positive : (u : Unr) → IsChunk u → 1 ≤ len u
len-positive (free_run n) h = h.0
len-positive (allocated_run n) h = h.0
len-positive (bitmap n ub) h = omega (arith, length-take n ub (omega arith))

pub len_bound : (u : Unr) → IsChunk u → len u ≤ 2 ^ 31
len_bound (free_run n) h = h.1
len_bound (allocated_run n) h = h.1
len_bound (bitmap n ub) h = omega arith

copied_bit :
    (ub : List Bool) (at : ℕ) (b : Bool)
    → (if b then bit_set ub at else bit_clear ub at) ≡ write ub at b
copied_bit ub at true = refl
copied_bit ub at false = refl

length-copy :
    (n : ℕ) (ubf : List Bool) (l : ℕ) (ub : List Bool) (at : ℕ)
    → length (copy n ubf l ub at) ≡ length ub
unfolding copy
length-copy zero ubf l ub at = refl
length-copy (suc n) ubf l ub at =
    length-copy n ubf (l + 1) _ (at + 1)
    ∙ ap length (copied_bit ub at (bit_test ubf l))
    ∙ length-write ub at (bit_test ubf l)

take-copy :
    (n : ℕ) (ubf : List Bool) (l : ℕ) (ub : List Bool) (at : ℕ)
    → at + n ≤ length ub
    → l + n ≤ length ubf
    → take (at + n) (copy n ubf l ub at) ≡ take at ub ++ take n (drop l ubf)
unfolding copy
take-copy zero ubf l ub at h k = ap (λ i. take i ub) (omega arith) ∙ sym (append-nil _)
take-copy (suc n) ubf l ub at h k =
    let e : at + suc n ≡ (at + 1) + n = omega arith in
    let w = length-write ub at (bit_test ubf l) in
    rw
      (
        copied_bit ub at (bit_test ubf l),
        e,
        take-copy n ubf (l + 1) (write ub at (bit_test ubf l)) (at + 1) (omega arith) (omega arith),
        take-write at ub (bit_test ubf l) (omega arith),
        append_assoc,
        drop_next l ubf (omega arith),
      )
      refl

pub length-write_chunk :
    (u : Unr) (ub : List Bool) (at : ℕ) → length (write_chunk u ub at) ≡ length ub
unfolding write_chunk
length-write_chunk (free_run n) ub at = length-fill false _ at ub
length-write_chunk (allocated_run n) ub at = length-fill true _ at ub
length-write_chunk (bitmap n ubf) ub at = length-copy n ubf 0 ub at

-- The bits below `at` stay, and those of the chunk follow.
pub take-write_chunk :
    (u : Unr) (ub : List Bool) (at : ℕ)
    → IsChunk u
    → at + len u ≤ length ub
    → take (at + len u) (write_chunk u ub at) ≡ take at ub ++ items u
unfolding write_chunk
take-write_chunk (free_run n) ub at c h =
    let e : at + n - 1 + 1 - at ≡ n = omega arith in rw (e, take-fill false n at ub h) refl
take-write_chunk (allocated_run n) ub at c h =
    let e : at + n - 1 + 1 - at ≡ n = omega arith in rw (e, take-fill true n at ub h) refl
take-write_chunk (bitmap n ubf) ub at c h = take-copy n ubf 0 ub at h (omega arith)

cleared_lem : cleared ≡ replicate nbits false
unfolding fill
cleared_lem = refl

pub length-first_bits : (u : Unr) → IsChunk u → length (first_bits u) ≡ nbits
unfolding first_bits
length-first_bits (free_run n) c = rw cleared_lem (length-replicate nbits false)
length-first_bits (allocated_run n) c =
    length-fill true _ 0 cleared ∙ ap length cleared_lem ∙ length-replicate nbits false
length-first_bits (bitmap n ub) c = c.0.1

-- The one bit too many of an allocated run lies above its length.
pub take-first_bits : (u : Unr) → IsChunk u → len u < nbits → take (len u) (first_bits u) ≡ items u
unfolding first_bits
take-first_bits (free_run n) c h = rw cleared_lem (take-replicate n nbits false (omega arith))
take-first_bits (allocated_run n) c h =
    let room : 0 + (n + 1) ≤ length cleared =
      rw (cleared_lem, length-replicate nbits false) (omega arith) in
    let e : n + 1 - 0 ≡ n + 1 = omega arith in
    let z : 0 + (n + 1) ≡ n + 1 = omega arith in
    let filled : take (n + 1) (fill true (n + 1) 0 cleared) ≡ replicate (n + 1) true =
      ap (λ i. take i (fill true (n + 1) 0 cleared)) (sym z)
      ∙ take-fill true (n + 1) 0 cleared room in
    rw e (
      sym (take_prefix n 1 (fill true (n + 1) 0 cleared))
      ∙ ap (take n) filled
      ∙ take-replicate n (n + 1) true (omega arith))
take-first_bits (bitmap n ub) c h = refl

pub IsMixed-append : (xs ys : List Bool) → IsMixed xs → IsMixed (xs ++ ys)
IsMixed-append xs ys h = omega (arith, count-append xs ys, length-append xs ys, count_bound ys)

pub IsMixed-prepend : (xs ys : List Bool) → IsMixed ys → IsMixed (xs ++ ys)
IsMixed-prepend xs ys h = omega (arith, count-append xs ys, length-append xs ys, count_bound xs)

-- Two chunks that do not merge have free and allocated numbers together.
pub IsMixed-pair :
    (u v : Unr) → IsChunk u → IsChunk v → IsApart (kind u) (kind v) → IsMixed (items u ++ items v)
IsMixed-pair (bitmap n ub) v c d a = IsMixed-append (take n ub) (items v) c.1
IsMixed-pair u (bitmap n ub) c d a = IsMixed-prepend (items u) (take n ub) d.1
IsMixed-pair (free_run n) (free_run m) c d a = absurd a
IsMixed-pair (allocated_run n) (allocated_run m) c d a = absurd a
IsMixed-pair (free_run n) (allocated_run m) c d a =
    let xs = replicate n false in
    let ys = replicate m true in
    omega (
      arith,
      count-append xs ys,
      length-append xs ys,
      count-replicate-false n,
      count-replicate-true m,
      length-replicate n false,
      length-replicate m true,
    )
IsMixed-pair (allocated_run n) (free_run m) c d a =
    let xs = replicate n true in
    let ys = replicate m false in
    omega (
      arith,
      count-append xs ys,
      length-append xs ys,
      count-replicate-true n,
      count-replicate-false m,
      length-replicate n true,
      length-replicate m false,
    )
