-- ===== src/Unr/Valid.antt =====
-- The headers that the functions of unr.c keep, and `check_unrhdr` on them.
use kernel_utils.Base.{
  ℕ, ◌+◌, ◌^◌, ◌==◌, ◌≤◌, ◌<◌, arith, ◌≡◌, refl, sym, ap, ap₂, ◌∙◌, ltb, Bool, true, false, some,
  Returns, Returns_map, List, [], ◌∷◌, ◌++◌, append_assoc, length, length-append, All, ==_iff,
}
use kernel_utils.Bits.{replicate, take, count}
use kernel_utils.Bits.Laws.{
  length-replicate, count-append, count_bound, count-replicate-true, count-replicate-false,
}
use kernel_utils.Unr.{
  add32, nbits, Unr, free_run, allocated_run, bitmap, Unrhdr, Place, rewind, whole, check_from,
  check_unrhdr,
}
use kernel_utils.Unr.Collapse.{collapse_unr}
use kernel_utils.Unr.View.{items, all_items, numbers, total, IsChunk, all_items_split}
use kernel_utils.Unr.Bitmaps.{IsCounted}
use kernel_utils.Unr.Tidy.{IsTidy}
use kernel_utils.Unr.Settle.{IsLoose, IsAround}
use kernel_utils.Unr.Ends.{IsCollapsed, collapse_unr-IsCollapsed}

-- The list is tidy, and the header counts the numbers from `low` to `high`, which are ints, and the
-- allocated ones.
pub record IsValid (uh : Unrhdr) : Type 0 where
  pub tidy : IsTidy uh.memory uh.head
  pub range : length (numbers uh) + uh.low ≡ uh.high + 1
  pub busy : count (numbers uh) ≡ uh.busy
  pub ordered : uh.low ≤ uh.high
  pub small : uh.high < 2 ^ 31

pub total_bound : (us : List Unr) → All IsChunk us → total us ≤ length (all_items us)
total_bound [] h = omega arith
total_bound (free_run n ∷ us) h = omega (
  arith,
  total_bound us h.1,
  length-append (replicate n false) (all_items us),
  length-replicate n false,
)
total_bound (allocated_run n ∷ us) h = omega (
  arith,
  total_bound us h.1,
  length-append (replicate n true) (all_items us),
  length-replicate n true,
)
total_bound (bitmap n ub ∷ us) h =
    omega (arith, total_bound us h.1, length-append (take n ub) (all_items us))

pub length-numbers :
    (uh : Unrhdr) → length (numbers uh) ≡ uh.first + length (all_items uh.head) + uh.last
length-numbers uh = omega (
  arith,
  length-append (replicate uh.first true) (all_items uh.head ++ replicate uh.last false),
  length-append (all_items uh.head) (replicate uh.last false),
  length-replicate uh.first true,
  length-replicate uh.last false,
)

pub count-numbers : (uh : Unrhdr) → count (numbers uh) ≡ uh.first + count (all_items uh.head)
count-numbers uh = omega (
  arith,
  count-append (replicate uh.first true) (all_items uh.head ++ replicate uh.last false),
  count-append (all_items uh.head) (replicate uh.last false),
  count-replicate-true uh.first,
  count-replicate-false uh.last,
)

check_from_lem :
    (us : List Unr) (y z : ℕ)
    → All IsChunk us
    → y + count (all_items us) < 2 ^ 32
    → z + total us < 2 ^ 32
    → check_from y z us ≡ some (y + count (all_items us), z + total us)
unfolding check_from
check_from_lem [] y z h b c =
    let e : y ≡ y + 0 = omega arith in
    let f : z ≡ z + 0 = omega arith in ap₂ (λ i k. some (i, k)) e f
check_from_lem (free_run n ∷ us) y z h b c =
    let counts : count (items (free_run n) ++ all_items us) ≡ count (all_items us) =
      omega (arith, count-append (replicate n false) (all_items us), count-replicate-false n) in
    let e : add32 z 1 ≡ z + 1 = omega arith in
    let f : z + 1 + total us ≡ z + (1 + total us) = omega arith in
    rw (counts, e, check_from_lem us y (z + 1) h.1 (omega arith) (omega arith), f) refl
check_from_lem (allocated_run n ∷ us) y z h b c =
    let counts : count (items (allocated_run n) ++ all_items us) ≡ n + count (all_items us) =
      omega (arith, count-append (replicate n true) (all_items us), count-replicate-true n) in
    let e : add32 z 1 ≡ z + 1 = omega arith in
    let f : z + 1 + total us ≡ z + (1 + total us) = omega arith in
    let g : add32 y n ≡ y + n = omega arith in
    let k : y + n + count (all_items us) ≡ y + (n + count (all_items us)) = omega arith in
    rw (counts, e, g, check_from_lem us (y + n) (z + 1) h.1 (omega arith) (omega arith), f, k) refl
check_from_lem (bitmap n ub ∷ us) y z h b c =
    let i = count (take n ub) in
    let counts : count (take n ub ++ all_items us) ≡ i + count (all_items us) =
      count-append (take n ub) (all_items us) in
    let small : ltb nbits n ≡ false = ground arith in
    let e : add32 (add32 z 1) 1 ≡ z + 2 = omega arith in
    let f : z + 2 + total us ≡ z + (2 + total us) = omega arith in
    let g : add32 y i ≡ y + i = omega arith in
    let k : y + i + count (all_items us) ≡ y + (i + count (all_items us)) = omega arith in
    rw
      (small, counts, e, g, check_from_lem us (y + i) (z + 2) h.1 (omega arith) (omega arith), f, k)
      refl

-- A valid header passes the check.
pub check_unrhdr_lem : (uh : Unrhdr) → IsValid uh → check_unrhdr uh ≡ some uh
unfolding check_unrhdr
check_unrhdr_lem uh v =
    let l = length-numbers uh in
    let c = count-numbers uh in
    let t = total_bound uh.head v.tidy.chunks in
    let b = count_bound (all_items uh.head) in
    let r = v.range in
    let s = v.small in
    let y = v.busy in
    let z = v.tidy.counted in
    let e : (uh.first + count (all_items uh.head) == uh.busy) ≡ true =
      (==_iff _ _).1 (omega arith) in
    let f : (0 + total uh.head == uh.memory.alloc) ≡ true = (==_iff _ _).1 (omega arith) in
    rw (check_from_lem uh.head uh.first 0 v.tidy.chunks (omega arith) (omega arith), e, f) refl

-- A header with the numbers `xs`, from `lowest` to `highest`.
pub record IsOf (xs : List Bool) (lowest highest : ℕ) (r : Unrhdr) : Type 0 where
  pub valid : IsValid r
  pub same : numbers r ≡ xs
  pub low : r.low ≡ lowest
  pub high : r.high ≡ highest

-- One with other numbers, in the same range.
abbrev pub IsNow : List Bool → Unrhdr → Unrhdr → Type 0
IsNow xs uh r = IsOf xs uh.low uh.high r

-- The numbers before and after a place.
abbrev pub before_place : ℕ → List Unr → List Bool
before_place first before = replicate first true ++ all_items (rewind before [])

abbrev pub after_place : List Unr → ℕ → List Bool
after_place after last = all_items after ++ replicate last false

pub numbers_place :
    (first last : ℕ) (p : Place)
    → replicate first true ++ (all_items (whole p) ++ replicate last false)
      ≡ before_place first p.before ++ (items p.up ++ after_place p.after last)
numbers_place first last p =
    let xs = all_items (rewind p.before []) in
    let ys = items p.up in
    let zs = all_items p.after in
    let l = replicate last false in
    ap (λ i. replicate first true ++ (i ++ l)) (all_items_split p.before (p.up ∷ p.after))
    ∙ ap (λ i. replicate first true ++ i)
        (append_assoc xs (ys ++ zs) l ∙ ap (λ i. xs ++ i) (append_assoc ys zs l))
    ∙ sym (append_assoc (replicate first true) xs (ys ++ (zs ++ l)))

-- `collapse_unr` at a place whose chunk has changed, after which the header is right.
pub collapse_unr-IsNow :
    (uh : Unrhdr) (p : Place) (xs : List Bool)
    → IsAround p
    → IsLoose p.up
    → IsCounted uh.memory (total (whole p))
    → before_place uh.first p.before ++ (items p.up ++ after_place p.after uh.last) ≡ xs
    → length xs + uh.low ≡ uh.high + 1
    → count xs ≡ uh.busy
    → uh.low ≤ uh.high
    → uh.high < 2 ^ 31
    → Returns (collapse_unr uh p) (IsNow xs uh)
collapse_unr-IsNow uh p xs h u c e range busy ordered small =
    let ys = replicate uh.first true ++ (all_items (whole p) ++ replicate uh.last false) in
    let same : ys ≡ xs = numbers_place uh.first uh.last p ∙ e in
    let f : length ys ≡ uh.first + length (all_items (whole p)) + uh.last =
      length-numbers (record uh { head = whole p }) in
    Returns_map (collapse_unr uh p) (IsCollapsed uh ys) (IsNow xs uh)
      (collapse_unr-IsCollapsed uh p h u c (omega (arith, f, ap length same)))
      (λ r k. record {
        valid = record {
          tidy = k.tidy;
          range = rw (k.same, same, k.low, k.high) range;
          busy = rw (k.same, same, k.busy) busy;
          ordered = rw (k.low, k.high) ordered;
          small = rw k.high small;
        };
        same = k.same ∙ same;
        low = k.low;
        high = k.high;
      })
