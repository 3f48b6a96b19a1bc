-- ===== src/Unr.antt =====
-- The unit numbers of unr.c and _unrhdr.h: the header and its list of chunks, the memory that the
-- chunks take, and the consistency check. The children hold the operations. A failed KASSERT and a
-- null dereference are faults (`none`).
pub mod View
pub mod Optimize
pub mod Absorb
pub mod Bitmaps
pub mod Tidy
pub mod Shrink
pub mod Settle
pub mod Merge
pub mod Ends
pub mod Valid
pub mod Allocates
pub mod Serves
pub mod Locate
pub mod Cut
pub mod Ready
pub mod Shifts
pub mod Frees
pub mod Releases
pub mod Opens
pub mod Released
pub mod Faults
pub mod Claims
pub mod Claimed
pub mod Specific
pub mod Requests
pub mod Refused
pub mod Run
mod Examples
pub mod Collapse
pub mod Alloc
pub mod Free
use kernel_utils.Base.{
  ℕ, zero, suc, ◌+◌, ◌-◌, ◌%◌, ◌^◌, ◌==◌, leb, ltb, Bool, true, false, ◌&&◌, not, Option, none,
  some, ◌>>=◌, List, [], ◌∷◌, ◌++◌, if◌then◌else◌,
}
use kernel_utils.Bits.{replicate, take, bit_ffs, bit_ffc, bit_count}

-- `u_int` addition and subtraction.
abbrev pub add32 : ℕ → ℕ → ℕ
add32 a b = (a + b) % 2 ^ 32

abbrev pub sub32 : ℕ → ℕ → ℕ
sub32 a b = (a + (2 ^ 32 - b)) % 2 ^ 32

-- The bits in `struct unrb`, which is as large as `struct unr`: 32 bytes where a pointer has 8.
abbrev pub nbits : ℕ
nbits = 256

-- `struct unr`, by what `ptr` is: NULL, the header, or a bitmap of which `len` bits are in use.
pub data Unr : Type 0 where
  free_run : ℕ → Unr
  allocated_run : ℕ → Unr
  bitmap : ℕ → List Bool → Unr

abbrev pub len : Unr → ℕ
len (free_run n) = n
len (allocated_run n) = n
len (bitmap n ub) = n

abbrev pub is_bitmap : Unr → Bool
is_bitmap (free_run n) = false
is_bitmap (allocated_run n) = false
is_bitmap (bitmap n ub) = true

-- `up->ptr == upp->ptr`: no two chunks share a bitmap.
abbrev pub same_ptr : Unr → Unr → Bool
same_ptr (free_run n) (free_run m) = true
same_ptr (allocated_run n) (allocated_run m) = true
same_ptr _ _ = false

abbrev is_none : Option ℕ → Bool
is_none none = true
is_none (some n) = false

abbrev pub ub_empty : List Bool → ℕ → Bool
ub_empty ub n = is_none (bit_ffs ub n)

abbrev pub ub_full : List Bool → ℕ → Bool
ub_full ub n = is_none (bit_ffc ub n)

-- `alloc`, the length of `ppfree`, and how many of `*p1` and `*p2` are not NULL.
pub record Memory : Type 0 where
  pub alloc : ℕ
  pub ppfree : ℕ
  pub cached : ℕ

unfoldable pub new_unr : Memory → Option Memory
new_unr m =
    if m.cached == 0
    then none
    else some (record m { alloc = add32 m.alloc 1; cached = m.cached - 1 })

unfoldable pub delete_unr : Memory → Memory
delete_unr m = record m { alloc = sub32 m.alloc 1; ppfree = m.ppfree + 1 }

-- `struct unrhdr`.
pub record Unrhdr : Type 0 where
  pub head : List Unr
  pub low : ℕ
  pub high : ℕ
  pub busy : ℕ
  pub first : ℕ
  pub last : ℕ
  pub memory : Memory

-- A chunk of the list, with those before it, the nearest first, and those after it.
pub record Place : Type 0 where
  pub before : List Unr
  pub up : Unr
  pub after : List Unr

abbrev pub rewind : List Unr → List Unr → List Unr
rewind [] us = us
rewind (u ∷ before) us = rewind before (u ∷ us)

-- The list that a place is in.
abbrev pub whole : Place → List Unr
whole p = rewind p.before (p.up ∷ p.after)

-- The loop of `check_unrhdr`, with its `y` and `z`.
unfoldable pub check_from : ℕ → ℕ → List Unr → Option (ℕ × ℕ)
check_from y z [] = some (y, z)
check_from y z (free_run n ∷ us) = check_from y (add32 z 1) us
check_from y z (allocated_run n ∷ us) = check_from (add32 y n) (add32 z 1) us
check_from y z (bitmap n ub ∷ us) =
    if ltb nbits n then none else check_from (add32 y (bit_count ub 0 n)) (add32 (add32 z 1) 1) us

unfoldable pub check_unrhdr : Unrhdr → Option Unrhdr
unfolding check_from
check_unrhdr uh = check_from uh.first 0 uh.head >>= λ found.
    if (found.0 == uh.busy) && (found.1 == uh.memory.alloc) then some uh else none

-- The sign of an `int`, which is kept as its bits.
abbrev pub sign_bit : ℕ → Bool
sign_bit n = leb (2 ^ 31) n

-- The sum of two ints that are not negative; `none` where it overflows, which C leaves undefined.
unfoldable pub add_int : ℕ → ℕ → Option ℕ
add_int a b = if ltb (a + b) (2 ^ 31) then some (a + b) else none

-- `low` and `high` are ints, and one that is negative is not between 0 and the other.
unfoldable pub init_unrhdr : ℕ → ℕ → Option Unrhdr
unfolding check_unrhdr add_int
init_unrhdr low high =
    if not (sign_bit low) && (not (sign_bit high) && leb low high)
    then add_int 1 (high - low) >>= (λ last. check_unrhdr (record {
      head = [];
      low = low;
      high = high;
      busy = 0;
      first = 0;
      last = last;
      memory = record { alloc = 0; ppfree = 0; cached = 0 };
    }))
    else none

-- Every postponed chunk is freed.
unfoldable pub clean_unrhdrl : Unrhdr → Unrhdr
clean_unrhdrl uh = record uh { memory = record (uh.memory) { ppfree = 0 } }

-- What is left of the cached chunks is freed.
abbrev pub uncached : Unrhdr → Unrhdr
uncached uh = record uh { memory = record (uh.memory) { cached = 0 } }

abbrev pub with_cached : Unrhdr → Unrhdr
with_cached uh = record uh { memory = record (uh.memory) { cached = 2 } }

-- The header that is freed.
unfoldable pub delete_unrhdr : Unrhdr → Option Unrhdr
unfolding check_unrhdr
delete_unrhdr uh = check_unrhdr uh >>= λ r.
    if (r.busy == 0) && ((r.memory.alloc == 0) && (r.memory.ppfree == 0)) then some r else none

unfoldable pub clear_unrhdr : Unrhdr → Option Unrhdr
unfolding init_unrhdr check_unrhdr
clear_unrhdr uh =
    if uh.memory.ppfree == 0 then (init_unrhdr uh.low uh.high >>= check_unrhdr) else none
