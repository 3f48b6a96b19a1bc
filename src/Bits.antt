-- ===== src/Bits.antt =====
-- Bit strings (bitstring.h) as the sequences of their bits, the lowest first. The numbers that the
-- functions get are those of the C functions: a range of bits is given by its first and its last one.
-- A read out of range is `false`, a write out of range changes nothing.
pub mod Laws
pub mod Writes
pub mod Words
mod Examples
use kernel_utils.Base.{
  ℕ, zero, suc, ◌+◌, ◌-◌, Bool, true, false, Option, none, some, List, [], ◌∷◌, if◌then◌else◌,
}

abbrev pub take : ℕ → List Bool → List Bool
take zero xs = []
take (suc n) [] = []
take (suc n) (x ∷ xs) = x ∷ take n xs

abbrev pub drop : ℕ → List Bool → List Bool
drop zero xs = xs
drop (suc n) [] = []
drop (suc n) (x ∷ xs) = drop n xs

abbrev pub replicate : ℕ → Bool → List Bool
replicate zero v = []
replicate (suc n) v = v ∷ replicate n v

-- The number of bits that are set.
abbrev pub count : List Bool → ℕ
count [] = 0
count (true ∷ xs) = suc (count xs)
count (false ∷ xs) = count xs

-- The place of the first bit that is `v`.
abbrev pub first_of : Bool → List Bool → Option ℕ
first_of v [] = none
first_of true (true ∷ xs) = some 0
first_of false (false ∷ xs) = some 0
first_of true (false ∷ xs) = elim (first_of true xs) [ none ↦ none | some n ↦ some (suc n) ]
first_of false (true ∷ xs) = elim (first_of false xs) [ none ↦ none | some n ↦ some (suc n) ]

abbrev pub write : List Bool → ℕ → Bool → List Bool
write [] i v = []
write (x ∷ xs) zero v = v ∷ xs
write (x ∷ xs) (suc i) v = x ∷ write xs i v

abbrev pub bit_test : List Bool → ℕ → Bool
bit_test [] i = false
bit_test (x ∷ xs) zero = x
bit_test (x ∷ xs) (suc i) = bit_test xs i

abbrev pub bit_set : List Bool → ℕ → List Bool
bit_set map i = write map i true

abbrev pub bit_clear : List Bool → ℕ → List Bool
bit_clear map i = write map i false

-- `n` bits from `start` on become `v`.
unfoldable pub fill : Bool → ℕ → ℕ → List Bool → List Bool
fill v zero start map = map
fill v (suc n) start map = fill v n (start + 1) (write map start v)

abbrev pub bit_nset : List Bool → ℕ → ℕ → List Bool
bit_nset map start stop = fill true (stop + 1 - start) start map

abbrev pub bit_nclear : List Bool → ℕ → ℕ → List Bool
bit_nclear map start stop = fill false (stop + 1 - start) start map

-- The first bit set, or clear, among the first `n`.
abbrev pub bit_ffs : List Bool → ℕ → Option ℕ
bit_ffs map n = first_of true (take n map)

abbrev pub bit_ffc : List Bool → ℕ → Option ℕ
bit_ffc map n = first_of false (take n map)

-- How many of the bits from `start` on and below `n` are set.
abbrev pub bit_count : List Bool → ℕ → ℕ → ℕ
bit_count map start n = count (drop start (take n map))
