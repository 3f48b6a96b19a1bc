-- ===== src/Bits/Words.antt =====
-- The words of bitstring.h: a `bitstr_t` is the list of its 64 bits, the lowest first, and a bit string
-- a list of words.
pub mod Masks
pub mod Refine
pub mod Range
pub mod Stands
pub mod Search
pub mod Begin
pub mod Found
pub mod Agree
use kernel_utils.Base.{
  ℕ, zero, suc, ◌+◌, ◌-◌, ◌/◌, ◌%◌, ◌==◌, Bool, true, false, ◌&&◌, ◌||◌, not, List, [], ◌∷◌, ◌++◌,
  if◌then◌else◌,
}
use kernel_utils.Bits.{take, drop, replicate}

abbrev pub Word : Type 0
Word = List Bool

abbrev pub bitstr_bits : ℕ
bitstr_bits = 64

abbrev pub bitstr_mask : Word
bitstr_mask = replicate bitstr_bits true

abbrev pub bit_idx : ℕ → ℕ
bit_idx bit = bit / bitstr_bits

abbrev pub bit_offset : ℕ → ℕ
bit_offset bit = bit % bitstr_bits

-- `<<` and `>>`, and what `|`, `&` and `~` do to each bit.
abbrev pub shift_left : Word → ℕ → Word
shift_left w n = take bitstr_bits (replicate n false ++ w)

abbrev pub shift_right : Word → ℕ → Word
shift_right w n = drop n w ++ replicate n false

abbrev pub bit_by_bit : (Bool → Bool → Bool) → Word → Word → Word
bit_by_bit f [] ys = []
bit_by_bit f (x ∷ xs) [] = []
bit_by_bit f (x ∷ xs) (y ∷ ys) = f x y ∷ bit_by_bit f xs ys

abbrev pub complement : Word → Word
complement [] = []
complement (x ∷ xs) = not x ∷ complement xs

abbrev pub bit_mask : ℕ → Word
bit_mask bit = shift_left (true ∷ replicate (bitstr_bits - 1) false) (bit_offset bit)

abbrev pub bit_make_mask : ℕ → ℕ → Word
bit_make_mask start stop =
    bit_by_bit (λ a b. a && b) (shift_left bitstr_mask (bit_offset start))
      (shift_right bitstr_mask (bitstr_bits - bit_offset stop - 1))

-- `w |= mask`, or `w &= ~mask`.
abbrev pub stamp : Bool → Word → Word → Word
stamp true w mask = bit_by_bit (λ a b. a || b) w mask
stamp false w mask = bit_by_bit (λ a b. a && b) w (complement mask)

abbrev pub word : List Word → ℕ → Word
word [] i = []
word (w ∷ ws) zero = w
word (w ∷ ws) (suc i) = word ws i

-- An assignment to a word; one out of range changes nothing.
abbrev pub change : List Word → ℕ → Word → List Word
change [] i v = []
change (w ∷ ws) zero v = v ∷ ws
change (w ∷ ws) (suc i) v = w ∷ change ws i v

abbrev pub is_zero : Word → Bool
is_zero [] = true
is_zero (true ∷ w) = false
is_zero (false ∷ w) = is_zero w

unfoldable pub bit_test : List Word → ℕ → Bool
bit_test ws bit = not (is_zero (bit_by_bit (λ a b. a && b) (word ws (bit_idx bit)) (bit_mask bit)))

abbrev pub stamp_at : Bool → List Word → ℕ → Word → List Word
stamp_at v ws i mask = change ws i (stamp v (word ws i) mask)

unfoldable pub bit_set : List Word → ℕ → List Word
bit_set ws bit = stamp_at true ws (bit_idx bit) (bit_mask bit)

unfoldable pub bit_clear : List Word → ℕ → List Word
bit_clear ws bit = stamp_at false ws (bit_idx bit) (bit_mask bit)

-- `n` words from `i` on become all ones, or zero.
unfoldable pub whole_words : Bool → ℕ → ℕ → List Word → List Word
whole_words v zero i ws = ws
whole_words v (suc n) i ws = whole_words v n (i + 1) (change ws i (replicate bitstr_bits v))

-- The body of `bit_nset` and of `bit_nclear`, which differ in what they make of the bits.
unfoldable pub write_range : Bool → List Word → ℕ → ℕ → List Word
unfolding whole_words
write_range v ws start stop =
    if bit_idx start == bit_idx stop
    then stamp_at v ws (bit_idx start) (bit_make_mask start stop)
    else let ws1 = stamp_at v ws (bit_idx start) (bit_make_mask start (bitstr_bits - 1)) in
      let ws2 = whole_words v (bit_idx stop - bit_idx start - 1) (bit_idx start + 1) ws1 in
      stamp_at v ws2 (bit_idx stop) (bit_make_mask 0 stop)

unfoldable pub bit_nset : List Word → ℕ → ℕ → List Word
unfolding write_range
bit_nset ws start stop = write_range true ws start stop

unfoldable pub bit_nclear : List Word → ℕ → ℕ → List Word
unfolding write_range
bit_nclear ws start stop = write_range false ws start stop
