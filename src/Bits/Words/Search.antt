-- ===== src/Bits/Words/Search.antt =====
-- `bit_ffs_at` and `bit_ffc_at` of bitstring.h on words, and what they find.
use kernel_utils.Base.{
  ℕ, zero, suc, ◌+◌, ◌-◌, ◌*◌, ◌/◌, ◌%◌, ◌==◌, ◌≤◌, ◌<◌, arith, ◌≡◌, refl, sym, ap, ◌∙◌, leb, ltb,
  Bool, true, false, ◌&&◌, ◌||◌, not, inl, inr, Option, none, some, List, [], ◌∷◌, length,
  if◌then◌else◌, Bool-cases,
}
use kernel_utils.Bits.{first_of}
use kernel_utils.Bits
use kernel_utils.Bits.Words.{
  Word, bit_idx, bit_offset, bit_make_mask, bit_by_bit, complement, is_zero, word,
}
use kernel_utils.Bits.Words.Masks.{length-complement, complement_lem}
use kernel_utils.Bits.Words.Refine.{bit_at, AreWords, length-word}

-- `ffsl` of the C library: one more than the place of the first bit that is set, or 0.
abbrev pub ffsl : Word → ℕ
ffsl w = elim (first_of true w) [ none ↦ 0 | some n ↦ suc n ]

-- The bits that are looked for: those that are set, or those that are clear.
abbrev pub sought : Bool → Word → Word
sought true w = w
sought false w = complement w

-- The first word, without the bits before `start`.
abbrev pub from_start : Bool → Word → ℕ → Word
from_start true w start = bit_by_bit (λ a b. a && b) w (bit_make_mask start 63)
from_start false w start = bit_by_bit (λ a b. a || b) w (bit_make_mask 0 (start - 1))

-- The loop, with `n` words left after the current one.
unfoldable pub skip_words : Bool → ℕ → List Word → ℕ → Word → ℕ × Word
skip_words v zero ws cur test = (cur, test)
skip_words v (suc n) ws cur test =
    if is_zero (sought v test) then skip_words v n ws (cur + 1) (word ws (cur + 1)) else (cur, test)

-- The body of `bit_ffs_at` and of `bit_ffc_at`, which differ in what they look for. The result -1 is
-- `none`.
unfoldable pub find_at : Bool → List Word → ℕ → ℕ → Option ℕ
unfolding skip_words
find_at v ws start nbits =
    if ltb 0 nbits
    then (let first = word ws (bit_idx start) in
        let test = if bit_offset start == 0 then first else from_start v first start in
        let (cur, last) =
          skip_words v (bit_idx (nbits - 1) - bit_idx start) ws (bit_idx start) test in
        let offset = ffsl (sought v last) in
        let value = cur * 64 + offset - 1 in
        if (offset == 0) || leb nbits value then none else some value)
    else none

unfoldable pub bit_ffs_at : List Word → ℕ → ℕ → Option ℕ
unfolding find_at
bit_ffs_at ws start nbits = find_at true ws start nbits

unfoldable pub bit_ffc_at : List Word → ℕ → ℕ → Option ℕ
unfolding find_at
bit_ffc_at ws start nbits = find_at false ws start nbits

unfoldable pub bit_ffs : List Word → ℕ → Option ℕ
unfolding bit_ffs_at
bit_ffs ws nbits = bit_ffs_at ws 0 nbits

unfoldable pub bit_ffc : List Word → ℕ → Option ℕ
unfolding bit_ffc_at
bit_ffc ws nbits = bit_ffc_at ws 0 nbits

-- The first bit from `start` on and below `n` that is `v`, or none.
abbrev pub IsFirst : Bool → List Word → ℕ → ℕ → Option ℕ → Type 0
IsFirst v ws start n none = (i : ℕ) → start ≤ i → i < n → bit_at ws i ≡ not v
IsFirst v ws start n (some k) =
    (start ≤ k) × (k < n) × (bit_at ws k ≡ v) × ((i : ℕ) → start ≤ i → i < k → bit_at ws i ≡ not v)

pub length-sought : (v : Bool) (w : Word) → length (sought v w) ≡ length w
length-sought true w = refl
length-sought false w = length-complement w

not-not : (a : Bool) → not (not a) ≡ a
not-not true = refl
not-not false = refl

pub sought_on :
    (v : Bool) (w : Word) (j : ℕ)
    → j < length w
    → Bits.bit_test (sought v w) j ≡ true
    → Bits.bit_test w j ≡ v
sought_on true w j h e = e
sought_on false w j h e =
    sym (not-not (Bits.bit_test w j)) ∙ ap not (sym (complement_lem w j h) ∙ e)

pub sought_off :
    (v : Bool) (w : Word) (j : ℕ)
    → j < length w
    → Bits.bit_test (sought v w) j ≡ false
    → Bits.bit_test w j ≡ not v
sought_off true w j h e = e
sought_off false w j h e =
    sym (not-not (Bits.bit_test w j)) ∙ ap not (sym (complement_lem w j h) ∙ e)

pub is_zero-bits : (w : Word) (j : ℕ) → is_zero w ≡ true → Bits.bit_test w j ≡ false
is_zero-bits [] j h = refl
is_zero-bits (true ∷ w) j h = ground (arith, h)
is_zero-bits (false ∷ w) zero h = refl
is_zero-bits (false ∷ w) (suc j) h = is_zero-bits w j h

-- Where the loop stands: in the current word the bits before `start` are not `v`, the others are those
-- of the string, and no bit of the words before is `v` from `start` on.
pub record IsAt (v : Bool) (ws : List Word) (start cur : ℕ) (test : Word) : Type 0 where
  pub size : length test ≡ 64
  pub skipped : (j : ℕ) → j < 64 → 64 * cur + j < start → Bits.bit_test test j ≡ not v
  pub bits :
      (j : ℕ) → j < 64 → start ≤ 64 * cur + j → Bits.bit_test test j ≡ bit_at ws (64 * cur + j)
  pub before : (i : ℕ) → start ≤ i → i < 64 * cur → bit_at ws i ≡ not v

-- The word is of no use: go on to the next.
pub next_word :
    (v : Bool) (ws : List Word) (start cur : ℕ) (test : Word)
    → AreWords ws
    → cur + 1 < length ws
    → start < 64 * (cur + 1)
    → IsAt v ws start cur test
    → is_zero (sought v test) ≡ true
    → IsAt v ws start (cur + 1) (word ws (cur + 1))
next_word v ws start cur test h b s at z = record {
  size = length-word ws (cur + 1) h b;
  skipped = λ j l early. absurd (omega arith);
  bits = λ j l late.
      let q : (64 * (cur + 1) + j) / 64 ≡ cur + 1 = omega arith in
      let r : (64 * (cur + 1) + j) % 64 ≡ j = omega arith in rw (q, r) refl;
  before = λ i from to. elim (Bool-cases (ltb i (64 * cur))) [
    | inl t ↦ at.before i from (ground arith)
    | inr t ↦
        let here : i ≡ 64 * cur + i % 64 = ground arith in
        let size = at.size in
        ap (bit_at ws) here
        ∙ sym (at.bits (i % 64) (omega arith) (omega arith))
        ∙ sought_off v test (i % 64) (omega arith) (is_zero-bits (sought v test) (i % 64) z)
  ];
}
