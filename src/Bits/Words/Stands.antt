-- ===== src/Bits/Words/Stands.antt =====
-- The words of bitstring.h beside the sequence that they stand for, before and after an operation.
use kernel_utils.Base.{
  ℕ, zero, suc, ◌+◌, ◌-◌, ◌/◌, ◌%◌, ◌==◌, ◌≤◌, ◌<◌, arith, ◌≡◌, refl, sym, ◌∙◌, ltb, Bool, true,
  false, ◌&&◌, not, ◌⊎◌, inl, inr, List, [], ◌∷◌, length, Bool-cases, ==_iff,
}
use kernel_utils.Bits.{write, fill}
use kernel_utils.Bits
use kernel_utils.Bits.Laws.{length-write, length-fill}
use kernel_utils.Bits.Words
use kernel_utils.Bits.Words.{Word, word, bit_mask, bit_by_bit, is_zero, bit_nset, bit_nclear}
use kernel_utils.Bits.Words.Masks.{
  length-bit_by_bit, bit_by_bit_lem, length-bit_mask, bit_mask_on, bit_mask_off,
}
use kernel_utils.Bits.Words.Refine.{bit_at, Represents, length-word, Writes}
use kernel_utils.Bits.Words.Range.{
  bit_mask-Writes, write_range-Writes, bit_test-write, fill_outside, fill_inside,
}

-- The sequence has been written like the words.
written-Represents :
    (v : Bool) (a b : ℕ) (ws us : List Word) (xs ys : List Bool)
    → Represents ws xs
    → Writes v a b ws us
    → length ys ≡ length xs
    → ((i : ℕ) → a ≤ i → i < b → Bits.bit_test ys i ≡ v)
    → ((i : ℕ) → (i < a) ⊎ (b ≤ i) → Bits.bit_test ys i ≡ Bits.bit_test xs i)
    → Represents us ys
written-Represents v a b ws us xs ys r w e inside outside =
    let size = r.size in
    let size' = w.size in
    let elsewhere : (i : ℕ) → i < length ys → (i < a) ⊎ (b ≤ i) → bit_at us i ≡ Bits.bit_test ys i =
      λ i h o. w.outside i (omega arith) o ∙ r.bits i (omega arith) ∙ sym (outside i o) in
    record {
      words = w.words;
      size = omega arith;
      bits = λ i h. elim (Bool-cases (ltb i a)) [
        | inl t ↦ elsewhere i h (inl (ground arith))
        | inr t ↦ elim (Bool-cases (ltb i b)) [
          | inl u ↦
              w.inside i (ground arith) (ground arith)
              ∙ sym (inside i (ground arith) (ground arith))
          | inr u ↦ elsewhere i h (inr (ground arith))
        ]
      ];
    }

range-Represents :
    (v : Bool) (ws : List Word) (xs : List Bool) (start stop : ℕ)
    → Represents ws xs
    → start ≤ stop
    → stop < length xs
    → Represents (Words.write_range v ws start stop) (fill v (stop + 1 - start) start xs)
range-Represents v ws xs start stop r le b =
    let size = r.size in
    written-Represents v start (stop + 1) ws _ xs _ r
      (write_range-Writes v ws start stop r.words le (omega arith))
      (length-fill v (stop + 1 - start) start xs)
      (λ i from to. fill_inside v (stop + 1 - start) start xs i (omega arith) from (omega arith))
      (λ i o.
        fill_outside v (stop + 1 - start) start xs i (omega arith)
          (elim o [ inl below ↦ inl below | inr above ↦ inr (omega arith) ]))

one-Represents :
    (v : Bool) (ws : List Word) (xs : List Bool) (bit : ℕ)
    → Represents ws xs
    → bit < length xs
    → Represents (Words.stamp_at v ws (bit / 64) (bit_mask bit)) (write xs bit v)
one-Represents v ws xs bit r b =
    let size = r.size in
    written-Represents v bit (bit + 1) ws _ xs (write xs bit v) r
      (bit_mask-Writes v ws bit r.words (omega arith)) (length-write xs bit v)
      (λ i from to.
        let same : (i == bit) ≡ true = (==_iff i bit).1 (omega arith) in
        bit_test-write xs bit i v b ∙ rw same refl)
      (λ i o.
        let other : (i == bit) ≡ false = elim o [
          | inl below ↦ ground arith
          | inr above ↦ ground arith
        ] in
        bit_test-write xs bit i v b ∙ rw other refl)

pub is_zero-false : (w : Word) (j : ℕ) → Bits.bit_test w j ≡ true → is_zero w ≡ false
is_zero-false [] j h = ground (arith, h)
is_zero-false (true ∷ w) j h = refl
is_zero-false (false ∷ w) zero h = ground (arith, h)
is_zero-false (false ∷ w) (suc j) h = is_zero-false w j h

is_zero-true : (w : Word) → ((j : ℕ) → j < length w → Bits.bit_test w j ≡ false) → is_zero w ≡ true
is_zero-true [] h = refl
is_zero-true (true ∷ w) h = ground (arith, h 0 (omega arith))
is_zero-true (false ∷ w) h = is_zero-true w (λ j b. h (suc j) (omega arith))

apart : (i j : ℕ) → (i == j) ≡ false → (i < j) ⊎ (j < i)
apart i j e = elim (Bool-cases (ltb i j)) [
  | inl t ↦ inl (ground arith)
  | inr t ↦ inr (ground (arith, e, t))
]

masked :
    (w : Word) (bit : ℕ)
    → length w ≡ 64
    → not (is_zero (bit_by_bit (λ a b. a && b) w (bit_mask bit))) ≡ Bits.bit_test w (bit % 64)
masked w bit l =
    let m = bit_mask bit in
    let lm = length-bit_mask bit in
    let at : (j : ℕ)
        → j < 64
        → Bits.bit_test (bit_by_bit (λ a b. a && b) w m) j
          ≡ (Bits.bit_test w j && Bits.bit_test m j) =
      λ j h. bit_by_bit_lem (λ a b. a && b) w m j (l ∙ sym lm) (omega arith) in
    elim (Bool-cases (Bits.bit_test w (bit % 64))) [
      | inl t ↦
          let on : Bits.bit_test (bit_by_bit (λ a b. a && b) w m) (bit % 64) ≡ true =
            at (bit % 64) (omega arith) ∙ rw (t, bit_mask_on bit) refl in
          rw (is_zero-false (bit_by_bit (λ a b. a && b) w m) (bit % 64) on, t) refl
      | inr t ↦
          let size = length-bit_by_bit (λ a b. a && b) w m (l ∙ sym lm) in
          let off : (j : ℕ)
              → j < length (bit_by_bit (λ a b. a && b) w m)
              → Bits.bit_test (bit_by_bit (λ a b. a && b) w m) j ≡ false =
            λ j h. at j (omega arith) ∙ elim (Bool-cases (j == bit % 64)) [
              | inl e ↦ let same : j ≡ bit % 64 = (==_iff j (bit % 64)).0 e in rw (same, t) refl
              | inr e ↦
                  rw (bit_mask_off bit j (omega arith) (apart j (bit % 64) e))
                    (and_false (Bits.bit_test w j))
            ] in
          rw (is_zero-true (bit_by_bit (λ a b. a && b) w m) off, t) refl
    ]
  where
    and_false : (a : Bool) → a && false ≡ false
    and_false true = refl
    and_false false = refl

-- Where words of 64 bits stand for a sequence of bits, `bit_nset` and `bit_nclear` of a range
-- inside it leave words that stand for the sequence with the bits from the first to the last of the
-- range set, or clear, and the others as they were.
pub bit_nset-Represents :
    (ws : List Word) (xs : List Bool) (start stop : ℕ)
    → Represents ws xs
    → start ≤ stop
    → stop < length xs
    → Represents (bit_nset ws start stop) (Bits.bit_nset xs start stop)
      × Represents (bit_nclear ws start stop) (Bits.bit_nclear xs start stop)
unfolding bit_nset bit_nclear
bit_nset-Represents ws xs start stop r le b =
    (range-Represents true ws xs start stop r le b, range-Represents false ws xs start stop r le b)

-- Where words of 64 bits stand for a sequence of bits, `bit_test` of a bit inside it returns that
-- bit, and `bit_set` and `bit_clear` leave words that stand for the sequence with that bit written.
pub bit_test-Represents :
    (ws : List Word) (xs : List Bool) (bit : ℕ)
    → Represents ws xs
    → bit < length xs
    → (Words.bit_test ws bit ≡ Bits.bit_test xs bit)
      × Represents (Words.bit_set ws bit) (Bits.bit_set xs bit)
      × Represents (Words.bit_clear ws bit) (Bits.bit_clear xs bit)
unfolding Words.bit_test Words.bit_set Words.bit_clear
bit_test-Represents ws xs bit r b =
    let size = r.size in
    (
      masked (word ws (bit / 64)) bit (length-word ws (bit / 64) r.words (omega arith))
          ∙ r.bits bit b,
      one-Represents true ws xs bit r b,
      one-Represents false ws xs bit r b,
    )
