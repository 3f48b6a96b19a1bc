-- ===== src/Bits/Words/Begin.antt =====
-- Where the loop of `bit_ffs_at` and of `bit_ffc_at` in bitstring.h starts.
use kernel_utils.Base.{
  ℕ, ◌+◌, ◌-◌, ◌*◌, ◌/◌, ◌%◌, ◌==◌, ◌≤◌, ◌<◌, arith, ◌≡◌, refl, sym, ◌∙◌, Bool, true, false, ◌&&◌,
  ◌||◌, not, inl, inr, List, length, if◌then◌else◌, Bool-cases, ==_iff,
}
use kernel_utils.Bits.{first_of, replicate}
use kernel_utils.Bits
use kernel_utils.Bits.Words.{Word, bit_make_mask, word}
use kernel_utils.Bits.Words.Masks.{
  length-bit_by_bit, bit_by_bit_lem, length-bit_make_mask, mask_on, mask_off,
}
use kernel_utils.Bits.Words.Refine.{bit_at, AreWords, length-word}
use kernel_utils.Bits.Words.Search.{from_start, IsAt}

-- The first word, where the loop starts.
pub begin-IsAt :
    (v : Bool) (ws : List Word) (start : ℕ)
    → AreWords ws
    → start / 64 < length ws
    → IsAt v ws start (start / 64) (
        if start % 64 == 0 then word ws (start / 64) else from_start v (word ws (start / 64)) start)
begin-IsAt v ws start h b = elim (Bool-cases (start % 64 == 0)) [
  | inl t ↦
      let aligned : start % 64 ≡ 0 = (==_iff (start % 64) 0).0 t in
      rw t (record {
        size = l;
        skipped = λ j s early. absurd (omega arith);
        bits = λ j s late. in_word j s;
        before = λ i from to. absurd (omega arith);
      })
  | inr t ↦
      let later : 1 ≤ start % 64 = ground (arith, t) in
      rw t (record {
        size = masked_size v;
        skipped = λ j s early. masked_off v j s (omega arith);
        bits = λ j s late. masked_on v j s (omega arith) later ∙ in_word j s;
        before = λ i from to. absurd (omega arith);
      })
]
  where
    w : Word
    w = word ws (start / 64)

    l : length (word ws (start / 64)) ≡ 64
    l = length-word ws (start / 64) h b

    in_word :
        (j : ℕ)
        → j < 64
        → Bits.bit_test (word ws (start / 64)) j ≡ bit_at ws (64 * (start / 64) + j)
    in_word j s =
        let q : (64 * (start / 64) + j) / 64 ≡ start / 64 = omega arith in
        let r : (64 * (start / 64) + j) % 64 ≡ j = omega arith in rw (q, r) refl

    masked_size : (v : Bool) → length (from_start v (word ws (start / 64)) start) ≡ 64
    masked_size true =
        length-bit_by_bit _ (word ws (start / 64)) (bit_make_mask start 63)
          (l ∙ sym (length-bit_make_mask start 63))
        ∙ l
    masked_size false =
        length-bit_by_bit _ (word ws (start / 64)) (bit_make_mask 0 (start - 1))
          (l ∙ sym (length-bit_make_mask 0 (start - 1)))
        ∙ l

    masked_off :
        (v : Bool) (j : ℕ)
        → j < 64
        → j < start % 64
        → Bits.bit_test (from_start v (word ws (start / 64)) start) j ≡ not v
    masked_off true j s early =
        bit_by_bit_lem (λ a b. a && b) (word ws (start / 64)) (bit_make_mask start 63) j
          (l ∙ sym (length-bit_make_mask start 63)) (omega (arith, l))
        ∙ rw (mask_off start 63 j s (inl early)) (and_false _)
      where
        and_false : (a : Bool) → a && false ≡ false
        and_false true = refl
        and_false false = refl
    masked_off false j s early =
        bit_by_bit_lem (λ a b. a || b) (word ws (start / 64)) (bit_make_mask 0 (start - 1)) j
          (l ∙ sym (length-bit_make_mask 0 (start - 1))) (omega (arith, l))
        ∙ rw (mask_on 0 (start - 1) j (omega arith) (omega arith)) (or_true _)
      where
        or_true : (a : Bool) → a || true ≡ true
        or_true true = refl
        or_true false = refl

    masked_on :
        (v : Bool) (j : ℕ)
        → j < 64
        → start % 64 ≤ j
        → 1 ≤ start % 64
        → Bits.bit_test (from_start v (word ws (start / 64)) start) j
          ≡ Bits.bit_test (word ws (start / 64)) j
    masked_on true j s late some_off =
        bit_by_bit_lem (λ a b. a && b) (word ws (start / 64)) (bit_make_mask start 63) j
          (l ∙ sym (length-bit_make_mask start 63)) (omega (arith, l))
        ∙ rw (mask_on start 63 j late (omega arith)) (and_true _)
      where
        and_true : (a : Bool) → a && true ≡ a
        and_true true = refl
        and_true false = refl
    masked_on false j s late some_off =
        bit_by_bit_lem (λ a b. a || b) (word ws (start / 64)) (bit_make_mask 0 (start - 1)) j
          (l ∙ sym (length-bit_make_mask 0 (start - 1))) (omega (arith, l))
        ∙ rw (mask_off 0 (start - 1) j s (inr (omega arith))) (or_false _)
      where
        or_false : (a : Bool) → a || false ≡ a
        or_false true = refl
        or_false false = refl
