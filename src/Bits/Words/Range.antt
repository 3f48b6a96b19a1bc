-- ===== src/Bits/Words/Range.antt =====
-- `bit_set`, `bit_clear`, `bit_nset`, `bit_nclear` and `bit_test` of bitstring.h on words, and on the
-- sequence of the bits.
use kernel_utils.Base.{
  ℕ, zero, suc, ◌+◌, ◌-◌, ◌*◌, ◌/◌, ◌%◌, ◌==◌, ◌≤◌, ◌<◌, arith, ◌≡◌, refl, ap, ◌∙◌, ltb, Bool,
  false, ◌⊎◌, inl, inr, List, [], ◌∷◌, length, if◌then◌else◌, Bool-cases, ==_iff,
}
use kernel_utils.Bits.{replicate, write, fill}
use kernel_utils.Bits
use kernel_utils.Bits.Laws.{length-replicate, length-write}
use kernel_utils.Bits.Writes.{bit_test-replicate}
use kernel_utils.Bits.Words.{
  Word, bit_idx, bit_mask, bit_make_mask, change, stamp_at, whole_words, write_range,
}
use kernel_utils.Bits.Words.Masks.{
  length-bit_make_mask, mask_on, mask_off, length-bit_mask, bit_mask_on, bit_mask_off,
}
use kernel_utils.Bits.Words.Refine.{
  AreWords, length-change, AreWords-change, word-change, word-change_other, Writes, stamp_at-Writes,
}

pub bit_mask-Writes :
    (v : Bool) (ws : List Word) (bit : ℕ)
    → AreWords ws
    → bit < 64 * length ws
    → Writes v bit (bit + 1) ws (stamp_at v ws (bit_idx bit) (bit_mask bit))
bit_mask-Writes v ws bit h b =
    stamp_at-Writes v ws (bit / 64) (bit_mask bit) bit (bit + 1) h (omega arith)
      (length-bit_mask bit) (omega arith) (omega arith)
      (λ j s from to. let e : j ≡ bit % 64 = omega arith in rw e (bit_mask_on bit))
      (λ j s where_.
        bit_mask_off bit j s
          (elim where_ [ inl x ↦ inl (omega arith) | inr y ↦ inr (omega arith) ]))

one_word-Writes :
    (v : Bool) (ws : List Word) (q start stop a b : ℕ)
    → AreWords ws
    → q < length ws
    → start % 64 ≤ stop % 64
    → a ≡ 64 * q + start % 64
    → b ≡ 64 * q + stop % 64 + 1
    → Writes v a b ws (stamp_at v ws q (bit_make_mask start stop))
one_word-Writes v ws q start stop a b h bound le e f =
    stamp_at-Writes v ws q (bit_make_mask start stop) a b h bound (length-bit_make_mask start stop)
      (omega arith) (omega arith) (λ j s from to. mask_on start stop j (omega arith) (omega arith))
      (λ j s where_.
        mask_off start stop j s
          (elim where_ [ inl x ↦ inl (omega arith) | inr y ↦ inr (omega arith) ]))

-- A range after another one.
Writes-join :
    (v : Bool) (a b c : ℕ) (ws us vs : List Word)
    → a ≤ b
    → b ≤ c
    → c ≤ 64 * length ws
    → Writes v a b ws us
    → Writes v b c us vs
    → Writes v a c ws vs
Writes-join v a b c ws us vs ab bc within w x =
    let size = w.size in
    record {
      words = x.words;
      size = x.size ∙ w.size;
      inside = λ i from to. elim (Bool-cases (ltb i b)) [
        | inl t ↦ x.outside i (omega arith) (inl (ground arith)) ∙ w.inside i from (ground arith)
        | inr t ↦ x.inside i (ground arith) to
      ];
      outside = λ i inside where_. elim where_ [
        | inl below ↦ x.outside i (omega arith) (inl (omega arith)) ∙ w.outside i inside (inl below)
        | inr above ↦ x.outside i (omega arith) (inr above) ∙ w.outside i inside (inr (omega arith))
      ];
    }

whole_word-Writes :
    (v : Bool) (ws : List Word) (q : ℕ)
    → AreWords ws
    → q < length ws
    → Writes v (64 * q) (64 * (q + 1)) ws (change ws q (replicate 64 v))
whole_word-Writes v ws q h b = record {
  words = AreWords-change ws q (replicate 64 v) h (length-replicate 64 v);
  size = length-change ws q (replicate 64 v);
  inside = λ i from to.
      let at : i / 64 ≡ q = omega arith in
      rw (at, word-change ws q (replicate 64 v) b) (bit_test-replicate 64 (i % 64) v (omega arith));
  outside = λ i inside where_.
      let other : (i / 64 == q) ≡ false = elim where_ [
        | inl below ↦ ground arith
        | inr above ↦ ground arith
      ] in
      ap (λ w. Bits.bit_test w (i % 64)) (word-change_other ws q (i / 64) (replicate 64 v) other);
}

nothing-Writes : (v : Bool) (a : ℕ) (ws : List Word) → AreWords ws → Writes v a a ws ws
nothing-Writes v a ws h = record {
  words = h;
  size = refl;
  inside = λ i from to. absurd (omega arith);
  outside = λ i inside where_. refl;
}

whole_words-Writes :
    (v : Bool) (n q : ℕ) (ws : List Word)
    → AreWords ws
    → q + n ≤ length ws
    → Writes v (64 * q) (64 * (q + n)) ws (whole_words v n q ws)
unfolding whole_words
whole_words-Writes v zero q ws h b =
    let e : 64 * (q + 0) ≡ 64 * q = omega arith in rw e (nothing-Writes v (64 * q) ws h)
whole_words-Writes v (suc n) q ws h b =
    let w = whole_word-Writes v ws q h (omega arith) in
    let e : 64 * (q + suc n) ≡ 64 * (q + 1 + n) = omega arith in
    let size = w.size in
    rw e (
      Writes-join v (64 * q) (64 * (q + 1)) (64 * (q + 1 + n)) ws (change ws q (replicate 64 v))
        (whole_words v n (q + 1) (change ws q (replicate 64 v))) (omega arith) (omega arith)
        (omega arith) w
        (whole_words-Writes v n (q + 1) (change ws q (replicate 64 v)) w.words (omega arith)))

-- The words between the first and the last, and the two at the ends.
pub write_range-Writes :
    (v : Bool) (ws : List Word) (start stop : ℕ)
    → AreWords ws
    → start ≤ stop
    → stop < 64 * length ws
    → Writes v start (stop + 1) ws (write_range v ws start stop)
unfolding write_range
write_range-Writes v ws start stop h le b = elim (Bool-cases (start / 64 == stop / 64)) [
  | inl t ↦
      let same : start / 64 ≡ stop / 64 = (==_iff (start / 64) (stop / 64)).0 t in
      rw t (
        one_word-Writes v ws (start / 64) start stop start (stop + 1) h (omega arith) (omega arith)
          (omega arith) (omega arith))
  | inr t ↦
      let differ : start / 64 < stop / 64 = ground (arith, t) in
      let n = stop / 64 - start / 64 - 1 in
      let ws1 = stamp_at v ws (start / 64) (bit_make_mask start 63) in
      let ws2 = whole_words v n (start / 64 + 1) ws1 in
      let w1 : Writes v start (64 * (start / 64 + 1)) ws ws1 =
        one_word-Writes v ws (start / 64) start 63 start (64 * (start / 64 + 1)) h (omega arith)
          (omega arith) (omega arith) (omega arith) in
      let size1 = w1.size in
      let w2 : Writes v (64 * (start / 64 + 1)) (64 * (start / 64 + 1 + n)) ws1 ws2 =
        whole_words-Writes v n (start / 64 + 1) ws1 w1.words (omega arith) in
      let size2 = w2.size in
      let w3 : Writes v (64 * (start / 64 + 1 + n)) (stop + 1) ws2
          (stamp_at v ws2 (stop / 64) (bit_make_mask 0 stop)) =
        one_word-Writes v ws2 (stop / 64) 0 stop (64 * (start / 64 + 1 + n)) (stop + 1) w2.words
          (omega arith) (omega arith) (omega arith) (omega arith) in
      let w12 : Writes v start (64 * (start / 64 + 1 + n)) ws ws2 =
        Writes-join v start (64 * (start / 64 + 1)) (64 * (start / 64 + 1 + n)) ws ws1 ws2
          (omega arith) (omega arith) (omega arith) w1 w2 in
      rw t (
        Writes-join v start (64 * (start / 64 + 1 + n)) (stop + 1) ws ws2 _ (omega arith)
          (omega arith) (omega arith) w12 w3)
]

-- The same of a sequence.
pub bit_test-write :
    (xs : List Bool) (i j : ℕ) (v : Bool)
    → i < length xs
    → Bits.bit_test (write xs i v) j ≡ (if j == i then v else Bits.bit_test xs j)
bit_test-write [] i j v h = absurd (omega arith)
bit_test-write (x ∷ xs) zero zero v h = refl
bit_test-write (x ∷ xs) zero (suc j) v h =
    let other : (suc j == 0) ≡ false = ground arith in rw other refl
bit_test-write (x ∷ xs) (suc i) zero v h =
    let other : (0 == suc i) ≡ false = ground arith in rw other refl
bit_test-write (x ∷ xs) (suc i) (suc j) v h =
    let same : (suc j == suc i) ≡ (j == i) = ground arith in
    rw same (bit_test-write xs i j v (omega arith))

pub fill_outside :
    (v : Bool) (n start : ℕ) (xs : List Bool) (i : ℕ)
    → start + n ≤ length xs
    → (i < start) ⊎ (start + n ≤ i)
    → Bits.bit_test (fill v n start xs) i ≡ Bits.bit_test xs i
unfolding fill
fill_outside v zero start xs i h w = refl
fill_outside v (suc n) start xs i h w =
    let other : (i == start) ≡ false = elim w [
      | inl below ↦ ground arith
      | inr above ↦ ground arith
    ] in
    let l = length-write xs start v in
    let later : (i < start + 1) ⊎ (start + 1 + n ≤ i) = elim w [
      | inl below ↦ inl (omega arith)
      | inr above ↦ inr (omega arith)
    ] in
    fill_outside v n (start + 1) (write xs start v) i (omega arith) later
    ∙ bit_test-write xs start i v (omega arith)
    ∙ rw other refl

pub fill_inside :
    (v : Bool) (n start : ℕ) (xs : List Bool) (i : ℕ)
    → start + n ≤ length xs
    → start ≤ i
    → i < start + n
    → Bits.bit_test (fill v n start xs) i ≡ v
unfolding fill
fill_inside v zero start xs i h a b = absurd (omega arith)
fill_inside v (suc n) start xs i h a b = elim (Bool-cases (i == start)) [
  | inl t ↦
      let at : i ≡ start = (==_iff i start).0 t in
      let l = length-write xs start v in
      fill_outside v n (start + 1) (write xs start v) i (omega arith) (inl (omega arith))
      ∙ bit_test-write xs start i v (omega arith)
      ∙ rw t refl
  | inr t ↦
      let l = length-write xs start v in
      fill_inside v n (start + 1) (write xs start v) i (omega arith) (ground (arith, t))
        (omega arith)
]
