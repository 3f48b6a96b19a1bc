-- ===== src/Bits/Words/Masks.antt =====
-- The masks of bitstring.h, bit by bit, and what they do to a word.
use kernel_utils.Base.{
  ℕ, zero, suc, ◌+◌, ◌-◌, ◌≤◌, ◌<◌, arith, ◌≡◌, refl, sym, ap, ◌∙◌, Bool, true, false, ◌&&◌, ◌||◌,
  not, ◌⊎◌, inl, inr, [], ◌∷◌, ◌++◌, length, length-append,
}
use kernel_utils.Bits.{take, drop, replicate}
use kernel_utils.Bits
use kernel_utils.Bits.Laws.{length-replicate, length-take}
use kernel_utils.Bits.Writes.{bit_test-left, bit_test-right, bit_test-replicate, bit_test-take}
use kernel_utils.Bits.Words.{
  Word, bitstr_bits, bitstr_mask, bit_offset, shift_left, shift_right, bit_by_bit, complement,
  bit_mask, bit_make_mask, stamp,
}

pub length-bit_by_bit :
    (f : Bool → Bool → Bool) (a b : Word)
    → length a ≡ length b
    → length (bit_by_bit f a b) ≡ length a
length-bit_by_bit f [] b e = refl
length-bit_by_bit f (x ∷ a) [] e = absurd (omega arith)
length-bit_by_bit f (x ∷ a) (y ∷ b) e = ap suc (length-bit_by_bit f a b (omega arith))

pub bit_by_bit_lem :
    (f : Bool → Bool → Bool) (a b : Word) (j : ℕ)
    → length a ≡ length b
    → j < length a
    → Bits.bit_test (bit_by_bit f a b) j ≡ f (Bits.bit_test a j) (Bits.bit_test b j)
bit_by_bit_lem f [] b j e h = absurd (omega arith)
bit_by_bit_lem f (x ∷ a) [] j e h = absurd (omega arith)
bit_by_bit_lem f (x ∷ a) (y ∷ b) zero e h = refl
bit_by_bit_lem f (x ∷ a) (y ∷ b) (suc j) e h = bit_by_bit_lem f a b j (omega arith) (omega arith)

pub length-complement : (a : Word) → length (complement a) ≡ length a
length-complement [] = refl
length-complement (x ∷ a) = ap suc (length-complement a)

pub complement_lem :
    (a : Word) (j : ℕ) → j < length a → Bits.bit_test (complement a) j ≡ not (Bits.bit_test a j)
complement_lem [] j h = absurd (omega arith)
complement_lem (x ∷ a) zero h = refl
complement_lem (x ∷ a) (suc j) h = complement_lem a j (omega arith)

pub length-stamp :
    (v : Bool) (w mask : Word) → length w ≡ length mask → length (stamp v w mask) ≡ length w
length-stamp true w mask e = length-bit_by_bit _ w mask e
length-stamp false w mask e =
    length-bit_by_bit _ w (complement mask) (e ∙ sym (length-complement mask))

-- A bit under the mask is written, another one stays.
pub stamp_under :
    (v : Bool) (w mask : Word) (j : ℕ)
    → length w ≡ length mask
    → j < length w
    → Bits.bit_test mask j ≡ true
    → Bits.bit_test (stamp v w mask) j ≡ v
stamp_under true w mask j e h m =
    bit_by_bit_lem (λ a b. a || b) w mask j e h ∙ rw m (or_true (Bits.bit_test w j))
  where
    or_true : (a : Bool) → a || true ≡ true
    or_true true = refl
    or_true false = refl
stamp_under false w mask j e h m =
    bit_by_bit_lem (λ a b. a && b) w (complement mask) j (e ∙ sym (length-complement mask)) h
    ∙ rw (complement_lem mask j (omega arith), m) (and_false (Bits.bit_test w j))
  where
    and_false : (a : Bool) → a && not true ≡ false
    and_false true = refl
    and_false false = refl

pub stamp_beside :
    (v : Bool) (w mask : Word) (j : ℕ)
    → length w ≡ length mask
    → j < length w
    → Bits.bit_test mask j ≡ false
    → Bits.bit_test (stamp v w mask) j ≡ Bits.bit_test w j
stamp_beside true w mask j e h m =
    bit_by_bit_lem (λ a b. a || b) w mask j e h ∙ rw m (or_false (Bits.bit_test w j))
  where
    or_false : (a : Bool) → a || false ≡ a
    or_false true = refl
    or_false false = refl
stamp_beside false w mask j e h m =
    bit_by_bit_lem (λ a b. a && b) w (complement mask) j (e ∙ sym (length-complement mask)) h
    ∙ rw (complement_lem mask j (omega arith), m) (and_true (Bits.bit_test w j))
  where
    and_true : (a : Bool) → a && not false ≡ a
    and_true true = refl
    and_true false = refl

length-shift_left : (w : Word) (n : ℕ) → length w ≡ 64 → length (shift_left w n) ≡ 64
length-shift_left w n e =
    length-take 64 (replicate n false ++ w) (omega (arith, length-append (replicate n false) w))

shift_left_below : (w : Word) (n j : ℕ) → j < 64 → j < n → Bits.bit_test (shift_left w n) j ≡ false
shift_left_below w n j h b =
    bit_test-take 64 j (replicate n false ++ w) h
    ∙ bit_test-left (replicate n false) w j (omega (arith, length-replicate n false))
    ∙ bit_test-replicate n j false b

shift_left_above :
    (w : Word) (n i : ℕ) → n + i < 64 → Bits.bit_test (shift_left w n) (n + i) ≡ Bits.bit_test w i
shift_left_above w n i h =
    bit_test-take 64 (n + i) (replicate n false ++ w) h
    ∙ ap (λ k. Bits.bit_test (replicate n false ++ w) (k + i)) (sym (length-replicate n false))
    ∙ bit_test-right (replicate n false) w i

length-drop : (k : ℕ) (w : Word) → k ≤ length w → length (drop k w) + k ≡ length w
length-drop zero w h = omega arith
length-drop (suc k) [] h = absurd (omega arith)
length-drop (suc k) (x ∷ w) h = omega (arith, length-drop k w (omega arith))

bit_test-drop : (k : ℕ) (w : Word) (j : ℕ) → Bits.bit_test (drop k w) j ≡ Bits.bit_test w (k + j)
bit_test-drop zero w j = ap (Bits.bit_test w) (omega arith)
bit_test-drop (suc k) [] j = refl
bit_test-drop (suc k) (x ∷ w) j =
    let e : suc k + j ≡ suc (k + j) = omega arith in rw e (bit_test-drop k w j)

length-shift_right : (w : Word) (k : ℕ) → k ≤ length w → length (shift_right w k) ≡ length w
length-shift_right w k h = omega (
  arith,
  length-append (drop k w) (replicate k false),
  length-drop k w h,
  length-replicate k false,
)

shift_right_below :
    (w : Word) (k j : ℕ)
    → k + j < length w
    → Bits.bit_test (shift_right w k) j ≡ Bits.bit_test w (k + j)
shift_right_below w k j h =
    bit_test-left (drop k w) (replicate k false) j (omega (arith, length-drop k w (omega arith)))
    ∙ bit_test-drop k w j

shift_right_above :
    (w : Word) (k i : ℕ)
    → k ≤ length w
    → i < k
    → Bits.bit_test (shift_right w k) (length w - k + i) ≡ false
shift_right_above w k i h b =
    let e : length w - k + i ≡ length (drop k w) + i = omega (arith, length-drop k w h) in
    rw e (bit_test-right (drop k w) (replicate k false) i) ∙ bit_test-replicate k i false b

ones : length bitstr_mask ≡ 64
ones = length-replicate 64 true

length-left_mask : (start : ℕ) → length (shift_left bitstr_mask (bit_offset start)) ≡ 64
length-left_mask start = length-shift_left bitstr_mask (bit_offset start) ones

length-right_mask :
    (stop : ℕ) → length (shift_right bitstr_mask (bitstr_bits - bit_offset stop - 1)) ≡ 64
length-right_mask stop =
    length-shift_right bitstr_mask (bitstr_bits - bit_offset stop - 1) (omega (arith, ones)) ∙ ones

pub length-bit_make_mask : (start stop : ℕ) → length (bit_make_mask start stop) ≡ 64
length-bit_make_mask start stop =
    length-bit_by_bit _ (shift_left bitstr_mask (bit_offset start)) _
      (length-left_mask start ∙ sym (length-right_mask stop))
    ∙ length-left_mask start

left_on :
    (start j : ℕ)
    → bit_offset start ≤ j
    → j < 64
    → Bits.bit_test (shift_left bitstr_mask (bit_offset start)) j ≡ true
left_on start j a b =
    let e : j ≡ bit_offset start + (j - bit_offset start) = omega arith in
    ap (Bits.bit_test (shift_left bitstr_mask (bit_offset start))) e
    ∙ shift_left_above bitstr_mask (bit_offset start) (j - bit_offset start) (omega arith)
    ∙ bit_test-replicate 64 (j - bit_offset start) true (omega arith)

right_on :
    (stop j : ℕ)
    → j ≤ bit_offset stop
    → Bits.bit_test (shift_right bitstr_mask (bitstr_bits - bit_offset stop - 1)) j ≡ true
right_on stop j a =
    let k = bitstr_bits - bit_offset stop - 1 in
    shift_right_below bitstr_mask k j (omega (arith, ones))
    ∙ bit_test-replicate 64 (k + j) true (omega arith)

right_off :
    (stop j : ℕ)
    → bit_offset stop < j
    → j < 64
    → Bits.bit_test (shift_right bitstr_mask (bitstr_bits - bit_offset stop - 1)) j ≡ false
right_off stop j a b =
    let k = bitstr_bits - bit_offset stop - 1 in
    let e : j ≡ length bitstr_mask - k + (j - bit_offset stop - 1) = omega (arith, ones) in
    ap (Bits.bit_test (shift_right bitstr_mask k)) e
    ∙ shift_right_above bitstr_mask k (j - bit_offset stop - 1) (omega (arith, ones)) (omega arith)

mask_bit :
    (start stop j : ℕ)
    → j < 64
    → Bits.bit_test (bit_make_mask start stop) j
      ≡ Bits.bit_test (shift_left bitstr_mask (bit_offset start)) j
        && Bits.bit_test (shift_right bitstr_mask (bitstr_bits - bit_offset stop - 1)) j
mask_bit start stop j h =
    bit_by_bit_lem (λ a b. a && b) (shift_left bitstr_mask (bit_offset start)) _ j
      (length-left_mask start ∙ sym (length-right_mask stop))
      (omega (arith, length-left_mask start))

pub mask_on :
    (start stop j : ℕ)
    → bit_offset start ≤ j
    → j ≤ bit_offset stop
    → Bits.bit_test (bit_make_mask start stop) j ≡ true
mask_on start stop j a b =
    mask_bit start stop j (omega arith)
    ∙ rw (left_on start j a (omega arith), right_on stop j b) refl

pub mask_off :
    (start stop j : ℕ)
    → j < 64
    → (j < bit_offset start) ⊎ (bit_offset stop < j)
    → Bits.bit_test (bit_make_mask start stop) j ≡ false
mask_off start stop j h (inl a) =
    mask_bit start stop j h ∙ rw (shift_left_below bitstr_mask (bit_offset start) j h a) refl
mask_off start stop j h (inr b) = mask_bit start stop j h ∙ rw (right_off stop j b h) (and_false _)
  where
    and_false : (a : Bool) → a && false ≡ false
    and_false true = refl
    and_false false = refl

one_bit : length (true ∷ replicate 63 false) ≡ 64
one_bit = omega (arith, length-replicate 63 false)

pub length-bit_mask : (bit : ℕ) → length (bit_mask bit) ≡ 64
length-bit_mask bit = length-shift_left (true ∷ replicate 63 false) (bit_offset bit) one_bit

pub bit_mask_on : (bit : ℕ) → Bits.bit_test (bit_mask bit) (bit_offset bit) ≡ true
bit_mask_on bit =
    let e : bit_offset bit ≡ bit_offset bit + 0 = omega arith in
    ap (Bits.bit_test (bit_mask bit)) e
    ∙ shift_left_above (true ∷ replicate 63 false) (bit_offset bit) 0 (omega arith)

pub bit_mask_off :
    (bit j : ℕ)
    → j < 64
    → (j < bit_offset bit) ⊎ (bit_offset bit < j)
    → Bits.bit_test (bit_mask bit) j ≡ false
bit_mask_off bit j h (inl a) = shift_left_below (true ∷ replicate 63 false) (bit_offset bit) j h a
bit_mask_off bit j h (inr b) =
    let e : j ≡ bit_offset bit + suc (j - bit_offset bit - 1) = omega arith in
    ap (Bits.bit_test (bit_mask bit)) e
    ∙ shift_left_above (true ∷ replicate 63 false) (bit_offset bit) (suc (j - bit_offset bit - 1))
        (omega arith)
    ∙ bit_test-replicate 63 (j - bit_offset bit - 1) false (omega arith)
