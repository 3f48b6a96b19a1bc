-- ===== src/Bits/Words/Refine.antt =====
-- The words of bitstring.h stand for the sequence of their bits.
use kernel_utils.Base.{
  ℕ, zero, suc, ◌+◌, ◌*◌, ◌/◌, ◌%◌, ◌==◌, ◌≤◌, ◌<◌, arith, ◌≡◌, refl, sym, ap, ◌∙◌, Bool, true,
  false, ◌⊎◌, inl, inr, List, [], ◌∷◌, length, All, Bool-cases, ==_iff,
}
use kernel_utils.Bits.{replicate, write, fill}
use kernel_utils.Bits
use kernel_utils.Bits.Words.{Word, stamp, word, change, stamp_at}
use kernel_utils.Bits.Words.Masks.{length-stamp, stamp_under, stamp_beside}

-- Bit `i` of the words.
abbrev pub bit_at : List Word → ℕ → Bool
bit_at ws i = Bits.bit_test (word ws (i / 64)) (i % 64)

abbrev pub AreWords : List Word → Type 0
AreWords ws = All (λ w. length w ≡ 64) ws

-- The words have 64 bits each, and are the sequence cut in pieces.
pub record Represents (ws : List Word) (xs : List Bool) : Type 0 where
  pub words : AreWords ws
  pub size : length xs ≡ 64 * length ws
  pub bits : (i : ℕ) → i < length xs → bit_at ws i ≡ Bits.bit_test xs i

pub length-word : (ws : List Word) (q : ℕ) → AreWords ws → q < length ws → length (word ws q) ≡ 64
length-word [] q h b = absurd (omega arith)
length-word (w ∷ ws) zero h b = h.0
length-word (w ∷ ws) (suc q) h b = length-word ws q h.1 (omega arith)

pub length-change : (ws : List Word) (q : ℕ) (v : Word) → length (change ws q v) ≡ length ws
length-change [] q v = refl
length-change (w ∷ ws) zero v = refl
length-change (w ∷ ws) (suc q) v = ap suc (length-change ws q v)

pub AreWords-change :
    (ws : List Word) (q : ℕ) (v : Word) → AreWords ws → length v ≡ 64 → AreWords (change ws q v)
AreWords-change [] q v h e = tt
AreWords-change (w ∷ ws) zero v h e = (e, h.1)
AreWords-change (w ∷ ws) (suc q) v h e = (h.0, AreWords-change ws q v h.1 e)

pub word-change : (ws : List Word) (q : ℕ) (v : Word) → q < length ws → word (change ws q v) q ≡ v
word-change [] q v b = absurd (omega arith)
word-change (w ∷ ws) zero v b = refl
word-change (w ∷ ws) (suc q) v b = word-change ws q v (omega arith)

pub word-change_other :
    (ws : List Word) (q r : ℕ) (v : Word) → (r == q) ≡ false → word (change ws q v) r ≡ word ws r
word-change_other [] q r v e = refl
word-change_other (w ∷ ws) zero zero v e = ground (arith, e)
word-change_other (w ∷ ws) zero (suc r) v e = refl
word-change_other (w ∷ ws) (suc q) zero v e = refl
word-change_other (w ∷ ws) (suc q) (suc r) v e = word-change_other ws q r v (ground (arith, e))

-- What an operation does to the bits: those from `a` to below `b` become `v`.
pub record Writes (v : Bool) (a b : ℕ) (ws us : List Word) : Type 0 where
  pub words : AreWords us
  pub size : length us ≡ length ws
  pub inside : (i : ℕ) → a ≤ i → i < b → bit_at us i ≡ v
  pub outside : (i : ℕ) → i < 64 * length ws → (i < a) ⊎ (b ≤ i) → bit_at us i ≡ bit_at ws i

-- A mask on one word, whose bits are those from `a` to below `b`.
pub stamp_at-Writes :
    (v : Bool) (ws : List Word) (q : ℕ) (mask : Word) (a b : ℕ)
    → AreWords ws
    → q < length ws
    → length mask ≡ 64
    → 64 * q ≤ a
    → b ≤ 64 * q + 64
    → ((j : ℕ) → j < 64 → a ≤ 64 * q + j → 64 * q + j < b → Bits.bit_test mask j ≡ true)
    → ((j : ℕ) → j < 64 → (64 * q + j < a) ⊎ (b ≤ 64 * q + j) → Bits.bit_test mask j ≡ false)
    → Writes v a b ws (stamp_at v ws q mask)
stamp_at-Writes v ws q mask a b h bound e low high on off =
    let l = length-word ws q h bound in
    record {
      words = AreWords-change ws q _ h (length-stamp v (word ws q) mask (l ∙ sym e) ∙ l);
      size = length-change ws q _;
      inside = λ i from to.
          let at : i / 64 ≡ q = omega arith in
          rw (at, word-change ws q (stamp v (word ws q) mask) bound)
            (stamp_under v (word ws q) mask (i % 64) (l ∙ sym e) (omega arith)
              (on (i % 64) (omega arith) (omega arith) (omega arith)));
      outside = λ i inside where_. elim (Bool-cases (i / 64 == q)) [
        | inl t ↦
            let at : i / 64 ≡ q = (==_iff (i / 64) q).0 t in
            rw (at, word-change ws q (stamp v (word ws q) mask) bound)
              (stamp_beside v (word ws q) mask (i % 64) (l ∙ sym e) (omega arith) (
                off (i % 64) (omega arith)
                  (elim where_ [ inl x ↦ inl (omega arith) | inr y ↦ inr (omega arith) ])))
        | inr t ↦
            ap (λ w. Bits.bit_test w (i % 64))
              (word-change_other ws q (i / 64) (stamp v (word ws q) mask) t)
      ];
    }
