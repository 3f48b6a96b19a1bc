-- ===== src/Bits/Examples.antt =====
-- The theorems on the words of bit strings at concrete ones.
use kernel_utils.Base.{
  ℕ, ◌/◌, ◌%◌, ◌<◌, arith, ◌≡◌, refl, sym, ◌∙◌, ◌==◌, ==_iff, Bool-cases, inl, inr, true, List, [],
  ◌∷◌,
}
use kernel_utils.Bits
use kernel_utils.Bits.{replicate}
use kernel_utils.Bits.Words
use kernel_utils.Bits.Words.{Word, bit_nset, bit_nclear}
use kernel_utils.Bits.Words.Search
use kernel_utils.Bits.Words.Agree.{bit_ffs-Represents}
use kernel_utils.Bits.Words.Refine.{Represents, bit_at}
use kernel_utils.Bits.Words.Stands.{bit_nset-Represents, bit_test-Represents}
use kernel_utils.Bits.Writes.{bit_test-replicate}
use kernel_utils.Bits.Words.Search.{IsFirst, bit_ffs_at, bit_ffc_at}

-- Two words of ones.
abbrev two_words : List Word
two_words = replicate 64 true ∷ replicate 64 true ∷ []

all_ones : (i : ℕ) → i < 128 → bit_at two_words i ≡ true
all_ones i h = elim (Bool-cases (i / 64 == 0)) [
  | inl t ↦
      let at : i / 64 ≡ 0 = (==_iff (i / 64) 0).0 t in
      rw at (bit_test-replicate 64 (i % 64) true (omega arith))
  | inr t ↦
      let at : i / 64 ≡ 1 = ground (arith, t) in
      rw at (bit_test-replicate 64 (i % 64) true (omega arith))
]

two_words-Represents : Represents two_words (replicate 128 true)
two_words-Represents = record {
  words = (refl, (refl, tt));
  size = refl;
  bits = λ i h. all_ones i h ∙ sym (bit_test-replicate 128 i true h);
}

bit_nset-Represents_example :
    Represents (bit_nset two_words 60 70) (Bits.bit_nset (replicate 128 true) 60 70)
    × Represents (bit_nclear two_words 60 70) (Bits.bit_nclear (replicate 128 true) 60 70)
bit_nset-Represents_example =
    bit_nset-Represents two_words (replicate 128 true) 60 70 two_words-Represents (omega arith)
      (omega arith)

bit_test-Represents_example :
    (Words.bit_test two_words 70 ≡ Bits.bit_test (replicate 128 true) 70)
    × Represents (Words.bit_set two_words 70) (Bits.bit_set (replicate 128 true) 70)
    × Represents (Words.bit_clear two_words 70) (Bits.bit_clear (replicate 128 true) 70)
bit_test-Represents_example =
    bit_test-Represents two_words (replicate 128 true) 70 two_words-Represents (omega arith)

bit_ffs-Represents_example :
    (Search.bit_ffs two_words 100 ≡ Bits.bit_ffs (replicate 128 true) 100)
    × (Search.bit_ffc two_words 100 ≡ Bits.bit_ffc (replicate 128 true) 100)
bit_ffs-Represents_example =
    bit_ffs-Represents two_words (replicate 128 true) 100 two_words-Represents (omega arith)
