-- ===== src/Bits/Words/Agree.antt =====
-- `bit_ffs` and `bit_ffc` of bitstring.h on words find what those on sequences find.
use kernel_utils.Base.{
  ℕ, zero, suc, ◌≤◌, ◌<◌, arith, ◌≡◌, refl, sym, ap, ◌∙◌, ltb, Bool, true, false, not, inl, inr,
  Option, none, some, List, [], ◌∷◌, length, Bool-cases,
}
use kernel_utils.Bits.{take, first_of}
use kernel_utils.Bits
use kernel_utils.Bits.Words.{Word}
use kernel_utils.Bits.Words.Refine.{bit_at, Represents}
use kernel_utils.Bits.Words.Search.{find_at, bit_ffs_at, bit_ffc_at, bit_ffs, bit_ffc, IsFirst}
use kernel_utils.Bits.Words.Found.{bit_ffs_at-IsFirst}

-- The first bit of a sequence below `n` that is `v`, or none.
abbrev IsFirstOf : Bool → List Bool → ℕ → Option ℕ → Type 0
IsFirstOf v xs n none = (i : ℕ) → i < n → Bits.bit_test xs i ≡ not v
IsFirstOf v xs n (some k) =
    (k < n) × (Bits.bit_test xs k ≡ v) × ((i : ℕ) → i < k → Bits.bit_test xs i ≡ not v)

-- One more bit in front, which is not `v`.
later :
    (v x : Bool) (xs : List Bool) (n : ℕ) (o : Option ℕ)
    → x ≡ not v
    → IsFirstOf v xs n o
    → IsFirstOf v (x ∷ xs) (suc n) (elim o [ none ↦ none | some k ↦ some (suc k) ])
later v x xs n none e f = λ i h. behind i h
  where
    behind : (i : ℕ) → i < suc n → Bits.bit_test (x ∷ xs) i ≡ not v
    behind zero h = e
    behind (suc i) h = f i (omega arith)
later v x xs n (some k) e f = (omega (arith, f.0), f.1, behind)
  where
    behind : (i : ℕ) → i < suc k → Bits.bit_test (x ∷ xs) i ≡ not v
    behind zero h = e
    behind (suc i) h = f.2 i (omega arith)

first_of-IsFirstOf :
    (v : Bool) (n : ℕ) (xs : List Bool) → n ≤ length xs → IsFirstOf v xs n (first_of v (take n xs))
first_of-IsFirstOf v zero xs h = λ i l. absurd (omega arith)
first_of-IsFirstOf v (suc n) [] h = absurd (omega arith)
first_of-IsFirstOf true (suc n) (true ∷ xs) h = (omega arith, refl, λ i l. absurd (omega arith))
first_of-IsFirstOf false (suc n) (false ∷ xs) h = (omega arith, refl, λ i l. absurd (omega arith))
first_of-IsFirstOf true (suc n) (false ∷ xs) h =
    later true false xs n (first_of true (take n xs)) refl
      (first_of-IsFirstOf true n xs (omega arith))
first_of-IsFirstOf false (suc n) (true ∷ xs) h =
    later false true xs n (first_of false (take n xs)) refl
      (first_of-IsFirstOf false n xs (omega arith))

clash : (v b : Bool) → b ≡ v → b ≡ not v → ⊥
clash true b on off = ground (arith, on, off)
clash false b on off = ground (arith, on, off)

-- Words and the sequence they stand for have one first bit.
IsFirst-unique :
    (v : Bool) (ws : List Word) (xs : List Bool) (n : ℕ) (o p : Option ℕ)
    → Represents ws xs
    → n ≤ length xs
    → IsFirst v ws 0 n o
    → IsFirstOf v xs n p
    → o ≡ p
IsFirst-unique v ws xs n none none r h f g = refl
IsFirst-unique v ws xs n none (some k) r h f g =
    absurd (
      clash v (Bits.bit_test xs k) g.1
        (sym (r.bits k (omega (arith, g.0))) ∙ f k (omega arith) g.0))
IsFirst-unique v ws xs n (some k) none r h (a, b, c, d) g =
    absurd (clash v (bit_at ws k) c (r.bits k (omega arith) ∙ g k b))
IsFirst-unique v ws xs n (some k) (some m) r h (a, b, c, d) (e, f, g) =
    elim (Bool-cases (ltb k m)) [
      | inl t ↦ absurd (clash v (bit_at ws k) c (r.bits k (omega arith) ∙ g k (ground (arith, t))))
      | inr t ↦ elim (Bool-cases (ltb m k)) [
        | inl u ↦ absurd (
            clash v (bit_at ws m) (r.bits m (omega arith) ∙ f)
              (d m (omega arith) (ground (arith, u))))
        | inr u ↦ ap some (ground (arith, t, u))
      ]
    ]

-- Where words of 64 bits stand for a sequence of at least `nbits` bits, `bit_ffs` and `bit_ffc` of
-- the words return what they return for the sequence.
pub bit_ffs-Represents :
    (ws : List Word) (map : List Bool) (nbits : ℕ)
    → Represents ws map
    → nbits ≤ length map
    → (bit_ffs ws nbits ≡ Bits.bit_ffs map nbits) × (bit_ffc ws nbits ≡ Bits.bit_ffc map nbits)
unfolding bit_ffs bit_ffc bit_ffs_at bit_ffc_at find_at
bit_ffs-Represents ws map zero r h = (refl, refl)
bit_ffs-Represents ws map (suc n) r h =
    let size = r.size in
    let (f, g) = bit_ffs_at-IsFirst ws 0 (suc n) r.words (omega arith) (omega arith) in
    (
      IsFirst-unique true ws map (suc n) (bit_ffs_at ws 0 (suc n))
          (first_of true (take (suc n) map)) r h f (first_of-IsFirstOf true (suc n) map h),
      IsFirst-unique false ws map (suc n) (bit_ffc_at ws 0 (suc n))
          (first_of false (take (suc n) map)) r h g (first_of-IsFirstOf false (suc n) map h),
    )
