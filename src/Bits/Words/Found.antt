-- ===== src/Bits/Words/Found.antt =====
-- What `bit_ffs_at` and `bit_ffc_at` of bitstring.h return.
use kernel_utils.Base.{
  ℕ, zero, suc, ◌+◌, ◌-◌, ◌*◌, ◌/◌, ◌%◌, ◌==◌, ◌≤◌, ◌<◌, arith, ◌≡◌, refl, sym, ap, ◌∙◌, leb, ltb,
  Bool, true, false, ◌||◌, not, ◌⊎◌, inl, inr, none, some, Option-cases, List, [], ◌∷◌, length,
  if◌then◌else◌, Bool-cases,
}
use kernel_utils.Bits.{first_of, replicate}
use kernel_utils.Bits
use kernel_utils.Bits.Laws.{none_set}
use kernel_utils.Bits.Words.{Word, is_zero, word}
use kernel_utils.Bits.Words.Refine.{bit_at, AreWords}
use kernel_utils.Bits.Words.Search.{
  ffsl, sought, from_start, skip_words, find_at, bit_ffs_at, bit_ffc_at, IsFirst, IsAt, next_word,
  sought_on, sought_off, is_zero-bits, length-sought,
}
use kernel_utils.Bits.Words.Begin.{begin-IsAt}

-- The end of the loop: at the last word, or at one that is of use.
IsEnd : Bool → List Word → ℕ → ℕ → ℕ × Word → Type 0
IsEnd v ws start stop r =
    IsAt v ws start r.0 r.1 × (r.0 ≤ stop) × ((r.0 ≡ stop) ⊎ (is_zero (sought v r.1) ≡ false))

skip_words-IsEnd :
    (v : Bool) (n : ℕ) (ws : List Word) (start cur stop : ℕ) (test : Word)
    → AreWords ws
    → stop < length ws
    → cur + n ≡ stop
    → start < 64 * (cur + 1)
    → IsAt v ws start cur test
    → IsEnd v ws start stop (skip_words v n ws cur test)
unfolding skip_words IsEnd
skip_words-IsEnd v zero ws start cur stop test h b e s at = (at, omega arith, inl (omega arith))
skip_words-IsEnd v (suc n) ws start cur stop test h b e s at =
    elim (Bool-cases (is_zero (sought v test))) [
      | inl z ↦ rw z (
          skip_words-IsEnd v n ws start (cur + 1) stop (word ws (cur + 1)) h b (omega arith)
            (omega arith) (next_word v ws start cur test h (omega arith) s at z))
      | inr z ↦ rw z (at, omega arith, inr z)
    ]

first_set_lem :
    (xs : Word) (k : ℕ)
    → first_of true xs ≡ some k
    → (Bits.bit_test xs k ≡ true) × (k < length xs) × ((j : ℕ) → j < k → Bits.bit_test xs j ≡ false)
first_set_lem [] k e = ground (arith, e)
first_set_lem (true ∷ xs) k e =
    let z : k ≡ 0 = ground (arith, e) in rw z (refl, omega arith, (λ j h. absurd (omega arith)))
first_set_lem (false ∷ xs) k e = elim (Option-cases (first_of true xs)) [
  | inl f ↦ ground (arith, e, f)
  | inr (i, f) ↦
      let same : k ≡ suc i = ground (arith, e, f) in
      let (t, b, clear) = first_set_lem xs i f in rw same (t, omega arith, below xs i clear)
]
  where
    below :
        (xs : Word) (i : ℕ)
        → ((j : ℕ) → j < i → Bits.bit_test xs j ≡ false)
        → (j : ℕ) → j < suc i
        → Bits.bit_test (false ∷ xs) j ≡ false
    below xs i clear zero h = refl
    below xs i clear (suc j) h = clear j (omega arith)

zero_run : (n : ℕ) → is_zero (replicate n false) ≡ true
zero_run zero = refl
zero_run (suc n) = zero_run n

ffsl-none : (w : Word) → first_of true w ≡ none → ffsl w ≡ 0
ffsl-none w e = rw (e, ffsl) refl

ffsl-some : (w : Word) (k : ℕ) → first_of true w ≡ some k → ffsl w ≡ suc k
ffsl-some w k e = rw (e, ffsl) refl

not_self : (v : Bool) → v ≡ not v → ⊥
not_self true e = ground (arith, e)
not_self false e = ground (arith, e)

module _ (v : Bool) (ws : List Word) (start nbits cur : ℕ) (test : Word) (some_bits : 1 ≤ nbits)
    (at : IsAt v ws start cur test) (last : cur ≤ (nbits - 1) / 64) where
  -- A bit from `start` on whose place in its word, or an earlier word, is not `v`.
  not_here :
      (i m : ℕ)
      → start ≤ i
      → i < m
      → m ≤ 64 * cur + 64
      → ((j : ℕ) → j < 64 → 64 * cur + j < m → Bits.bit_test (sought v test) j ≡ false)
      → bit_at ws i ≡ not v
  not_here i m from to room clear = elim (Bool-cases (ltb i (64 * cur))) [
    | inl t ↦ at.before i from (ground arith)
    | inr t ↦
        let size = at.size in
        let here : i ≡ 64 * cur + i % 64 = ground arith in
        ap (bit_at ws) here
        ∙ sym (at.bits (i % 64) (omega arith) (omega arith))
        ∙ sought_off v test (i % 64) (omega arith) (clear (i % 64) (omega arith) (omega arith))
  ]

  result-IsFirst :
      (cur ≡ (nbits - 1) / 64) ⊎ (is_zero (sought v test) ≡ false)
      → IsFirst v ws start nbits (
          if (ffsl (sought v test) == 0) || leb nbits (cur * 64 + ffsl (sought v test) - 1)
          then none
          else some (cur * 64 + ffsl (sought v test) - 1))
  result-IsFirst why = elim (Option-cases (first_of true (sought v test))) [
    | inl e ↦
        let zeros = none_set (sought v test) e in
        let blank : is_zero (sought v test) ≡ true =
          ap is_zero zeros ∙ zero_run (length (sought v test)) in
        let at_end : cur ≡ (nbits - 1) / 64 = elim why [
          | inl x ↦ x
          | inr y ↦ ground (arith, blank, y)
        ] in
        rw (ffsl-none (sought v test) e) (λ i from to.
          not_here i nbits from to (omega arith) (λ j s h. is_zero-bits (sought v test) j blank))
    | inr (k, e) ↦
        let (on, inside, clear) = first_set_lem (sought v test) k e in
        let size = at.size in
        let length_k = length-sought v test in
        let value : cur * 64 + suc k - 1 ≡ 64 * cur + k = omega arith in
        let found : (suc k == 0) ≡ false = ground arith in
        let earlier : (i : ℕ) → start ≤ i → i < 64 * cur + k → bit_at ws i ≡ not v = λ i from to.
          not_here i (64 * cur + k) from to (omega arith) (λ j s h. clear j (omega arith)) in
        elim (Bool-cases (leb nbits (64 * cur + k))) [
          | inl t ↦
              rw (ffsl-some (sought v test) k e, value, found, t)
                (λ i from to. earlier i from (ground (arith, t)))
          | inr t ↦
              let is_v : Bits.bit_test test k ≡ v = sought_on v test k (omega arith) on in
              let late : start ≤ 64 * cur + k = elim (Bool-cases (ltb (64 * cur + k) start)) [
                | inl u ↦
                    absurd (not_self v (sym is_v ∙ at.skipped k (omega arith) (ground (arith, u))))
                | inr u ↦ ground (arith, u)
              ] in
              rw (ffsl-some (sought v test) k e, value, found, t)
                (late, ground (arith, t), sym (at.bits k (omega arith) late) ∙ is_v, earlier)
        ]
  ]

find_at-IsFirst :
    (v : Bool) (ws : List Word) (start nbits : ℕ)
    → AreWords ws
    → start < nbits
    → nbits ≤ 64 * length ws
    → IsFirst v ws start nbits (find_at v ws start nbits)
unfolding find_at IsEnd
find_at-IsFirst v ws start nbits h b room =
    let positive : ltb 0 nbits ≡ true = ground arith in
    let test =
      if start % 64 == 0 then word ws (start / 64) else from_start v (word ws (start / 64)) start in
    let (cur, last) = skip_words v ((nbits - 1) / 64 - start / 64) ws (start / 64) test in
    let e : IsEnd v ws start ((nbits - 1) / 64) (cur, last) =
      skip_words-IsEnd v ((nbits - 1) / 64 - start / 64) ws start (start / 64) ((nbits - 1) / 64)
        test h (omega arith) (omega arith) (omega arith) (begin-IsAt v ws start h (omega arith)) in
    rw positive (result-IsFirst v ws start nbits cur last (omega arith) e.0 e.1 e.2)

-- On words of 64 bits that have `nbits` bits, with `start` below `nbits`, `bit_ffs_at` returns the
-- first bit from `start` on and below `nbits` that is set, and -1 only if none of these is set;
-- `bit_ffc_at` does the same for a clear bit.
pub bit_ffs_at-IsFirst :
    (ws : List Word) (start nbits : ℕ)
    → AreWords ws
    → start < nbits
    → nbits ≤ 64 * length ws
    → IsFirst true ws start nbits (bit_ffs_at ws start nbits)
      × IsFirst false ws start nbits (bit_ffc_at ws start nbits)
unfolding bit_ffs_at bit_ffc_at
bit_ffs_at-IsFirst ws start nbits h b room =
    (find_at-IsFirst true ws start nbits h b room, find_at-IsFirst false ws start nbits h b room)
