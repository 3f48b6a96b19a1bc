-- ===== src/Bits/Writes.antt =====
-- Reads and writes of a sequence of bits in two parts, and in a run of equal bits.
use kernel_utils.Base.{
  ℕ, zero, suc, ◌+◌, ◌-◌, ◌≤◌, ◌<◌, arith, ◌≡◌, refl, sym, ap, ◌∙◌, Bool, true, false, none, some,
  List, [], ◌∷◌, ◌++◌, length, Option-cases, inl, inr,
}
use kernel_utils.Bits.{take, replicate, count, first_of, write, bit_test}

pub bit_test-left :
    (xs ys : List Bool) (i : ℕ) → i < length xs → bit_test (xs ++ ys) i ≡ bit_test xs i
bit_test-left [] ys i h = absurd (omega arith)
bit_test-left (x ∷ xs) ys zero h = refl
bit_test-left (x ∷ xs) ys (suc i) h = bit_test-left xs ys i (omega arith)

pub bit_test-right :
    (xs ys : List Bool) (i : ℕ) → bit_test (xs ++ ys) (length xs + i) ≡ bit_test ys i
bit_test-right [] ys i = ap (bit_test ys) (omega arith)
bit_test-right (x ∷ xs) ys i =
    let e : suc (length xs) + i ≡ suc (length xs + i) = omega arith in rw e (bit_test-right xs ys i)

pub write-left :
    (xs ys : List Bool) (i : ℕ) (v : Bool)
    → i < length xs
    → write (xs ++ ys) i v ≡ write xs i v ++ ys
write-left [] ys i v h = absurd (omega arith)
write-left (x ∷ xs) ys zero v h = refl
write-left (x ∷ xs) ys (suc i) v h = ap (λ zs. x ∷ zs) (write-left xs ys i v (omega arith))

pub write-right :
    (xs ys : List Bool) (i : ℕ) (v : Bool) → write (xs ++ ys) (length xs + i) v ≡ xs ++ write ys i v
write-right [] ys i v = ap (λ k. write ys k v) (omega arith)
write-right (x ∷ xs) ys i v =
    let e : suc (length xs) + i ≡ suc (length xs + i) = omega arith in
    rw e (ap (λ zs. x ∷ zs) (write-right xs ys i v))

pub bit_test-replicate : (n i : ℕ) (v : Bool) → i < n → bit_test (replicate n v) i ≡ v
bit_test-replicate zero i v h = absurd (omega arith)
bit_test-replicate (suc n) zero v h = refl
bit_test-replicate (suc n) (suc i) v h = bit_test-replicate n i v (omega arith)

-- Past the end nothing is set.
pub bit_test_beyond : (xs : List Bool) (i : ℕ) → length xs ≤ i → bit_test xs i ≡ false
bit_test_beyond [] i h = refl
bit_test_beyond (x ∷ xs) zero h = absurd (omega arith)
bit_test_beyond (x ∷ xs) (suc i) h = bit_test_beyond xs i (omega arith)

-- A write into a run cuts it in three.
pub write-replicate :
    (n i : ℕ) (u v : Bool)
    → i < n
    → write (replicate n u) i v ≡ replicate i u ++ (v ∷ replicate (n - (1 + i)) u)
write-replicate zero i u v h = absurd (omega arith)
write-replicate (suc n) zero u v h = ap (λ k. v ∷ replicate k u) (omega arith)
write-replicate (suc n) (suc i) u v h =
    let e : suc n - (1 + suc i) ≡ n - (1 + i) = omega arith in
    rw e (ap (λ zs. u ∷ zs) (write-replicate n i u v (omega arith)))

pub bit_test-take : (n i : ℕ) (xs : List Bool) → i < n → bit_test (take n xs) i ≡ bit_test xs i
bit_test-take zero i xs h = absurd (omega arith)
bit_test-take (suc n) i [] h = refl
bit_test-take (suc n) zero (x ∷ xs) h = refl
bit_test-take (suc n) (suc i) (x ∷ xs) h = bit_test-take n i xs (omega arith)

pub take-write_inside :
    (n i : ℕ) (xs : List Bool) (v : Bool) → i < n → take n (write xs i v) ≡ write (take n xs) i v
take-write_inside zero i xs v h = absurd (omega arith)
take-write_inside (suc n) i [] v h = refl
take-write_inside (suc n) zero (x ∷ xs) v h = refl
take-write_inside (suc n) (suc i) (x ∷ xs) v h =
    ap (λ zs. x ∷ zs) (take-write_inside n i xs v (omega arith))

-- A bit that changes changes the count by one.
pub count-write-true :
    (xs : List Bool) (i : ℕ)
    → i < length xs
    → bit_test xs i ≡ false
    → count (write xs i true) ≡ count xs + 1
count-write-true [] i h e = absurd (omega arith)
count-write-true (true ∷ xs) zero h e = ground arith
count-write-true (false ∷ xs) zero h e = omega arith
count-write-true (true ∷ xs) (suc i) h e = omega (arith, count-write-true xs i (omega arith) e)
count-write-true (false ∷ xs) (suc i) h e = count-write-true xs i (omega arith) e

pub count-write-false :
    (xs : List Bool) (i : ℕ) → bit_test xs i ≡ true → count (write xs i false) + 1 ≡ count xs
count-write-false [] i e = ground arith
count-write-false (true ∷ xs) zero e = omega arith
count-write-false (false ∷ xs) zero e = ground arith
count-write-false (true ∷ xs) (suc i) e = omega (arith, count-write-false xs i e)
count-write-false (false ∷ xs) (suc i) e = count-write-false xs i e

-- The first clear bit.
pub first_clear_test :
    (xs : List Bool) (n : ℕ)
    → first_of false xs ≡ some n
    → (bit_test xs n ≡ false) × (n < length xs)
first_clear_test [] n h = ground arith
first_clear_test (false ∷ xs) n h = let e : n ≡ 0 = ground arith in rw e (refl, omega arith)
first_clear_test (true ∷ xs) n h = elim (Option-cases (first_of false xs)) [
  | inl e ↦ ground (arith, h, e)
  | inr (i, e) ↦
      let same : n ≡ suc i = ground (arith, h, e) in
      let (t, b) = first_clear_test xs i e in rw same (t, omega arith)
]

-- A run of set bits in front is passed over.
pub first_of-replicate :
    (n : ℕ) (xs : List Bool) (i : ℕ)
    → first_of false xs ≡ some i
    → first_of false (replicate n true ++ xs) ≡ some (n + i)
first_of-replicate zero xs i h = h ∙ ap some (omega arith)
first_of-replicate (suc n) xs i h =
    let e : suc n + i ≡ suc (n + i) = omega arith in rw (first_of-replicate n xs i h, e) refl

pub first_of-full : (n : ℕ) → first_of false (replicate n true) ≡ none
first_of-full zero = refl
first_of-full (suc n) = rw (first_of-full n) refl

pub first_of-left :
    (xs ys : List Bool) (i : ℕ) → first_of false xs ≡ some i → first_of false (xs ++ ys) ≡ some i
first_of-left [] ys i h = ground arith
first_of-left (false ∷ xs) ys i h = h
first_of-left (true ∷ xs) ys i h = elim (Option-cases (first_of false xs)) [
  | inl e ↦ ground (arith, h, e)
  | inr (k, e) ↦
      let same : some i ≡ some (suc k) = ground (arith, h, e) in
      rw (first_of-left xs ys k e) (sym same)
]
