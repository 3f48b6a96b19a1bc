-- ===== src/Bits/Laws.antt =====
-- Lemmas on sequences of bits.
use kernel_utils.Base.{
  ℕ, zero, suc, ◌+◌, ◌-◌, ◌≤◌, ◌<◌, arith, ◌≡◌, refl, sym, ap, ◌∙◌, Bool, true, false, none, some,
  List, [], ◌∷◌, ◌++◌, length, append_assoc, append-nil, Option-cases, inl, inr,
}
use kernel_utils.Bits.{take, drop, replicate, count, first_of, write, bit_test, fill}

pub length-replicate : (n : ℕ) (v : Bool) → length (replicate n v) ≡ n
length-replicate zero v = refl
length-replicate (suc n) v = ap suc (length-replicate n v)

pub replicate_add : (n m : ℕ) (v : Bool) → replicate (n + m) v ≡ replicate n v ++ replicate m v
replicate_add zero m v = ap (λ k. replicate k v) (omega arith)
replicate_add (suc n) m v =
    let e : suc n + m ≡ suc (n + m) = omega arith in rw (e, replicate_add n m v)

pub replicate_snoc : (n : ℕ) (v : Bool) → replicate (n + 1) v ≡ replicate n v ++ (v ∷ [])
replicate_snoc n v = replicate_add n 1 v

pub length-take : (n : ℕ) (xs : List Bool) → n ≤ length xs → length (take n xs) ≡ n
length-take zero xs h = refl
length-take (suc n) [] h = absurd (omega arith)
length-take (suc n) (x ∷ xs) h = ap suc (length-take n xs (omega arith))

pub length-write : (xs : List Bool) (i : ℕ) (v : Bool) → length (write xs i v) ≡ length xs
length-write [] i v = refl
length-write (x ∷ xs) zero v = refl
length-write (x ∷ xs) (suc i) v = ap suc (length-write xs i v)

-- Writing just past a prefix extends it.
pub take-write :
    (i : ℕ) (xs : List Bool) (v : Bool)
    → i < length xs
    → take (i + 1) (write xs i v) ≡ take i xs ++ (v ∷ [])
take-write i [] v h = absurd (omega arith)
take-write zero (x ∷ xs) v h = refl
take-write (suc i) (x ∷ xs) v h =
    let e : suc i + 1 ≡ suc (i + 1) = omega arith in rw (e, take-write i xs v (omega arith))

pub length-fill :
    (v : Bool) (n start : ℕ) (map : List Bool) → length (fill v n start map) ≡ length map
unfolding fill
length-fill v zero start map = refl
length-fill v (suc n) start map =
    length-fill v n (start + 1) (write map start v) ∙ length-write map start v

-- Filling from the end of a prefix extends it by the filled bits.
pub take-fill :
    (v : Bool) (n start : ℕ) (map : List Bool)
    → start + n ≤ length map
    → take (start + n) (fill v n start map) ≡ take start map ++ replicate n v
unfolding fill
take-fill v zero start map h = ap (λ k. take k map) (omega arith) ∙ sym (append-nil _)
take-fill v (suc n) start map h =
    let e : start + suc n ≡ (start + 1) + n = omega arith in
    let l = length-write map start v in
    rw
      (
        e,
        take-fill v n (start + 1) (write map start v) (omega arith),
        take-write start map v (omega arith),
        append_assoc,
      )
      refl

pub count-append : (xs ys : List Bool) → count (xs ++ ys) ≡ count xs + count ys
count-append [] ys = omega arith
count-append (true ∷ xs) ys = omega (arith, count-append xs ys)
count-append (false ∷ xs) ys = count-append xs ys

pub count-replicate-true : (n : ℕ) → count (replicate n true) ≡ n
count-replicate-true zero = refl
count-replicate-true (suc n) = ap suc (count-replicate-true n)

pub count-replicate-false : (n : ℕ) → count (replicate n false) ≡ 0
count-replicate-false zero = refl
count-replicate-false (suc n) = count-replicate-false n

pub count_bound : (xs : List Bool) → count xs ≤ length xs
count_bound [] = omega arith
count_bound (true ∷ xs) = omega (arith, count_bound xs)
count_bound (false ∷ xs) = omega (arith, count_bound xs)

pub take-replicate : (n m : ℕ) (v : Bool) → n ≤ m → take n (replicate m v) ≡ replicate n v
take-replicate zero m v h = refl
take-replicate (suc n) zero v h = absurd (omega arith)
take-replicate (suc n) (suc m) v h = ap (λ xs. v ∷ xs) (take-replicate n m v (omega arith))

pub take_prefix : (n k : ℕ) (xs : List Bool) → take n (take (n + k) xs) ≡ take n xs
take_prefix zero k xs = refl
take_prefix (suc n) k [] = let e : suc n + k ≡ suc (n + k) = omega arith in rw e refl
take_prefix (suc n) k (x ∷ xs) =
    let e : suc n + k ≡ suc (n + k) = omega arith in rw (e, take_prefix n k xs) refl

pub drop_next :
    (l : ℕ) (xs : List Bool) → l < length xs → drop l xs ≡ bit_test xs l ∷ drop (l + 1) xs
drop_next l [] h = absurd (omega arith)
drop_next zero (x ∷ xs) h = refl
drop_next (suc l) (x ∷ xs) h =
    let e : suc l + 1 ≡ suc (l + 1) = omega arith in rw (e, drop_next l xs (omega arith)) refl

-- Without a bit that is clear, all of them are set, and without one that is set none is.
pub none_clear : (xs : List Bool) → first_of false xs ≡ none → xs ≡ replicate (length xs) true
none_clear [] h = refl
none_clear (true ∷ xs) h = elim (Option-cases (first_of false xs)) [
  | inl e ↦ ap (λ ys. true ∷ ys) (none_clear xs e)
  | inr (n, e) ↦ ground (arith, h, e)
]
none_clear (false ∷ xs) h = ground arith

pub none_set : (xs : List Bool) → first_of true xs ≡ none → xs ≡ replicate (length xs) false
none_set [] h = refl
none_set (false ∷ xs) h = elim (Option-cases (first_of true xs)) [
  | inl e ↦ ap (λ ys. false ∷ ys) (none_set xs e)
  | inr (n, e) ↦ ground (arith, h, e)
]
none_set (true ∷ xs) h = ground arith

-- The first clear bit: all before it are set.
pub first_clear :
    (xs : List Bool) (n : ℕ)
    → first_of false xs ≡ some n
    → (ys : List Bool) × (xs ≡ replicate n true ++ (false ∷ ys))
first_clear [] n h = ground arith
first_clear (false ∷ xs) n h = let e : n ≡ 0 = ground arith in rw e (xs, refl)
first_clear (true ∷ xs) n h = elim (Option-cases (first_of false xs)) [
  | inl e ↦ ground (arith, h, e)
  | inr (i, e) ↦
      let same : n ≡ suc i = ground (arith, h, e) in
      let (ys, k) = first_clear xs i e in rw same (ys, ap (λ zs. true ∷ zs) k)
]

pub first_set-count : (xs : List Bool) (n : ℕ) → first_of true xs ≡ some n → 1 ≤ count xs
first_set-count [] n h = ground arith
first_set-count (true ∷ xs) n h = omega arith
first_set-count (false ∷ xs) n h = elim (Option-cases (first_of true xs)) [
  | inl e ↦ ground (arith, h, e)
  | inr (i, e) ↦ first_set-count xs i e
]

pub first_clear-count : (xs : List Bool) (n : ℕ) → first_of false xs ≡ some n → count xs < length xs
first_clear-count [] n h = ground arith
first_clear-count (false ∷ xs) n h = omega (arith, count_bound xs)
first_clear-count (true ∷ xs) n h = elim (Option-cases (first_of false xs)) [
  | inl e ↦ ground (arith, h, e)
  | inr (i, e) ↦ omega (arith, first_clear-count xs i e)
]

pub replicate_cons : (n : ℕ) (v : Bool) → 1 ≤ n → replicate n v ≡ v ∷ replicate (n - 1) v
replicate_cons zero v h = absurd (omega arith)
replicate_cons (suc n) v h = ap (λ k. v ∷ replicate k v) (omega arith)
