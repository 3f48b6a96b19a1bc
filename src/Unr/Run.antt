-- ===== src/Unr/Run.antt =====
-- Sequences of calls of `alloc_unr` and `free_unr` (unr.c), from `init_unrhdr` on, beside a set of
-- numbers.
use kernel_utils.Base.{
  ℕ, ◌+◌, ◌-◌, ◌^◌, ◌≤◌, ◌<◌, arith, ◌≡◌, ◌⊎◌, refl, ap, ◌∙◌, leb, ltb, Bool, true, false, ◌&&◌,
  not, Option, none, some, ◌>>=◌, Returns, List, [], ◌∷◌, if◌then◌else◌, Bool-cases, inl, inr,
}
use kernel_utils.Bits.{replicate, first_of, write, bit_test}
use kernel_utils.Bits.Laws.{length-replicate, count-replicate-false}
use kernel_utils.Unr.{Unrhdr, sign_bit, add_int, init_unrhdr}
use kernel_utils.Unr.Alloc.{alloc_unr}
use kernel_utils.Unr.Free.{free_unr}
use kernel_utils.Unr.View.{numbers}
use kernel_utils.Unr.Valid.{IsValid, IsNow}
use kernel_utils.Unr.Serves.{alloc_unr-Serves}
use kernel_utils.Unr.Allocates.{Serves}
use kernel_utils.Unr.Released.{free_unr-IsNow}
use kernel_utils.Unr.Faults.{free_unr_fault}

pub data Call : Type 0 where
  allocates : Call
  frees : ℕ → Call

-- The answers of the calls of `alloc_unr`; a fault ends the run.
unfoldable pub run : Unrhdr → List Call → Option (List (Option ℕ))
unfolding alloc_unr free_unr
run uh [] = some []
run uh (allocates ∷ cs) = alloc_unr uh >>= λ r. run r.1 cs >>= λ answers. some (r.0 ∷ answers)
run uh (frees item ∷ cs) = free_unr uh item >>= λ uh'. run uh' cs

-- The set of the allocated numbers from `low` on, as a sequence of bits. The lowest free number is
-- handed out; to free a number that is not allocated is a fault.
unfoldable pub replay : ℕ → List Bool → List Call → Option (List (Option ℕ))
replay low xs [] = some []
replay low xs (allocates ∷ cs) = elim (first_of false xs) [
  | none ↦ replay low xs cs >>= λ answers. some (none ∷ answers)
  | some k ↦ replay low (write xs k true) cs >>= λ answers. some (some (low + k) ∷ answers)
]
replay low xs (frees item ∷ cs) =
    if leb low item && bit_test xs (item - low)
    then replay low (write xs (item - low) false) cs
    else none

-- The rest of a run goes as that of the set, from any header.
abbrev Follows : List Call → Type 0
Follows cs =
    (low : ℕ) (xs : List Bool) (uh : Unrhdr)
    → IsValid uh
    → numbers uh ≡ xs
    → uh.low ≡ low
    → run uh cs ≡ replay low xs cs

module _ (cs : List Call) (low : ℕ) (xs : List Bool) (uh : Unrhdr) (follows : Follows cs) where
  served :
      (m : Option (Option ℕ × Unrhdr)) (k : Option ℕ)
      → numbers uh ≡ xs
      → uh.low ≡ low
      → Returns m (Serves (numbers uh) uh k)
      → (m >>= λ r. run r.1 cs >>= λ answers. some (r.0 ∷ answers)) ≡ elim k [
        | none ↦ replay low xs cs >>= λ answers. some (none ∷ answers)
        | some i ↦ replay low (write xs i true) cs >>= λ answers. some (some (low + i) ∷ answers)
      ]
  served none k e l h = absurd h
  served (some r) none e l h =
      rw (h.0, follows low xs r.1 h.1.valid (h.1.same ∙ e) (h.1.low ∙ l)) refl
  served (some r) (some i) e l h =
      rw
        (
          h.0,
          l,
          follows low (write xs i true) r.1 h.1.valid (h.1.same ∙ ap (λ ys. write ys i true) e)
              (h.1.low ∙ l),
        )
        refl

  released :
      (m : Option Unrhdr) (ys : List Bool)
      → uh.low ≡ low
      → Returns m (IsNow ys uh)
      → (m >>= λ uh'. run uh' cs) ≡ replay low ys cs
  released none ys l h = absurd h
  released (some r) ys l h = follows low ys r h.valid h.same (h.low ∙ l)

run_from : (cs : List Call) → Follows cs
unfolding run replay
run_from [] low xs uh v e l = refl
run_from (allocates ∷ cs) low xs uh v e l =
    served cs low xs uh (run_from cs) (alloc_unr uh) (first_of false xs) e l
      (rw (← e) (alloc_unr-Serves uh v))
run_from (frees item ∷ cs) low xs uh v e l = elim (Bool-cases (leb low item)) [
  | inr t ↦ rw (t, free_unr_fault uh item v (inl (ground (arith, l, t)))) refl
  | inl t ↦
      let above : uh.low ≤ item = ground (arith, l, t) in
      elim (Bool-cases (bit_test xs (item - low))) [
        | inl set ↦
            rw (t, set)
              (released cs low xs uh (run_from cs) (free_unr uh item) (write xs (item - low) false)
                l (rw (← e, ← l) (free_unr-IsNow uh item v above (rw (e, l) set))))
        | inr clear ↦
            let fault : free_unr uh item ≡ none =
              free_unr_fault uh item v (inr (rw (e, l) clear)) in
            rw (t, clear, fault) refl
      ]
]

-- On a valid header, every sequence of calls of `alloc_unr` and `free_unr` goes as on the set of
-- its allocated numbers, where the lowest free number is handed out: the answers are the same, and
-- one ends in a fault exactly if the other does, when a number is freed that is not allocated.
pub run_refines :
    (uh : Unrhdr) (cs : List Call) → IsValid uh → run uh cs ≡ replay uh.low (numbers uh) cs
run_refines uh cs v = run_from cs uh.low (numbers uh) uh v refl refl

-- Bounds in order that are not negative, and `last` is an int.
abbrev pub IsRange : ℕ → ℕ → Type 0
IsRange low high = (low ≤ high) × (high < 2 ^ 31) × (1 + (high - low) < 2 ^ 31)

IsRange-cases : (low high : ℕ) → IsRange low high ⊎ ¬ IsRange low high
IsRange-cases low high = elim (Bool-cases (leb low high)) [
  | inr t ↦ inr (λ h. ground (arith, t, h.0))
  | inl t ↦ elim (Bool-cases (ltb high (2 ^ 31))) [
    | inr u ↦ inr (λ h. ground (arith, u, h.1))
    | inl u ↦ elim (Bool-cases (ltb (1 + (high - low)) (2 ^ 31))) [
      | inr n ↦ inr (λ h. ground (arith, n, h.2))
      | inl n ↦ inl (ground (arith, t), ground (arith, u), ground (arith, n))
    ]
  ]
]

all_free :
    (low high : ℕ)
    → IsRange low high
    → Returns (init_unrhdr low high) (λ uh.
      IsValid uh
      × (numbers uh ≡ replicate (1 + (high - low)) false)
      × (uh.low ≡ low)
      × (uh.high ≡ high))
unfolding init_unrhdr add_int
all_free low high (ordered, small, narrow) =
    let positive : leb (2 ^ 31) low ≡ false = ground arith in
    let positive' : leb (2 ^ 31) high ≡ false = ground arith in
    let t : leb low high ≡ true = ground arith in
    let n : ltb (1 + (high - low)) (2 ^ 31) ≡ true = ground arith in
    let uh : Unrhdr = record {
      head = [];
      low = low;
      high = high;
      busy = 0;
      first = 0;
      last = 1 + (high - low);
      memory = record { alloc = 0; ppfree = 0; cached = 0 };
    } in
    let v : IsValid uh = record {
      tidy = record { chunks = tt; apart = tt; counted = omega arith };
      range = omega (arith, length-replicate (1 + (high - low)) false);
      busy = count-replicate-false (1 + (high - low));
      ordered = ordered;
      small = small;
    } in
    rw (positive, positive', t, n) (v, refl, refl, refl)

out_of_range : (low high : ℕ) → ¬ IsRange low high → init_unrhdr low high ≡ none
unfolding init_unrhdr add_int
out_of_range low high out =
    elim (Bool-cases (not (sign_bit low) && (not (sign_bit high) && leb low high))) [
      | inr t ↦ rw t refl
      | inl t ↦ elim (Bool-cases (ltb (1 + (high - low)) (2 ^ 31))) [
        | inl u ↦ absurd (out (ground (arith, t), ground (arith, t), ground (arith, u)))
        | inr u ↦ rw (t, u) refl
      ]
    ]

-- For two ints, kept as their bits, `init_unrhdr` gives a valid header in which the numbers from
-- `low` to `high` are free, if they are in order, neither is negative, and `1 + (high - low)` is an
-- int too. For all others it ends in a fault: the assertion or, as from 0 to INT_MAX, the overflow.
pub init_unrhdr-IsValid :
    (low high : ℕ)
    → (IsRange low high
        × Returns (init_unrhdr low high) (λ uh.
          IsValid uh
          × (numbers uh ≡ replicate (1 + (high - low)) false)
          × (uh.low ≡ low)
          × (uh.high ≡ high)))
      ⊎ (¬ IsRange low high × (init_unrhdr low high ≡ none))
init_unrhdr-IsValid low high = elim (IsRange-cases low high) [
  | inl h ↦ inl (h, all_free low high h)
  | inr h ↦ inr (h, out_of_range low high h)
]
