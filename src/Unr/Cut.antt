-- ===== src/Unr/Cut.antt =====
-- The runs that unr.c cuts off before and after a number.
use kernel_utils.Base.{
  ℕ, ◌+◌, ◌-◌, ◌^◌, ◌==◌, ◌≤◌, ◌<◌, min, arith, ◌≡◌, refl, sym, ap, ◌∙◌, ltb, Bool, true, false,
  Option, ◌>>=◌, Returns, Returns->>=, List, [], ◌∷◌, ◌++◌, append_assoc, append-nil, All,
  Bool-cases, inl, inr,
}
use kernel_utils.Bits.{replicate}
use kernel_utils.Unr.{Unr, free_run, allocated_run, Memory, new_unr, rewind}
use kernel_utils.Unr.Alloc.{new_run}
use kernel_utils.Unr.View.{
  items, all_items, total, pieces_of, IsChunk, free, allocated, mixed, kind, IsApart,
  IsApart-mixed_left, IsBetween, IsBetween-weaken, IsBehind, IsBehind-cons, nearest,
  all_items_split, total-rewind,
}
use kernel_utils.Unr.Valid.{before_place, after_place}
use kernel_utils.Unr.Bitmaps.{IsCounted}
use kernel_utils.Unr.Settle.{IsAround}

-- A run of `n`, which is a chunk if `n` is not 0.
pub record IsRunOf (n : ℕ) (u : Unr) : Type 0 where
  pub chunk : 1 ≤ n → IsChunk u
  pub nothing : n ≡ 0 → items u ≡ []
  pub one : pieces_of u ≡ 1

pub free_run-IsRunOf : (n : ℕ) → n ≤ 2 ^ 31 → IsRunOf n (free_run n)
free_run-IsRunOf n h = record { chunk = λ p. (p, h); nothing = λ e. rw e refl; one = refl }

pub allocated_run-IsRunOf : (n : ℕ) → n ≤ 2 ^ 31 → IsRunOf n (allocated_run n)
allocated_run-IsRunOf n h = record { chunk = λ p. (p, h); nothing = λ e. rw e refl; one = refl }

-- The memory after a chunk has been taken for the run, if it is one.
pub record IsTaken (n : ℕ) (us : List Unr) (m : Memory) (r : Memory × List Unr) : Type 0 where
  pub alloc : r.0.alloc + total us ≡ m.alloc + total r.1
  pub cached : r.0.cached + min n 1 ≡ m.cached
  pub little : total r.1 ≤ total us + min n 1

pub before_place-cons :
    (first : ℕ) (u : Unr) (before : List Unr)
    → before_place first (u ∷ before) ≡ before_place first before ++ items u
before_place-cons first u before =
    ap (λ xs. replicate first true ++ xs) (all_items_split before (u ∷ []))
    ∙ ap (λ xs. replicate first true ++ (all_items (rewind before []) ++ xs)) (append-nil (items u))
    ∙ sym (append_assoc (replicate first true) (all_items (rewind before [])) (items u))

module _ (n : ℕ) (u : Unr) (m : Memory) (is_run : IsRunOf n u) (there : min n 1 ≤ m.cached)
    (small : m.alloc < 2 ^ 32 - 1) where
  abbrev pub IsCutAfter : List Unr → Memory × List Unr → Type 0
  IsCutAfter after r =
      IsTaken n after m r
      × All IsChunk r.1
      × IsBetween mixed r.1 free
      × (all_items r.1 ≡ items u ++ all_items after)

  pub cut_after :
      (after : List Unr)
      → All IsChunk after
      → IsBetween (kind u) after free
      → Returns (new_run m n after u) (IsCutAfter after)
  unfolding new_run new_unr
  cut_after after h b = elim (Bool-cases (ltb 0 n)) [
    | inl t ↦
        let positive : 1 ≤ n = ground arith in
        let some_left : (m.cached == 0) ≡ false = ground arith in
        let one = is_run.one in
        rw (t, some_left)
          (
            record { alloc = omega arith; cached = omega arith; little = omega arith },
            (is_run.chunk positive, h),
            (IsApart-mixed_left (kind u), b),
            refl,
          )
    | inr t ↦
        let zero_long : n ≡ 0 = ground arith in
        rw t (
          record { alloc = refl; cached = omega arith; little = omega arith },
          h,
          IsBetween-weaken (kind u) free after b,
          rw (is_run.nothing zero_long) refl,
        )
  ]

  abbrev pub IsCutBefore : ℕ → List Unr → Memory × List Unr → Type 0
  IsCutBefore first before r =
      IsTaken n before m r
      × All IsChunk r.1
      × IsBehind allocated r.1
      × (before_place first r.1 ≡ before_place first before ++ items u)

  pub cut_before :
      (first : ℕ) (before : List Unr)
      → All IsChunk before
      → IsBehind allocated before
      → (1 ≤ n → IsApart (nearest allocated before) (kind u))
      → Returns (new_run m n before u) (IsCutBefore first before)
  unfolding new_run new_unr
  cut_before first before h b a = elim (Bool-cases (ltb 0 n)) [
    | inl t ↦
        let positive : 1 ≤ n = ground arith in
        let some_left : (m.cached == 0) ≡ false = ground arith in
        let one = is_run.one in
        rw (t, some_left)
          (
            record { alloc = omega arith; cached = omega arith; little = omega arith },
            (is_run.chunk positive, h),
            IsBehind-cons allocated u before b (a positive),
            before_place-cons first u before,
          )
    | inr t ↦
        let zero_long : n ≡ 0 = ground arith in
        rw t (
          record { alloc = refl; cached = omega arith; little = omega arith },
          h,
          b,
          rw (is_run.nothing zero_long) (sym (append-nil (before_place first before))),
        )
  ]

-- A place with runs cut off before and after it.
pub record IsSplit (first last : ℕ) (before after : List Unr) (head up tail : Unr)
    (r s : Memory × List Unr) : Type 0 where
  pub around : IsAround (record { before = s.1; up = up; after = r.1 })
  pub counted : IsCounted s.0 (total (rewind s.1 (up ∷ r.1)))
  pub same :
      before_place first s.1 ++ (items up ++ after_place r.1 last)
      ≡ before_place first before
        ++ ((items head ++ (items up ++ items tail)) ++ after_place after last)

pub cut_around {ℓ} :
    {B : Type ℓ} (first last k l : ℕ) (before after : List Unr) (head up tail : Unr) (m : Memory)
    (finish : Memory × List Unr → Memory × List Unr → Option B) (P : B → Type 0)
    → IsRunOf k head
    → IsRunOf l tail
    → pieces_of up ≡ 1
    → min k 1 + min l 1 ≤ m.cached
    → IsCounted m (total before + (1 + total after))
    → m.alloc < 2 ^ 32 - 3
    → All IsChunk before
    → All IsChunk after
    → IsBehind allocated before
    → (1 ≤ k → IsApart (nearest allocated before) (kind head))
    → IsBetween (kind tail) after free
    → ((r s : Memory × List Unr)
        → IsSplit first last before after head up tail r s
        → Returns (finish r s) P)
    → Returns (new_run m l after tail >>= λ r. new_run r.0 k before head >>= λ s. finish r s) P
cut_around first last k l before after head up tail m finish P ih it one c n small hb ha b a t f =
    Returns->>= (new_run m l after tail) _
      (IsCutAfter l tail m it (omega arith) (omega arith) after) P
      (cut_after l tail m it (omega arith) (omega arith) after ha t)
      (λ r (taken, chunks, ahead, tail_items).
        let room : min k 1 ≤ r.0.cached = omega (arith, taken.cached) in
        let fits : r.0.alloc < 2 ^ 32 - 1 = omega (arith, taken.alloc, taken.little) in
        Returns->>= (new_run r.0 k before head) _ (IsCutBefore k head r.0 ih room fits first before)
          P (cut_before k head r.0 ih room fits first before hb b a)
          (λ s (taken', chunks', behind, head_items). f r s (record {
            around = record { before = chunks'; after = chunks; behind = behind; ahead = ahead };
            counted = omega (
              arith,
              taken.alloc,
              taken'.alloc,
              taken.little,
              taken'.little,
              one,
              total-rewind s.1 (up ∷ r.1),
            );
            same =
                rw (head_items, tail_items)
                  (shuffle (before_place first before) (items head) (items up) (items tail)
                    (all_items after) (replicate last false));
          })))
  where
    shuffle :
        (xs h u t ys zs : List Bool)
        → (xs ++ h) ++ (u ++ ((t ++ ys) ++ zs)) ≡ xs ++ ((h ++ (u ++ t)) ++ (ys ++ zs))
    shuffle xs h u t ys zs = simp append_assoc
