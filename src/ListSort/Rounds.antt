-- ===== src/ListSort/Rounds.antt =====
-- The pending lists of `util_list_sort`.
use kernel_utils.Base.{
  ℕ, ◌+◌, ◌/◌, ◌%◌, ◌^◌, ◌≤◌, ◌<◌, suc, ◌==◌, length, arith, ◌≡◌, refl, sym, Bool, true, false,
  some, List, [], ◌∷◌, ◌++◌, append_assoc, append-nil, All, Bool-cases, inl, inr,
}
use kernel_utils.ListSort.{merge_pair, merge_round, rounds, merge_pending}
use kernel_utils.ListSort.Order.{
  IsCmp, Moves, stay, followed, IsNonempty, IsRun, Moves-prefix, Moves-suffix,
}
use kernel_utils.ListSort.Merge.{merge-IsRun}

-- There are as many pending lists as the count has binary digits.
unfoldable pub IsPending {ℓ} : {A : Type ℓ} → ℕ → List A → Type 0
IsPending count [] = count ≡ 0
IsPending count (l ∷ ls) = (1 ≤ count) × IsPending (count / 2) ls

odd_halves : (n : ℕ) → (n % 2 == 1) ≡ true → (n + 1) / 2 ≡ n / 2 + 1
odd_halves n h = ground arith

even_halves : (n : ℕ) → (n % 2 == 1) ≡ false → (n + 1) / 2 ≡ n / 2
even_halves n h = ground arith

add_zero : (n : ℕ) → n + 0 ≡ n
add_zero n = omega arith

no_wrap : (n : ℕ) → n + 1 < 2 ^ 64 → (n + 1) % 2 ^ 64 ≡ n + 1
no_wrap n h = omega arith

count_next : (n k : ℕ) → n + suc k ≡ (n + 1) + k
count_next n k = omega arith

nonzero : (n : ℕ) → 1 ≤ n → (n == 0) ≡ false
nonzero n h = ground arith

module _ {ℓ} {A : Type ℓ} where
  -- The items of the pending lists, the oldest first.
  unfoldable pub content : List (List A) → List A
  content [] = []
  content (l ∷ ls) = content ls ++ l

module _ {ℓ} {A : Type ℓ} (in_order : A → A → Bool) (c : IsCmp in_order) where
  merge_pair-Moves :
      (bits : ℕ) (l : List A) (ls : List (List A))
      → (bits % 2 == 1) ≡ false
      → IsPending bits (l ∷ ls)
      → All (IsRun in_order) (l ∷ ls)
      → (q : List (List A)) × (merge_pair in_order (l ∷ ls) ≡ some q)
        × All (IsRun in_order) q
        × IsPending ((bits + 1) / 2) q
        × Moves in_order (content (l ∷ ls)) (content q)
  unfolding merge_pair content IsPending
  merge_pair-Moves bits l [] even h runs = absurd (ground arith)
  merge_pair-Moves bits l (m ∷ older) even h (run, (run', runs)) =
      let (merged, returns, _, is_run, moves) = merge-IsRun in_order c m l run' run in
      (
        merged ∷ older,
        rw returns refl,
        (is_run, runs),
        rw (even_halves bits even) (h.1.0, h.1.1),
        rw (append_assoc (content older) m l) (Moves-prefix in_order (content older) moves),
      )

  -- With a comparison function that is a total preorder, and sorted pending lists, as many as the
  -- count has binary digits, the walk over the low bits of the count and its merge do not run into
  -- NULL; with one more list there are then as many as the next count has digits, the lists are
  -- sorted, and they hold the same items, moved only where they were out of order.
  merge_round-Moves :
      (bits : ℕ) (p : List (List A))
      → IsPending bits p
      → All (IsRun in_order) p
      → (q : List (List A)) × (merge_round in_order bits p ≡ some q)
        × All (IsRun in_order) q
        × IsPending ((bits + 1) / 2) q
        × Moves in_order (content p) (content q)
  unfolding merge_round merge_pair content IsPending
  merge_round-Moves bits [] h runs = ([], ground arith, tt, omega arith, stay)
  merge_round-Moves bits (l ∷ ls) h runs = elim (Bool-cases (bits % 2 == 1)) [
    | inl odd ↦
        let (q, returns, runs', pending, moves) = merge_round-Moves (bits / 2) ls h.1 runs.1 in
        (
          l ∷ q,
          rw (odd, returns) refl,
          (runs.0, runs'),
          (omega (arith, odd_halves bits odd), rw (odd_halves bits odd) pending),
          Moves-suffix in_order l moves,
        )
    | inr even ↦
        let (q, returns, runs', pending, moves) = merge_pair-Moves bits l ls even h runs in
        (q, rw (even, nonzero bits h.0, returns) refl, runs', pending, moves)
  ]

  pub rounds-Moves :
      (count : ℕ) (p : List (List A)) (list : List A)
      → count + length list < 2 ^ 64
      → IsPending count p
      → All (IsRun in_order) p
      → (q : List (List A)) × (rounds in_order count p list ≡ some q)
        × All (IsRun in_order) q
        × IsPending (count + length list) q
        × Moves in_order (content p ++ list) (content q)
  unfolding rounds content IsPending
  rounds-Moves count p [] b h runs =
      (p, refl, runs, rw (add_zero count) h, rw (append-nil (content p)) stay)
  rounds-Moves count p (x ∷ list) b h runs =
      let (q, returns, runs', pending, moves) = merge_round-Moves count p h runs in
      let (q', returns', runs'', pending', moves') =
        rounds-Moves (count + 1) ((x ∷ []) ∷ q) list (omega arith) (omega arith, pending)
          ((tt, (tt, tt)), runs') in
      (
        q',
        rw (returns, no_wrap count (omega arith), returns') refl,
        runs'',
        rw (count_next count (length list)) pending',
        followed (Moves-suffix in_order (x ∷ list) moves)
            (rw (sym (append_assoc (content q) (x ∷ []) list)) moves'),
      )

  pub merge_pending-Moves :
      (list : List A) (p : List (List A))
      → IsRun in_order list
      → All (IsRun in_order) p
      → IsNonempty p
      → (m : List A) × (merge_pending in_order list p ≡ some m)
        × IsRun in_order m
        × Moves in_order (content p ++ list) m
  unfolding merge_pending content
  merge_pending-Moves list [] run runs n = absurd n
  merge_pending-Moves list (oldest ∷ []) run runs n =
      let (m, _, returns, is_run, moves) = merge-IsRun in_order c oldest list runs.0 run in
      (m, returns, is_run, moves)
  merge_pending-Moves list (pending ∷ next ∷ older) run runs n =
      let (m, returns, _, is_run, moves) = merge-IsRun in_order c pending list runs.0 run in
      let (m', returns', is_run', moves') = merge_pending-Moves m (next ∷ older) is_run runs.1 tt in
      (
        m',
        rw (returns, returns') refl,
        is_run',
        followed
            (rw (append_assoc (content (next ∷ older)) pending list)
              (Moves-prefix in_order (content (next ∷ older)) moves))
            moves',
      )
