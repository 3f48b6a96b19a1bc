-- ===== src/Refs/Laws.antt =====
-- Runs of the operations on reference counts.
use kernel_utils.Base.{
  ℕ, suc, ◌+◌, ◌-◌, ◌%◌, ◌^◌, ◌≤◌, ◌<◌, ◌==◌, arith, ◌∙◌, ◌≡◌, refl, true, false, some, List, [],
  ◌∷◌, if◌then◌else◌,
}
use kernel_utils.Refs.{
  Guarded, gets_not_dead, puts_not_zero, guarded_run, Lockref, is_negative, at_most_one,
  util_lockref_get_not_dead, util_lockref_mark_dead, util_lockref_put_or_lock,
  util_lockref_put_not_zero, __util_lockref_is_dead, kref_get, kref_put, Use, gets, puts, kref_run,
}

alive : (n : ℕ) → n < 2 ^ 31 - 1 → is_negative n ≡ false
alive n b = ground arith

next : (n : ℕ) → n < 2 ^ 31 - 1 → (n + 1) % 2 ^ 32 ≡ n + 1
next n b = omega arith

many : (n : ℕ) → 1 ≤ n → n < 2 ^ 31 - 1 → at_most_one (n + 1) ≡ false
many n a b = ground arith

back : (n : ℕ) → n + 1 - 1 ≡ n
back n = omega arith

abbrev pub unlocked : ℕ → Lockref
unlocked n = record { locked = false; count = n }

abbrev pub held : ℕ → Lockref
held n = record { locked = true; count = n }

-- No operation that looks at the count first changes a dead lockref.
dead_run :
    (gs : List Guarded) (n : ℕ)
    → __util_lockref_is_dead (unlocked n) ≡ true
    → guarded_run gs (unlocked n) ≡ some (0, unlocked n)
unfolding guarded_run __util_lockref_is_dead
dead_run [] n d = refl
dead_run (gets_not_dead ∷ gs) n d = rw (d, guarded_run, dead_run gs n d) refl
dead_run (puts_not_zero ∷ gs) n d = rw (d, guarded_run, dead_run gs n d) refl

-- The holder of the lock marks a lockref dead. From then on, in any sequence of
-- `util_lockref_get_not_dead` and `util_lockref_put_not_zero`, all of them return 0 and the lockref
-- stays as it is; `util_lockref_put_or_lock` returns 0 with the lock held.
pub util_lockref_mark_dead_lem :
    (n : ℕ) (gs : List Guarded)
    → (dead : ℕ) × (util_lockref_mark_dead (held n) ≡ some (held dead))
      × (__util_lockref_is_dead (unlocked dead) ≡ true)
      × (guarded_run gs (unlocked dead) ≡ some (0, unlocked dead))
      × (util_lockref_put_or_lock (unlocked dead) ≡ some (false, held dead))
unfolding util_lockref_mark_dead __util_lockref_is_dead util_lockref_put_or_lock
util_lockref_mark_dead_lem n gs = (2 ^ 32 - 128, refl, refl, dead_run gs (2 ^ 32 - 128) refl, refl)

-- On an unlocked lockref with one or more references, far enough from the largest int,
-- `util_lockref_get_not_dead` gets a reference, and either put gives it back. The last reference is
-- not put: `util_lockref_put_not_zero` leaves it alone, and `util_lockref_put_or_lock` returns with
-- the lock held.
pub util_lockref_put_lem :
    (n : ℕ)
    → 1 ≤ n
    → n < 2 ^ 31 - 1
    → (util_lockref_get_not_dead (unlocked n) ≡ some (true, unlocked (n + 1)))
      × (util_lockref_put_not_zero (unlocked (n + 1)) ≡ some (true, unlocked n))
      × (util_lockref_put_or_lock (unlocked (n + 1)) ≡ some (true, unlocked n))
      × (util_lockref_put_not_zero (unlocked 1) ≡ some (false, unlocked 1))
      × (util_lockref_put_or_lock (unlocked 1) ≡ some (false, held 1))
unfolding util_lockref_get_not_dead util_lockref_put_not_zero util_lockref_put_or_lock
util_lockref_put_lem n a b = (
  rw (alive n b, next n b) refl,
  rw (many n a b, back n) refl,
  rw (many n a b, back n) refl,
  refl,
  refl,
)

-- The holders use a kref only while it counts a reference.
abbrev pub IsHeld : ℕ → List Use → Type 0
IsHeld n [] = Unit
IsHeld n (gets ∷ us) = (1 ≤ n) × IsHeld (n + 1) us
IsHeld n (puts ∷ us) = (1 ≤ n) × IsHeld (n - 1) us

abbrev pub got : List Use → ℕ
got [] = 0
got (gets ∷ us) = suc (got us)
got (puts ∷ us) = got us

abbrev pub put : List Use → ℕ
put [] = 0
put (gets ∷ us) = put us
put (puts ∷ us) = suc (put us)

zero_add : (n : ℕ) → 0 + n ≡ n
zero_add n = omega arith

one_less : (n : ℕ) → 1 ≤ n → n < 2 ^ 32 → (n + (2 ^ 32 - 1)) % 2 ^ 32 ≡ n - 1
one_less n a b = omega arith

not_last : (n : ℕ) → 1 ≤ n → (n == 0) ≡ false
not_last n a = ground arith

IsHeld-some : (n : ℕ) (u : Use) (us : List Use) → IsHeld n (u ∷ us) → 1 ≤ n
IsHeld-some n gets us h = h.0
IsHeld-some n puts us h = h.0

-- From one or more references on, with fewer gets than would overflow, and holders that use the
-- kref only while it counts a reference, the count at the end of a run is right: what it was, with
-- the gets and without the puts. `release` has been called once if it is zero, and never otherwise.
pub kref_run_lem :
    (us : List Use) (n : ℕ)
    → 1 ≤ n
    → n + got us < 2 ^ 32
    → IsHeld n us
    → let (released, last) = kref_run us n in
      (last + put us ≡ n + got us) × (released ≡ (if last == 0 then 1 else 0))
unfolding kref_run kref_get kref_put
kref_run_lem [] n a b h = (refl, ground arith)
kref_run_lem (gets ∷ us) n a b h =
    let more : (n + 1) % 2 ^ 32 ≡ n + 1 = omega arith in
    let (counted, released) = kref_run_lem us (n + 1) (omega arith) (omega arith) h.1 in
    rw (more, kref_run) (omega arith, released)
kref_run_lem (puts ∷ []) n a b h =
    rw (one_less n a (omega arith), kref_run) (omega arith, ground arith)
kref_run_lem (puts ∷ u ∷ us) n a b h =
    let some_left = IsHeld-some (n - 1) u us h.1 in
    let (counted, released) = kref_run_lem (u ∷ us) (n - 1) some_left (omega arith) h.1 in
    rw (one_less n a (omega arith), not_last (n - 1) some_left, kref_run)
      (omega arith, zero_add _ ∙ released)
