-- ===== src/Refs.antt =====
-- The reference counts of lockref.c and kref.h. A count is an int, kept as its 32 bits: it is negative
-- from 2^31 on.
pub mod Laws
mod Examples
use kernel_utils.Base.{
  ℕ, ◌+◌, ◌-◌, ◌%◌, ◌^◌, ◌==◌, leb, ltb, Bool, true, false, ◌||◌, Option, none, some, ◌>>=◌, List,
  [], ◌∷◌, if◌then◌else◌,
}

-- `struct lockref`: the count, and whether somebody holds the lock.
pub record Lockref : Type 0 where
  pub locked : Bool
  pub count : ℕ

abbrev pub is_negative : ℕ → Bool
is_negative n = leb (2 ^ 31) n

-- `count <= 1`, as ints.
abbrev pub at_most_one : ℕ → Bool
at_most_one n = is_negative n || leb n 1

-- `pthread_mutex_lock` around an operation: it does not run while somebody holds the lock.
abbrev pub with_lock {ℓ} : {A : Type ℓ} → Lockref → A → Option A
with_lock r a = if r.locked then none else some a

unfoldable pub util_lockref_get : Lockref → Option Lockref
util_lockref_get r = with_lock r (record { locked = false; count = (r.count + 1) % 2 ^ 32 })

unfoldable pub util_lockref_get_not_dead : Lockref → Option (Bool × Lockref)
util_lockref_get_not_dead r = with_lock r (
    if is_negative r.count
    then (false, r)
    else (true, record { locked = false; count = (r.count + 1) % 2 ^ 32 }))

-- The assertion wants the lock to be held; -128 is stored.
unfoldable pub util_lockref_mark_dead : Lockref → Option Lockref
util_lockref_mark_dead r =
    if r.locked then some (record { locked = true; count = 2 ^ 32 - 128 }) else none

-- Where the count does not go down, the lock is held on return.
unfoldable pub util_lockref_put_or_lock : Lockref → Option (Bool × Lockref)
util_lockref_put_or_lock r = with_lock r (
    if at_most_one r.count
    then (false, record { locked = true; count = r.count })
    else (true, record { locked = false; count = r.count - 1 }))

unfoldable pub util_lockref_put_not_zero : Lockref → Option (Bool × Lockref)
util_lockref_put_not_zero r = with_lock r (
    if at_most_one r.count
    then (false, r)
    else (true, record { locked = false; count = r.count - 1 }))

unfoldable pub __util_lockref_is_dead : Lockref → Bool
__util_lockref_is_dead r = is_negative r.count

-- The operations that look at the count first, with the lock free before and after each.
pub data Guarded : Type 0 where
  gets_not_dead puts_not_zero : Guarded

unfoldable pub guarded : Guarded → Lockref → Option (Bool × Lockref)
unfolding util_lockref_get_not_dead util_lockref_put_not_zero
guarded gets_not_dead r = util_lockref_get_not_dead r
guarded puts_not_zero r = util_lockref_put_not_zero r

-- How many of them in a row have returned 1, and the lockref at the end.
unfoldable pub guarded_run : List Guarded → Lockref → Option (ℕ × Lockref)
unfolding guarded
guarded_run [] r = some (0, r)
guarded_run (g ∷ gs) r = guarded g r >>= λ first.
    guarded_run gs first.1 >>= λ rest. some ((if first.0 then 1 else 0) + rest.0, rest.1)

-- `kref_init`, `kref_get` and `kref_put`, which tells whether `release` was called.
abbrev pub kref_init : ℕ
kref_init = 1

unfoldable pub kref_get : ℕ → ℕ
kref_get refcount = (refcount + 1) % 2 ^ 32

unfoldable pub kref_put : ℕ → Bool × ℕ
kref_put refcount = let next = (refcount + (2 ^ 32 - 1)) % 2 ^ 32 in (next == 0, next)

-- The holders of a kref: they get and put references.
pub data Use : Type 0 where
  gets puts : Use

-- How often `release` was called in a run, and the count at its end.
unfoldable pub kref_run : List Use → ℕ → ℕ × ℕ
unfolding kref_get kref_put
kref_run [] n = (0, n)
kref_run (gets ∷ us) n = kref_run us (kref_get n)
kref_run (puts ∷ us) n =
    let (released, next) = kref_put n in
    let (more, last) = kref_run us next in ((if released then 1 else 0) + more, last)
