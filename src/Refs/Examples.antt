-- ===== src/Refs/Examples.antt =====
-- The theorems on reference counts at concrete counts.
use kernel_utils.Base.{ℕ, ◌+◌, ◌==◌, arith, ◌≡◌, true, false, some, List, [], ◌∷◌, if◌then◌else◌}
use kernel_utils.Refs.{
  gets_not_dead, puts_not_zero, guarded_run, util_lockref_mark_dead, util_lockref_put_or_lock,
  __util_lockref_is_dead, Use, gets, puts, kref_run,
}
use kernel_utils.Refs.Laws.{unlocked, held, got, put, util_lockref_mark_dead_lem, kref_run_lem}

util_lockref_mark_dead_lem_example :
    (dead : ℕ) × (util_lockref_mark_dead (held 3) ≡ some (held dead))
    × (__util_lockref_is_dead (unlocked dead) ≡ true)
    × (guarded_run (gets_not_dead ∷ puts_not_zero ∷ []) (unlocked dead) ≡ some (0, unlocked dead))
    × (util_lockref_put_or_lock (unlocked dead) ≡ some (false, held dead))
util_lockref_mark_dead_lem_example =
    util_lockref_mark_dead_lem 3 (gets_not_dead ∷ puts_not_zero ∷ [])

abbrev uses : List Use
uses = gets ∷ puts ∷ puts ∷ []

kref_run_lem_example :
    let (released, last) = kref_run uses 1 in
    (last + put uses ≡ 1 + got uses) × (released ≡ (if last == 0 then 1 else 0))
kref_run_lem_example =
    kref_run_lem uses 1 (omega arith) (omega arith) (omega arith, (omega arith, (omega arith, tt)))
