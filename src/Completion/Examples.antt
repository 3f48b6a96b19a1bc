-- ===== src/Completion/Examples.antt =====
-- The theorems on completions at concrete runs.
use kernel_utils.Base.{ℕ, ◌+◌, ◌-◌, ◌^◌, ◌≤◌, ◌<◌, arith, ◌≡◌, refl, some, List, [], ◌∷◌, ◌⊎◌}
use kernel_utils.Completion.{
  uint_max, util_complete, util_complete_all, consume, util_wait_for_completion_timeout, Event,
  completes, waits, tries, run,
}
use kernel_utils.Completion.Laws.{
  completed, waited, run_counts, run-util_complete_all, util_wait_for_completion_timeout_lem,
}

abbrev events : List Event
events = completes ∷ completes ∷ waits ∷ []

run_counts_example : 0 + completed events ≡ 1 + waited events
unfolding run util_complete consume completed
run_counts_example = run_counts events 0 1 (tt, (tt, (tt, tt))) (omega arith) refl

run-util_complete_all_example :
    run (waits ∷ completes ∷ tries ∷ waits ∷ []) (util_complete_all 0) ≡ some uint_max
run-util_complete_all_example =
    run-util_complete_all (waits ∷ completes ∷ tries ∷ waits ∷ []) 0 (tt, (tt, (tt, (tt, tt))))

abbrev ready : ℕ
ready = 1

-- The end of the wait comes between the two readings of the clock.
util_wait_for_completion_timeout_lem_example :
    let (ret, after) = util_wait_for_completion_timeout 100 99 100 ready in
    ((ready ≡ 0) × (ret ≡ 0) × (after ≡ 0))
    ⊎ ((1 ≤ ready)
        × (after ≡ consume ready)
        × (((100 ≤ 99) × (ret ≡ 1))
            ⊎ ((100 < 100) × (ret + 100 ≡ 100))
            ⊎ ((99 < 100) × (◌≡◌ {A = ℕ} 100 100) × (ret ≡ 0))
            ⊎ ((99 < 100) × (100 < 100) × (ret + (100 - 100) ≡ 2 ^ 64))))
util_wait_for_completion_timeout_lem_example =
    util_wait_for_completion_timeout_lem 100 99 100 ready (omega arith) (omega arith) (omega arith)
