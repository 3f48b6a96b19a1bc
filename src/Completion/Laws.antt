-- ===== src/Completion/Laws.antt =====
-- Runs of the operations on a completion, and the wait with a time limit.
use kernel_utils.Base.{
  ℕ, suc, ◌+◌, ◌-◌, ◌^◌, ◌≤◌, ◌<◌, arith, ◌≡◌, refl, some, List, [], ◌∷◌, All, ◌⊎◌, zero,
}
use kernel_utils.Completion.{
  uint_max, util_complete, util_complete_all, consume, util_wait_for_completion,
  util_try_wait_for_completion, util_wait_for_completion_timeout, Event, completes, completes_all,
  waits, tries, reinits, step, run,
}

-- Events that neither complete all nor start anew.
abbrev pub IsCounted : Event → Type 0
IsCounted completes = Unit
IsCounted waits = Unit
IsCounted tries = ⊥
IsCounted completes_all = ⊥
IsCounted reinits = ⊥

unfoldable pub completed : List Event → ℕ
completed [] = 0
completed (completes ∷ es) = suc (completed es)
completed (completes_all ∷ es) = completed es
completed (waits ∷ es) = completed es
completed (tries ∷ es) = completed es
completed (reinits ∷ es) = completed es

unfoldable pub waited : List Event → ℕ
waited [] = 0
waited (waits ∷ es) = suc (waited es)
waited (completes ∷ es) = waited es
waited (completes_all ∷ es) = waited es
waited (tries ∷ es) = waited es
waited (reinits ∷ es) = waited es

complete_next : (done : ℕ) → done < uint_max → util_complete done ≡ suc done
unfolding util_complete
complete_next done b = ground arith

wait_next : (done : ℕ) → suc done < uint_max → util_wait_for_completion (suc done) ≡ some done
unfolding util_wait_for_completion consume
wait_next done b = ground arith

-- In a run of completions and of waits that end, from a count on that stays below UINT_MAX with all
-- of the completions added, each wait has used up one completion: the count at the end and the
-- waits are the count at the start and the completions.
pub run_counts :
    (es : List Event) (done after : ℕ)
    → All IsCounted es
    → done + completed es < uint_max
    → run es done ≡ some after
    → done + completed es ≡ after + waited es
unfolding run step util_complete util_wait_for_completion consume completed waited
run_counts [] done after h b e = ground arith
run_counts (completes ∷ es) done after h b e =
    let next : run es (suc done) ≡ some after = rw (complete_next done (omega arith)) at e in
    let rest = run_counts es (suc done) after h.1 (omega arith) next in omega arith
run_counts (waits ∷ es) zero after h b e = cc
run_counts (waits ∷ es) (suc done) after h b e =
    let next : run es done ≡ some after = rw (wait_next done (omega arith)) at e in
    let rest = run_counts es done after h.1 (omega arith) next in omega arith
run_counts (tries ∷ es) done after h b e = absurd h.0
run_counts (completes_all ∷ es) done after h b e = absurd h.0
run_counts (reinits ∷ es) done after h b e = absurd h.0

-- After `util_complete_all` every wait ends, until the completion starts anew.
abbrev pub IsNotReinit : Event → Type 0
IsNotReinit completes = Unit
IsNotReinit waits = Unit
IsNotReinit tries = Unit
IsNotReinit completes_all = Unit
IsNotReinit reinits = ⊥

-- After `util_complete_all` every run without a new start goes through: each wait in it ends, and
-- the count is UINT_MAX at its end.
pub run-util_complete_all :
    (es : List Event) (done : ℕ)
    → All IsNotReinit es
    → run es (util_complete_all done) ≡ some uint_max
unfolding run step util_complete util_complete_all util_wait_for_completion
    util_try_wait_for_completion consume
run-util_complete_all [] done h = refl
run-util_complete_all (completes ∷ es) done h = run-util_complete_all es done h.1
run-util_complete_all (completes_all ∷ es) done h = run-util_complete_all es done h.1
run-util_complete_all (waits ∷ es) done h = run-util_complete_all es done h.1
run-util_complete_all (tries ∷ es) done h = run-util_complete_all es done h.1
run-util_complete_all (reinits ∷ es) done h = absurd h.0

-- `util_wait_for_completion_timeout`, whose clock does not go back, returns 0 if nothing was complete.
-- If something was, it returns 1 after the end, and what is left until the end before it; but where
-- the end comes between the two readings of the clock, it returns 0 as well at the end itself, and
-- 2^64 less what has passed since after it.
pub util_wait_for_completion_timeout_lem :
    (end now now_again done : ℕ)
    → now ≤ now_again
    → now_again < 2 ^ 64
    → end < 2 ^ 64
    → let (ret, after) = util_wait_for_completion_timeout end now now_again done in
      ((done ≡ 0) × (ret ≡ 0) × (after ≡ 0))
      ⊎ ((1 ≤ done)
          × (after ≡ consume done)
          × (((end ≤ now) × (ret ≡ 1))
              ⊎ ((now_again < end) × (ret + now_again ≡ end))
              ⊎ ((now < end) × (now_again ≡ end) × (ret ≡ 0))
              ⊎ ((now < end) × (end < now_again) × (ret + (now_again - end) ≡ 2 ^ 64))))
unfolding util_wait_for_completion_timeout
util_wait_for_completion_timeout_lem end now now_again done m b c = ground arith
