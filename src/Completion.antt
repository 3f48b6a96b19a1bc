-- ===== src/Completion.antt =====
-- completion.c and completion.h. The state is `done`, 32 bits wide; every operation holds the lock from
-- its check to its change, so that it is one step.
pub mod Laws
mod Examples
use kernel_utils.Base.{
  ℕ, ◌+◌, ◌-◌, ◌%◌, ◌^◌, ◌==◌, ltb, Bool, true, false, Option, none, some, List, [], ◌∷◌, ◌>>=◌,
  if◌then◌else◌,
}

abbrev pub uint_max : ℕ
uint_max = 2 ^ 32 - 1

unfoldable pub util_reinit_completion : ℕ → ℕ
util_reinit_completion done = 0

unfoldable pub util_complete : ℕ → ℕ
util_complete done = if done == uint_max then done else (done + 1) % 2 ^ 32

unfoldable pub util_complete_all : ℕ → ℕ
util_complete_all done = uint_max

-- What a waiter leaves that found `done` not zero.
unfoldable pub consume : ℕ → ℕ
consume done = if done == uint_max then done else done - 1

-- The wait ends when `done` is not zero; until then the thread sleeps, which is no step.
unfoldable pub util_wait_for_completion : ℕ → Option ℕ
unfolding consume
util_wait_for_completion done = if done == 0 then none else some (consume done)

unfoldable pub util_try_wait_for_completion : ℕ → Bool × ℕ
unfolding consume
util_try_wait_for_completion done = if done == 0 then (false, done) else (true, consume done)

unfoldable pub util_completion_done : ℕ → Bool
util_completion_done done = if done == 0 then false else true

-- What is found when the wait is over, by a signal or by the time. The clock is read twice then,
-- first as `now` and then as `now_again`.
unfoldable pub util_wait_for_completion_timeout : ℕ → ℕ → ℕ → ℕ → ℕ × ℕ
unfolding consume
util_wait_for_completion_timeout end now now_again done =
    if done == 0
    then (0, done)
    else (if ltb now end then (end + 2 ^ 64 - now_again) % 2 ^ 64 else 1, consume done)

-- What the threads do to one completion, in the order of the lock.
pub data Event : Type 0 where
  completes completes_all waits tries reinits : Event

-- A wait that has not ended is not among the events.
unfoldable pub step : Event → ℕ → Option ℕ
unfolding util_complete util_complete_all util_wait_for_completion util_try_wait_for_completion
    util_reinit_completion
step completes done = some (util_complete done)
step completes_all done = some (util_complete_all done)
step waits done = util_wait_for_completion done
step tries done = some (util_try_wait_for_completion done).1
step reinits done = some (util_reinit_completion done)

unfoldable pub run : List Event → ℕ → Option ℕ
unfolding step
run [] done = some done
run (e ∷ es) done = step e done >>= λ next. run es next
