-- ===== src/Timer/Examples.antt =====
-- Runs of the timer functions, and their theorems at a concrete queue.
use kernel_utils.Base.{
  ◌≤◌, ◌<◌, ◌^◌, ◌-◌, arith, ◌≡◌, refl, true, false, none, List, [], ◌∷◌, ◌++◌, map, All,
}
use kernel_utils.Timer.{Entry, TimerQueue, mod_timer, timer_pending, is_queued, expire_timers}
use kernel_utils.Timer.Order.{key}
use kernel_utils.Timer.Queue.{IsValid, WhatHappened, mod_timer-Placed}
use kernel_utils.Timer.Run.{init_timer_queue, modifies, starts, goes_on, Reaches-IsValid}
use kernel_utils.Timer.Laws.{expire_timers-All}

abbrev seven : Entry
seven = record { timer = 7; expires = 100 }

abbrev eight : Entry
eight = record { timer = 8; expires = 200 }

abbrev two_timers : TimerQueue
two_timers = record { all_timers = seven ∷ eight ∷ []; active_node = none }

two_timers-IsValid : IsValid two_timers
unfolding is_queued
two_timers-IsValid = record { ordered = omega arith; distinct = (refl, (refl, tt)) }

-- A timer stands behind one that expires at the same time.
test_mod_timer :
    (mod_timer 9 100 false two_timers).queue.all_timers
    ≡ seven ∷ record { timer = 9; expires = 100 } ∷ eight ∷ []
unfolding mod_timer is_queued
test_mod_timer = refl

-- A negative time has passed long ago.
test_negative : (mod_timer 9 (2 ^ 64 - 1) false two_timers).signalled ≡ true
unfolding mod_timer is_queued
test_negative = refl

test_expire_timers : (expire_timers 2 150 two_timers).0 ≡ 7 ∷ []
unfolding expire_timers
test_expire_timers = refl

mod_timer-Placed_example :
    let m = mod_timer 9 100 false two_timers in
    IsValid m.queue
    × (m.ret ≡ timer_pending 9 two_timers)
    × (m.queue.active_node ≡ none)
    × WhatHappened 9 100 false two_timers m
mod_timer-Placed_example = mod_timer-Placed 9 100 false two_timers two_timers-IsValid

Reaches-IsValid_example : IsValid (mod_timer 7 100 false init_timer_queue).queue
Reaches-IsValid_example = Reaches-IsValid (mod_timer 7 100 false init_timer_queue).queue (
    goes_on init_timer_queue (mod_timer 7 100 false init_timer_queue).queue starts
      (modifies 7 100 false init_timer_queue))

expire_timers-All_example :
    let (timers, rest) = expire_timers 2 150 two_timers in
    (due : List Entry) × (seven ∷ eight ∷ [] ≡ due ++ rest.all_timers)
    × (timers ≡ map (λ d. d.timer) due)
    × All (λ d. key d.expires ≤ key 150) due
    × All (λ d. key 150 < key d.expires) rest.all_timers
expire_timers-All_example = expire_timers-All 150 two_timers two_timers-IsValid
