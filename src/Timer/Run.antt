-- ===== src/Timer/Run.antt =====
-- The timer thread of timer.c beside the callers of the timer functions. Each of them holds the
-- queue's mutex from one step to the next; while a timer's function runs the mutex is free.
use kernel_utils.Base.{
  ℕ, suc, ◌≤◌, ◌<◌, ◌≡◌, refl, sym, ap, ◌∙◌, Bool, true, false, Option, none, some, List, [], ◌∷◌,
  All, if◌then◌else◌, Bool-cases, inl, inr, ◌⊎◌,
}
use kernel_utils.Timer.{
  long_ltb, Entry, TimerQueue, detach_if_pending, mod_timer, util_add_timer, util_mod_timer,
  util_del_timer, util_try_to_del_timer_sync, is_queued, timer_pending, fire, finish,
}
use kernel_utils.Timer.Order.{key, key_before, key_not_before, IsOrdered, IsDistinct, All-from}
use kernel_utils.Timer.Queue.{
  IsValid, mod_timer-Placed, detach_if_pending-Detached, util_try_to_del_timer_sync-Detached,
}

-- `init_timer_queue`.
abbrev pub init_timer_queue : TimerQueue
init_timer_queue = record { all_timers = []; active_node = none }

pub data Step : TimerQueue → TimerQueue → Type 0 where
  modifies :
      (t expires : ℕ) (pending_only : Bool) (q : TimerQueue)
      → Step q (mod_timer t expires pending_only q).queue
  adds : (t expires : ℕ) (q r : TimerQueue) → util_add_timer t expires q ≡ some r → Step q r
  deletes : (t : ℕ) (q : TimerQueue) → Step q (util_del_timer t q).1
  tries_to_delete : (t : ℕ) (q : TimerQueue) → Step q (util_try_to_del_timer_sync t q).1
  fires :
      (now t : ℕ) (q r : TimerQueue) → q.active_node ≡ none → fire now q ≡ some (t, r) → Step q r
  finishes : (t : ℕ) (q : TimerQueue) → q.active_node ≡ some t → Step q (finish q)

-- The queues that come up.
pub data Reaches : TimerQueue → Type 0 where
  starts : Reaches init_timer_queue
  goes_on : (q r : TimerQueue) → Reaches q → Step q r → Reaches r

-- Whether and how the thread takes out a timer.
abbrev pub FiresFirst : ℕ → TimerQueue → Type 0
FiresFirst now q =
    ((fire now q ≡ none) × All (λ d. key now < key d.expires) q.all_timers)
    ⊎ ((c : Entry) × (cs : List Entry) × (q.all_timers ≡ c ∷ cs)
        × (fire now q ≡ some (c.timer, record { all_timers = cs; active_node = some c.timer }))
        × (key c.expires ≤ key now)
        × All (λ d. key c.expires ≤ key d.expires) cs
        × (is_queued c.timer cs ≡ false)
        × IsValid (record { all_timers = cs; active_node = some c.timer }))

fire_first :
    (now : ℕ) (cs : List Entry) (active : Option ℕ)
    → IsOrdered cs
    → IsDistinct cs
    → FiresFirst now (record { all_timers = cs; active_node = active })
unfolding fire
fire_first now [] active o d = inl (refl, tt)
fire_first now (c ∷ cs) active o d = elim (Bool-cases (long_ltb now c.expires)) [
  | inl early ↦
      let before = key_before now c.expires early in
      inl (rw early refl, (before, All-from (suc (key now)) (key c.expires) cs before o.0))
  | inr due ↦ inr (
    c,
    cs,
    refl,
    rw due refl,
    key_not_before now c.expires due,
    o.0,
    d.0,
    record { ordered = o.1; distinct = d.1 },
  )
]

-- On a valid queue the thread takes out the first timer if it has expired: one that expires no later
-- than the others and does not wait any more. It takes out none only if none has expired.
pub fire_lem : (now : ℕ) (q : TimerQueue) → IsValid q → FiresFirst now q
fire_lem now q v = fire_first now q.all_timers q.active_node v.ordered v.distinct

finish-IsValid : (q : TimerQueue) → IsValid q → IsValid (finish q)
unfolding finish
finish-IsValid q v = record { ordered = v.ordered; distinct = v.distinct }

either-IsValid :
    (b : Bool) (r : Bool × TimerQueue) (q : TimerQueue)
    → IsValid r.1
    → IsValid q
    → IsValid (if b then r else (false, q)).1
either-IsValid true r q v w = v
either-IsValid false r q v w = w

util_del_timer-IsValid : (t : ℕ) (q : TimerQueue) → IsValid q → IsValid (util_del_timer t q).1
unfolding util_del_timer
util_del_timer-IsValid t q v =
    either-IsValid (timer_pending t q) (detach_if_pending t q) q
      (detach_if_pending-Detached t q v).valid v

util_try_to_del_timer_sync-IsValid :
    (t : ℕ) (q : TimerQueue) → IsValid q → IsValid (util_try_to_del_timer_sync t q).1
util_try_to_del_timer_sync-IsValid t q v = elim (util_try_to_del_timer_sync-Detached t q v) [
  | inl (_, _, same) ↦ rw same v
  | inr (_, _, _, valid, _) ↦ valid
]

added-IsValid :
    (b : Bool) (m r : TimerQueue) → (if b then none else some m) ≡ some r → IsValid m → IsValid r
added-IsValid true m r e v = cc
added-IsValid false m r e v = let same : r ≡ m = cc in rw same v

util_add_timer-IsValid :
    (t expires : ℕ) (q r : TimerQueue) → util_add_timer t expires q ≡ some r → IsValid q → IsValid r
unfolding util_add_timer util_mod_timer
util_add_timer-IsValid t expires q r e v =
    added-IsValid (timer_pending t q) (mod_timer t expires false q).queue r e
      (mod_timer-Placed t expires false q v).0

fired_same :
    (c t : ℕ) (p r : TimerQueue)
    → ◌≡◌ {A = Option (ℕ × TimerQueue)} (some (c, p)) (some (t, r))
    → r ≡ p
fired_same c t p r e = sym (ap (λ o. elim o [ none ↦ p | some u ↦ u.1 ]) e)

fires-IsValid : (now t : ℕ) (q r : TimerQueue) → fire now q ≡ some (t, r) → IsValid q → IsValid r
fires-IsValid now t q r e v = elim (fire_lem now q v) [
  | inl (n, _) ↦ let fault : ◌≡◌ {A = Option (ℕ × TimerQueue)} none (some (t, r)) = sym n ∙ e in cc
  | inr (c, cs, _, f, _, _, _, valid) ↦
      rw
        (fired_same c.timer t (record { all_timers = cs; active_node = some c.timer }) r
          (sym f ∙ e))
        valid
]

Step-IsValid : (q r : TimerQueue) → Step q r → IsValid q → IsValid r
Step-IsValid _ _ (modifies t expires pending_only q) v =
    (mod_timer-Placed t expires pending_only q v).0
Step-IsValid _ _ (adds t expires q r e) v = util_add_timer-IsValid t expires q r e v
Step-IsValid _ _ (deletes t q) v = util_del_timer-IsValid t q v
Step-IsValid _ _ (tries_to_delete t q) v = util_try_to_del_timer_sync-IsValid t q v
Step-IsValid _ _ (fires now t q r _ e) v = fires-IsValid now t q r e v
Step-IsValid _ _ (finishes t q _) v = finish-IsValid q v

-- Whatever the callers and the thread do, in whatever order, the queue stays valid: its timers wait in
-- the order in which they expire, each of them once.
pub Reaches-IsValid : (q : TimerQueue) → Reaches q → IsValid q
Reaches-IsValid _ starts = record { ordered = tt; distinct = tt }
Reaches-IsValid _ (goes_on p q reaches step) = Step-IsValid p q step (Reaches-IsValid p reaches)
