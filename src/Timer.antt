-- ===== src/Timer.antt =====
-- timer.c and timer.h: timers in queues sorted by the time at which they expire. A timer is named by
-- its address, and `entry.next` is not NULL exactly while the timer stands in the list of a queue.
pub mod Order
pub mod Queue
pub mod Run
pub mod Laws
mod Examples
use kernel_utils.Base.{
  ℕ, zero, suc, ◌+◌, ◌*◌, ◌/◌, ◌-◌, ◌%◌, ◌^◌, ◌==◌, ltb, Bool, true, false, ◌&&◌, not, Option, none,
  some, List, [], ◌∷◌, if◌then◌else◌,
}

-- A long, as its 64 bits: the order of two of them.
abbrev pub long_ltb : ℕ → ℕ → Bool
long_ltb a b = ltb ((a + 2 ^ 63) % 2 ^ 64) ((b + 2 ^ 63) % 2 ^ 64)

-- `hash_32` of hash.h.
unfoldable pub hash_32 : ℕ → ℕ → ℕ
hash_32 val bits = ((val * 1640531527) % 2 ^ 32) / 2 ^ (32 - bits)

-- The address is cut to 32 bits.
unfoldable pub timer_hash_idx : ℕ → ℕ
unfolding hash_32
timer_hash_idx timer = hash_32 (timer % 2 ^ 32) 2

pub record Entry : Type 0 where
  pub timer : ℕ
  pub expires : ℕ

-- `struct timer_queue`: the timers that wait, and the one whose function runs.
pub record TimerQueue : Type 0 where
  pub all_timers : List Entry
  pub active_node : Option ℕ

unfoldable pub is_queued : ℕ → List Entry → Bool
is_queued t [] = false
is_queued t (c ∷ cs) = let rest = is_queued t cs in if c.timer == t then true else rest

abbrev pub timer_pending : ℕ → TimerQueue → Bool
timer_pending t q = is_queued t q.all_timers

-- `list_del` of the timer's entry.
unfoldable pub list_del : ℕ → List Entry → List Entry
list_del t [] = []
list_del t (c ∷ cs) = let rest = list_del t cs in if c.timer == t then cs else c ∷ rest

unfoldable pub detach_if_pending : ℕ → TimerQueue → Bool × TimerQueue
unfolding is_queued list_del
detach_if_pending t q =
    if timer_pending t q
    then (true, record { all_timers = list_del t q.all_timers; active_node = q.active_node })
    else (false, q)

-- The loop of `__add_timer`: before the first entry that expires later, or at the end.
unfoldable pub insert_entry : Entry → List Entry → List Entry
insert_entry e [] = e ∷ []
insert_entry e (c ∷ cs) =
    let rest = insert_entry e cs in if long_ltb e.expires c.expires then e ∷ c ∷ cs else c ∷ rest

-- Whether no entry was passed.
unfoldable pub is_at_head : Entry → List Entry → Bool
is_at_head e [] = true
is_at_head e (c ∷ cs) = long_ltb e.expires c.expires

unfoldable pub __add_timer : Entry → TimerQueue → Bool × TimerQueue
unfolding insert_entry is_at_head
__add_timer e q = (
  is_at_head e q.all_timers,
  record { all_timers = insert_entry e q.all_timers; active_node = q.active_node },
)

-- What `mod_timer` returns, whether it signals the thread, and the queue.
pub record Modified : Type 0 where
  pub ret : Bool
  pub signalled : Bool
  pub queue : TimerQueue

unfoldable pub mod_timer : ℕ → ℕ → Bool → TimerQueue → Modified
unfolding detach_if_pending __add_timer
mod_timer t expires pending_only q =
    let (ret, detached) = detach_if_pending t q in
    if not ret && pending_only
    then record { ret = ret; signalled = false; queue = detached }
    else let (at_head, added) = __add_timer (record { timer = t; expires = expires }) detached in
      record { ret = ret; signalled = at_head; queue = added }

unfoldable pub util_mod_timer : ℕ → ℕ → TimerQueue → Modified
unfolding mod_timer
util_mod_timer t expires q = mod_timer t expires false q

unfoldable pub util_mod_timer_pending : ℕ → ℕ → TimerQueue → Modified
unfolding mod_timer
util_mod_timer_pending t expires q = mod_timer t expires true q

-- `expires` is what the timer holds. A timer that waits already is a fault.
unfoldable pub util_add_timer : ℕ → ℕ → TimerQueue → Option TimerQueue
unfolding util_mod_timer is_queued
util_add_timer t expires q =
    if timer_pending t q then none else some (util_mod_timer t expires q).queue

unfoldable pub util_del_timer : ℕ → TimerQueue → Bool × TimerQueue
unfolding detach_if_pending is_queued
util_del_timer t q = if timer_pending t q then detach_if_pending t q else (false, q)

abbrev pub is_active : ℕ → Option ℕ → Bool
is_active t none = false
is_active t (some u) = u == t

-- The returned number is `none` for -1, and the number of timers that were taken out otherwise.
unfoldable pub util_try_to_del_timer_sync : ℕ → TimerQueue → Option Bool × TimerQueue
unfolding detach_if_pending
util_try_to_del_timer_sync t q =
    if is_active t q.active_node
    then (none, q)
    else let (ret, detached) = detach_if_pending t q in (some ret, detached)

-- The thread takes out the first timer, if it has expired, and runs its function.
unfoldable pub fire : ℕ → TimerQueue → Option (ℕ × TimerQueue)
fire now q = elim q.all_timers [
  | [] ↦ none
  | c ∷ cs ↦
      if long_ltb now c.expires
      then none
      else some (c.timer, record { all_timers = cs; active_node = some c.timer })
]

-- The function has returned: the waiters are woken.
unfoldable pub finish : TimerQueue → TimerQueue
finish q = record { all_timers = q.all_timers; active_node = none }

-- The inner loop of `timer_entry`, where the functions of the timers leave the queue alone: the timers
-- that have run, and the queue. `fuel` bounds the number of turns.
unfoldable pub expire_timers : ℕ → ℕ → TimerQueue → List ℕ × TimerQueue
unfolding fire finish
expire_timers zero now q = ([], q)
expire_timers (suc fuel) now q = elim (fire now q) [
  | none ↦ ([], q)
  | some fired ↦
      let (timers, rest) = expire_timers fuel now (finish fired.1) in (fired.0 ∷ timers, rest)
]
