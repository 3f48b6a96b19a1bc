-- ===== src/Timer/Queue.antt =====
-- Valid timer queues, and what the operations do to them.
use kernel_utils.Base.{
  ℕ, ◌≤◌, ◌<◌, ◌≡◌, refl, sym, ap, Bool, true, false, ◌&&◌, not, none, some, List, ◌∷◌, ◌++◌, All,
  is_empty, if◌then◌else◌, Bool-cases, ◌∙◌, inl, inr, ◌⊎◌,
}
use kernel_utils.Timer.{
  Entry, TimerQueue, Modified, timer_pending, is_active, list_del, detach_if_pending, __add_timer,
  mod_timer, util_try_to_del_timer_sync,
}
use kernel_utils.Timer.Order.{
  key, IsOrdered, IsDistinct, IsOrdered-list_del, IsDistinct-list_del, is_queued-list_del,
  list_del_absent, IsOrdered-insert_entry, IsDistinct-insert_entry, insert_entry_place,
}

-- The timers wait in the order in which they expire, each of them once.
pub record IsValid (q : TimerQueue) : Type 0 where
  pub ordered : IsOrdered q.all_timers
  pub distinct : IsDistinct q.all_timers

-- A timer taken out, if it was there.
pub record Detached (t : ℕ) (q : TimerQueue) (r : Bool × TimerQueue) : Type 0 where
  pub returned : r.0 ≡ timer_pending t q
  pub valid : IsValid r.1
  pub gone : timer_pending t r.1 ≡ false
  pub others : r.1.all_timers ≡ list_del t q.all_timers
  pub same_active : r.1.active_node ≡ q.active_node

pub detach_if_pending-Detached :
    (t : ℕ) (q : TimerQueue) → IsValid q → Detached t q (detach_if_pending t q)
unfolding detach_if_pending
detach_if_pending-Detached t q v = elim (Bool-cases (timer_pending t q)) [
  | inl pending ↦ rw pending (record {
    returned = sym pending;
    valid = record {
      ordered = IsOrdered-list_del t q.all_timers v.ordered;
      distinct = IsDistinct-list_del t q.all_timers v.distinct;
    };
    gone = is_queued-list_del t q.all_timers v.distinct;
    others = refl;
    same_active = refl;
  })
  | inr inactive ↦ rw inactive (record {
    returned = sym inactive;
    valid = v;
    gone = inactive;
    others = sym (list_del_absent t q.all_timers inactive);
    same_active = refl;
  })
]

-- Where `mod_timer` puts a timer, and when it wakes the thread.
pub record Placed (t expires : ℕ) (q : TimerQueue) (m : Modified) : Type 0 where
  pub earlier : List Entry
  pub later : List Entry
  pub others : list_del t q.all_timers ≡ earlier ++ later
  pub placed : m.queue.all_timers ≡ earlier ++ (record { timer = t; expires = expires } ∷ later)
  pub no_later : All (λ d. key d.expires ≤ key expires) earlier
  pub all_later : All (λ d. key expires < key d.expires) later
  pub wakes : m.signalled ≡ is_empty earlier

abbrev pub WhatHappened : ℕ → ℕ → Bool → TimerQueue → Modified → Type 0
WhatHappened t expires pending_only q m =
    ((timer_pending t q ≡ false)
      × (pending_only ≡ true)
      × (m.signalled ≡ false)
      × (m.queue.all_timers ≡ q.all_timers))
    ⊎ Placed t expires q m

__add_timer-Placed :
    (t expires : ℕ) (ret : Bool) (q d : TimerQueue)
    → Detached t q (ret, d)
    → let (at_head, added) = __add_timer (record { timer = t; expires = expires }) d in
      IsValid added × Placed t expires q (record { ret = ret; signalled = at_head; queue = added })
unfolding __add_timer
__add_timer-Placed t expires ret q d h =
    let e : Entry = record { timer = t; expires = expires } in
    let (xs, ys, split, placed, head, no_later, later) =
      insert_entry_place e d.all_timers h.valid.ordered in
    (
      record {
        ordered = IsOrdered-insert_entry e d.all_timers h.valid.ordered;
        distinct = IsDistinct-insert_entry e d.all_timers h.gone h.valid.distinct;
      },
      record {
        earlier = xs;
        later = ys;
        others = sym h.others ∙ split;
        placed = placed;
        no_later = no_later;
        all_later = later;
        wakes = head;
      },
    )

-- The rest of `mod_timer`, after the timer has been detached.
attached :
    (t expires : ℕ) (pending_only ret : Bool) (q d : TimerQueue)
    → Detached t q (ret, d)
    → let (at_head, added) = __add_timer (record { timer = t; expires = expires }) d in
      let m : Modified =
        if not ret && pending_only
        then record { ret = ret; signalled = false; queue = d }
        else record { ret = ret; signalled = at_head; queue = added } in
      IsValid m.queue
      × (m.ret ≡ timer_pending t q)
      × (m.queue.active_node ≡ q.active_node)
      × WhatHappened t expires pending_only q m
unfolding __add_timer
attached t expires true false q d h = (
  h.valid,
  h.returned,
  h.same_active,
  inl (sym h.returned, refl, refl, h.others ∙ list_del_absent t q.all_timers (sym h.returned)),
)
attached t expires true true q d h =
    let (valid, placed) = __add_timer-Placed t expires true q d h in
    (valid, h.returned, h.same_active, inr placed)
attached t expires false true q d h =
    let (valid, placed) = __add_timer-Placed t expires true q d h in
    (valid, h.returned, h.same_active, inr placed)
attached t expires false false q d h =
    let (valid, placed) = __add_timer-Placed t expires false q d h in
    (valid, h.returned, h.same_active, inr placed)

-- On a valid queue (in the order of expiry, each timer once) `mod_timer` returns whether the timer
-- was pending, and keeps the queue valid. It changes nothing if the timer was not pending and only
-- a pending one is to be changed. Otherwise the timer stands after all others that expire no later
-- and before all that expire later, and the thread is signalled exactly if no other timer comes
-- before it.
pub mod_timer-Placed :
    (t expires : ℕ) (pending_only : Bool) (q : TimerQueue)
    → IsValid q
    → let m = mod_timer t expires pending_only q in
      IsValid m.queue
      × (m.ret ≡ timer_pending t q)
      × (m.queue.active_node ≡ q.active_node)
      × WhatHappened t expires pending_only q m
unfolding mod_timer
mod_timer-Placed t expires pending_only q v =
    let (ret, detached) = detach_if_pending t q in
    attached t expires pending_only ret q detached (detach_if_pending-Detached t q v)

-- On a valid queue `util_try_to_del_timer_sync` returns -1 if the function of the timer runs, and
-- changes nothing then. Otherwise it returns whether the timer was pending, and then the timer
-- neither waits nor runs, the queue is valid, and the other timers stand as before.
pub util_try_to_del_timer_sync-Detached :
    (t : ℕ) (q : TimerQueue)
    → IsValid q
    → let (ret, after) = util_try_to_del_timer_sync t q in
      ((is_active t q.active_node ≡ true) × (ret ≡ none) × (after ≡ q))
      ⊎ ((ret ≡ some (timer_pending t q))
          × (timer_pending t after ≡ false)
          × (is_active t after.active_node ≡ false)
          × IsValid after
          × (after.all_timers ≡ list_del t q.all_timers))
unfolding util_try_to_del_timer_sync
util_try_to_del_timer_sync-Detached t q v = elim (Bool-cases (is_active t q.active_node)) [
  | inl active ↦ rw active (inl (refl, refl, refl))
  | inr idle ↦
      let d = detach_if_pending-Detached t q v in
      rw idle
        (inr (ap some d.returned, d.gone, ap (is_active t) d.same_active ∙ idle, d.valid, d.others))
]
