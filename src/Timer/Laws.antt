-- ===== src/Timer/Laws.antt =====
-- The loop of the timer thread, and the hash of a timer.
use kernel_utils.Base.{
  ℕ, suc, zero, ◌≤◌, ◌<◌, length, arith, ◌≡◌, refl, ap, Option, none, List, [], ◌∷◌, ◌++◌, map, All,
  Bool-cases, inl, inr,
}
use kernel_utils.Timer.{
  long_ltb, Entry, TimerQueue, fire, finish, expire_timers, hash_32, timer_hash_idx,
}
use kernel_utils.Timer.Order.{key, key_before, key_not_before, IsOrdered, All-from}
use kernel_utils.Timer.Queue.{IsValid}

expire_in_order :
    (fuel now : ℕ) (cs : List Entry) (active : Option ℕ)
    → length cs ≤ fuel
    → IsOrdered cs
    → let (timers, rest) =
        expire_timers fuel now (record { all_timers = cs; active_node = active }) in
      (due : List Entry) × (cs ≡ due ++ rest.all_timers)
      × (timers ≡ map (λ d. d.timer) due)
      × All (λ d. key d.expires ≤ key now) due
      × All (λ d. key now < key d.expires) rest.all_timers
unfolding expire_timers fire finish
expire_in_order zero now [] active b o = ([], refl, refl, tt, tt)
expire_in_order (suc fuel) now [] active b o = ([], refl, refl, tt, tt)
expire_in_order zero now (c ∷ cs) active b o = absurd (omega arith)
expire_in_order (suc fuel) now (c ∷ cs) active b o = elim (Bool-cases (long_ltb now c.expires)) [
  | inl early ↦
      let before = key_before now c.expires early in
      rw (early, expire_timers)
        ([], refl, refl, tt, (before, All-from (suc (key now)) (key c.expires) cs before o.0))
  | inr due ↦
      let (ds, split, ran, expired, waiting) = expire_in_order fuel now cs none (omega arith) o.1 in
      rw (due, expire_timers)
        (
          c ∷ ds,
          ap (λ es. c ∷ es) split,
          ap (λ ts. c.timer ∷ ts) ran,
          (key_not_before now c.expires due, expired),
          waiting,
        )
]

-- On a valid queue, where the functions of the timers leave it alone, as many turns as timers wait are
-- enough: the timers that have expired run, all of them and in their order, and the others wait on.
pub expire_timers-All :
    (now : ℕ) (q : TimerQueue)
    → IsValid q
    → let (timers, rest) = expire_timers (length q.all_timers) now q in
      (due : List Entry) × (q.all_timers ≡ due ++ rest.all_timers)
      × (timers ≡ map (λ d. d.timer) due)
      × All (λ d. key d.expires ≤ key now) due
      × All (λ d. key now < key d.expires) rest.all_timers
expire_timers-All now q v =
    expire_in_order (length q.all_timers) now q.all_timers q.active_node (omega arith) v.ordered

-- The hash of every address names one of the HASH_SIZE queues, which are four.
pub timer_hash_idx_bound : (timer : ℕ) → timer_hash_idx timer < 4
unfolding timer_hash_idx hash_32
timer_hash_idx_bound timer = omega arith
