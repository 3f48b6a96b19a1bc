-- ===== src/Workqueue/Works.antt =====
-- The works of a pwq of workqueue.c over its life.
use kernel_utils.Base.{
  ℕ, suc, ◌+◌, ◌≤◌, ◌<◌, arith, ◌≡◌, refl, true, inl, inr, Option, none, some, Ensures, List, [],
  ◌∷◌, is_empty, ◌-◌,
}
use kernel_utils.Workqueue.{
  Work, Pwq, init_pwq, queue_work, pwq_dec_nr_in_flight, pwq_adjust_max_active,
}
use kernel_utils.Workqueue.Active.{groups, IsAccounted}
use kernel_utils.Workqueue.Accounted.{
  queue_work-IsAccounted, pwq_dec_nr_in_flight-IsAccounted, pwq_adjust_max_active-IsAccounted,
}

-- The pwqs that come up with `n` works in flight.
pub data Works : ℕ → Pwq → Type 0 where
  starts : (color max_active : ℕ) → 1 ≤ max_active → Works 0 (init_pwq color max_active)
  queues :
      (n address : ℕ) (p q : Pwq) (appended : List Work)
      → Works n p
      → queue_work address p ≡ some (appended, q)
      → Works (suc n) q
  finishes :
      (n color : ℕ) (p : Pwq)
      → Works (suc n) p
      → color < 15
      → Works n (pwq_dec_nr_in_flight color p).pwq
  adjusts :
      (n saved_max_active : ℕ) (p : Pwq)
      → Works n p
      → 1 ≤ saved_max_active
      → Works n (pwq_adjust_max_active saved_max_active p).1
  paints : (n color : ℕ) (p : Pwq) → Works n p → Works n (record p { work_color = color })
  arms : (n color : ℕ) (p : Pwq) → Works n p → Works n (record p { flush_color = some color })

-- A work in flight keeps one active.
pub some_active : (n : ℕ) (p : Pwq) → IsAccounted n p → 1 ≤ n → 1 ≤ p.nr_active
some_active n p a h = elim a.busy [
  | inl x ↦ none_delayed p.delayed_works x a.total
  | inr x ↦ omega (arith, x, a.allowed)
]
  where
    none_delayed :
        (ws : List Work) → is_empty ws ≡ true → p.nr_active + groups ws ≡ n → 1 ≤ p.nr_active
    none_delayed [] e t = omega (arith, t, h)
    none_delayed (w ∷ ws) e t = cc

queued :
    (n : ℕ) (m : Option (List Work × Pwq)) (ws : List Work) (q : Pwq) (P : Pwq → Type 0)
    → m ≡ some (ws, q)
    → Ensures m (λ r. IsAccounted n r.1 × P r.1)
    → IsAccounted n q
queued n none ws q P e h = cc
queued n (some (us, p)) ws q P e h = let same : p ≡ q = cc in rw (← same) h.0

-- Whatever is queued and finished in a pwq, and however the number of works that may be active
-- changes, but not to 0: its works are active or delayed, none is delayed unless as many are active
-- as may be, and one is active if any is in flight.
pub Works-IsAccounted : (n : ℕ) (p : Pwq) → Works n p → IsAccounted n p × (1 ≤ n → 1 ≤ p.nr_active)
Works-IsAccounted n p w = (accounted n p w, some_active n p (accounted n p w))
  where
    accounted : (n : ℕ) (p : Pwq) → Works n p → IsAccounted n p
    accounted _ _ (starts color max_active h) = record {
      total = refl;
      ended = tt;
      busy = inl refl;
      allowed = h;
    }
    accounted _ _ (queues n address p q ws w e) =
        let more : n + 1 ≡ suc n = omega arith in
        rw (← more) (
          queued (n + 1) (queue_work address p) ws q _ e
            (queue_work-IsAccounted address n p (accounted n p w)))
    accounted _ _ (finishes n color p w small) =
        let a = accounted (suc n) p w in
        let fewer : suc n - 1 ≡ n = omega arith in
        rw (← fewer)
          (pwq_dec_nr_in_flight-IsAccounted color (suc n) p small
            (some_active (suc n) p a (omega arith)) a).0
    accounted _ _ (adjusts n saved p w h) =
        pwq_adjust_max_active-IsAccounted saved n p h (accounted n p w)
    accounted _ _ (paints n color p w) =
        let a = accounted n p w in
        record { total = a.total; ended = a.ended; busy = a.busy; allowed = a.allowed }
    accounted _ _ (arms n color p w) =
        let a = accounted n p w in
        record { total = a.total; ended = a.ended; busy = a.busy; allowed = a.allowed }
