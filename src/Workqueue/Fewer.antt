-- ===== src/Workqueue/Fewer.antt =====
-- A pwq with a work less in flight (workqueue.c).
use kernel_utils.Base.{
  ℕ, ◌-◌, ◌==◌, ◌≤◌, arith, ◌≡◌, ◌⊎◌, ap, ◌∙◌, true, Bool-cases, ==_iff, inl, inr, Option, none,
  some, List, ◌∷◌, ◌++◌, if◌then◌else◌,
}
use kernel_utils.Workqueue.{Pwq, update}
use kernel_utils.Workqueue.Counts.{IsCountedAs}
use kernel_utils.Workqueue.Flights.{Flight, count-middle}
use kernel_utils.Workqueue.Valid.{IsPwq, IsTip}

pub finished-IsPwq :
    (w : ℕ) (p q : Pwq) (xs : List Flight) (h : Flight) (ys : List Flight)
    → IsCountedAs (update p.nr_in_flight h.color (p.nr_in_flight h.color - 1)) p q
    → IsPwq w p (xs ++ (h ∷ ys))
    → IsPwq w q (xs ++ ys)
finished-IsPwq w p q xs h ys c v = record {
  counted = λ k. rw c.counters (
      ground (
        arith,
        v.counted k,
        v.counted h.color,
        count-middle k xs h ys,
        count-middle h.color xs h ys,
        ==_iff k h.color,
      ));
  painted = c.work_color ∙ v.painted;
}

-- One work less of the color `c`, and the color that the pwq waits for.
pub finished-IsTip :
    (f c : ℕ) (o o' : Option ℕ) (n n' : ℕ)
    → n' ≡ (if f == c then n - 1 else n)
    → IsTip f o n
    → ((o ≡ some c) × ((f == c) ≡ true → n' ≡ 0) × (o' ≡ none))
      ⊎ ((o' ≡ o) × (o ≡ some c → (f == c) ≡ true → 1 ≤ n'))
    → IsTip f o' n'
finished-IsTip f c none o' n n' e t (inl (a, b, d)) = ground (arith, a)
finished-IsTip f c none o' n n' e t (inr (a, b)) = rw a (ground (arith, e, t))
finished-IsTip f c (some x) o' n n' e t (inl (a, b, d)) =
    let same : (f == c) ≡ true = ground (arith, t.0, a) in rw d (b same)
finished-IsTip f c (some x) o' n n' e t (inr (a, b)) = elim (Bool-cases (f == c)) [
  | inl u ↦ rw a (t.0, b (ap some (t.0 ∙ (==_iff f c).0 u)) u)
  | inr u ↦ rw a (t.0, ground (arith, e, u, t.1))
]
