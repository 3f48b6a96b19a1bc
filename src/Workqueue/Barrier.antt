-- ===== src/Workqueue/Barrier.antt =====
-- The barrier that `insert_wq_barrier` of workqueue.c puts behind a work.
use kernel_utils.Base.{
  ℕ, ◌+◌, ◌-◌, arith, ◌≡◌, refl, ap, true, false, Bool-cases, inl, inr, List, [], ◌∷◌,
}
use kernel_utils.Workqueue.{
  Work, Pwq, Target, waits, runs, barrier, work_no_color, move_linked_works, insert_work,
  insert_wq_barrier, pwq_dec_nr_in_flight,
}
use kernel_utils.Workqueue.Active.{groups}

-- Where the barrier goes when its work is moved.
pub record GoesBehind (address : ℕ) (target : Work) (after works : List Work) : Type 0 where
  pub others : List Work
  pub before : (move_linked_works (target ∷ after)).0 ≡ target ∷ others
  pub now :
      (move_linked_works works).0
      ≡ record target { linked = true } ∷ (barrier address target.linked ∷ others)
  pub rest : (move_linked_works works).1 ≡ (move_linked_works (target ∷ after)).1
  pub counted : groups works ≡ groups (target ∷ after)

-- Which works the worker runs first, or where the barrier goes with a work that waits.
abbrev pub Follows : ℕ → Target → List Work → Type 0
Follows address (waits target after) works = GoesBehind address target after works
Follows address (runs scheduled) works =
    move_linked_works works ≡ (barrier address false ∷ [], scheduled)

behind :
    (address : ℕ) (target : Work) (after : List Work) (pwq : Pwq)
    → GoesBehind address target after (insert_wq_barrier address (waits target after) pwq).0
unfolding insert_wq_barrier insert_work move_linked_works
behind address target after pwq = elim (Bool-cases target.linked) [
  | inl t ↦ record {
    others = (move_linked_works after).0;
    before = rw t refl;
    now = rw t refl;
    rest = rw t refl;
    counted = refl;
  }
  | inr t ↦ record {
    others = [];
    before = rw t refl;
    now = rw t refl;
    rest = rw t refl;
    counted = refl;
  }
]

-- The reference of a barrier is given back.
given_back :
    (pwq : Pwq)
    → (pwq_dec_nr_in_flight work_no_color (record pwq { refcnt = pwq.refcnt + 1 })).pwq ≡ pwq
unfolding pwq_dec_nr_in_flight
given_back pwq =
    let same : pwq.refcnt + 1 - 1 ≡ pwq.refcnt = omega arith in
    ap (λ n. record pwq { refcnt = n }) same

-- If a worker runs the work, its barrier is what the worker runs next, alone, and then comes what
-- was scheduled. If the work waits, the barrier is moved with it, right behind it, whatever was
-- linked to the work follows, the works beyond stay, and no more works count as delayed. In both
-- cases the barrier takes one reference of the pwq and counts in no color: when it is finished the
-- pwq is what it was before.
pub insert_wq_barrier-Follows :
    (address : ℕ) (target : Target) (pwq : Pwq)
    → Follows address target (insert_wq_barrier address target pwq).0
      × ((insert_wq_barrier address target pwq).1 ≡ record pwq { refcnt = pwq.refcnt + 1 })
      × ((pwq_dec_nr_in_flight work_no_color (insert_wq_barrier address target pwq).1).pwq ≡ pwq)
unfolding insert_wq_barrier insert_work move_linked_works
insert_wq_barrier-Follows address (waits target after) pwq =
    (behind address target after pwq, refl, given_back pwq)
insert_wq_barrier-Follows address (runs scheduled) pwq = (refl, refl, given_back pwq)
