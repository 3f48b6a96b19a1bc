-- ===== src/Workqueue/Served.antt =====
-- Whatever is queued, finished and flushed in a workqueue of workqueue.c, the works of its pwqs are
-- accounted for, and so a pwq with works in flight has an active one.
use kernel_utils.Base.{
  ℕ, zero, suc, ◌+◌, ◌-◌, ◌≤◌, ◌<◌, arith, ◌≡◌, refl, ap, ◌∙◌, true, Bool-cases, inl, inr, Option,
  none, some, Ensures, List, [], ◌∷◌, ◌++◌, All-right, length, length-append, length_middle, ◌==◌,
}
use mathlib.Core.Path.{subst}
use kernel_utils.Workqueue.{Pwq, queue_work, pwq_dec_nr_in_flight, pwq_adjust_max_active, Finished}
use kernel_utils.Workqueue.Active.{groups, IsAccounted}
use kernel_utils.Workqueue.Accounted.{
  queue_work-IsAccounted, pwq_dec_nr_in_flight-IsAccounted, pwq_adjust_max_active-IsAccounted,
}
use kernel_utils.Workqueue.Works.{some_active}
use kernel_utils.Workqueue.Accounts.{Accounts, flush_workqueue-Keeps, resume-Keeps}
use kernel_utils.Workqueue.Flush.{
  Flusher, Wq, link_pwq, set, get_elem?, flush_workqueue, resume, work_finished,
}
use kernel_utils.Workqueue.Flights.{Flight, Zip, Zip-get, Zip-set, All-get}
use kernel_utils.Workqueue.Valid.{IsValid}
use kernel_utils.Workqueue.Run.{System, Step, Reaches, Reaches-IsValid, each}

abbrev pub IsServed : System → Type 0
IsServed s = Zip Accounts s.wq.pwqs s.flights

set-same :
    (i : ℕ) (ls : List (List Flight)) (l : List Flight) → get_elem? i ls ≡ some l → set i l ls ≡ ls
set-same i [] l e = cc
set-same zero (m ∷ ls) l e = cc
set-same (suc i) (m ∷ ls) l e = rw (set-same i ls l e) refl

-- Finishing a work changes the pwqs only where the work was.
work_finished-pwqs :
    (i : ℕ) (d : Finished) (wq : Wq)
    → Ensures (work_finished i d wq) (λ u. u.pwqs ≡ set i d.pwq wq.pwqs)
unfolding work_finished
work_finished-pwqs i d wq = elim (Bool-cases d.flushed) [
  | inl t ↦ elim (Bool-cases (wq.nr_pwqs_to_flush - 1 == 0)) [
    | inl u ↦ rw (t, u) (completed wq.first_flusher)
    | inr u ↦ rw (t, u) refl
  ]
  | inr t ↦ rw t refl
]
  where
    completed :
        (o : Option Flusher)
        → Ensures
            (elim o [
              | none ↦ none
              | some g ↦ some (record wq {
                pwqs = set i d.pwq wq.pwqs;
                nr_pwqs_to_flush = wq.nr_pwqs_to_flush - 1;
                first_flusher = some (record g { done = true });
              })
            ])
            (λ u. u.pwqs ≡ set i d.pwq wq.pwqs)
    completed none = tt
    completed (some g) = refl

-- The work is an active one.
finished-Accounts :
    (p : Pwq) (xs : List Flight) (h : Flight) (ys : List Flight)
    → h.color < 15
    → groups p.delayed_works ≤ length xs
    → Accounts p (xs ++ (h ∷ ys))
    → Accounts (pwq_dec_nr_in_flight h.color p).pwq (xs ++ ys)
finished-Accounts p xs h ys small active a =
    let more = length_middle xs h ys in
    let both = length-append xs ys in
    let total = a.total in
    let one : 1 ≤ p.nr_active = omega (arith, more, both, total, active) in
    let fewer : length (xs ++ (h ∷ ys)) - 1 ≡ length (xs ++ ys) = omega (arith, more) in
    rw (← fewer)
      (pwq_dec_nr_in_flight-IsAccounted h.color (length (xs ++ (h ∷ ys))) p small one a).0

Step-IsServed : (s t : System) → Step s t → IsValid s.clock s.flights s.wq → IsServed s → IsServed t
Step-IsServed s _ (Step.links max_active allowed) v z =
    unfold link_pwq in (record { total = refl; ended = tt; busy = inl refl; allowed = allowed }, z)
Step-IsServed s _ (Step.adjusts i max_active p l allowed at here) v z =
    let a = Zip-get Accounts i s.wq.pwqs s.flights p l z at here in
    let q = (pwq_adjust_max_active max_active p).1 in
    subst (λ ls. Zip Accounts (set i q s.wq.pwqs) ls) (set-same i s.flights l here)
      (Zip-set Accounts i s.wq.pwqs s.flights q l z
        (pwq_adjust_max_active-IsAccounted max_active (length l) p allowed a))
Step-IsServed s _ (Step.queues i address p q appended l at here e) v z =
    let a = Zip-get Accounts i s.wq.pwqs s.flights p l z at here in
    let (b, _) =
      each (queue_work address p) (appended, q)
        (λ r.
          IsAccounted (length l + 1) r.1
          × (p.nr_active ≤ p.max_active → r.1.nr_active ≤ p.max_active))
        e (queue_work-IsAccounted address (length l) p a) in
    let more : length l + 1 ≡ suc (length l) = omega arith in
    Zip-set Accounts i s.wq.pwqs s.flights q _ z (rw more at b)
Step-IsServed s _ (Step.finishes i p xs h ys wq at here active e) v z =
    let a = Zip-get Accounts i s.wq.pwqs s.flights p (xs ++ (h ∷ ys)) z at here in
    let timely = All-get _ i s.flights (xs ++ (h ∷ ys)) v.timely here in
    let small = (All-right _ xs (h ∷ ys) timely).0.small in
    let same =
      each (work_finished i (pwq_dec_nr_in_flight h.color p) s.wq) wq
        (λ u. u.pwqs ≡ set i (pwq_dec_nr_in_flight h.color p).pwq s.wq.pwqs) e
        (work_finished-pwqs i (pwq_dec_nr_in_flight h.color p) s.wq) in
    rw same (
      Zip-set Accounts i s.wq.pwqs s.flights (pwq_dec_nr_in_flight h.color p).pwq (xs ++ ys) z
        (finished-Accounts p xs h ys small active a))
Step-IsServed s _ (Step.flushes waits wq e) v z =
    each (flush_workqueue s.clock s.wq) (waits, wq) (λ r. Zip Accounts r.1.pwqs s.flights) e
      (flush_workqueue-Keeps s.flights s.clock s.wq z)
Step-IsServed s _ (Step.resumes f wq first done e) v z =
    each (resume f.id s.wq) wq (λ u. Zip Accounts u.pwqs s.flights) e
      (resume-Keeps s.flights f.id s.wq z)

pub Reaches-IsServed : (s : System) → Reaches s → IsServed s
Reaches-IsServed _ Reaches.starts = tt
Reaches-IsServed t (Reaches.goes_on s _ r step) =
    Step-IsServed s t step (Reaches-IsValid s r) (Reaches-IsServed s r)

-- Of the works in flight the first one that was queued is the last of the list.
oldest :
    (h : Flight) (hs : List Flight) → (xs : List Flight) × (k : Flight) × (h ∷ hs ≡ xs ++ (k ∷ []))
oldest h [] = ([], h, refl)
oldest h (g ∷ hs) = let (xs, k, e) = oldest g hs in (h ∷ xs, k, ap (λ ks. h ∷ ks) e)

-- Where works are in flight, not all of them are delayed.
pub active-work :
    (p : Pwq) (l : List Flight)
    → Accounts p l
    → 1 ≤ length l
    → (xs : List Flight) × (h : Flight) × (l ≡ xs ++ (h ∷ []))
      × (groups p.delayed_works ≤ length xs)
active-work p [] a h = absurd (omega (arith, h))
active-work p (g ∷ hs) a some_left =
    let (xs, k, e) = oldest g hs in
    let one = some_active (length (g ∷ hs)) p a (omega arith) in
    let many = ap length e ∙ length-append xs (k ∷ []) in
    let total = a.total in (xs, k, e, omega (arith, one, many, total))
