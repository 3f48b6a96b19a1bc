-- ===== src/Workqueue/Run.antt =====
-- A workqueue of workqueue.c beside those who queue works, finish them and flush. Queueing and flushing
-- hold `wq->mutex`, and finishing a work the pool's lock: each is one step, and what a flusher does
-- before and after its wait are two.
use kernel_utils.Base.{
  ℕ, ◌+◌, arith, ◌≤◌, ◌≡◌, refl, Bool, true, Option, none, some, List, [], ◌∷◌, ◌++◌, length,
  Ensures, Returns,
}
use kernel_utils.Workqueue.{
  Work, Pwq, update, pwq_dec_nr_in_flight, pwq_adjust_max_active, queue_work,
}
use kernel_utils.Workqueue.Active.{groups}
use kernel_utils.Workqueue.Flush.{
  Flusher, Wq, init_wq, link_pwq, set, get_elem?, flush_workqueue, resume, work_finished,
}
use kernel_utils.Workqueue.Colors.{ahead_self}
use kernel_utils.Workqueue.Counts.{
  IsCountedAs, queue_work-IsCountedAs, pwq_adjust_max_active-IsCountedAs,
}
use kernel_utils.Workqueue.Flights.{Flight}
use kernel_utils.Workqueue.Valid.{IsValid}
use kernel_utils.Workqueue.Starts.{flush_workqueue-IsValid}
use kernel_utils.Workqueue.Loop.{resume-IsValid}
use kernel_utils.Workqueue.Keeps.{queued-IsValid, kept-IsValid}
use kernel_utils.Workqueue.Links.{linked-IsValid}
use kernel_utils.Workqueue.Finishes.{work_finished-IsValid}

-- The works in flight of each pwq, and the time: it counts what was queued and the flushes.
-- Those of a pwq come with the last one that was queued first. A work is queued as an active one only
-- if none is delayed, and the first that was delayed is activated first: so the delayed works are as
-- many works at the front.
pub record System : Type 0 where
  pub wq : Wq
  pub flights : List (List Flight)
  pub clock : ℕ

abbrev pub init_system : System
init_system = record { wq = init_wq; flights = []; clock = 0 }

-- `max_active` is at least 1 (`wq_clamp_max_active`). Only an active work is run and finished: a worker
-- finds none that is on `delayed_works`.
pub data Step (s : System) : System → Type 0 where
  links :
      (max_active : ℕ)
      → 1 ≤ max_active
      → Step s (record { wq = link_pwq max_active s.wq; flights = [] ∷ s.flights; clock = s.clock })
  adjusts :
      (i max_active : ℕ) (p : Pwq) (l : List Flight)
      → 1 ≤ max_active
      → get_elem? i s.wq.pwqs ≡ some p
      → get_elem? i s.flights ≡ some l
      → Step s (record s {
        wq = record s.wq { pwqs = set i (pwq_adjust_max_active max_active p).1 s.wq.pwqs };
      })
  queues :
      (i address : ℕ) (p q : Pwq) (appended : List Work) (l : List Flight)
      → get_elem? i s.wq.pwqs ≡ some p
      → get_elem? i s.flights ≡ some l
      → queue_work address p ≡ some (appended, q)
      → Step s (record {
        wq = record s.wq { pwqs = set i q s.wq.pwqs };
        flights = set i (record { color = p.work_color; queued = s.clock } ∷ l) s.flights;
        clock = s.clock + 1;
      })
  finishes :
      (i : ℕ) (p : Pwq) (xs : List Flight) (h : Flight) (ys : List Flight) (wq : Wq)
      → get_elem? i s.wq.pwqs ≡ some p
      → get_elem? i s.flights ≡ some (xs ++ (h ∷ ys))
      → groups p.delayed_works ≤ length xs
      → work_finished i (pwq_dec_nr_in_flight h.color p) s.wq ≡ some wq
      → Step s (record { wq = wq; flights = set i (xs ++ ys) s.flights; clock = s.clock })
  flushes :
      (waits : Bool) (wq : Wq)
      → flush_workqueue s.clock s.wq ≡ some (waits, wq)
      → Step s (record { wq = wq; flights = s.flights; clock = s.clock + 1 })
  resumes :
      (f : Flusher) (wq : Wq)
      → s.wq.first_flusher ≡ some f
      → f.done ≡ true
      → resume f.id s.wq ≡ some wq
      → Step s (record { wq = wq; flights = s.flights; clock = s.clock })

-- What comes up from a new workqueue.
pub data Reaches : System → Type 0 where
  starts : Reaches init_system
  goes_on : (s t : System) → Reaches s → Step s t → Reaches t

init_wq-IsValid : IsValid 0 [] init_wq
init_wq-IsValid = record {
  flush_small = omega arith;
  work_small = omega arith;
  pwqs = tt;
  timely = tt;
  ids = tt;
  ids_overflow = tt;
  ids_woken = tt;
  mode = record {
    same = ahead_self 0 0 (omega arith) (omega arith);
    no_queue = refl;
    no_overflow = refl;
    idle = tt;
  };
}

-- What every result of a call satisfies.
pub each {ℓ} : {A : Type ℓ} (m : Option A) (a : A) (P : A → Type 0) → m ≡ some a → Ensures m P → P a
each none a P e r = cc
each (some b) a P e r = let same : b ≡ a = cc in rw (← same) r

-- What a call returns satisfies what every result does.
pub result {ℓ} :
    {A : Type ℓ} (m : Option A) (a : A) (P : A → Type 0) → m ≡ some a → Returns m P → P a
result none a P e r = absurd r
result (some b) a P e r = let same : b ≡ a = cc in rw (← same) r

Step-IsValid :
    (s t : System) → Step s t → IsValid s.clock s.flights s.wq → IsValid t.clock t.flights t.wq
Step-IsValid s _ (links max_active allowed) v = linked-IsValid s.clock max_active s.flights s.wq v
Step-IsValid s _ (adjusts i max_active p l allowed at here) v =
    let (c, e) = pwq_adjust_max_active-IsCountedAs max_active p in
    kept-IsValid s.clock s.flights s.wq i p l v at here (pwq_adjust_max_active max_active p).1 c e
Step-IsValid s _ (queues i address p q appended l at here e) v =
    let c =
      each (queue_work address p) (appended, q)
        (λ r.
          IsCountedAs (update p.nr_in_flight p.work_color (p.nr_in_flight p.work_color + 1)) p r.1
          × (r.1.flush_color ≡ p.flush_color))
        e (queue_work-IsCountedAs address p) in
    queued-IsValid s.clock s.flights s.wq i p l v at here q c.0 c.1
Step-IsValid s _ (finishes i p xs h ys wq at here active e) v =
    result _ wq (IsValid s.clock (set i (xs ++ ys) s.flights)) e
      (work_finished-IsValid s.clock s.flights s.wq i p xs h ys v at here)
Step-IsValid s _ (flushes waits wq e) v =
    result _ (waits, wq) (λ r. IsValid (s.clock + 1) s.flights r.1) e
      (flush_workqueue-IsValid s.clock s.flights s.wq v)
Step-IsValid s _ (resumes f wq first done e) v =
    result _ wq (IsValid s.clock s.flights) e (resume-IsValid s.clock s.flights s.wq f v first done)

-- Whatever is queued, finished and flushed, in whatever order, the workqueue is in order.
pub Reaches-IsValid : (s : System) → Reaches s → IsValid s.clock s.flights s.wq
Reaches-IsValid _ starts = init_wq-IsValid
Reaches-IsValid t (goes_on s _ r step) = Step-IsValid s t step (Reaches-IsValid s r)
