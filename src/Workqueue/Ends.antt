-- ===== src/Workqueue/Ends.antt =====
-- The wait of `util_flush_workqueue` in workqueue.c ends when the works that it waits for do.
use kernel_utils.Base.{
  ℕ, zero, suc, ◌+◌, ◌-◌, ◌==◌, ◌≤◌, arith, ◌≡◌, ◌⊎◌, refl, ap, ◌∙◌, true, false, Bool-cases, inl,
  inr, Option, none, some, List, [], ◌∷◌, ◌++◌, length, length_middle, Ensures, Returns_both,
}
use kernel_utils.Workqueue.{pwq_dec_nr_in_flight, Finished}
use kernel_utils.Workqueue.Flush.{Flusher, Wq, get_elem?, work_finished, set}
use kernel_utils.Workqueue.Flights.{Flight, Zip-get}
use kernel_utils.Workqueue.Valid.{IsValid}
use kernel_utils.Workqueue.Finishes.{work_finished-IsValid}
use kernel_utils.Workqueue.Accounts.{Accounts}
use kernel_utils.Workqueue.Run.{System, Step, Reaches, Reaches-IsValid}
use kernel_utils.Workqueue.Served.{active-work, Reaches-IsServed}
use kernel_utils.Workqueue.Promise.{waiting-work}

-- A worker finishes a work.
abbrev pub IsFinishing : {s t : System} → Step s t → Type 0
IsFinishing (Step.links max_active allowed) = ⊥
IsFinishing (Step.adjusts i max_active p l allowed at here) = ⊥
IsFinishing (Step.queues i address p q appended l at here e) = ⊥
IsFinishing (Step.finishes i p xs h ys wq at here active e) = Unit
IsFinishing (Step.flushes waits wq e) = ⊥
IsFinishing (Step.resumes f wq first done e) = ⊥

-- What leads from a system to `u` when workers finish works and nothing else is done.
pub data Steps (u : System) : System → Type 0 where
  here : Steps u u
  next : (s t : System) (step : Step s t) → IsFinishing step → Steps u t → Steps u s

-- How many works are in flight in all pwqs.
abbrev total : List (List Flight) → ℕ
total [] = 0
total (l ∷ ls) = length l + total ls

total-set :
    (i : ℕ) (ls : List (List Flight)) (xs : List Flight) (h : Flight) (ys : List Flight)
    → get_elem? i ls ≡ some (xs ++ (h ∷ ys))
    → total (set i (xs ++ ys) ls) + 1 ≡ total ls
total-set i [] xs h ys e = cc
total-set zero (l ∷ ls) xs h ys e =
    let same : l ≡ xs ++ (h ∷ ys) = cc in
    let one = length_middle xs h ys in rw same (omega (arith, one))
total-set (suc i) (l ∷ ls) xs h ys e = omega (arith, total-set i ls xs h ys e)

-- The first flusher stays, or its completion is done.
work_finished-first :
    (i : ℕ) (d : Finished) (wq : Wq) (f : Flusher)
    → wq.first_flusher ≡ some f
    → Ensures
        (work_finished i d wq)
        (λ u. (u.first_flusher ≡ some f) ⊎ (u.first_flusher ≡ some (record f { done = true })))
unfolding work_finished
work_finished-first i d wq f e = elim (Bool-cases d.flushed) [
  | inl t ↦ elim (Bool-cases (wq.nr_pwqs_to_flush - 1 == 0)) [
    | inl u ↦ rw (t, u) (completes wq.first_flusher e)
    | inr u ↦ rw (t, u) (inl e)
  ]
  | inr t ↦ rw t (inl e)
]
  where
    completes :
        (o : Option Flusher)
        → o ≡ some f
        → Ensures
            (elim o [
              | none ↦ none
              | some g ↦ some (record wq {
                pwqs = set i d.pwq wq.pwqs;
                nr_pwqs_to_flush = wq.nr_pwqs_to_flush - 1;
                first_flusher = some (record g { done = true });
              })
            ])
            (λ u. (u.first_flusher ≡ some f) ⊎ (u.first_flusher ≡ some (record f { done = true })))
    completes none e = tt
    completes (some g) e = let same : g ≡ f = cc in inr (rw same refl)

-- An active work of a pwq that the flush waits for is finished.
finish_one :
    (s : System) (f : Flusher)
    → Reaches s
    → s.wq.first_flusher ≡ some f
    → f.done ≡ false
    → (t : System) × (step : Step s t) × IsFinishing step
      × (total t.flights + 1 ≡ total s.flights)
      × ((t.wq.first_flusher ≡ some f) ⊎ (t.wq.first_flusher ≡ some (record f { done = true })))
finish_one s f r e waits =
    let v = Reaches-IsValid s r in
    let (i, p, before, one, after, at, there, _) = waiting-work s f r e waits in
    let l = before ++ (one ∷ after) in
    let more = length_middle before one after in
    let a = Zip-get Accounts i s.wq.pwqs s.flights p l (Reaches-IsServed s r) at there in
    let (xs, h, same, active) = active-work p l a (omega (arith, more)) in
    let there' = there ∙ ap some same in
    let (wq, result, _, first) =
      Returns_both (work_finished i (pwq_dec_nr_in_flight h.color p) s.wq)
        (IsValid s.clock (set i (xs ++ []) s.flights))
        (λ u. (u.first_flusher ≡ some f) ⊎ (u.first_flusher ≡ some (record f { done = true })))
        (work_finished-IsValid s.clock s.flights s.wq i p xs h [] v at there')
        (work_finished-first i (pwq_dec_nr_in_flight h.color p) s.wq f e) in
    (
      record { wq = wq; flights = set i (xs ++ []) s.flights; clock = s.clock },
      Step.finishes i p xs h [] wq at there' active result,
      tt,
      total-set i s.flights xs h [] there',
      first,
    )

ends_after :
    (n : ℕ) (s : System) (f : Flusher)
    → Reaches s
    → s.wq.first_flusher ≡ some f
    → f.done ≡ false
    → total s.flights ≤ n
    → (t : System) × Steps t s × (t.wq.first_flusher ≡ some (record f { done = true }))
ends_after zero s f r e waits bound =
    let (t, step, _, fewer, first) = finish_one s f r e waits in
    absurd (omega (arith, bound, fewer))
ends_after (suc n) s f r e waits bound =
    let (t, step, finish, fewer, first) = finish_one s f r e waits in
    elim first [
      | inl same ↦
          let (u, steps, done) =
            ends_after n t f (Reaches.goes_on s t r step) same waits
              (omega (arith, bound, fewer)) in
          (u, next s t step finish steps, done)
      | inr done ↦ (t, next s t step finish here, done)
    ]

-- While the first flusher waits, its wait can end by the workers alone: finishing active works, one
-- after the other, with nothing new queued or flushed and no other number of works allowed, leads
-- to a state in which its completion is done.
pub flush-can_end :
    (s : System) (f : Flusher)
    → Reaches s
    → s.wq.first_flusher ≡ some f
    → f.done ≡ false
    → (t : System) × Steps t s × (t.wq.first_flusher ≡ some (record f { done = true }))
flush-can_end s f r e waits = ends_after (total s.flights) s f r e waits (omega arith)
