-- ===== src/Workqueue/Accounts.antt =====
-- The flushes of workqueue.c leave the works of each pwq accounted for.
use kernel_utils.Base.{
  ℕ, zero, suc, ◌+◌, ◌==◌, Bool, true, false, Bool-cases, inl, inr, Option, none, some,
  Option-cases, Ensures, Ensures->>=, List, [], ◌∷◌, ◌++◌, is_empty, length,
}
use kernel_utils.Workqueue.{Pwq, work_next_color}
use kernel_utils.Workqueue.Active.{IsAccounted}
use kernel_utils.Workqueue.Flush.{
  Flusher, Wq, arm, arm_all, paint, prep_flush_color, prep_work_color, complete_first, clear_first,
  flush_workqueue, same_color, take_overflow, advance, lead_on, cascade, resume,
}
use kernel_utils.Workqueue.Flights.{Flight, Zip, Zip-map}

-- As many works are active or delayed as are in flight.
abbrev pub Accounts : Pwq → List Flight → Type 0
Accounts p l = IsAccounted (length l) p

pub painted-Accounts :
    (color : ℕ) (p : Pwq) (l : List Flight) → Accounts p l → Accounts (paint color p) l
painted-Accounts color p l a = record {
  total = a.total;
  ended = a.ended;
  busy = a.busy;
  allowed = a.allowed;
}

armed-Accounts : (color : ℕ) (p : Pwq) (l : List Flight) → Accounts p l → Accounts (arm color p) l
armed-Accounts color p l a = elim (Bool-cases (p.nr_in_flight color == 0)) [
  | inl t ↦ rw t a
  | inr t ↦ rw t (record { total = a.total; ended = a.ended; busy = a.busy; allowed = a.allowed })
]

module _ (flights : List (List Flight)) where
  abbrev Keeps : Wq → Type 0
  Keeps wq = Zip Accounts wq.pwqs flights

  completed :
      (wq : Wq) (o : Option Flusher)
      → Keeps wq
      → Ensures
          (elim o [
            | none ↦ none
            | some f ↦ some (record wq { first_flusher = some (record f { done = true }) })
          ])
          Keeps
  completed wq none z = tt
  completed wq (some f) z = z

  armed :
      (color : ℕ) (ps : List Pwq) (ls : List (List Flight))
      → Zip Accounts ps ls
      → Zip Accounts (arm_all color ps).1 ls
  unfolding arm_all
  armed color [] ls z = z
  armed color (p ∷ ps) [] z = absurd z
  armed color (p ∷ ps) (l ∷ ls) z = (armed-Accounts color p l z.0, armed color ps ls z.1)

  prep_flush_color-Keeps :
      (color : ℕ) (wq : Wq) → Keeps wq → Ensures (prep_flush_color color wq) (λ r. Keeps r.1)
  unfolding prep_flush_color
  prep_flush_color-Keeps color wq z =
      let n = (arm_all color wq.pwqs).0 in
      let next : Wq = record wq { pwqs = (arm_all color wq.pwqs).1; nr_pwqs_to_flush = n } in
      let z' : Keeps next = armed color wq.pwqs flights z in
      elim (Bool-cases (n == 0)) [
        | inl t ↦ rw t (
            Ensures->>= (complete_first next) (λ done. some (false, done)) Keeps (λ r. Keeps r.1)
              (completed next wq.first_flusher z') (λ a h. h))
        | inr t ↦ rw t z'
      ]

  prep_work_color-Keeps : (color : ℕ) (wq : Wq) → Keeps wq → Keeps (prep_work_color color wq)
  unfolding prep_work_color
  prep_work_color-Keeps color wq z =
      Zip-map Accounts Accounts (paint color) (painted-Accounts color) wq.pwqs flights z

  pub flush_workqueue-Keeps :
      (id : ℕ) (wq : Wq) → Keeps wq → Ensures (flush_workqueue id wq) (λ r. Keeps r.1)
  unfolding flush_workqueue
  flush_workqueue-Keeps id wq z =
      let next = work_next_color wq.work_color in
      let colored = prep_work_color next (record wq { work_color = next }) in
      let z' : Keeps colored = prep_work_color-Keeps next (record wq { work_color = next }) z in
      let this : Flusher = record { id = id; color = wq.work_color; done = false } in
      let leads : Wq = record colored { first_flusher = some this } in
      elim (Bool-cases (next == wq.flush_color)) [
        | inl t ↦ rw t z
        | inr t ↦ elim (Option-cases wq.first_flusher) [
          | inr (f, e) ↦ rw (t, e) z'
          | inl e ↦
              rw (t, e)
                (Ensures->>= (prep_flush_color wq.flush_color leads) _ (λ r. Keeps r.1)
                  (λ r. Keeps r.1) (prep_flush_color-Keeps wq.flush_color leads z')
                  (λ (waits, prepared) h. elim (Bool-cases waits) [
                    | inl w ↦ rw w h
                    | inr w ↦ rw w h
                  ]))
        ]
      ]

  take_overflow-Keeps : (wq : Wq) → Keeps wq → Keeps (take_overflow wq)
  unfolding take_overflow
  take_overflow-Keeps wq z = elim (Bool-cases (is_empty wq.flusher_overflow)) [
    | inl t ↦ rw t z
    | inr t ↦ rw t (
        unfold prep_work_color in
        (Zip-map Accounts Accounts (paint (work_next_color wq.work_color))
          (painted-Accounts (work_next_color wq.work_color)) wq.pwqs flights z))
  ]

  advance-Keeps : (wq : Wq) → Keeps wq → Keeps (advance wq)
  unfolding advance same_color
  advance-Keeps wq z =
      let (ids, rest) = same_color wq.flush_color wq.flusher_queue in
      take_overflow-Keeps
        (record wq {
          flusher_queue = rest;
          woken = ids ++ wq.woken;
          flush_color = work_next_color wq.flush_color;
        })
        z

  lead_on-Keeps :
      (again : Wq → Option Wq) (ended : Bool) (fs : List Flusher) (wq : Wq)
      → ((u : Wq) → Keeps u → Ensures (again u) Keeps)
      → Keeps wq
      → Ensures (lead_on again ended fs wq) Keeps
  unfolding lead_on
  lead_on-Keeps again ended [] wq k z = z
  lead_on-Keeps again true (f ∷ fs) wq k z = tt
  lead_on-Keeps again false (f ∷ fs) wq k z =
      let leads : Wq = record wq { flusher_queue = fs; first_flusher = some f } in
      Ensures->>= (prep_flush_color wq.flush_color leads) _ (λ r. Keeps r.1) Keeps
        (prep_flush_color-Keeps wq.flush_color leads z)
        (λ (waits, prepared) h. elim (Bool-cases waits) [
          | inl w ↦ rw w h
          | inr w ↦ rw w (k (clear_first f.id prepared) h)
        ])

  cascade-Keeps : (n : ℕ) (wq : Wq) → Keeps wq → Ensures (cascade n wq) Keeps
  unfolding cascade
  cascade-Keeps zero wq z = tt
  cascade-Keeps (suc n) wq z =
      lead_on-Keeps (cascade n) _ (advance wq).flusher_queue (advance wq) (cascade-Keeps n)
        (advance-Keeps wq z)

  pub resume-Keeps : (id : ℕ) (wq : Wq) → Keeps wq → Ensures (resume id wq) Keeps
  unfolding resume
  resume-Keeps id wq z =
      cascade-Keeps (suc (length wq.flusher_queue + length wq.flusher_overflow)) (clear_first id wq)
        z
