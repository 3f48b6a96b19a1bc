-- ===== src/Workqueue/Accounted.antt =====
-- Queueing, finishing and a new `max_active` keep the works of a pwq accounted for (workqueue.c).
use kernel_utils.Base.{
  ℕ, zero, suc, ◌+◌, ◌-◌, ◌==◌, ltb, ◌≤◌, ◌<◌, arith, ◌≡◌, ◌⊎◌, refl, true, false, Bool-cases, inl,
  inr, Option, none, some, Ensures, is_empty, length,
}
use kernel_utils.Workqueue.{
  Work, Pwq, pwq_activate_first_delayed, submit_delayed, finish_flush, count_down,
  pwq_dec_nr_in_flight, queue_work, activate_delayed, pwq_adjust_max_active,
}
use kernel_utils.Workqueue.Active.{
  groups, IsEnded, IsAccounted, activate-total, insert_last, groups-positive, groups-le-length,
}

-- Queueing a work keeps the works accounted for, one more, and no more are active than may be.
pub queue_work-IsAccounted :
    (address n : ℕ) (p : Pwq)
    → IsAccounted n p
    → Ensures
        (queue_work address p)
        (λ r. IsAccounted (n + 1) r.1 × (p.nr_active ≤ p.max_active → r.1.nr_active ≤ p.max_active))
unfolding queue_work
queue_work-IsAccounted address n p a = elim (Bool-cases (p.refcnt == 0)) [
  | inl t ↦ rw t tt
  | inr t ↦ elim (Bool-cases (ltb p.nr_active p.max_active)) [
    | inl u ↦
        let room : p.nr_active < p.max_active = ground (arith, u) in
        rw (t, u)
          (
            record {
              total = omega (arith, a.total);
              ended = a.ended;
              busy = elim a.busy [ inl x ↦ inl x | inr x ↦ absurd (omega (arith, x, room)) ];
              allowed = a.allowed;
            },
            λ _. omega (arith, room),
          )
    | inr u ↦
        let none_free : p.max_active ≤ p.nr_active = ground (arith, u) in
        let last : Work = record {
          address = address;
          color = p.work_color;
          linked = false;
          delayed = true;
        } in
        let (total, ended) = insert_last p.delayed_works last refl a.ended in
        rw (t, u)
          (
            record {
              total = omega (arith, a.total, total);
              ended = ended;
              busy = inr none_free;
              allowed = a.allowed;
            },
            λ h. h,
          )
  ]
]

submit_delayed-IsAccounted :
    (n : ℕ) (p : Pwq)
    → p.nr_active + groups p.delayed_works ≡ n
    → IsEnded p.delayed_works
    → (is_empty p.delayed_works ≡ true) ⊎ (p.max_active ≤ p.nr_active + 1)
    → 1 ≤ p.max_active
    → IsAccounted n (submit_delayed p).1
      × (p.nr_active ≤ p.max_active
          → (submit_delayed p).1.nr_active ≤ (submit_delayed p).1.max_active)
unfolding submit_delayed
submit_delayed-IsAccounted n p total ended busy allowed =
    elim (Bool-cases (is_empty p.delayed_works)) [
      | inl t ↦
          rw t (record { total = total; ended = ended; busy = inl t; allowed = allowed }, λ h. h)
      | inr t ↦ elim (Bool-cases (ltb p.nr_active p.max_active)) [
        | inl u ↦
            let room : p.nr_active < p.max_active = ground (arith, u) in
            let (more, fewer, end, same) = activate-total p p.delayed_works refl t ended in
            rw (t, u)
              (
                record {
                  total = omega (arith, total, more, fewer);
                  ended = end;
                  busy = elim busy [ inl x ↦ cc | inr x ↦ inr (omega (arith, x, more, same)) ];
                  allowed = omega (arith, allowed, same);
                },
                λ _. omega (arith, more, same, room),
              )
        | inr u ↦
            rw (t, u)
              (
                record {
                  total = total;
                  ended = ended;
                  busy = inr (ground (arith, u));
                  allowed = allowed;
                },
                λ h. h,
              )
      ]
    ]

-- What is settled about the flush does not touch the works.
finish_flush-same :
    (o : Option ℕ) (color : ℕ) (p : Pwq)
    → ((finish_flush o color p).1.nr_active ≡ p.nr_active)
      × ((finish_flush o color p).1.delayed_works ≡ p.delayed_works)
      × ((finish_flush o color p).1.max_active ≡ p.max_active)
unfolding finish_flush
finish_flush-same none color p = (refl, refl, refl)
finish_flush-same (some c) color p = elim (Bool-cases (c == color)) [
  | inl t ↦ elim (Bool-cases (p.nr_in_flight color == 0)) [
    | inl u ↦ rw (t, u) (refl, refl, refl)
    | inr u ↦ rw (t, u) (refl, refl, refl)
  ]
  | inr t ↦ rw t (refl, refl, refl)
]

-- The same when an active work is finished, one less: if a work is delayed, it takes the place.
pub pwq_dec_nr_in_flight-IsAccounted :
    (color n : ℕ) (p : Pwq)
    → color < 15
    → 1 ≤ p.nr_active
    → IsAccounted n p
    → IsAccounted (n - 1) (pwq_dec_nr_in_flight color p).pwq
      × (p.nr_active ≤ p.max_active
          → (pwq_dec_nr_in_flight color p).pwq.nr_active
            ≤ (pwq_dec_nr_in_flight color p).pwq.max_active)
unfolding pwq_dec_nr_in_flight
pwq_dec_nr_in_flight-IsAccounted color n p small active a =
    let colored : (color == 15) ≡ false = ground arith in
    let (s, bound) =
      submit_delayed-IsAccounted (n - 1) (count_down color p) (omega (arith, a.total, active))
        a.ended (elim a.busy [ inl x ↦ inl x | inr x ↦ inr (omega (arith, x, active)) ])
        a.allowed in
    let submitted = (submit_delayed (count_down color p)).1 in
    let (same_active, same_works, same_max) =
      finish_flush-same submitted.flush_color color submitted in
    rw colored (
      record {
        total = rw (same_active, same_works) s.total;
        ended = rw same_works s.ended;
        busy = rw (same_works, same_active, same_max) s.busy;
        allowed = rw same_max s.allowed;
      },
      λ h. rw (same_active, same_max) (bound (omega arith)),
    )

activate_delayed-IsAccounted :
    (k n : ℕ) (p : Pwq)
    → p.nr_active + groups p.delayed_works ≡ n
    → IsEnded p.delayed_works
    → groups p.delayed_works ≤ k
    → 1 ≤ p.max_active
    → IsAccounted n (activate_delayed k p).1
unfolding activate_delayed
activate_delayed-IsAccounted zero n p total ended enough allowed =
    elim (Bool-cases (is_empty p.delayed_works)) [
      | inl t ↦ record { total = total; ended = ended; busy = inl t; allowed = allowed }
      | inr t ↦ absurd (omega (arith, groups-positive p.delayed_works ended t))
    ]
activate_delayed-IsAccounted (suc k) n p total ended enough allowed =
    elim (Bool-cases (is_empty p.delayed_works)) [
      | inl t ↦ rw t (record { total = total; ended = ended; busy = inl t; allowed = allowed })
      | inr t ↦ elim (Bool-cases (ltb p.nr_active p.max_active)) [
        | inl u ↦
            let (more, fewer, end, same) = activate-total p p.delayed_works refl t ended in
            rw (t, u)
              (activate_delayed-IsAccounted k n (pwq_activate_first_delayed p).1
                (omega (arith, total, more, fewer)) end (omega (arith, fewer, enough))
                (omega (arith, same, allowed)))
        | inr u ↦
            rw (t, u)
              (record {
                total = total;
                ended = ended;
                busy = inr (ground (arith, u));
                allowed = allowed;
              })
      ]
    ]

-- After a change of how many works may be active, they are accounted for by the new number.
pub pwq_adjust_max_active-IsAccounted :
    (saved_max_active n : ℕ) (p : Pwq)
    → 1 ≤ saved_max_active
    → IsAccounted n p
    → IsAccounted n (pwq_adjust_max_active saved_max_active p).1
unfolding pwq_adjust_max_active
pwq_adjust_max_active-IsAccounted saved n p allowed a = elim (Bool-cases (p.max_active == saved)) [
  | inl t ↦ rw t a
  | inr t ↦ rw t (
      activate_delayed-IsAccounted (length p.delayed_works) n (record p { max_active = saved })
        a.total a.ended (groups-le-length p.delayed_works) allowed)
]
