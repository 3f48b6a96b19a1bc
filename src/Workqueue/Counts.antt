-- ===== src/Workqueue/Counts.antt =====
-- What queueing and finishing a work do to the counters and colors of its pwq (workqueue.c).
use kernel_utils.Base.{
  ℕ, ◌+◌, ◌-◌, ◌==◌, ltb, ◌≤◌, ◌<◌, arith, ◌≡◌, ◌⊎◌, refl, sym, ◌∙◌, Bool, true, false, Bool-cases,
  ==_iff, inl, inr, Option, none, some, Ensures, is_empty, length, zero, suc,
}
use kernel_utils.Workqueue.{
  Pwq, update, submit_delayed, pwq_activate_first_delayed, finish_flush, pwq_dec_nr_in_flight,
  count_down, queue_work, activate_delayed, pwq_adjust_max_active,
}

-- The counters and colors of `q`, which comes from `p`.
pub record IsCountedAs (nr : ℕ → ℕ) (p q : Pwq) : Type 0 where
  pub counters : q.nr_in_flight ≡ nr
  pub work_color : q.work_color ≡ p.work_color

pub queue_work-IsCountedAs :
    (address : ℕ) (p : Pwq)
    → Ensures (queue_work address p) (λ r.
      IsCountedAs (update p.nr_in_flight p.work_color (p.nr_in_flight p.work_color + 1)) p r.1
      × (r.1.flush_color ≡ p.flush_color))
unfolding queue_work
queue_work-IsCountedAs address p = elim (Bool-cases (p.refcnt == 0)) [
  | inl t ↦ rw t tt
  | inr t ↦ elim (Bool-cases (ltb p.nr_active p.max_active)) [
    | inl u ↦ rw (t, u) (record { counters = refl; work_color = refl }, refl)
    | inr u ↦ rw (t, u) (record { counters = refl; work_color = refl }, refl)
  ]
]

submit_delayed-IsCountedAs :
    (p : Pwq)
    → IsCountedAs p.nr_in_flight p (submit_delayed p).1
      × ((submit_delayed p).1.flush_color ≡ p.flush_color)
unfolding submit_delayed pwq_activate_first_delayed
submit_delayed-IsCountedAs p = elim (Bool-cases (is_empty p.delayed_works)) [
  | inl t ↦ rw t (record { counters = refl; work_color = refl }, refl)
  | inr t ↦ elim (Bool-cases (ltb p.nr_active p.max_active)) [
    | inl u ↦ rw (t, u) (record { counters = refl; work_color = refl }, refl)
    | inr u ↦ rw (t, u) (record { counters = refl; work_color = refl }, refl)
  ]
]

-- Whether the pwq is done with the color, where `p` is what it was before.
abbrev pub IsFlushed : ℕ → Pwq → Bool → Pwq → Type 0
IsFlushed color p flushed q =
    ((flushed ≡ true)
      × (p.flush_color ≡ some color)
      × (q.nr_in_flight color ≡ 0)
      × (q.flush_color ≡ none))
    ⊎ ((flushed ≡ false)
        × (q.flush_color ≡ p.flush_color)
        × (p.flush_color ≡ some color → 1 ≤ q.nr_in_flight color))

finish_flush-IsFlushed :
    (o : Option ℕ) (color : ℕ) (p : Pwq)
    → p.flush_color ≡ o
    → IsCountedAs p.nr_in_flight p (finish_flush o color p).1
      × IsFlushed color p (finish_flush o color p).0 (finish_flush o color p).1
unfolding finish_flush
finish_flush-IsFlushed none color p e =
    (record { counters = refl; work_color = refl }, inr (refl, refl, λ s. ground (arith, e, s)))
finish_flush-IsFlushed (some c) color p e = elim (Bool-cases (c == color)) [
  | inl t ↦
      let same : c ≡ color = (==_iff c color).0 t in
      elim (Bool-cases (p.nr_in_flight color == 0)) [
        | inl u ↦
            rw (t, u)
              (
                record { counters = refl; work_color = refl },
                inl (refl, rw (← same) e, (==_iff _ 0).0 u, refl),
              )
        | inr u ↦
            rw (t, u)
              (
                record { counters = refl; work_color = refl },
                inr (refl, refl, λ s. ground (arith, u)),
              )
      ]
  | inr t ↦ rw t (
    record { counters = refl; work_color = refl },
    inr (refl, refl, λ s. ground (arith, t, e, s)),
  )
]

-- What finishing a work of a color does, but for works that count in no color.
pub pwq_dec_nr_in_flight-IsFlushed :
    (color : ℕ) (p : Pwq)
    → color < 15
    → IsCountedAs
        (update p.nr_in_flight color (p.nr_in_flight color - 1))
        p
        (pwq_dec_nr_in_flight color p).pwq
      × IsFlushed color p (pwq_dec_nr_in_flight color p).flushed (pwq_dec_nr_in_flight color p).pwq
unfolding pwq_dec_nr_in_flight
pwq_dec_nr_in_flight-IsFlushed color p small =
    let colored : (color == 15) ≡ false = ground arith in
    let (s, tip) = submit_delayed-IsCountedAs (count_down color p) in
    let submitted = (submit_delayed (count_down color p)).1 in
    let (f, way) = finish_flush-IsFlushed submitted.flush_color color submitted refl in
    rw colored (
      record { counters = f.counters ∙ s.counters; work_color = f.work_color ∙ s.work_color },
      elim way [
        | inl (a, b, c, d) ↦ inl (a, sym tip ∙ b, c, d)
        | inr (a, b, c) ↦ inr (a, b ∙ tip, λ e. c (tip ∙ e))
      ],
    )

activate_delayed-IsCountedAs :
    (k : ℕ) (p : Pwq)
    → IsCountedAs p.nr_in_flight p (activate_delayed k p).1
      × ((activate_delayed k p).1.flush_color ≡ p.flush_color)
unfolding activate_delayed
activate_delayed-IsCountedAs zero p = (record { counters = refl; work_color = refl }, refl)
activate_delayed-IsCountedAs (suc k) p = elim (Bool-cases (is_empty p.delayed_works)) [
  | inl t ↦ rw t (record { counters = refl; work_color = refl }, refl)
  | inr t ↦ elim (Bool-cases (ltb p.nr_active p.max_active)) [
    | inl u ↦
        let (c, e) = activate_delayed-IsCountedAs k (pwq_activate_first_delayed p).1 in
        rw (t, u)
          (unfold pwq_activate_first_delayed in
            (record { counters = c.counters; work_color = c.work_color }, e))
    | inr u ↦ rw (t, u) (record { counters = refl; work_color = refl }, refl)
  ]
]

pub pwq_adjust_max_active-IsCountedAs :
    (saved_max_active : ℕ) (p : Pwq)
    → IsCountedAs p.nr_in_flight p (pwq_adjust_max_active saved_max_active p).1
      × ((pwq_adjust_max_active saved_max_active p).1.flush_color ≡ p.flush_color)
unfolding pwq_adjust_max_active
pwq_adjust_max_active-IsCountedAs saved p = elim (Bool-cases (p.max_active == saved)) [
  | inl t ↦ rw t (record { counters = refl; work_color = refl }, refl)
  | inr t ↦
      let (c, e) =
        activate_delayed-IsCountedAs (length p.delayed_works) (record p { max_active = saved }) in
      rw t (record { counters = c.counters; work_color = c.work_color }, e)
]
