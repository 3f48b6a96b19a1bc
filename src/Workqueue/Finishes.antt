-- ===== src/Workqueue/Finishes.antt =====
-- Finishing a work keeps the workqueue of workqueue.c in order.
use kernel_utils.Base.{
  ℕ, ◌-◌, ◌==◌, ◌<◌, arith, ◌≡◌, refl, sym, ap, ◌∙◌, true, false, Bool-cases, ==_iff, inl, inr,
  Option, none, some, Option-cases, List, ◌∷◌, ◌++◌, All, All-left, All-right, All-append,
  if◌then◌else◌, Returns,
}
use kernel_utils.Workqueue.{Pwq, update, pwq_dec_nr_in_flight}
use kernel_utils.Workqueue.Flush.{Flusher, Wq, set, get_elem?, work_finished}
use kernel_utils.Workqueue.Counts.{IsCountedAs, IsFlushed, pwq_dec_nr_in_flight-IsFlushed}
use kernel_utils.Workqueue.Flights.{Flight, Zip-get, Zip-set, All-set, All-get}
use kernel_utils.Workqueue.Valid.{
  IsPwq, IsIdle, IsArmed, waits, tips, IsTimely, flushers, IsMode, IsValid, flushing, quiet,
}
use kernel_utils.Workqueue.Arms.{tips-set}
use kernel_utils.Workqueue.Timely.{retime}
use kernel_utils.Workqueue.Fewer.{finished-IsPwq, finished-IsTip}

module _ (clock : ℕ) (flights : List (List Flight)) (wq : Wq) (i : ℕ) (p : Pwq) (xs : List Flight)
    (h : Flight) (ys : List Flight) (v : IsValid clock flights wq)
    (at : get_elem? i wq.pwqs ≡ some p) (here : get_elem? i flights ≡ some (xs ++ (h ∷ ys))) where
  abbrev Timely : Flight → Type 0
  Timely =
      IsTimely wq.flush_color wq.work_color (flushers wq.first_flusher wq.flusher_queue) wq.woken

  timely : All Timely (xs ++ (h ∷ ys))
  timely = All-get (λ l. All Timely l) i flights (xs ++ (h ∷ ys)) v.timely here

  small : h.color < 15
  small = (All-right Timely xs (h ∷ ys) timely).0.small

  finished : Pwq
  finished = (pwq_dec_nr_in_flight h.color p).pwq

  counters :
      IsCountedAs (update p.nr_in_flight h.color (p.nr_in_flight h.color - 1)) p finished
      × IsFlushed h.color p (pwq_dec_nr_in_flight h.color p).flushed finished
  unfolding finished
  counters = pwq_dec_nr_in_flight-IsFlushed h.color p small

  fewer :
      (f : ℕ)
      → finished.nr_in_flight f ≡ (if f == h.color then p.nr_in_flight f - 1 else p.nr_in_flight f)
  fewer f = rw counters.0.counters (elim (Bool-cases (f == h.color)) [
    | inl t ↦ rw t (rw ((==_iff f h.color).0 t) refl)
    | inr t ↦ rw t refl
  ])

  finished-IsArmed : IsArmed wq.flush_color p → IsArmed wq.flush_color finished
  finished-IsArmed a =
      finished-IsTip wq.flush_color h.color p.flush_color finished.flush_color
        (p.nr_in_flight wq.flush_color) (finished.nr_in_flight wq.flush_color)
        (fewer wq.flush_color) a
        (elim counters.1 [
          | inl (_, tip, zero_left, none_now) ↦
              inl (tip, (λ t. rw ((==_iff wq.flush_color h.color).0 t) zero_left), none_now)
          | inr (_, same, left) ↦
              inr (same, (λ tip t. rw ((==_iff wq.flush_color h.color).0 t) (left tip)))
        ])

  -- The workqueue afterwards, with its counter and its first flusher.
  after :
      (n : ℕ) (o : Option Flusher)
      → All
          (λ l.
            All
              (λ k. IsTimely wq.flush_color wq.work_color (flushers o wq.flusher_queue) wq.woken k)
              l)
          flights
      → All (λ g. g.id < clock) (flushers o wq.flusher_queue)
      → IsMode
          (record wq { pwqs = set i finished wq.pwqs; nr_pwqs_to_flush = n; first_flusher = o })
          o
      → IsValid clock
          (set i (xs ++ ys) flights)
          (record wq { pwqs = set i finished wq.pwqs; nr_pwqs_to_flush = n; first_flusher = o })
  after n o t ids mode =
      let one =
        All-get
          (λ l.
            All
              (λ k. IsTimely wq.flush_color wq.work_color (flushers o wq.flusher_queue) wq.woken k)
              l)
          i flights (xs ++ (h ∷ ys)) t here in
      record {
        flush_small = v.flush_small;
        work_small = v.work_small;
        pwqs = Zip-set (IsPwq wq.work_color) i wq.pwqs flights finished (xs ++ ys) v.pwqs (
            finished-IsPwq wq.work_color p finished xs h ys counters.0
              (Zip-get (IsPwq wq.work_color) i wq.pwqs flights p (xs ++ (h ∷ ys)) v.pwqs at here));
        timely =
            All-set _ i (xs ++ ys) flights
              (All-append _ xs ys (All-left _ xs (h ∷ ys) one) (All-right _ xs (h ∷ ys) one).1) t;
        ids = ids;
        ids_overflow = v.ids_overflow;
        ids_woken = v.ids_woken;
        mode = mode;
      }

  -- A pwq is done with the color that is flushed.
  flushed-IsValid :
      (f : Flusher)
      → wq.first_flusher ≡ some f
      → (pwq_dec_nr_in_flight h.color p).flushed ≡ true
      → p.flush_color ≡ some h.color
      → finished.flush_color ≡ none
      → Returns
          (work_finished i (pwq_dec_nr_in_flight h.color p) wq)
          (IsValid clock (set i (xs ++ ys) flights))
  unfolding work_finished finished
  flushed-IsValid f e done tip_before tip_after =
      let m = flushing wq f wq.first_flusher e v.mode in
      let one = ap waits tip_before in
      let none_now = ap waits tip_after in
      let fewer_tips = tips-set i p finished wq.pwqs at in
      let timely = rw e at v.timely in
      let ids = rw e at v.ids in
      let counted : wq.nr_pwqs_to_flush - 1 ≡ tips (set i finished wq.pwqs) =
        omega (arith, m.counted, one, none_now, fewer_tips) in
      let armed =
        All-set (IsArmed wq.flush_color) i finished wq.pwqs
          (finished-IsArmed (All-get (IsArmed wq.flush_color) i wq.pwqs p m.armed at)) m.armed in
      elim (Bool-cases (wq.nr_pwqs_to_flush - 1 == 0)) [
        | inl t ↦
            rw (done, t, e)
              (after (wq.nr_pwqs_to_flush - 1) (some (record f { done = true }))
                (retime wq.flush_color wq.work_color wq.flush_color wq.work_color
                  (f ∷ wq.flusher_queue) (record f { done = true } ∷ wq.flusher_queue) wq.woken
                  wq.woken
                  (λ k t. record {
                    small = t.small;
                    range = t.range;
                    waited = t.waited;
                    returned = t.returned;
                  })
                  flights timely)
                ids
                (record {
                  color = m.color;
                  chain = m.chain;
                  full = m.full;
                  armed = armed;
                  counted = counted;
                  completed = sym t;
                }))
        | inr t ↦
            let before : (wq.nr_pwqs_to_flush == 0) ≡ false = ground (arith, t) in
            rw (done, t)
              (after (wq.nr_pwqs_to_flush - 1) wq.first_flusher v.timely v.ids (
                rw e (record {
                  color = m.color;
                  chain = m.chain;
                  full = m.full;
                  armed = armed;
                  counted = counted;
                  completed = m.completed ∙ before ∙ sym t;
                })))
      ]

  -- Otherwise the counter stays.
  goes_on-IsValid :
      (pwq_dec_nr_in_flight h.color p).flushed ≡ false
      → finished.flush_color ≡ p.flush_color
      → Returns
          (work_finished i (pwq_dec_nr_in_flight h.color p) wq)
          (IsValid clock (set i (xs ++ ys) flights))
  unfolding work_finished finished
  goes_on-IsValid waiting same =
      rw waiting
        (after wq.nr_pwqs_to_flush wq.first_flusher v.timely v.ids (mode wq.first_flusher v.mode))
    where
      mode :
          (o : Option Flusher)
          → IsMode wq o
          → IsMode (record wq { pwqs = set i finished wq.pwqs }) o
      mode none m = record {
        same = m.same;
        no_queue = m.no_queue;
        no_overflow = m.no_overflow;
        idle =
            All-set IsIdle i finished wq.pwqs (same ∙ All-get IsIdle i wq.pwqs p m.idle at) m.idle;
      }
      mode (some f) m =
          let tip_same = ap waits same in
          record {
            color = m.color;
            chain = m.chain;
            full = m.full;
            armed =
                All-set (IsArmed wq.flush_color) i finished wq.pwqs
                  (finished-IsArmed (All-get (IsArmed wq.flush_color) i wq.pwqs p m.armed at))
                  m.armed;
            counted = omega (arith, m.counted, tips-set i p finished wq.pwqs at, tip_same);
            completed = m.completed;
          }

  -- Finishing a work does not fault, and keeps the workqueue in order.
  pub work_finished-IsValid :
      Returns
        (work_finished i (pwq_dec_nr_in_flight h.color p) wq)
        (IsValid clock (set i (xs ++ ys) flights))
  work_finished-IsValid = elim counters.1 [
    | inl (done, tip_before, _, tip_after) ↦ elim (Option-cases wq.first_flusher) [
      | inl e ↦
          let m = quiet wq wq.first_flusher e v.mode in
          let idle = All-get IsIdle i wq.pwqs p m.idle at in
          let fault : ◌≡◌ {A = Option ℕ} none (some h.color) = sym idle ∙ tip_before in cc
      | inr (f, e) ↦ flushed-IsValid f e done tip_before tip_after
    ]
    | inr (waiting, same, _) ↦ goes_on-IsValid waiting same
  ]
