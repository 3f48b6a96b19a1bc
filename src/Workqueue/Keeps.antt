-- ===== src/Workqueue/Keeps.antt =====
-- Queueing a work and a new `max_active` keep the workqueue of workqueue.c in order.
use kernel_utils.Base.{
  ℕ, zero, suc, ◌+◌, ◌==◌, ◌≤◌, ◌<◌, arith, ◌≡◌, refl, sym, ap, ◌∙◌, false, Bool-cases, ==_iff, inl,
  inr, Option, none, some, List, [], ◌∷◌, All-map,
}
use kernel_utils.Workqueue.{Pwq, update}
use kernel_utils.Workqueue.Flush.{Flusher, Wq, set, get_elem?}
use kernel_utils.Workqueue.Colors.{ahead, ahead_self}
use kernel_utils.Workqueue.Counts.{IsCountedAs}
use kernel_utils.Workqueue.Flights.{Flight, Zip, Zip-get, Zip-set, All-set, All-get}
use kernel_utils.Workqueue.Valid.{
  IsPwq, IsIdle, IsTip, IsArmed, waits, tip, IsMode, IsValid, IsChain-positive,
}
use kernel_utils.Workqueue.Arms.{tips-set}
use kernel_utils.Workqueue.Timely.{later_ids, later_numbers}

IsTip-same : (f : ℕ) (o o' : Option ℕ) (n n' : ℕ) → o' ≡ o → n' ≡ n → IsTip f o n → IsTip f o' n'
IsTip-same f o o' n n' e e' t = rw (e, e') t

-- A work of another color than the one to flush.
queued-IsArmed :
    (f : ℕ) (p q : Pwq)
    → IsCountedAs (update p.nr_in_flight p.work_color (p.nr_in_flight p.work_color + 1)) p q
    → q.flush_color ≡ p.flush_color
    → (f == p.work_color) ≡ false
    → IsArmed f p
    → IsArmed f q
queued-IsArmed f p q c e other a =
    let same : q.nr_in_flight f ≡ p.nr_in_flight f = rw (c.counters, other) refl in
    IsTip-same f p.flush_color q.flush_color (p.nr_in_flight f) (q.nr_in_flight f) e same a

queued-IsPwq :
    (clock w : ℕ) (p q : Pwq) (l : List Flight)
    → IsCountedAs (update p.nr_in_flight p.work_color (p.nr_in_flight p.work_color + 1)) p q
    → IsPwq w p l
    → IsPwq w q (record { color = p.work_color; queued = clock } ∷ l)
queued-IsPwq clock w p q l c v = record {
  counted = λ k.
      rw c.counters (ground (arith, v.counted k, v.counted p.work_color, ==_iff k p.work_color));
  painted = c.work_color ∙ v.painted;
}

kept-Zip :
    (w i : ℕ) (ps : List Pwq) (ls : List (List Flight)) (p q : Pwq) (l : List Flight)
    → get_elem? i ps ≡ some p
    → get_elem? i ls ≡ some l
    → IsCountedAs p.nr_in_flight p q
    → Zip (IsPwq w) ps ls
    → Zip (IsPwq w) (set i q ps) ls
kept-Zip w i [] [] p q l at here c z = tt
kept-Zip w i [] (m ∷ ls) p q l at here c z = absurd z
kept-Zip w i (r ∷ ps) [] p q l at here c z = absurd z
kept-Zip w zero (r ∷ ps) (m ∷ ls) p q l at here c z =
    let same : r ≡ p = cc in
    let h : IsPwq w p m = rw (← same) z.0 in
    (record { counted = λ k. rw c.counters (h.counted k); painted = c.work_color ∙ h.painted }, z.1)
kept-Zip w (suc i) (r ∷ ps) (m ∷ ls) p q l at here c z =
    (z.0, kept-Zip w i ps ls p q l at here c z.1)

module _ (clock : ℕ) (flights : List (List Flight)) (wq : Wq) (i : ℕ) (p : Pwq) (l : List Flight)
    (v : IsValid clock flights wq) (at : get_elem? i wq.pwqs ≡ some p)
    (here : get_elem? i flights ≡ some l) where
  pwq : IsPwq wq.work_color p l
  pwq = Zip-get (IsPwq wq.work_color) i wq.pwqs flights p l v.pwqs at here

  pub queued-IsValid :
      (q : Pwq)
      → IsCountedAs (update p.nr_in_flight p.work_color (p.nr_in_flight p.work_color + 1)) p q
      → q.flush_color ≡ p.flush_color
      → IsValid
          (clock + 1)
          (set i (record { color = p.work_color; queued = clock } ∷ l) flights)
          (record wq { pwqs = set i q wq.pwqs })
  queued-IsValid q c e = record {
    flush_small = v.flush_small;
    work_small = v.work_small;
    pwqs =
        Zip-set (IsPwq wq.work_color) i wq.pwqs flights q
          (record { color = p.work_color; queued = clock } ∷ l) v.pwqs
          (queued-IsPwq clock wq.work_color p q l c pwq);
    timely =
        All-set _ i _ flights
          (
            rw pwq.painted (record {
              small = v.work_small;
              range = omega arith;
              waited =
                  All-map (λ g. g.id < clock)
                    (λ g.
                      clock < g.id
                      → ahead wq.flush_color wq.work_color ≤ ahead wq.flush_color g.color)
                    (λ g early late. absurd (omega arith)) _ v.ids;
              returned =
                  All-map (λ j. j < clock) (λ j. j ≤ clock) (λ j h. omega arith) wq.woken
                    v.ids_woken;
            }),
            All-get _ i flights l v.timely here,
          )
          v.timely;
    ids = later_ids clock _ v.ids;
    ids_overflow = later_numbers clock _ v.ids_overflow;
    ids_woken = later_numbers clock _ v.ids_woken;
    mode = mode wq.first_flusher v.mode;
  }
    where
      mode : (o : Option Flusher) → IsMode wq o → IsMode (record wq { pwqs = set i q wq.pwqs }) o
      mode none m = record {
        same = m.same;
        no_queue = m.no_queue;
        no_overflow = m.no_overflow;
        idle = All-set IsIdle i q wq.pwqs (e ∙ All-get IsIdle i wq.pwqs p m.idle at) m.idle;
      }
      mode (some f) m =
          let pos = IsChain-positive wq.flush_color 0 _ wq.flusher_queue m.chain in
          let other : (wq.flush_color == p.work_color) ≡ false =
            elim (Bool-cases (wq.flush_color == p.work_color)) [
              | inl t ↦
                  let same : wq.work_color ≡ wq.flush_color =
                    sym pwq.painted ∙ sym ((==_iff wq.flush_color p.work_color).0 t) in
                  let zero_ahead : ahead wq.flush_color wq.work_color ≡ 0 =
                    rw same
                      (ahead_self wq.flush_color wq.flush_color v.flush_small v.flush_small) in
                  absurd (omega (arith, pos, zero_ahead))
              | inr t ↦ t
            ] in
          let tip_same : tip q ≡ tip p = rw e refl in
          record {
            color = m.color;
            chain = m.chain;
            full = m.full;
            armed =
                All-set (IsArmed wq.flush_color) i q wq.pwqs
                  (queued-IsArmed wq.flush_color p q c e other
                    (All-get (IsArmed wq.flush_color) i wq.pwqs p m.armed at))
                  m.armed;
            counted = omega (arith, m.counted, tips-set i p q wq.pwqs at, tip_same);
            completed = m.completed;
          }

  -- What leaves the counters and colors alone.
  pub kept-IsValid :
      (q : Pwq)
      → IsCountedAs p.nr_in_flight p q
      → q.flush_color ≡ p.flush_color
      → IsValid clock flights (record wq { pwqs = set i q wq.pwqs })
  kept-IsValid q c e = record {
    flush_small = v.flush_small;
    work_small = v.work_small;
    pwqs = kept-Zip wq.work_color i wq.pwqs flights p q l at here c v.pwqs;
    timely = v.timely;
    ids = v.ids;
    ids_overflow = v.ids_overflow;
    ids_woken = v.ids_woken;
    mode = mode wq.first_flusher v.mode;
  }
    where
      mode : (o : Option Flusher) → IsMode wq o → IsMode (record wq { pwqs = set i q wq.pwqs }) o
      mode none m = record {
        same = m.same;
        no_queue = m.no_queue;
        no_overflow = m.no_overflow;
        idle = All-set IsIdle i q wq.pwqs (e ∙ All-get IsIdle i wq.pwqs p m.idle at) m.idle;
      }
      mode (some f) m =
          let f' = wq.flush_color in
          let tip_same = ap waits e in
          record {
            color = m.color;
            chain = m.chain;
            full = m.full;
            armed =
                All-set (IsArmed f') i q wq.pwqs
                  (IsTip-same f' p.flush_color q.flush_color (p.nr_in_flight f') (q.nr_in_flight f')
                    e (ap (λ (nr : ℕ → ℕ). nr f') c.counters)
                    (All-get (IsArmed f') i wq.pwqs p m.armed at))
                  m.armed;
            counted = omega (arith, m.counted, tips-set i p q wq.pwqs at, tip_same);
            completed = m.completed;
          }
