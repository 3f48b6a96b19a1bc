-- ===== src/Workqueue/Starts.antt =====
-- `util_flush_workqueue` of workqueue.c up to the wait.
use kernel_utils.Base.{
  ℕ, ◌+◌, ◌==◌, ◌<◌, arith, ◌≡◌, refl, sym, ◌∙◌, true, false, Bool-cases, inl, inr, Option, none,
  some, Option-cases, List, [], ◌∷◌, ◌++◌, map, All, All-map, All-append, Returns,
}
use kernel_utils.Workqueue.{Pwq, work_next_color}
use kernel_utils.Workqueue.Flush.{Flusher, Wq, arm, paint, prep_work_color, flush_workqueue}
use kernel_utils.Workqueue.Colors.{
  ahead, work_next_color_bound, ahead_self, ahead_zero, ahead_next, ahead_full, ahead_room,
}
use kernel_utils.Workqueue.Flights.{Flight, count, Zip, Zip-map, Zip-All, no_flights, All-both}
use kernel_utils.Workqueue.Valid.{
  IsPwq, IsIdle, IsChain-snoc, IsTimely, flushers, IsMode, IsValid, flushing, quiet,
}
use kernel_utils.Workqueue.Arms.{
  IsSettled, All-arm, tips_zero, arm-IsPwq, paint-IsPwq, paint-IsArmed, paint-IsIdle, tips-paint,
  prep_flush_color_lem,
}
use kernel_utils.Workqueue.Timely.{retime, later_ids, later_numbers}

module _ (clock : ℕ) (flights : List (List Flight)) (wq : Wq) (v : IsValid clock flights wq) where
  overflows-IsValid :
      (work_next_color wq.work_color == wq.flush_color) ≡ true
      → IsValid
          (clock + 1)
          flights
          (record wq { flusher_overflow = wq.flusher_overflow ++ (clock ∷ []) })
  overflows-IsValid full = record {
    flush_small = v.flush_small;
    work_small = v.work_small;
    pwqs = v.pwqs;
    timely = v.timely;
    ids = later_ids clock _ v.ids;
    ids_overflow =
        All-append (λ i. i < clock + 1) wq.flusher_overflow (clock ∷ [])
          (later_numbers clock _ v.ids_overflow) (omega arith, tt);
    ids_woken = later_numbers clock _ v.ids_woken;
    mode = mode wq.first_flusher v.mode;
  }
    where
      at_end : ahead wq.flush_color wq.work_color ≡ 14
      at_end = ahead_full wq.flush_color wq.work_color v.flush_small v.work_small full

      mode :
          (o : Option Flusher)
          → IsMode wq o
          → IsMode (record wq { flusher_overflow = wq.flusher_overflow ++ (clock ∷ []) }) o
      mode none m = absurd (omega (arith, m.same, at_end))
      mode (some f) m = record {
        color = m.color;
        chain = m.chain;
        full = inr at_end;
        armed = m.armed;
        counted = m.counted;
        completed = m.completed;
      }

  -- Another flusher joins a flush that goes on.
  joins-IsValid :
      (f : Flusher)
      → wq.first_flusher ≡ some f
      → (work_next_color wq.work_color == wq.flush_color) ≡ false
      → IsValid (clock + 1) flights (record wq {
        pwqs = map (paint (work_next_color wq.work_color)) wq.pwqs;
        work_color = work_next_color wq.work_color;
        flusher_queue =
            wq.flusher_queue ++ (record { id = clock; color = wq.work_color; done = false } ∷ []);
      })
  joins-IsValid f e free =
      let next = work_next_color wq.work_color in
      let this : Flusher = record { id = clock; color = wq.work_color; done = false } in
      let room = ahead_room wq.flush_color wq.work_color v.flush_small v.work_small free in
      let more = ahead_next wq.flush_color wq.work_color v.flush_small v.work_small room in
      let m = flushing wq f wq.first_flusher e v.mode in
      let ids = rw e at v.ids in
      let timely = rw e at v.timely in
      record {
        flush_small = v.flush_small;
        work_small = work_next_color_bound wq.work_color;
        pwqs =
            Zip-map (IsPwq wq.work_color) (IsPwq next) (paint next) (paint-IsPwq next wq.work_color)
              wq.pwqs flights v.pwqs;
        timely = rw e (
            retime wq.flush_color wq.work_color wq.flush_color next (f ∷ wq.flusher_queue)
              (f ∷ (wq.flusher_queue ++ (this ∷ []))) wq.woken wq.woken
              (λ h t. record {
                small = t.small;
                range = omega (arith, t.range, more);
                waited = (
                  t.waited.0,
                  All-append _ wq.flusher_queue (this ∷ []) t.waited.1 ((λ _. t.range), tt),
                );
                returned = t.returned;
              })
              flights timely);
        ids = rw e (
          omega (arith, ids.0),
          All-append _ wq.flusher_queue (this ∷ []) (later_ids clock _ ids.1) (omega arith, tt),
        );
        ids_overflow = later_numbers clock _ v.ids_overflow;
        ids_woken = later_numbers clock _ v.ids_woken;
        mode = rw e (record {
          color = m.color;
          chain = rw more (
              IsChain-snoc wq.flush_color 0 (ahead wq.flush_color wq.work_color) wq.flusher_queue
                this m.chain v.work_small refl refl);
          full = elim m.full [ inl x ↦ inl x | inr x ↦ absurd (omega (arith, x, room)) ];
          armed = paint-IsArmed wq.flush_color next wq.pwqs m.armed;
          counted = m.counted ∙ sym (tips-paint next wq.pwqs);
          completed = m.completed;
        });
      }

  -- No work is in flight when all have the color that is flushed, and none has it.
  none_flying :
      (color : ℕ) (ps : List Pwq)
      → ahead wq.flush_color wq.work_color ≡ 0
      → Zip (IsPwq color) ps flights
      → All (IsSettled wq.flush_color) ps
      → All (λ l. l ≡ []) flights
  none_flying color ps same z settled =
      All-both (λ l. count wq.flush_color l ≡ 0)
        (λ l.
          All
            (λ h.
              IsTimely wq.flush_color wq.work_color (flushers wq.first_flusher wq.flusher_queue)
                wq.woken h)
            l)
        (λ l. l ≡ [])
        (λ l e t. no_flights wq.flush_color l e (
          All-map _ (λ h. h.color ≡ wq.flush_color)
            (λ h t.
              ahead_zero wq.flush_color h.color v.flush_small t.small
                (omega (arith, t.range, same)))
            l t))
        flights
        (Zip-All (IsPwq color) (IsSettled wq.flush_color) (λ l. count wq.flush_color l ≡ 0)
          (λ p l h s. sym (h.counted wq.flush_color) ∙ s.1) ps flights z settled)
        v.timely

  -- The first flusher finds works to wait for, or none at all.
  leads-IsValid :
      wq.first_flusher ≡ none
      → (work_next_color wq.work_color == wq.flush_color) ≡ false
      → Returns (flush_workqueue clock wq) (λ r. IsValid (clock + 1) flights r.1)
  unfolding flush_workqueue prep_work_color
  leads-IsValid e free =
      let next = work_next_color wq.work_color in
      let this : Flusher = record { id = clock; color = wq.work_color; done = false } in
      let room = ahead_room wq.flush_color wq.work_color v.flush_small v.work_small free in
      let more = ahead_next wq.flush_color wq.work_color v.flush_small v.work_small room in
      let m = quiet wq wq.first_flusher e v.mode in
      let same = ahead_zero wq.flush_color wq.work_color v.flush_small v.work_small m.same in
      let no_queue = m.no_queue in
      let painted = map (paint next) wq.pwqs in
      let armed = map (arm wq.flush_color) painted in
      let idle = paint-IsIdle next wq.pwqs m.idle in
      let z =
        Zip-map (IsPwq next) (IsPwq next) (arm wq.flush_color) (arm-IsPwq wq.flush_color next)
          painted flights
          (Zip-map (IsPwq wq.work_color) (IsPwq next) (paint next) (paint-IsPwq next wq.work_color)
            wq.pwqs flights v.pwqs) in
      let start : Wq = record wq { pwqs = painted; work_color = next; first_flusher = some this } in
      let timely = rw e at v.timely in
      let all_armed = All-arm wq.flush_color painted idle in
      rw (free, e)
        (elim (prep_flush_color_lem wq.flush_color start this refl idle) [
          | inl (p, some_wait) ↦ rw p (record {
            flush_small = v.flush_small;
            work_small = work_next_color_bound wq.work_color;
            pwqs = z;
            timely = rw no_queue (
                retime wq.flush_color wq.work_color wq.flush_color next wq.flusher_queue (this ∷ [])
                  wq.woken wq.woken
                  (λ h t. record {
                    small = t.small;
                    range = omega (arith, t.range, more);
                    waited = ((λ _. t.range), tt);
                    returned = t.returned;
                  })
                  flights timely);
            ids = rw no_queue (omega arith, tt);
            ids_overflow = later_numbers clock _ v.ids_overflow;
            ids_woken = later_numbers clock _ v.ids_woken;
            mode = record {
              color = same;
              chain = rw no_queue (omega (arith, more, m.same));
              full = inl (rw (m.no_overflow) refl);
              armed = all_armed;
              counted = refl;
              completed = ground (arith, some_wait);
            };
          })
          | inr (p, no_tips) ↦
              let settled = tips_zero wq.flush_color armed no_tips all_armed in
              rw p (record {
                flush_small = work_next_color_bound wq.work_color;
                work_small = work_next_color_bound wq.work_color;
                pwqs = z;
                timely =
                    All-map (λ l. l ≡ []) _ (λ l empty. rw empty tt) flights
                      (none_flying next armed m.same z settled);
                ids = rw no_queue tt;
                ids_overflow = later_numbers clock _ v.ids_overflow;
                ids_woken = (omega arith, later_numbers clock _ v.ids_woken);
                mode = record {
                  same =
                      ahead_self next next (work_next_color_bound wq.work_color)
                        (work_next_color_bound wq.work_color);
                  no_queue = m.no_queue;
                  no_overflow = m.no_overflow;
                  idle = All-map (IsSettled wq.flush_color) IsIdle (λ q s. s.0) armed settled;
                };
              })
        ])

  -- `util_flush_workqueue` does not fault, and keeps the workqueue in order.
  pub flush_workqueue-IsValid :
      Returns (flush_workqueue clock wq) (λ r. IsValid (clock + 1) flights r.1)
  flush_workqueue-IsValid = elim (Bool-cases (work_next_color wq.work_color == wq.flush_color)) [
    | inl full ↦ unfold flush_workqueue in rw full (overflows-IsValid full)
    | inr free ↦ elim (Option-cases wq.first_flusher) [
      | inl e ↦ leads-IsValid e free
      | inr (f, e) ↦
          unfold flush_workqueue prep_work_color in rw free (rw e (joins-IsValid f e free))
    ]
  ]
