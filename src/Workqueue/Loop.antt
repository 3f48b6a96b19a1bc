-- ===== src/Workqueue/Loop.antt =====
-- The first flusher of `util_flush_workqueue` in workqueue.c comes to the end of its loop.
use kernel_utils.Base.{
  ℕ, zero, suc, ◌+◌, ◌≤◌, ◌<◌, arith, ◌≡◌, refl, sym, ap, ◌∙◌, true, Bool-cases, ==_iff, inl, inr,
  none, some, List, [], ◌∷◌, map, is_empty, length, Returns,
}
use mathlib.Core.Path.{subst}
use kernel_utils.Workqueue.Flush.{
  Flusher, Wq, arm, same_color, advance, lead_on, cascade, resume, clear_first,
}
use kernel_utils.Workqueue.Colors.{ahead, ahead_self, ahead_zero}
use kernel_utils.Workqueue.Flights.{Flight, Zip, Zip-map}
use kernel_utils.Workqueue.Valid.{IsPwq, tips, IsValid, flushing}
use kernel_utils.Workqueue.Arms.{All-arm, tips_zero, arm-IsPwq, prep_flush_color_lem}
use kernel_utils.Workqueue.Advance.{IsFinishing, IsAdvanced, IsLine}
use kernel_utils.Workqueue.Overflow.{advance-IsAdvanced}
use kernel_utils.Workqueue.Cascade.{
  AreTimely-return, settled-counts, length-advance, rest-empty, queue_cases,
}

-- No flusher is left.
rests-IsValid :
    (clock : ℕ) (flights : List (List Flight)) (wq : Wq)
    → IsAdvanced clock flights wq
    → wq.flusher_overflow ≡ []
    → wq.flusher_queue ≡ []
    → IsValid clock flights wq
rests-IsValid clock flights wq a no_overflow e =
    let w : IsLine wq.flush_color (ahead wq.flush_color wq.work_color) [] = rw e at a.line in
    record {
      flush_small = a.flush_small;
      work_small = a.work_small;
      pwqs = a.pwqs;
      timely = rw a.nobody a.timely;
      ids = rw a.nobody a.ids;
      ids_overflow = a.ids_overflow;
      ids_woken = a.ids_woken;
      mode =
          rw a.nobody (record { same = w; no_queue = e; no_overflow = no_overflow; idle = a.idle });
    }

module _ (clock : ℕ) (flights : List (List Flight)) (wq : Wq) (g : Flusher) (gs : List Flusher)
    (a : IsAdvanced clock flights wq) (no_overflow : wq.flusher_overflow ≡ [])
    (e : wq.flusher_queue ≡ g ∷ gs) where
  line : IsLine wq.flush_color (ahead wq.flush_color wq.work_color) (g ∷ gs)
  line = rw e at a.line

  armed-Zip : Zip (IsPwq wq.work_color) (map (arm wq.flush_color) wq.pwqs) flights
  armed-Zip =
      Zip-map (IsPwq wq.work_color) (IsPwq wq.work_color) (arm wq.flush_color)
        (arm-IsPwq wq.flush_color wq.work_color) wq.pwqs flights a.pwqs

  -- The next flusher waits.
  leads_on-IsValid :
      1 ≤ tips (map (arm wq.flush_color) wq.pwqs)
      → IsValid clock flights (record wq {
        flusher_queue = gs;
        first_flusher = some g;
        pwqs = map (arm wq.flush_color) wq.pwqs;
        nr_pwqs_to_flush = tips (map (arm wq.flush_color) wq.pwqs);
      })
  leads_on-IsValid some_wait = record {
    flush_small = a.flush_small;
    work_small = a.work_small;
    pwqs = armed-Zip;
    timely = rw e at a.timely;
    ids = rw e at a.ids;
    ids_overflow = a.ids_overflow;
    ids_woken = a.ids_woken;
    mode = record {
      color = ahead_zero wq.flush_color g.color a.flush_small line.0 line.1;
      chain = line.2;
      full = inl (rw no_overflow refl);
      armed = All-arm wq.flush_color wq.pwqs a.idle;
      counted = refl;
      completed = line.3 ∙ ground (arith, some_wait);
    };
  }

  -- The next flusher has nothing to wait for.
  passes-IsFinishing :
      tips (map (arm wq.flush_color) wq.pwqs) ≡ 0
      → IsFinishing clock flights (record wq {
        flusher_queue = gs;
        first_flusher = none;
        pwqs = map (arm wq.flush_color) wq.pwqs;
        nr_pwqs_to_flush = 0;
        woken = g.id ∷ wq.woken;
      })
  passes-IsFinishing no_tips =
      let settled =
        tips_zero wq.flush_color (map (arm wq.flush_color) wq.pwqs) no_tips
          (All-arm wq.flush_color wq.pwqs a.idle) in
      let ids = rw e at a.ids in
      record {
        flush_small = a.flush_small;
        work_small = a.work_small;
        pwqs = armed-Zip;
        timely =
            AreTimely-return wq.flush_color wq.work_color g gs wq.woken flights a.flush_small line.1
              (settled-counts wq.flush_color wq.work_color _ flights armed-Zip settled)
              (rw e at a.timely);
        ids = ids.1;
        ids_overflow = a.ids_overflow;
        ids_woken = (ids.0, a.ids_woken);
        chain = line.2;
        full = inl (rw no_overflow refl);
        settled = settled;
        nobody = refl;
      }

cascade-IsValid :
    (n clock : ℕ) (flights : List (List Flight)) (wq : Wq)
    → IsFinishing clock flights wq
    → length wq.flusher_queue + length wq.flusher_overflow < n
    → Returns (cascade n wq) (IsValid clock flights)
unfolding cascade
cascade-IsValid zero clock flights wq h enough = absurd (omega arith)
cascade-IsValid (suc n) clock flights wq h enough =
    let (a, no_overflow) = advance-IsAdvanced clock flights wq h in
    let l = length-advance wq in
    let wq1 = advance wq in
    elim (queue_cases wq1.flusher_queue) [
      | inl e ↦
          let valid = rests-IsValid clock flights wq1 a no_overflow e in
          subst
            (λ q.
              Returns
                (lead_on (cascade n) (is_empty (same_color wq.flush_color wq.flusher_queue).1) q
                  wq1)
                (IsValid clock flights))
            (sym e) (unfold lead_on in valid)
      | inr (g, gs, e) ↦
          elim (Bool-cases (is_empty (same_color wq.flush_color wq.flusher_queue).1)) [
            | inl x ↦
                let none_left = sym (rest-empty clock flights wq h x) ∙ e in
                let zero_length = ap length none_left in absurd (omega (arith, zero_length))
            | inr x ↦
                let room = ap length e in
                let none_over = ap length no_overflow in
                let start : Wq = record wq1 { flusher_queue = gs; first_flusher = some g } in
                subst
                  (λ q.
                    Returns
                      (lead_on (cascade n) (is_empty (same_color wq.flush_color wq.flusher_queue).1)
                        q wq1)
                      (IsValid clock flights))
                  (sym e)
                  (rw x (
                    unfold lead_on in
                    elim (prep_flush_color_lem wq1.flush_color start g refl a.idle) [
                      | inl (p, some_wait) ↦
                          rw p (leads_on-IsValid clock flights wq1 g gs a no_overflow e some_wait)
                      | inr (p, no_tips) ↦ rw p (
                          cascade-IsValid n clock flights _
                            (passes-IsFinishing clock flights wq1 g gs a no_overflow e no_tips)
                            (omega (arith, enough, l, room, none_over)))
                    ]))
          ]
    ]

-- In a workqueue that is in order, when the completion of the first flusher is done, it runs
-- through its loop to the end, without a null pointer and with a flusher wherever it takes one from
-- the queue, and leaves the workqueue in order.
pub resume-IsValid :
    (clock : ℕ) (flights : List (List Flight)) (wq : Wq) (f : Flusher)
    → IsValid clock flights wq
    → wq.first_flusher ≡ some f
    → f.done ≡ true
    → Returns (resume f.id wq) (IsValid clock flights)
unfolding resume
resume-IsValid clock flights wq f v e done =
    let m = flushing wq f wq.first_flusher e v.mode in
    let ids = rw e at v.ids in
    let none_waits : wq.nr_pwqs_to_flush ≡ 0 = (==_iff _ 0).0 (sym m.completed ∙ done) in
    let settled = tips_zero wq.flush_color wq.pwqs (sym m.counted ∙ none_waits) m.armed in
    let at_tip : ahead wq.flush_color f.color ≡ 0 =
      rw m.color (ahead_self wq.flush_color wq.flush_color v.flush_small v.flush_small) in
    cascade-IsValid (suc (length wq.flusher_queue + length wq.flusher_overflow)) clock flights
      (clear_first f.id wq)
      (record {
        flush_small = v.flush_small;
        work_small = v.work_small;
        pwqs = v.pwqs;
        timely =
            AreTimely-return wq.flush_color wq.work_color f wq.flusher_queue wq.woken flights
              v.flush_small at_tip
              (settled-counts wq.flush_color wq.work_color wq.pwqs flights v.pwqs settled)
              (rw e at v.timely);
        ids = ids.1;
        ids_overflow = v.ids_overflow;
        ids_woken = (ids.0, v.ids_woken);
        chain = m.chain;
        full = m.full;
        settled = settled;
        nobody = refl;
      })
      (omega arith)
