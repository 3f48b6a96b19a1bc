-- ===== src/Workqueue/Overflow.antt =====
-- The flushers that waited for a color, in `util_flush_workqueue` of workqueue.c.
use kernel_utils.Base.{
  ℕ, ◌+◌, ◌==◌, ltb, ◌≤◌, ◌<◌, arith, ◌≡◌, ◌⊎◌, refl, sym, ◌∙◌, true, false, Bool-cases, ==_iff,
  inl, inr, List, [], ◌∷◌, ◌++◌, map, All, All-map, All-append, is_empty,
}
use kernel_utils.Workqueue.{work_next_color}
use kernel_utils.Workqueue.Flush.{
  Flusher, Wq, paint, prep_work_color, same_color, with_color, take_overflow, advance,
}
use kernel_utils.Workqueue.Colors.{
  ahead, work_next_color_bound, ahead_self, ahead_zero, ahead_next, ahead_flushed,
}
use kernel_utils.Workqueue.Flights.{Flight, count, Zip-map, Zip-All, not_counted, All-both}
use kernel_utils.Workqueue.Valid.{IsPwq, IsIdle, IsChain-positive, IsChain-small, IsTimely}
use kernel_utils.Workqueue.Arms.{IsSettled, paint-IsPwq, paint-IsIdle}
use kernel_utils.Workqueue.Timely.{retime}
use kernel_utils.Workqueue.Advance.{
  IsFinishing, IsLine, IsAdvanced, same_color-All, same_color-ids, same_color-IsLine,
  IsChain-append, All-group, All-any,
}

IsLine-group :
    (f w c i : ℕ) (gs : List Flusher) (is : List ℕ)
    → c < 15
    → ahead f c ≡ w
    → 1 ≤ w
    → IsLine f w gs
    → IsLine f (w + 1) (gs ++ map (with_color c) (i ∷ is))
IsLine-group f w c i [] is s e p h = absurd (omega (arith, p, h))
IsLine-group f w c i (g ∷ gs) is s e p h = (h.0, h.1, IsChain-append f 0 w c i gs is s e h.2, h.3)

-- The overflow gets the color of new works, if there is one to spare.
take_some :
    (clock : ℕ) (flights : List (List Flight)) (wq : Wq) (i : ℕ) (is : List ℕ)
    → IsAdvanced clock flights wq
    → wq.flusher_overflow ≡ i ∷ is
    → ahead wq.flush_color wq.work_color ≡ 13
    → IsAdvanced clock flights (record wq {
      pwqs = map (paint (work_next_color wq.work_color)) wq.pwqs;
      flusher_queue = wq.flusher_queue ++ map (with_color wq.work_color) (i ∷ is);
      flusher_overflow = [];
      work_color = work_next_color wq.work_color;
    })
take_some clock flights wq i is a e room =
    let next = work_next_color wq.work_color in
    let more =
      ahead_next wq.flush_color wq.work_color a.flush_small a.work_small (omega (arith, room)) in
    let group = map (with_color wq.work_color) (i ∷ is) in
    record {
      flush_small = a.flush_small;
      work_small = work_next_color_bound wq.work_color;
      pwqs =
          Zip-map (IsPwq wq.work_color) (IsPwq next) (paint next) (paint-IsPwq next wq.work_color)
            wq.pwqs flights a.pwqs;
      timely =
          retime wq.flush_color wq.work_color wq.flush_color next wq.flusher_queue
            (wq.flusher_queue ++ group) wq.woken wq.woken
            (λ h t. record {
              small = t.small;
              range = omega (arith, t.range, more);
              waited = All-append _ wq.flusher_queue group t.waited (
                  All-group
                    (λ g.
                      h.queued < g.id → ahead wq.flush_color h.color ≤ ahead wq.flush_color g.color)
                    wq.work_color (i ∷ is) (All-any _ (λ j _. t.range) (i ∷ is)));
              returned = t.returned;
            })
            flights a.timely;
      ids =
          All-append _ wq.flusher_queue group a.ids
            (All-group (λ g. g.id < clock) wq.work_color (i ∷ is) (rw e at a.ids_overflow));
      ids_overflow = tt;
      ids_woken = a.ids_woken;
      line = rw more (
          IsLine-group wq.flush_color (ahead wq.flush_color wq.work_color) wq.work_color i
            wq.flusher_queue is a.work_small refl (omega (arith, room)) a.line);
      idle = paint-IsIdle next wq.pwqs a.idle;
      nobody = a.nobody;
    }

overflow_cases : (is : List ℕ) → (is ≡ []) ⊎ ((i : ℕ) × (js : List ℕ) × (is ≡ i ∷ js))
overflow_cases [] = inl refl
overflow_cases (i ∷ js) = inr (i, js, refl)

take_overflow-IsAdvanced :
    (clock : ℕ) (flights : List (List Flight)) (wq : Wq)
    → IsAdvanced clock flights wq
    → (is_empty wq.flusher_overflow ≡ true) ⊎ (ahead wq.flush_color wq.work_color ≡ 13)
    → IsAdvanced clock flights (take_overflow wq) × ((take_overflow wq).flusher_overflow ≡ [])
unfolding take_overflow prep_work_color
take_overflow-IsAdvanced clock flights wq a room = elim (overflow_cases wq.flusher_overflow) [
  | inl e ↦ let empty : is_empty wq.flusher_overflow ≡ true = rw e refl in rw empty (a, e)
  | inr (i, is, e) ↦ elim room [
    | inl x ↦ ground (arith, x, e)
    | inr x ↦ rw e (take_some clock flights wq i is a e x, refl)
  ]
]

-- The flushers of the color return: the works in flight were queued after them.
pub next_color-IsAdvanced :
    (clock : ℕ) (flights : List (List Flight)) (wq : Wq)
    → IsFinishing clock flights wq
    → IsAdvanced clock flights (record wq {
      flusher_queue = (same_color wq.flush_color wq.flusher_queue).1;
      woken = (same_color wq.flush_color wq.flusher_queue).0 ++ wq.woken;
      flush_color = work_next_color wq.flush_color;
    })
next_color-IsAdvanced clock flights wq h =
    let f = wq.flush_color in
    let next = work_next_color f in
    let rest = (same_color f wq.flusher_queue).1 in
    let returning = (same_color f wq.flusher_queue).0 in
    let pos = IsChain-positive f 0 (ahead f wq.work_color) wq.flusher_queue h.chain in
    let less = ahead_flushed f wq.work_color h.flush_small h.work_small (omega (arith, pos)) in
    record {
      flush_small = work_next_color_bound f;
      work_small = h.work_small;
      pwqs = h.pwqs;
      timely =
          All-both (λ l. count f l ≡ 0)
            (λ l. All (λ t. IsTimely f wq.work_color wq.flusher_queue wq.woken t) l)
            (λ l. All (λ t. IsTimely next wq.work_color rest (returning ++ wq.woken) t) l)
            (λ l z t.
              All-both (λ t. (f == t.color) ≡ false)
                (λ t. IsTimely f wq.work_color wq.flusher_queue wq.woken t)
                (λ t. IsTimely next wq.work_color rest (returning ++ wq.woken) t)
                (timely wq h.flush_small h.work_small less
                  (IsChain-small f 0 (ahead f wq.work_color) wq.flusher_queue h.chain))
                l (not_counted f l z) t)
            flights
            (Zip-All (IsPwq wq.work_color) (IsSettled f) (λ l. count f l ≡ 0)
              (λ p l k s. sym (k.counted f) ∙ s.1) wq.pwqs flights h.pwqs h.settled)
            h.timely;
      ids = same_color-All _ f wq.flusher_queue h.ids;
      ids_overflow = h.ids_overflow;
      ids_woken =
          All-append _ returning wq.woken
            (same_color-ids _ f wq.flusher_queue (
              All-map (λ g. g.id < clock) (λ g. g.color ≡ f → g.id < clock) (λ g k _. k)
                wq.flusher_queue h.ids))
            h.ids_woken;
      line =
          same_color-IsLine f (ahead next wq.work_color) wq.flusher_queue h.flush_small
            (rw (less) h.chain);
      idle = All-map (IsSettled f) IsIdle (λ p s. s.0) wq.pwqs h.settled;
      nobody = h.nobody;
    }
  where
    timely :
        (wq : Wq)
        → wq.flush_color < 15
        → wq.work_color < 15
        → ahead (work_next_color wq.flush_color) wq.work_color + 1
          ≡ ahead wq.flush_color wq.work_color
        → All (λ g. g.color < 15) wq.flusher_queue
        → (t : Flight) → (wq.flush_color == t.color) ≡ false
        → IsTimely wq.flush_color wq.work_color wq.flusher_queue wq.woken t
        → IsTimely
            (work_next_color wq.flush_color)
            wq.work_color
            (same_color wq.flush_color wq.flusher_queue).1
            ((same_color wq.flush_color wq.flusher_queue).0 ++ wq.woken)
            t
    timely wq fs ws less small t other k =
        let f = wq.flush_color in
        let some_way : 1 ≤ ahead f t.color = elim (Bool-cases (ahead f t.color == 0)) [
          | inl z ↦
              let same = ahead_zero f t.color fs k.small ((==_iff _ 0).0 z) in
              ground (arith, other, same)
          | inr z ↦ ground (arith, z)
        ] in
        let closer = ahead_flushed f t.color fs k.small some_way in
        record {
          small = k.small;
          range = omega (arith, k.range, closer, less);
          waited = same_color-All _ f wq.flusher_queue (
              All-both (λ g. g.color < 15)
                (λ g. t.queued < g.id → ahead f t.color ≤ ahead f g.color)
                (λ g.
                  t.queued < g.id
                  → ahead (work_next_color f) t.color ≤ ahead (work_next_color f) g.color)
                (λ g s m late.
                  let before = m late in
                  let e = ahead_flushed f g.color fs s (omega (arith, before, some_way)) in
                  omega (arith, before, e, closer))
                wq.flusher_queue small k.waited);
          returned =
              All-append _ (same_color f wq.flusher_queue).0 wq.woken
                (same_color-ids (λ i. i ≤ t.queued) f wq.flusher_queue
                  (All-map (λ g. t.queued < g.id → ahead f t.color ≤ ahead f g.color)
                    (λ g. g.color ≡ f → g.id ≤ t.queued)
                    (λ g m same. elim (Bool-cases (ltb t.queued g.id)) [
                      | inl early ↦
                          let z : ahead f g.color ≡ 0 = rw same (ahead_self f f fs fs) in
                          absurd (omega (arith, m (ground (arith, early)), z, some_way))
                      | inr late ↦ ground (arith, late)
                    ])
                    wq.flusher_queue k.waited))
                k.returned;
        }

-- One color further.
pub advance-IsAdvanced :
    (clock : ℕ) (flights : List (List Flight)) (wq : Wq)
    → IsFinishing clock flights wq
    → IsAdvanced clock flights (advance wq) × ((advance wq).flusher_overflow ≡ [])
unfolding advance
advance-IsAdvanced clock flights wq h =
    let pos =
      IsChain-positive wq.flush_color 0 (ahead wq.flush_color wq.work_color) wq.flusher_queue
        h.chain in
    let less =
      ahead_flushed wq.flush_color wq.work_color h.flush_small h.work_small (omega (arith, pos)) in
    take_overflow-IsAdvanced clock flights _ (next_color-IsAdvanced clock flights wq h)
      (elim h.full [ inl x ↦ inl x | inr x ↦ inr (omega (arith, x, less)) ])
