-- ===== src/Workqueue/Cascade.antt =====
-- The loop of the first flusher in `util_flush_workqueue` of workqueue.c.
use kernel_utils.Base.{
  ℕ, suc, ◌+◌, ◌==◌, ltb, ◌≤◌, ◌<◌, arith, ◌≡◌, ◌⊎◌, refl, sym, ap, ◌∙◌, true, false, Bool-cases,
  inl, inr, List, [], ◌∷◌, map, All, is_empty, length, length-append,
}
use kernel_utils.Workqueue.{Pwq, work_next_color}
use kernel_utils.Workqueue.Flush.{
  Flusher, Wq, same_color, with_color, take_overflow, advance, prep_work_color,
}
use kernel_utils.Workqueue.Colors.{ahead, ahead_zero, ahead_flushed}
use kernel_utils.Workqueue.Flights.{Flight, count, Zip, Zip-All, not_counted, All-both}
use kernel_utils.Workqueue.Valid.{IsPwq, IsChain-positive, IsTimely, AreTimely}
use kernel_utils.Workqueue.Arms.{IsSettled}
use kernel_utils.Workqueue.Advance.{IsFinishing, IsLine}
use kernel_utils.Workqueue.Overflow.{next_color-IsAdvanced}

-- A flusher may return: no work of the color that it waits for is in flight.
pub AreTimely-return :
    (f w : ℕ) (g : Flusher) (gs : List Flusher) (woken : List ℕ) (flights : List (List Flight))
    → f < 15
    → ahead f g.color ≡ 0
    → All (λ l. count f l ≡ 0) flights
    → AreTimely f w (g ∷ gs) woken flights
    → AreTimely f w gs (g.id ∷ woken) flights
AreTimely-return f w g gs woken flights s z none_left t =
    All-both (λ l. count f l ≡ 0) (λ l. All (λ h. IsTimely f w (g ∷ gs) woken h) l)
      (λ l. All (λ h. IsTimely f w gs (g.id ∷ woken) h) l)
      (λ l c k.
        All-both (λ h. (f == h.color) ≡ false) (λ h. IsTimely f w (g ∷ gs) woken h)
          (λ h. IsTimely f w gs (g.id ∷ woken) h)
          (λ h other m. record {
            small = m.small;
            range = m.range;
            waited = m.waited.1;
            returned = (after h other m, m.returned);
          })
          l (not_counted f l c) k)
      flights none_left t
  where
    after : (h : Flight) → (f == h.color) ≡ false → IsTimely f w (g ∷ gs) woken h → g.id ≤ h.queued
    after h other m = elim (Bool-cases (ltb h.queued g.id)) [
      | inl early ↦
          let near = m.waited.0 (ground (arith, early)) in
          let same = ahead_zero f h.color s m.small (omega (arith, near, z)) in
          ground (arith, other, same)
      | inr late ↦ ground (arith, late)
    ]

pub settled-counts :
    (f color : ℕ) (ps : List Pwq) (flights : List (List Flight))
    → Zip (IsPwq color) ps flights
    → All (IsSettled f) ps
    → All (λ l. count f l ≡ 0) flights
settled-counts f color ps flights = λ z.
    Zip-All (IsPwq color) (IsSettled f) (λ l. count f l ≡ 0) (λ p l k s. sym (k.counted f) ∙ s.1) ps
      flights z

length-same_color : (c : ℕ) (gs : List Flusher) → length (same_color c gs).1 ≤ length gs
unfolding same_color
length-same_color c [] = omega arith
length-same_color c (g ∷ gs) = elim (Bool-cases (g.color == c)) [
  | inl t ↦ rw t (omega (arith, length-same_color c gs))
  | inr t ↦ rw t (omega arith)
]

length-group : (c : ℕ) (is : List ℕ) → length (map (with_color c) is) ≡ length is
length-group c [] = refl
length-group c (i ∷ is) = ap suc (length-group c is)

-- No flusher is added.
pub length-advance :
    (wq : Wq)
    → length (advance wq).flusher_queue ≤ length wq.flusher_queue + length wq.flusher_overflow
unfolding advance take_overflow prep_work_color
length-advance wq =
    let l = length-same_color wq.flush_color wq.flusher_queue in
    let rest = (same_color wq.flush_color wq.flusher_queue).1 in
    let group = map (with_color wq.work_color) wq.flusher_overflow in
    elim (Bool-cases (is_empty wq.flusher_overflow)) [
      | inl t ↦ rw t (omega (arith, l))
      | inr t ↦ rw t (
          omega
            (arith, l, length-append rest group, length-group wq.work_color wq.flusher_overflow))
    ]

line-empty : (f w : ℕ) (gs : List Flusher) → is_empty gs ≡ true → IsLine f w gs → w ≡ 0
line-empty f w [] e h = h
line-empty f w (g ∷ gs) e h = cc

empty-eq {ℓ} : {A : Type ℓ} (xs : List A) → is_empty xs ≡ true → xs ≡ []
empty-eq [] e = refl
empty-eq (x ∷ xs) e = cc

pub queue_cases :
    (gs : List Flusher) → (gs ≡ []) ⊎ ((f : Flusher) × (fs : List Flusher) × (gs ≡ f ∷ fs))
queue_cases [] = inl refl
queue_cases (f ∷ fs) = inr (f, fs, refl)

-- Where the loop has run through the queue, nobody waits for a color either.
pub rest-empty :
    (clock : ℕ) (flights : List (List Flight)) (wq : Wq)
    → IsFinishing clock flights wq
    → is_empty (same_color wq.flush_color wq.flusher_queue).1 ≡ true
    → (advance wq).flusher_queue ≡ []
unfolding advance take_overflow
rest-empty clock flights wq h e =
    let f = wq.flush_color in
    let pos = IsChain-positive f 0 (ahead f wq.work_color) wq.flusher_queue h.chain in
    let less = ahead_flushed f wq.work_color h.flush_small h.work_small (omega (arith, pos)) in
    let line = (next_color-IsAdvanced clock flights wq h).line in
    let at_end =
      line-empty (work_next_color f) (ahead (work_next_color f) wq.work_color)
        (same_color f wq.flusher_queue).1 e line in
    elim h.full [ inl x ↦ rw x (empty-eq _ e) | inr x ↦ absurd (omega (arith, x, less, at_end)) ]
