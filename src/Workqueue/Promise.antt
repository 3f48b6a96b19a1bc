-- ===== src/Workqueue/Promise.antt =====
-- What `util_flush_workqueue` of workqueue.c promises, and the works that it waits for.
use kernel_utils.Base.{
  ℕ, zero, suc, ◌==◌, ◌≤◌, arith, ◌≡◌, refl, sym, ap, ◌∙◌, ==_iff, false, Bool-cases, inl, inr,
  some, Option-cases, List, [], ◌∷◌, ◌++◌, All, All-map,
}
use kernel_utils.Workqueue.{Pwq}
use kernel_utils.Workqueue.Flush.{Flusher, get_elem?}
use kernel_utils.Workqueue.Flights.{Flight, count, Zip}
use kernel_utils.Workqueue.Valid.{IsPwq, IsArmed, waits, tips, flushing}
use kernel_utils.Workqueue.Run.{System, Reaches, Reaches-IsValid}

-- Whatever is queued, finished and flushed, in whatever order, on pwqs that are linked at any time:
-- when a flush has returned, no work that was queued before it began is in flight.
pub flushed_before :
    (s : System)
    → Reaches s
    → All (λ l. All (λ h. All (λ id. id ≤ h.queued) s.wq.woken) l) s.flights
flushed_before s r =
    let v = Reaches-IsValid s r in
    All-map _ (λ l. All (λ h. All (λ id. id ≤ h.queued) s.wq.woken) l)
      (λ l. All-map _ (λ h. All (λ id. id ≤ h.queued) s.wq.woken) (λ h t. t.returned) l) s.flights
      v.timely

-- A work of the color among those in flight.
abbrev Some : ℕ → List Flight → Type 0
Some c l =
    (xs : List Flight) × (h : Flight) × (ys : List Flight) × (l ≡ xs ++ (h ∷ ys)) × (h.color ≡ c)

flight_of : (c : ℕ) (l : List Flight) → 1 ≤ count c l → Some c l
flight_of c [] e = absurd (omega (arith, e))
flight_of c (h ∷ hs) e = elim (Bool-cases (c == h.color)) [
  | inl t ↦ ([], h, hs, refl, sym ((==_iff c h.color).0 t))
  | inr t ↦
      let (xs, k, ys, same, color) = flight_of c hs (rw t at e) in
      (h ∷ xs, k, ys, ap (λ ks. h ∷ ks) same, color)
]

-- A pwq that waits has a work of the color.
abbrev Waits : ℕ → List Pwq → List (List Flight) → Type 0
Waits f ps ls =
    (i : ℕ) × (p : Pwq) × (l : List Flight) × (get_elem? i ps ≡ some p)
    × (get_elem? i ls ≡ some l)
    × (1 ≤ count f l)

some_tip :
    (f w : ℕ) (ps : List Pwq) (ls : List (List Flight))
    → Zip (IsPwq w) ps ls
    → All (IsArmed f) ps
    → 1 ≤ tips ps
    → Waits f ps ls
some_tip f w [] [] z a t = absurd (omega (arith, t))
some_tip f w [] (l ∷ ls) z a t = absurd z
some_tip f w (p ∷ ps) [] z a t = absurd z
some_tip f w (p ∷ ps) (l ∷ ls) z a t = elim (Option-cases p.flush_color) [
  | inl e ↦
      let (i, q, m, at, here, left) = some_tip f w ps ls z.1 a.1 (omega (arith, t, ap waits e)) in
      (suc i, q, m, at, here, left)
  | inr (c, e) ↦
      let armed = rw e at a.0 in
      let counted = z.0.counted f in (zero, p, l, refl, refl, omega (arith, armed.1, counted))
]

-- While the first flusher waits, a work of its color is in flight.
pub waiting-work :
    (s : System) (f : Flusher)
    → Reaches s
    → s.wq.first_flusher ≡ some f
    → f.done ≡ false
    → (i : ℕ) × (p : Pwq) × (xs : List Flight) × (h : Flight) × (ys : List Flight) × (get_elem? i
          s.wq.pwqs
        ≡ some p)
      × (get_elem? i s.flights ≡ some (xs ++ (h ∷ ys)))
      × (h.color ≡ f.color)
waiting-work s f r e open_wait =
    let v = Reaches-IsValid s r in
    let m = flushing s.wq f s.wq.first_flusher e v.mode in
    let more : (s.wq.nr_pwqs_to_flush == 0) ≡ false = sym m.completed ∙ open_wait in
    let some_wait : 1 ≤ tips s.wq.pwqs = ground (arith, more, m.counted) in
    let (i, p, l, at, here, left) =
      some_tip s.wq.flush_color s.wq.work_color s.wq.pwqs s.flights v.pwqs m.armed some_wait in
    let (xs, h, ys, same, color) = flight_of s.wq.flush_color l left in
    let here' = here ∙ ap some same in (i, p, xs, h, ys, at, here', color ∙ sym m.color)
