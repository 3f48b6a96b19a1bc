-- ===== src/Workqueue/Arms.antt =====
-- What `flush_workqueue_prep_pwqs` of workqueue.c makes of the pwqs.
use kernel_utils.Base.{
  ℕ, zero, suc, ◌+◌, ◌==◌, ◌≤◌, arith, ◌≡◌, ◌⊎◌, refl, true, false, Bool-cases, ==_iff, inl, inr,
  some, Option-cases, List, [], ◌∷◌, map, All, if◌then◌else◌,
}
use kernel_utils.Workqueue.{Pwq}
use kernel_utils.Workqueue.Flush.{
  Flusher, Wq, arm, arm_all, paint, prep_flush_color, set, get_elem?,
}
use kernel_utils.Workqueue.Flights.{Flight}
use kernel_utils.Workqueue.Valid.{IsPwq, IsIdle, IsArmed, tip, tips}

-- No work of the color, and nobody waits for one.
abbrev pub IsSettled : ℕ → Pwq → Type 0
IsSettled c p = IsIdle p × (p.nr_in_flight c ≡ 0)

arm-counts :
    (c : ℕ) (p : Pwq) (n : ℕ)
    → IsIdle p
    → (if p.nr_in_flight c == 0 then n else n + 1) ≡ tip (arm c p) + n
arm-counts c p n i = elim (Bool-cases (p.nr_in_flight c == 0)) [
  | inl t ↦ rw (t, i) (omega arith)
  | inr t ↦ rw t (omega arith)
]

arm_all_lem :
    (c : ℕ) (ps : List Pwq) → All IsIdle ps → arm_all c ps ≡ (tips (map (arm c) ps), map (arm c) ps)
unfolding arm_all
arm_all_lem c [] a = refl
arm_all_lem c (p ∷ ps) a =
    rw (arm_all_lem c ps a.1, arm-counts c p (tips (map (arm c) ps)) a.0) refl

arm-IsArmed : (c : ℕ) (p : Pwq) → IsIdle p → IsArmed c (arm c p)
arm-IsArmed c p i = elim (Bool-cases (p.nr_in_flight c == 0)) [
  | inl t ↦ rw (t, i) ((==_iff (p.nr_in_flight c) 0).0 t)
  | inr t ↦ rw t (refl, ground (arith, t))
]

pub All-arm : (c : ℕ) (ps : List Pwq) → All IsIdle ps → All (IsArmed c) (map (arm c) ps)
All-arm c [] a = tt
All-arm c (p ∷ ps) a = (arm-IsArmed c p a.0, All-arm c ps a.1)

armed_none : (c : ℕ) (p : Pwq) → tip p ≡ 0 → IsArmed c p → IsSettled c p
armed_none c p t a = elim (Option-cases p.flush_color) [
  | inl e ↦ (e, rw e at a)
  | inr (x, e) ↦ absurd (omega (arith, rw e at t))
]

-- When nobody waits any more, no work of the color is in flight.
pub tips_zero : (c : ℕ) (ps : List Pwq) → tips ps ≡ 0 → All (IsArmed c) ps → All (IsSettled c) ps
tips_zero c [] t a = tt
tips_zero c (p ∷ ps) t a =
    (armed_none c p (omega (arith, t)) a.0, tips_zero c ps (omega (arith, t)) a.1)

pub tips-set :
    (i : ℕ) (p q : Pwq) (ps : List Pwq)
    → get_elem? i ps ≡ some p
    → tips (set i q ps) + tip p ≡ tips ps + tip q
tips-set i p q [] e = cc
tips-set zero p q (x ∷ ps) e = let same : x ≡ p = cc in rw same (omega arith)
tips-set (suc i) p q (x ∷ ps) e = omega (arith, tips-set i p q ps e)

pub arm-IsPwq :
    (c color : ℕ) (p : Pwq) (l : List Flight) → IsPwq color p l → IsPwq color (arm c p) l
arm-IsPwq c color p l h = elim (Bool-cases (p.nr_in_flight c == 0)) [
  | inl t ↦ rw t h
  | inr t ↦ rw t (record { counted = h.counted; painted = h.painted })
]

pub paint-IsPwq :
    (c color : ℕ) (p : Pwq) (l : List Flight) → IsPwq color p l → IsPwq c (paint c p) l
paint-IsPwq c color p l h = record { counted = h.counted; painted = refl }

pub paint-IsArmed :
    (f c : ℕ) (ps : List Pwq) → All (IsArmed f) ps → All (IsArmed f) (map (paint c) ps)
paint-IsArmed f c [] a = tt
paint-IsArmed f c (p ∷ ps) a = (a.0, paint-IsArmed f c ps a.1)

pub paint-IsIdle : (c : ℕ) (ps : List Pwq) → All IsIdle ps → All IsIdle (map (paint c) ps)
paint-IsIdle c [] a = tt
paint-IsIdle c (p ∷ ps) a = (a.0, paint-IsIdle c ps a.1)

pub tips-paint : (c : ℕ) (ps : List Pwq) → tips (map (paint c) ps) ≡ tips ps
tips-paint c [] = refl
tips-paint c (p ∷ ps) = rw (tips-paint c ps) refl

-- With a first flusher and no pwq that waits: either some wait now, or the flusher is done.
pub prep_flush_color_lem :
    (c : ℕ) (wq : Wq) (f : Flusher)
    → wq.first_flusher ≡ some f
    → All IsIdle wq.pwqs
    → ((prep_flush_color c wq
          ≡ some (
            true,
            record wq { pwqs = map (arm c) wq.pwqs; nr_pwqs_to_flush = tips (map (arm c) wq.pwqs) },
          ))
        × (1 ≤ tips (map (arm c) wq.pwqs)))
      ⊎ ((prep_flush_color c wq
            ≡ some (
              false,
              record wq {
                pwqs = map (arm c) wq.pwqs;
                nr_pwqs_to_flush = 0;
                first_flusher = some (record f { done = true });
              },
            ))
          × (tips (map (arm c) wq.pwqs) ≡ 0))
unfolding prep_flush_color
prep_flush_color_lem c wq f e a = elim (Bool-cases (tips (map (arm c) wq.pwqs) == 0)) [
  | inl t ↦
      let z : tips (map (arm c) wq.pwqs) ≡ 0 = (==_iff _ 0).0 t in
      inr (rw e (rw (arm_all_lem c wq.pwqs a) (rw z refl)), z)
  | inr t ↦ inl (rw (arm_all_lem c wq.pwqs a, t) refl, ground (arith, t))
]
