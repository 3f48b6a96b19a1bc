-- ===== src/Workqueue/Valid.antt =====
-- When a workqueue (workqueue.c) is in order, beside the works in flight of its pwqs.
use kernel_utils.Base.{
  ℕ, ◌+◌, ◌==◌, ◌≤◌, ◌<◌, arith, ◌≡◌, ◌⊎◌, true, false, Option, none, some, List, [], ◌∷◌, ◌++◌,
  All, is_empty,
}
use kernel_utils.Workqueue.{Pwq}
use kernel_utils.Workqueue.Flush.{Flusher, Wq}
use kernel_utils.Workqueue.Colors.{ahead}
use kernel_utils.Workqueue.Flights.{Flight, count, Zip}

-- The counters of a pwq count its works.
pub record IsPwq (color : ℕ) (p : Pwq) (l : List Flight) : Type 0 where
  pub counted : (c : ℕ) → p.nr_in_flight c ≡ count c l
  pub painted : p.work_color ≡ color

abbrev pub IsIdle : Pwq → Type 0
IsIdle p = p.flush_color ≡ none

-- The pwq waits for works of the color that is flushed, if it has any.
abbrev pub IsTip : ℕ → Option ℕ → ℕ → Type 0
IsTip f none n = n ≡ 0
IsTip f (some c) n = (c ≡ f) × (1 ≤ n)

abbrev pub IsArmed : ℕ → Pwq → Type 0
IsArmed f p = IsTip f p.flush_color (p.nr_in_flight f)

abbrev pub waits : Option ℕ → ℕ
waits none = 0
waits (some c) = 1

abbrev pub tip : Pwq → ℕ
tip p = waits p.flush_color

-- How many pwqs wait.
abbrev pub tips : List Pwq → ℕ
tips [] = 0
tips (p ∷ ps) = tip p + tips ps

-- The flushers of the queue have the colors from `d` to the last one before `w`, without a gap.
abbrev pub IsChain : ℕ → ℕ → ℕ → List Flusher → Type 0
IsChain f d w [] = d + 1 ≡ w
IsChain f d w (g ∷ gs) =
    (g.color < 15)
    × (d ≤ ahead f g.color)
    × (ahead f g.color ≤ d + 1)
    × IsChain f (ahead f g.color) w gs
    × (g.done ≡ false)

-- A work in flight that was queued before a flush has a color which that flush waits for.
pub record IsTimely (f w : ℕ) (queue : List Flusher) (woken : List ℕ) (h : Flight) : Type 0 where
  pub small : h.color < 15
  pub range : ahead f h.color ≤ ahead f w
  pub waited : All (λ g. h.queued < g.id → ahead f h.color ≤ ahead f g.color) queue
  pub returned : All (λ i. i ≤ h.queued) woken

abbrev pub AreTimely : ℕ → ℕ → List Flusher → List ℕ → List (List Flight) → Type 0
AreTimely f w queue woken flights = All (λ l. All (λ h. IsTimely f w queue woken h) l) flights

-- The first flusher stands before those of the queue.
abbrev pub flushers : Option Flusher → List Flusher → List Flusher
flushers none queue = queue
flushers (some f) queue = f ∷ queue

-- No flush goes on, or the first flusher waits for the color that is flushed.
pub record IsQuiet (wq : Wq) : Type 0 where
  pub same : ahead wq.flush_color wq.work_color ≡ 0
  pub no_queue : wq.flusher_queue ≡ []
  pub no_overflow : wq.flusher_overflow ≡ []
  pub idle : All IsIdle wq.pwqs

pub record IsFlushing (wq : Wq) (f : Flusher) : Type 0 where
  pub color : f.color ≡ wq.flush_color
  pub chain : IsChain wq.flush_color 0 (ahead wq.flush_color wq.work_color) wq.flusher_queue
  pub full : (is_empty wq.flusher_overflow ≡ true) ⊎ (ahead wq.flush_color wq.work_color ≡ 14)
  pub armed : All (IsArmed wq.flush_color) wq.pwqs
  pub counted : wq.nr_pwqs_to_flush ≡ tips wq.pwqs
  pub completed : f.done ≡ (wq.nr_pwqs_to_flush == 0)

abbrev pub IsMode : Wq → Option Flusher → Type 0
IsMode wq none = IsQuiet wq
IsMode wq (some f) = IsFlushing wq f

-- The numbers that have been given to flushers are below `clock`.
pub record IsValid (clock : ℕ) (flights : List (List Flight)) (wq : Wq) : Type 0 where
  pub flush_small : wq.flush_color < 15
  pub work_small : wq.work_color < 15
  pub pwqs : Zip (IsPwq wq.work_color) wq.pwqs flights
  pub timely :
      AreTimely wq.flush_color wq.work_color
        (flushers wq.first_flusher wq.flusher_queue)
        wq.woken
        flights
  pub ids : All (λ g. g.id < clock) (flushers wq.first_flusher wq.flusher_queue)
  pub ids_overflow : All (λ i. i < clock) wq.flusher_overflow
  pub ids_woken : All (λ i. i < clock) wq.woken
  pub mode : IsMode wq wq.first_flusher

pub IsChain-positive : (f d w : ℕ) (gs : List Flusher) → IsChain f d w gs → d + 1 ≤ w
IsChain-positive f d w [] c = omega arith
IsChain-positive f d w (g ∷ gs) c =
    omega (arith, c.1, IsChain-positive f (ahead f g.color) w gs c.3)

-- Another flusher takes the color of new works.
pub IsChain-snoc :
    (f d w : ℕ) (gs : List Flusher) (g : Flusher)
    → IsChain f d w gs
    → g.color < 15
    → ahead f g.color ≡ w
    → g.done ≡ false
    → IsChain f d (w + 1) (gs ++ (g ∷ []))
IsChain-snoc f d w [] g c s e waits = (s, omega arith, omega arith, omega arith, waits)
IsChain-snoc f d w (g' ∷ gs) g c s e waits =
    (c.0, c.1, c.2, IsChain-snoc f (ahead f g'.color) w gs g c.3 s e waits, c.4)

pub flushing :
    (wq : Wq) (f : Flusher) (o : Option Flusher) → o ≡ some f → IsMode wq o → IsFlushing wq f
flushing wq f none e m = cc
flushing wq f (some g) e m = let same : g ≡ f = cc in rw (← same) m

pub quiet : (wq : Wq) (o : Option Flusher) → o ≡ none → IsMode wq o → IsQuiet wq
quiet wq none e m = m
quiet wq (some g) e m = cc

pub IsChain-small : (f d w : ℕ) (gs : List Flusher) → IsChain f d w gs → All (λ g. g.color < 15) gs
IsChain-small f d w [] c = tt
IsChain-small f d w (g ∷ gs) c = (c.0, IsChain-small f (ahead f g.color) w gs c.3)
