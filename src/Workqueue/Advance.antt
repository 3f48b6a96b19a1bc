-- ===== src/Workqueue/Advance.antt =====
-- One color further in `util_flush_workqueue` of workqueue.c, after the color that is flushed has no
-- work in flight.
use kernel_utils.Base.{
  ℕ, ◌+◌, ◌==◌, ◌≤◌, ◌<◌, arith, ◌≡◌, ◌⊎◌, refl, true, false, Bool-cases, ==_iff, inl, inr, none,
  List, [], ◌∷◌, ◌++◌, map, All, is_empty,
}
use kernel_utils.Workqueue.{work_next_color}
use kernel_utils.Workqueue.Flush.{Flusher, Wq, same_color, with_color}
use kernel_utils.Workqueue.Colors.{ahead, ahead_self, ahead_zero, ahead_flushed}
use kernel_utils.Workqueue.Flights.{Flight, Zip}
use kernel_utils.Workqueue.Valid.{IsPwq, IsIdle, IsChain, AreTimely}
use kernel_utils.Workqueue.Arms.{IsSettled}

-- What the loop of the first flusher starts from each time.
pub record IsFinishing (clock : ℕ) (flights : List (List Flight)) (wq : Wq) : Type 0 where
  pub flush_small : wq.flush_color < 15
  pub work_small : wq.work_color < 15
  pub pwqs : Zip (IsPwq wq.work_color) wq.pwqs flights
  pub timely : AreTimely wq.flush_color wq.work_color wq.flusher_queue wq.woken flights
  pub ids : All (λ g. g.id < clock) wq.flusher_queue
  pub ids_overflow : All (λ i. i < clock) wq.flusher_overflow
  pub ids_woken : All (λ i. i < clock) wq.woken
  pub chain : IsChain wq.flush_color 0 (ahead wq.flush_color wq.work_color) wq.flusher_queue
  pub full : (is_empty wq.flusher_overflow ≡ true) ⊎ (ahead wq.flush_color wq.work_color ≡ 14)
  pub settled : All (IsSettled wq.flush_color) wq.pwqs
  pub nobody : wq.first_flusher ≡ none

-- The queue after the color `f` became the one to flush: its first flusher waits for it.
abbrev pub IsLine : ℕ → ℕ → List Flusher → Type 0
IsLine f w [] = w ≡ 0
IsLine f w (g ∷ gs) = (g.color < 15) × (ahead f g.color ≡ 0) × IsChain f 0 w gs × (g.done ≡ false)

pub record IsAdvanced (clock : ℕ) (flights : List (List Flight)) (wq : Wq) : Type 0 where
  pub flush_small : wq.flush_color < 15
  pub work_small : wq.work_color < 15
  pub pwqs : Zip (IsPwq wq.work_color) wq.pwqs flights
  pub timely : AreTimely wq.flush_color wq.work_color wq.flusher_queue wq.woken flights
  pub ids : All (λ g. g.id < clock) wq.flusher_queue
  pub ids_overflow : All (λ i. i < clock) wq.flusher_overflow
  pub ids_woken : All (λ i. i < clock) wq.woken
  pub line : IsLine wq.flush_color (ahead wq.flush_color wq.work_color) wq.flusher_queue
  pub idle : All IsIdle wq.pwqs
  pub nobody : wq.first_flusher ≡ none

pub same_color-All :
    (P : Flusher → Type 0) (c : ℕ) (gs : List Flusher) → All P gs → All P (same_color c gs).1
unfolding same_color
same_color-All P c [] a = tt
same_color-All P c (g ∷ gs) a = elim (Bool-cases (g.color == c)) [
  | inl t ↦ rw t (same_color-All P c gs a.1)
  | inr t ↦ rw t a
]

pub same_color-ids :
    (P : ℕ → Type 0) (c : ℕ) (gs : List Flusher)
    → All (λ g. g.color ≡ c → P g.id) gs
    → All P (same_color c gs).0
unfolding same_color
same_color-ids P c [] a = tt
same_color-ids P c (g ∷ gs) a = elim (Bool-cases (g.color == c)) [
  | inl t ↦ rw t (a.0 ((==_iff g.color c).0 t), same_color-ids P c gs a.1)
  | inr t ↦ rw t tt
]

-- The rest after the color that was flushed, seen from the next color.
IsChain-flushed :
    (f d w : ℕ) (gs : List Flusher)
    → f < 15
    → IsChain f (d + 1) (w + 1) gs
    → IsChain (work_next_color f) d w gs
IsChain-flushed f d w [] s c = omega (arith, c)
IsChain-flushed f d w (g ∷ gs) s c =
    let e = ahead_flushed f g.color s c.0 (omega (arith, c.1)) in
    (
      c.0,
      omega (arith, c.1, e),
      omega (arith, c.2, e),
      IsChain-flushed f (ahead (work_next_color f) g.color) w gs s (rw e c.3),
      c.4,
    )

pub same_color-IsLine :
    (f w : ℕ) (gs : List Flusher)
    → f < 15
    → IsChain f 0 (w + 1) gs
    → IsLine (work_next_color f) w (same_color f gs).1
unfolding same_color
same_color-IsLine f w [] s c = omega (arith, c)
same_color-IsLine f w (g ∷ gs) s c = elim (Bool-cases (g.color == f)) [
  | inl t ↦
      let z : ahead f g.color ≡ 0 = rw ((==_iff g.color f).0 t) (ahead_self f f s s) in
      rw t (same_color-IsLine f w gs s (rw z at c.3))
  | inr t ↦
      let some_way : 1 ≤ ahead f g.color = elim (Bool-cases (ahead f g.color == 0)) [
        | inl z ↦
            let same = ahead_zero f g.color s c.0 ((==_iff _ 0).0 z) in ground (arith, t, same)
        | inr z ↦ ground (arith, z)
      ] in
      let one : ahead f g.color ≡ 1 = omega (arith, some_way, c.2) in
      let e = ahead_flushed f g.color s c.0 some_way in
      rw t (c.0, omega (arith, e, one), IsChain-flushed f 0 w gs s (rw one at c.3), c.4)
]

-- Flushers of one color, which is the last.
IsChain-group :
    (f w c : ℕ) (is : List ℕ) → c < 15 → ahead f c ≡ w → IsChain f w (w + 1) (map (with_color c) is)
IsChain-group f w c [] s e = refl
IsChain-group f w c (i ∷ is) s e =
    (s, omega (arith, e), omega (arith, e), rw e (IsChain-group f w c is s e), refl)

pub IsChain-append :
    (f d w c i : ℕ) (gs : List Flusher) (is : List ℕ)
    → c < 15
    → ahead f c ≡ w
    → IsChain f d w gs
    → IsChain f d (w + 1) (gs ++ map (with_color c) (i ∷ is))
IsChain-append f d w c i [] is s e h =
    (s, omega (arith, e, h), omega (arith, e, h), rw e (IsChain-group f w c is s e), refl)
IsChain-append f d w c i (g ∷ gs) is s e h =
    (h.0, h.1, h.2, IsChain-append f (ahead f g.color) w c i gs is s e h.3, h.4)

pub All-group :
    (P : Flusher → Type 0) (c : ℕ) (is : List ℕ)
    → All (λ i. P (with_color c i)) is
    → All P (map (with_color c) is)
All-group P c [] a = tt
All-group P c (i ∷ is) a = (a.0, All-group P c is a.1)

pub All-any {ℓ} : {A : Type ℓ} (P : A → Type 0) → ((x : A) → P x) → (xs : List A) → All P xs
All-any P f [] = tt
All-any P f (x ∷ xs) = (f x, All-any P f xs)
