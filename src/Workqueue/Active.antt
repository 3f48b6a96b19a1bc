-- ===== src/Workqueue/Active.antt =====
-- Which works of a pwq are active (workqueue.c): as many as it allows, as long as there are any.
use kernel_utils.Base.{
  ℕ, ◌+◌, ◌≤◌, arith, ◌≡◌, ◌⊎◌, refl, true, false, Bool-cases, inl, inr, List, [], ◌∷◌, ◌++◌,
  is_empty, length, if◌then◌else◌,
}
use kernel_utils.Workqueue.{Work, Pwq, move_linked_works, pwq_activate_first_delayed}

-- How many works are delayed, each with the barriers that are linked to it.
abbrev pub groups : List Work → ℕ
groups [] = 0
groups (w ∷ ws) = if w.linked then groups ws else groups ws + 1

-- The last work of the list is linked to none.
abbrev pub IsEnded : List Work → Type 0
IsEnded [] = Unit
IsEnded (w ∷ []) = w.linked ≡ false
IsEnded (w ∷ (v ∷ ws)) = IsEnded (v ∷ ws)

-- Of `n` works some are active, and the others are delayed because as many are active as may be.
pub record IsAccounted (n : ℕ) (p : Pwq) : Type 0 where
  pub total : p.nr_active + groups p.delayed_works ≡ n
  pub ended : IsEnded p.delayed_works
  pub busy : (is_empty p.delayed_works ≡ true) ⊎ (p.max_active ≤ p.nr_active)
  pub allowed : 1 ≤ p.max_active

move_linked_works-groups :
    (w : Work) (ws : List Work)
    → IsEnded (w ∷ ws)
    → (groups (move_linked_works (w ∷ ws)).1 + 1 ≡ groups (w ∷ ws))
      × IsEnded (move_linked_works (w ∷ ws)).1
unfolding move_linked_works
move_linked_works-groups w [] e = rw e (refl, tt)
move_linked_works-groups w (v ∷ ws) e = elim (Bool-cases w.linked) [
  | inl t ↦ rw t (move_linked_works-groups v ws e)
  | inr t ↦ rw t (refl, e)
]

-- One more is active, and one less delayed.
pub activate-total :
    (p : Pwq) (ws : List Work)
    → p.delayed_works ≡ ws
    → is_empty ws ≡ false
    → IsEnded ws
    → ((pwq_activate_first_delayed p).1.nr_active ≡ p.nr_active + 1)
      × (groups (pwq_activate_first_delayed p).1.delayed_works + 1 ≡ groups ws)
      × IsEnded (pwq_activate_first_delayed p).1.delayed_works
      × ((pwq_activate_first_delayed p).1.max_active ≡ p.max_active)
unfolding pwq_activate_first_delayed
activate-total p [] same e h = cc
activate-total p (w ∷ ws) same e h =
    let (total, ended) = move_linked_works-groups w ws h in rw same (refl, total, ended, refl)

pub insert_last :
    (ws : List Work) (w : Work)
    → w.linked ≡ false
    → IsEnded ws
    → (groups (ws ++ (w ∷ [])) ≡ groups ws + 1) × IsEnded (ws ++ (w ∷ []))
insert_last [] w e h = rw e (refl, refl)
insert_last (v ∷ []) w e h = rw (h, e) (refl, refl)
insert_last (v ∷ (u ∷ ws)) w e h =
    let (total, ended) = insert_last (u ∷ ws) w e h in (ground (arith, total), ended)

pub groups-positive : (ws : List Work) → IsEnded ws → is_empty ws ≡ false → 1 ≤ groups ws
groups-positive [] h e = cc
groups-positive (w ∷ []) h e = rw h (omega arith)
groups-positive (w ∷ (v ∷ ws)) h e = ground (arith, groups-positive (v ∷ ws) h refl)

pub groups-le-length : (ws : List Work) → groups ws ≤ length ws
groups-le-length [] = omega arith
groups-le-length (w ∷ ws) = ground (arith, groups-le-length ws)
