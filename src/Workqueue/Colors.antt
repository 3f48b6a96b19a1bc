-- ===== src/Workqueue/Colors.antt =====
-- How far a color is ahead of the one that is flushed (workqueue.c): colors go round.
use kernel_utils.Base.{ℕ, ◌+◌, ◌-◌, ◌%◌, ◌≤◌, ◌<◌, arith, ◌≡◌, ◌==◌, true, false}
use kernel_utils.Workqueue.{work_next_color}

unfoldable pub ahead : ℕ → ℕ → ℕ
ahead flushed color = (color + 15 - flushed) % 15

pub work_next_color_bound : (c : ℕ) → work_next_color c < 15
unfolding work_next_color
work_next_color_bound c = omega arith

module _ (f c : ℕ) (hf : f < 15) (hc : c < 15) where
  pub ahead_self : ahead f f ≡ 0
  unfolding ahead
  ahead_self = omega arith

  pub ahead_zero : ahead f c ≡ 0 → c ≡ f
  unfolding ahead
  ahead_zero h = omega arith

  pub ahead_next : ahead f c < 14 → ahead f (work_next_color c) ≡ ahead f c + 1
  unfolding work_next_color ahead
  ahead_next h = omega arith

  pub ahead_flushed : 1 ≤ ahead f c → ahead (work_next_color f) c + 1 ≡ ahead f c
  unfolding work_next_color ahead
  ahead_flushed h = omega arith

  -- The colors are used up when the next color is the one that is flushed.
  pub ahead_full : (work_next_color c == f) ≡ true → ahead f c ≡ 14
  unfolding work_next_color ahead
  ahead_full h = ground arith

  pub ahead_room : (work_next_color c == f) ≡ false → ahead f c < 14
  unfolding work_next_color ahead
  ahead_room h = ground arith

  pub next_of_self : c ≡ f → ahead (work_next_color f) (work_next_color c) ≡ 0
  unfolding work_next_color ahead
  next_of_self e = omega arith
