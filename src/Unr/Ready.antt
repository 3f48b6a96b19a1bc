-- ===== src/Unr/Ready.antt =====
-- What `free_unr` and `alloc_unr_specific` of unr.c leave for `collapse_unr`.
use kernel_utils.Base.{◌+◌, ◌^◌, ◌≤◌, ◌<◌, arith, ◌≡◌, Bool, Returns, List, ◌∷◌, ◌++◌, length}
use kernel_utils.Bits.{count}
use kernel_utils.Unr.{Unrhdr, Place}
use kernel_utils.Unr.Collapse.{collapse_unr}
use kernel_utils.Unr.View.{items, total, pieces_of, total-rewind}
use kernel_utils.Unr.Bitmaps.{IsCounted}
use kernel_utils.Unr.Settle.{IsLoose, IsAround}
use kernel_utils.Unr.Valid.{IsNow, before_place, after_place, collapse_unr-IsNow}

-- What the header counts when the list has been changed to have the numbers `ys`.
pub record IsReadyFor (ys : List Bool) (uh : Unrhdr) : Type 0 where
  pub range : length ys + uh.low ≡ uh.high + 1
  pub busy : count ys ≡ uh.busy
  pub ordered : uh.low ≤ uh.high
  pub small : uh.high < 2 ^ 31

pub collapses :
    (uh : Unrhdr) (p : Place) (ys : List Bool)
    → IsReadyFor ys uh
    → IsAround p
    → IsLoose p.up
    → IsCounted uh.memory (total p.before + (pieces_of p.up + total p.after))
    → before_place uh.first p.before ++ (items p.up ++ after_place p.after uh.last) ≡ ys
    → Returns (collapse_unr uh p) (IsNow ys uh)
collapses uh p ys r h u c e =
    collapse_unr-IsNow uh p ys h u (omega (arith, total-rewind p.before (p.up ∷ p.after))) e r.range
      r.busy r.ordered r.small
