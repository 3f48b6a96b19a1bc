-- ===== src/Avl/Shape.antt =====
-- What the trees and trails of avl.c mean: the order of their items, and their heights.
use kernel_utils.Base.{ℕ, ◌≡◌, sym}
use kernel_utils.Binary.{left, make, node, plug, right, root, up}
use kernel_utils.Avl.Tree.{Tree, Trail, height, IsAvl, IsTrail}

module _ {ℓ} {A : Type ℓ} where
  pub plug-IsAvl : (p : Trail A) (t : Tree A) → IsAvl t → IsTrail p (height t) → IsAvl (plug p t)
  unfolding plug IsTrail IsAvl height
  plug-IsAvl root t h k = h
  plug-IsAvl (up left b x other p) t h (o, f, k) = plug-IsAvl p (node b t x other) (h, o, f) k
  plug-IsAvl (up right b x other p) t h (o, f, k) = plug-IsAvl p (node b other x t) (o, h, f) k

  pub IsTrail-at : (p : Trail A) (h k : ℕ) → IsTrail p h → h ≡ k → IsTrail p k
  IsTrail-at p h k t e = rw (sym e) t

  -- The other way round: in an AVL tree every trail is right for the subtree at its end.
  pub plug-IsAvl_inv :
      (p : Trail A) (t : Tree A) → IsAvl (plug p t) → IsAvl t × IsTrail p (height t)
  unfolding plug IsTrail IsAvl height make
  plug-IsAvl_inv root t h = (h, tt)
  plug-IsAvl_inv (up left b x other p) t h =
      let ((i, j, f), k) = plug-IsAvl_inv p (node b t x other) h in (i, (j, f, k))
  plug-IsAvl_inv (up right b x other p) t h =
      let ((j, i, f), k) = plug-IsAvl_inv p (node b other x t) h in (i, (j, f, k))
