-- ===== src/Rb/Tree/Shape.antt =====
-- Putting a subtree into its place, and taking a tree apart at a place.
use kernel_utils.Base.{ℕ, suc, ◌≡◌, sym, arith, refl}
use kernel_utils.Binary.{Side, left, right, leaf, node, root, up, plug, make, inorder}
use kernel_utils.Rb.Tree.{
  Color, red, black, RbNode, RbTrail, recolor, black_height, IsBlack, IsRb, IsRbTree, Admits,
  IsRbTrail,
}

module _ {ℓ} {A : Type ℓ} where
  pub IsRbTrail-at : (p : RbTrail A) (h k : ℕ) → IsRbTrail p h → h ≡ k → IsRbTrail p k
  IsRbTrail-at p h k t e = rw (sym e) t

  pub IsBlack-Admits : (p : RbTrail A) (t : RbNode A) → IsBlack t → Admits p t
  IsBlack-Admits p leaf h = tt
  IsBlack-Admits p (node black l x r) h = tt
  IsBlack-Admits p (node red l x r) h = absurd h

  pub Admits-IsBlack :
      (s : Side) (x : A) (other : RbNode A) (p : RbTrail A) (t : RbNode A)
      → Admits (up s red x other p) t
      → IsBlack t
  Admits-IsBlack s x other p leaf h = tt
  Admits-IsBlack s x other p (node black l y r) h = tt
  Admits-IsBlack s x other p (node red l y r) h = h

  root-Admits : (t : RbNode A) → Admits root t → IsBlack t
  root-Admits leaf h = tt
  root-Admits (node black l y r) h = tt
  root-Admits (node red l y r) h = h

  pub Admits-black :
      (s : Side) (x : A) (other : RbNode A) (p : RbTrail A) (t : RbNode A)
      → Admits (up s black x other p) t
  Admits-black s x other p leaf = tt
  Admits-black s x other p (node black l y r) = tt
  Admits-black s x other p (node red l y r) = tt

  pub plug-IsRbTree :
      (p : RbTrail A) (t : RbNode A)
      → IsRb t
      → Admits p t
      → IsRbTrail p (black_height t)
      → IsRbTree (plug p t)
  unfolding plug make IsRb IsRbTrail black_height
  plug-IsRbTree root t h a k = (h, root-Admits t a)
  plug-IsRbTree (up left red x other p) t h a (o, e, b, q, k) =
      plug-IsRbTree p (node red t x other) (h, o, sym e, Admits-IsBlack left x other p t a, b) q k
  plug-IsRbTree (up right red x other p) t h a (o, e, b, q, k) =
      plug-IsRbTree p (node red other x t) (o, h, e, b, Admits-IsBlack right x other p t a) q
        (rw e k)
  plug-IsRbTree (up left black x other p) t h a (o, e, k) =
      plug-IsRbTree p (node black t x other) (h, o, sym e) tt k
  plug-IsRbTree (up right black x other p) t h a (o, e, k) =
      plug-IsRbTree p (node black other x t) (o, h, e) tt (rw e k)

  -- The other way round: every place in a red-black tree is right for the subtree there.
  pub plug-IsRbTree_inv :
      (p : RbTrail A) (t : RbNode A)
      → IsRbTree (plug p t)
      → IsRb t × Admits p t × IsRbTrail p (black_height t)
  unfolding plug make IsRb IsRbTrail black_height
  plug-IsRbTree_inv root t (h, b) = (h, IsBlack-Admits root t b, tt)
  plug-IsRbTree_inv (up left red x other p) t h =
      let ((i, o, e, b, c), q, k) = plug-IsRbTree_inv p (node red t x other) h in
      (i, IsBlack-Admits (up left red x other p) t b, (o, sym e, c, q, k))
  plug-IsRbTree_inv (up right red x other p) t h =
      let ((o, i, e, c, b), q, k) = plug-IsRbTree_inv p (node red other x t) h in
      (i, IsBlack-Admits (up right red x other p) t b, (o, e, c, q, IsRbTrail-at p _ _ k e))
  plug-IsRbTree_inv (up left black x other p) t h =
      let ((i, o, e), q, k) = plug-IsRbTree_inv p (node black t x other) h in
      (i, Admits-black left x other p t, (o, sym e, k))
  plug-IsRbTree_inv (up right black x other p) t h =
      let ((o, i, e), q, k) = plug-IsRbTree_inv p (node black other x t) h in
      (i, Admits-black right x other p t, (o, e, IsRbTrail-at p _ _ k (ground arith)))

  -- Setting the colour of a black node to black changes nothing.
  pub recolor_black : (t : RbNode A) → IsBlack t → recolor black t ≡ t
  unfolding recolor
  recolor_black leaf h = refl
  recolor_black (node black l x r) h = refl
  recolor_black (node red l x r) h = absurd h

  pub inorder-recolor : (c : Color) (t : RbNode A) → inorder (recolor c t) ≡ inorder t
  unfolding recolor inorder
  inorder-recolor c leaf = refl
  inorder-recolor c (node c' l x r) = refl

  pub IsRb-make_black :
      (s : Side) (n : RbNode A) (x : A) (f : RbNode A)
      → IsRb n
      → IsRb f
      → black_height n ≡ black_height f
      → IsRb (make s black n x f)
        × IsBlack (make s black n x f)
        × (black_height (make s black n x f) ≡ suc (black_height n))
  unfolding make IsRb black_height
  IsRb-make_black left n x f h i e = ((h, i, e), tt, refl)
  IsRb-make_black right n x f h i e = ((i, h, sym e), tt, omega arith)

  pub IsRb-make_red :
      (s : Side) (n : RbNode A) (x : A) (f : RbNode A)
      → IsRb n
      → IsRb f
      → black_height n ≡ black_height f
      → IsBlack n
      → IsBlack f
      → IsRb (make s red n x f) × (black_height (make s red n x f) ≡ black_height n)
  unfolding make IsRb black_height
  IsRb-make_red left n x f h i e b c = ((h, i, e, b, c), refl)
  IsRb-make_red right n x f h i e b c = ((i, h, sym e, c, b), omega arith)
