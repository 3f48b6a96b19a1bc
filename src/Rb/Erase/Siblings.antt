-- ===== src/Rb/Erase/Siblings.antt =====
-- What the rotations at a sibling restore.
use kernel_utils.Base.{
  ℕ, suc, ◌≡◌, sym, arith, refl, Returns, Ensures, List, append_assoc, ◌∙◌, Option, some, none,
  Bool, true, false, not, if◌then◌else◌, ◌>>=◌, Bool-cases, inl, inr, ◌+◌,
}
use kernel_utils.Binary.{Side, left, right, flip, leaf, node, make, pick, inorder}
use kernel_utils.Binary.Order.{inorder-make_congr}
use kernel_utils.Rb.Tree.{Color, red, black, RbNode, recolor, black_height, IsBlack, IsRb}
use kernel_utils.Rb.Tree.Shape.{recolor_black, inorder-recolor, IsRb-make_black, IsRb-make_red}
use kernel_utils.Rb.Insert.{is_red_node}
use kernel_utils.Rb.Insert.Laws.{is_red_node-false}
use kernel_utils.Rb.Erase.{is_red, rotate_parent, rotate_sibling, fix_sibling}

module _ {ℓ} {A : Type ℓ} where
  recolored-IsRb :
      (t : RbNode A)
      → is_red_node t ≡ true
      → IsRb t
      → IsRb (recolor black t)
        × IsBlack (recolor black t)
        × (black_height (recolor black t) ≡ suc (black_height t))
  unfolding is_red_node recolor IsRb black_height
  recolored-IsRb leaf n h = cc
  recolored-IsRb (node black l x r) n h = cc
  recolored-IsRb (node red l x r) n h = ((h.0, h.1, h.2), tt, refl)

  -- The subtree in the parent's place after a rotation: as high as before, and black below a black
  -- parent.
  abbrev pub IsFixed : Color → ℕ → RbNode A → Type 0
  IsFixed red h u = IsRb u × (black_height u ≡ suc h)
  IsFixed black h u = IsRb u × IsBlack u × (black_height u ≡ suc (suc h))

  -- Two black children of the right height under a node of any colour.
  IsFixed-make :
      (s : Side) (c : Color) (n : RbNode A) (x : A) (f : RbNode A) (h : ℕ)
      → IsRb n
      → IsRb f
      → IsBlack n
      → IsBlack f
      → black_height n ≡ suc h
      → black_height f ≡ suc h
      → IsFixed c h (make s c n x f)
  IsFixed-make s red n x f h i j b d e g =
      let (k, m) = IsRb-make_red s n x f i j (e ∙ sym g) b d in (k, m ∙ e)
  IsFixed-make s black n x f h i j b d e g =
      let (k, m, o) = IsRb-make_black s n x f i j (e ∙ sym g) in (k, m, omega arith)

  -- The three ways through cases 2 to 4.
  fix_sibling_far :
      (s : Side) (c : Color) (t : RbNode A) (x : A) (near : RbNode A) (y : A) (far : RbNode A)
      (sc : Color)
      → is_red_node far ≡ true
      → fix_sibling s c t x (make s sc near y far) ≡ some (rotate_parent s c t x near y far, false)
  unfolding fix_sibling make pick flip
  fix_sibling_far left c t x near y far sc h = rw (h, fix_sibling) refl
  fix_sibling_far right c t x near y far sc h = rw (h, fix_sibling) refl

  fix_sibling_near :
      (s : Side) (c : Color) (t : RbNode A) (x : A) (near : RbNode A) (y : A) (far : RbNode A)
      (sc : Color)
      → is_red_node far ≡ false
      → is_red_node near ≡ true
      → fix_sibling s c t x (make s sc near y far)
        ≡ (rotate_sibling s c t x near y far >>= λ u. some (u, false))
  unfolding fix_sibling make pick flip
  fix_sibling_near left c t x near y far sc h k = rw (h, k, fix_sibling) refl
  fix_sibling_near right c t x near y far sc h k = rw (h, k, fix_sibling) refl

  fix_sibling_flip :
      (s : Side) (c : Color) (t : RbNode A) (x : A) (near : RbNode A) (y : A) (far : RbNode A)
      (sc : Color)
      → is_red_node far ≡ false
      → is_red_node near ≡ false
      → fix_sibling s c t x (make s sc near y far)
        ≡ some (make s black t x (make s red near y far), not (is_red c))
  unfolding fix_sibling make pick flip
  fix_sibling_flip left c t x near y far sc h k = rw (h, k, fix_sibling) refl
  fix_sibling_flip right c t x near y far sc h k = rw (h, k, fix_sibling) refl

  rotate_parent-IsFixed :
      (s : Side) (c : Color) (t : RbNode A) (x : A) (near : RbNode A) (y : A) (far : RbNode A)
      → IsRb t
      → IsRb near
      → IsRb far
      → is_red_node far ≡ true
      → black_height near ≡ black_height t
      → black_height far ≡ black_height t
      → IsFixed c (black_height t) (rotate_parent s c t x near y far)
  unfolding rotate_parent
  rotate_parent-IsFixed s c t x near y far h i j n e f =
      let (a, b, g) = IsRb-make_black s t x near h i (sym e) in
      let (a', b', g') = recolored-IsRb far n j in
      IsFixed-make s c _ y _ (black_height t) a a' b b' g (omega arith)

  -- The children of a red node, on either side.
  red_children :
      (s : Side) (l : RbNode A) (z : A) (r : RbNode A)
      → IsRb (node red l z r)
      → (IsRb (pick s l r)
          × IsBlack (pick s l r)
          × (black_height (pick s l r) ≡ black_height (node red l z r)))
        × (IsRb (pick (flip s) l r)
            × IsBlack (pick (flip s) l r)
            × (black_height (pick (flip s) l r) ≡ black_height (node red l z r)))
  unfolding pick flip IsRb black_height
  red_children left l z r (h, i, e, b, c) = ((h, b, refl), (i, c, sym e))
  red_children right l z r (h, i, e, b, c) = ((i, c, sym e), (h, b, refl))

  rotate_sibling-IsFixed :
      (s : Side) (c : Color) (t : RbNode A) (x : A) (near : RbNode A) (y : A) (far : RbNode A)
      → IsRb t
      → IsRb near
      → IsRb far
      → is_red_node near ≡ true
      → black_height near ≡ black_height t
      → black_height far ≡ black_height t
      → Returns (rotate_sibling s c t x near y far) (IsFixed c (black_height t))
  unfolding rotate_sibling rotate_parent is_red_node
  rotate_sibling-IsFixed s c t x leaf y far h i j n e f = cc
  rotate_sibling-IsFixed s c t x (node black l z r) y far h i j n e f = cc
  rotate_sibling-IsFixed s c t x (node red l z r) y far h i j n e f =
      let ((k, kb, ke), (m, mb, me)) = red_children s l z r i in
      let (a, b, g) = IsRb-make_black s t x (pick s l r) h k (sym e ∙ sym ke) in
      let (a', b', g') = IsRb-make_black s (pick (flip s) l r) y far m j (me ∙ e ∙ sym f) in
      rw
        (
          recolor_black (pick (flip s) l r) mb,
          recolor_black (make s black (pick (flip s) l r) y far) b',
        )
        (IsFixed-make s c _ z _ (black_height t) a a' b b' g (omega arith))

  -- What is known of the subtree and the flag that the cases return: under a red parent nothing is
  -- missing any more, under a black one the flag says whether a black node is.
  abbrev pub Fixes : Color → ℕ → RbNode A × Bool → Type 0
  Fixes red h r = (r.1 ≡ false) × IsFixed red h r.0
  Fixes black h r =
      IsRb r.0 × IsBlack r.0 × (black_height r.0 + (if r.1 then 1 else 0) ≡ suc (suc h))

  IsFixed-Fixes : (c : Color) (h : ℕ) (u : RbNode A) → IsFixed c h u → Fixes c h (u, false)
  IsFixed-Fixes red h u f = (refl, f)
  IsFixed-Fixes black h u (i, b, e) = (i, b, omega arith)

  flipped-Fixes :
      (s : Side) (c : Color) (t : RbNode A) (x : A) (near : RbNode A) (y : A) (far : RbNode A)
      → IsRb t
      → IsRb near
      → IsRb far
      → IsBlack near
      → IsBlack far
      → black_height near ≡ black_height t
      → black_height far ≡ black_height t
      → Fixes c (black_height t) (make s black t x (make s red near y far), not (is_red c))
  flipped-Fixes s red t x near y far h i j b d e f =
      let (a, g) = IsRb-make_red s near y far i j (e ∙ sym f) b d in
      let (a', b', g') = IsRb-make_black s t x (make s red near y far) h a (sym e ∙ sym g) in
      (refl, (a', g'))
  flipped-Fixes s black t x near y far h i j b d e f =
      let (a, g) = IsRb-make_red s near y far i j (e ∙ sym f) b d in
      let (a', b', g') = IsRb-make_black s t x (make s red near y far) h a (sym e ∙ sym g) in
      (a', b', omega arith)

  bind-Fixes :
      (c : Color) (h : ℕ) (o : Option (RbNode A))
      → Returns o (IsFixed c h)
      → Returns (o >>= λ u. some (u, false)) (Fixes c h)
  bind-Fixes c h none n = n
  bind-Fixes c h (some u) f = IsFixed-Fixes c h u f

  -- Cases 2 to 4 at a black sibling whose children are as high as the subtree that lacks a black
  -- node.
  pub fix_sibling-Fixes :
      (s : Side) (c : Color) (t : RbNode A) (x : A) (near : RbNode A) (y : A) (far : RbNode A)
      → IsRb t
      → IsRb near
      → IsRb far
      → black_height near ≡ black_height t
      → black_height far ≡ black_height t
      → Returns (fix_sibling s c t x (make s black near y far)) (Fixes c (black_height t))
  fix_sibling-Fixes s c t x near y far h i j e f = elim (Bool-cases (is_red_node far)) [
    | inl red_far ↦
        rw (fix_sibling_far s c t x near y far black red_far)
          (IsFixed-Fixes c _ _ (rotate_parent-IsFixed s c t x near y far h i j red_far e f))
    | inr black_far ↦ elim (Bool-cases (is_red_node near)) [
      | inl red_near ↦
          rw (fix_sibling_near s c t x near y far black black_far red_near)
            (bind-Fixes c _ _ (rotate_sibling-IsFixed s c t x near y far h i j red_near e f))
      | inr black_near ↦ rw (fix_sibling_flip s c t x near y far black black_far black_near) (
          flipped-Fixes s c t x near y far h i j (is_red_node-false near black_near)
            (is_red_node-false far black_far) e f)
    ]
  ]

  rotate_parent-inorder :
      (s : Side) (c : Color) (t : RbNode A) (x : A) (near : RbNode A) (y : A) (far : RbNode A)
      → inorder (rotate_parent s c t x near y far)
        ≡ inorder (make s c t x (make s black near y far))
  unfolding rotate_parent make inorder
  rotate_parent-inorder left c t x near y far = rw (inorder-recolor black far) (simp append_assoc)
  rotate_parent-inorder right c t x near y far = rw (inorder-recolor black far) (simp append_assoc)

  rotate_sibling-inorder :
      (s : Side) (c : Color) (t : RbNode A) (x : A) (near : RbNode A) (y : A) (far : RbNode A)
      → Ensures
          (rotate_sibling s c t x near y far)
          (λ u. inorder u ≡ inorder (make s c t x (make s black near y far)))
  unfolding rotate_sibling rotate_parent make pick flip inorder
  rotate_sibling-inorder left c t x leaf y far = tt
  rotate_sibling-inorder right c t x leaf y far = tt
  rotate_sibling-inorder left c t x (node k l z r) y far =
      rw (inorder-recolor black r) (simp append_assoc)
  rotate_sibling-inorder right c t x (node k l z r) y far =
      rw (inorder-recolor black l) (simp append_assoc)

  bind-inorder :
      (o : Option (RbNode A)) (l : List A)
      → Ensures o (λ u. inorder u ≡ l)
      → Ensures {A = RbNode A × Bool} (o >>= λ u. some (u, false)) (λ r. inorder r.0 ≡ l)
  bind-inorder none l n = n
  bind-inorder (some u) l e = e

  -- The cases keep the items in order.
  pub fix_sibling-inorder :
      (s : Side) (c : Color) (t : RbNode A) (x : A) (near : RbNode A) (y : A) (far : RbNode A)
      (sc : Color)
      → Ensures
          (fix_sibling s c t x (make s sc near y far))
          (λ r. inorder r.0 ≡ inorder (make s c t x (make s black near y far)))
  fix_sibling-inorder s c t x near y far sc = elim (Bool-cases (is_red_node far)) [
    | inl red_far ↦
        rw (fix_sibling_far s c t x near y far sc red_far)
          (rotate_parent-inorder s c t x near y far)
    | inr black_far ↦ elim (Bool-cases (is_red_node near)) [
      | inl red_near ↦
          rw (fix_sibling_near s c t x near y far sc black_far red_near)
            (bind-inorder _ _ (rotate_sibling-inorder s c t x near y far))
      | inr black_near ↦ rw (fix_sibling_flip s c t x near y far sc black_far black_near) (
          inorder-make_congr s black c t t x (make s red near y far) (make s black near y far) refl
            (inorder-make_congr s red black near near y far far refl refl))
    ]
  ]
