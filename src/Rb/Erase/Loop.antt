-- ===== src/Rb/Erase/Loop.antt =====
-- The loop of `____rb_erase_color`.
use kernel_utils.Base.{
  ℕ, suc, ◌≡◌, sym, arith, Returns, Ensures, Returns->>=, Ensures->>=, List, ◌++◌, append_assoc,
  append-nil, ◌∙◌, Option, some, none, Bool, true, false, ◌>>=◌,
}
use kernel_utils.Binary.{
  Side, left, right, flip, leaf, node, root, up, plug, make, pick, inorder, before, after,
}
use kernel_utils.Binary.Order.{inorder-make, inorder-plug}
use kernel_utils.Rb.Tree.{
  Color, red, black, RbNode, RbTrail, recolor, black_height, IsBlack, IsRb, IsRbTree, IsRbTrail,
  AllowsRed, Admits,
}
use kernel_utils.Rb.Tree.Shape.{IsRb-make_black, IsRbTrail-at, plug-IsRbTree, IsBlack-Admits}
use kernel_utils.Rb.Erase.{fix_sibling, ____rb_erase_color}
use kernel_utils.Rb.Erase.Siblings.{Fixes, fix_sibling-Fixes, fix_sibling-inorder}

module _ {ℓ} {A : Type ℓ} where
  -- A node without the last argument's colour fits where red nodes are allowed.
  Admits-allowed : (p : RbTrail A) (t : RbNode A) → AllowsRed p → Admits p t
  Admits-allowed p leaf a = tt
  Admits-allowed p (node black l x r) a = tt
  Admits-allowed p (node red l x r) a = a

  abbrev resume : RbTrail A → RbNode A × Bool → Option (RbNode A)
  resume p u = elim u.1 [ true ↦ ____rb_erase_color p u.0 | false ↦ some (plug p u.0) ]

  resume_red :
      (p : RbTrail A) (h : ℕ) (u : RbNode A × Bool)
      → AllowsRed p
      → IsRbTrail p (suc h)
      → Fixes red h u
      → Returns (resume p u) IsRbTree
  resume_red p h (u, again) a k (n, (f, e)) =
      rw n (plug-IsRbTree p u f (Admits-allowed p u a) (IsRbTrail-at p _ _ k (sym e)))

  resume_black :
      (p : RbTrail A) (h : ℕ) (u : RbNode A × Bool)
      → ((t : RbNode A)
          → IsRb t
          → IsBlack t
          → IsRbTrail p (suc (black_height t))
          → Returns (____rb_erase_color p t) IsRbTree)
      → IsRbTrail p (suc (suc h))
      → Fixes black h u
      → Returns (resume p u) IsRbTree
  resume_black p h (u, true) loop k (i, b, e) = loop u i b (IsRbTrail-at p _ _ k (omega arith))
  resume_black p h (u, false) loop k (i, b, e) =
      plug-IsRbTree p u i (IsBlack-Admits p u b) (IsRbTrail-at p _ _ k (omega arith))

  red_sibling :
      (s : Side) (p : RbTrail A) (h : ℕ) (y : A) (far : RbNode A) (o : Option (RbNode A × Bool))
      → Returns o (Fixes red h)
      → IsRb far
      → black_height far ≡ suc h
      → IsRbTrail p (suc (suc h))
      → Returns (o >>= λ u. some (plug p (make s black u.0 y far))) IsRbTree
  red_sibling s p h y far none n i e k = n
  red_sibling s p h y far (some (u, again)) (n, (f, e)) i g k =
      let (a, b, c) = IsRb-make_black s u y far f i (e ∙ sym g) in
      plug-IsRbTree p _ a (IsBlack-Admits p _ b) (IsRbTrail-at p _ _ k (omega arith))

  -- The loop makes up for a missing black node: it ends in a red-black tree.
  pub ____rb_erase_color-IsRbTree :
      (p : RbTrail A) (t : RbNode A)
      → IsRb t
      → IsBlack t
      → IsRbTrail p (suc (black_height t))
      → Returns (____rb_erase_color p t) IsRbTree
  unfolding ____rb_erase_color IsRbTrail IsRb black_height make pick flip
  ____rb_erase_color-IsRbTree root t h b k = (h, b)
  ____rb_erase_color-IsRbTree (up s red x leaf p) t h b k = absurd (omega arith)
  ____rb_erase_color-IsRbTree (up s black x leaf p) t h b k = absurd (omega arith)
  ____rb_erase_color-IsRbTree (up s red x (node red l y r) p) t h b k = absurd k.2
  ____rb_erase_color-IsRbTree (up left red x (node black l y r) p) t h b ((i, j, e), f, _, a, k) =
      Returns->>= _ _ (Fixes red (black_height t)) IsRbTree
        (fix_sibling-Fixes left red t x l y r h i j (omega arith) (omega arith))
        (λ u. resume_red p (black_height t) u a k)
  ____rb_erase_color-IsRbTree (up right red x (node black l y r) p) t h b ((i, j, e), f, _, a, k) =
      Returns->>= _ _ (Fixes red (black_height t)) IsRbTree
        (fix_sibling-Fixes right red t x r y l h j i (omega arith) (omega arith))
        (λ u. resume_red p (black_height t) u a k)
  ____rb_erase_color-IsRbTree (up left black x (node black l y r) p) t h b ((i, j, e), f, k) =
      Returns->>= _ _ (Fixes black (black_height t)) IsRbTree
        (fix_sibling-Fixes left black t x l y r h i j (omega arith) (omega arith))
        (λ u. resume_black p (black_height t) u (____rb_erase_color-IsRbTree p) k)
  ____rb_erase_color-IsRbTree (up right black x (node black l y r) p) t h b ((i, j, e), f, k) =
      Returns->>= _ _ (Fixes black (black_height t)) IsRbTree
        (fix_sibling-Fixes right black t x r y l h j i (omega arith) (omega arith))
        (λ u. resume_black p (black_height t) u (____rb_erase_color-IsRbTree p) k)
  ____rb_erase_color-IsRbTree (up left black x (node red leaf y r) p) t h b k = absurd (omega arith)
  ____rb_erase_color-IsRbTree (up right black x (node red l y leaf) p) t h b k =
      absurd (omega arith)
  ____rb_erase_color-IsRbTree (up left black x (node red (node red m z n) y r) p) t h b
        ((i, j, e, v, w), f, k) =
      absurd v
  ____rb_erase_color-IsRbTree (up right black x (node red l y (node red m z n)) p) t h b
        ((i, j, e, v, w), f, k) =
      absurd w
  ____rb_erase_color-IsRbTree (up left black x (node red (node black m z n) y r) p) t h b
        ((i, j, e, v, w), f, k) =
      red_sibling left p (black_height t) y r _
        (fix_sibling-Fixes left red t x m z n h i.0 i.1 (omega arith) (omega arith)) j (omega arith)
        k
  ____rb_erase_color-IsRbTree (up right black x (node red l y (node black m z n)) p) t h b
        ((i, j, e, v, w), f, k) =
      red_sibling right p (black_height t) y l _
        (fix_sibling-Fixes right red t x n z m h j.1 j.0 (omega arith) (omega arith)) i
        (omega arith) k

  fix_sibling_then :
      (s : Side) (c : Color) (t : RbNode A) (x : A) (near : RbNode A) (y : A) (far : RbNode A)
      (f : RbNode A × Bool → Option (RbNode A)) (l : List A)
      → ((r : RbNode A × Bool)
          → inorder r.0 ≡ inorder (make s c t x (make s black near y far))
          → Ensures (f r) (λ v. inorder v ≡ l))
      → Ensures (fix_sibling s c t x (make s black near y far) >>= f) (λ v. inorder v ≡ l)
  fix_sibling_then s c t x near y far f l k =
      Ensures->>= (fix_sibling s c t x (make s black near y far)) f
        (λ r. inorder r.0 ≡ inorder (make s c t x (make s black near y far))) (λ v. inorder v ≡ l)
        (fix_sibling-inorder s c t x near y far black) k

  resume-inorder :
      (p : RbTrail A) (u : RbNode A × Bool) (l : List A)
      → ((t : RbNode A)
          → before p ++ (inorder t ++ after p) ≡ l
          → Ensures (____rb_erase_color p t) (λ v. inorder v ≡ l))
      → before p ++ (inorder u.0 ++ after p) ≡ l
      → Ensures (resume p u) (λ v. inorder v ≡ l)
  resume-inorder p (u, true) l loop e = loop u e
  resume-inorder p (u, false) l loop e = inorder-plug p u ∙ e

  black_inorder :
      (s : Side) (c : Color) (p : RbTrail A) (t : RbNode A) (x : A) (near : RbNode A) (y : A)
      (far : RbNode A) (l : List A)
      → ((t : RbNode A)
          → before p ++ (inorder t ++ after p) ≡ l
          → Ensures (____rb_erase_color p t) (λ v. inorder v ≡ l))
      → before (up s c x (make s black near y far) p)
          ++ (inorder t ++ after (up s c x (make s black near y far) p))
        ≡ l
      → Ensures
          (fix_sibling s c t x (make s black near y far) >>= λ u. resume p u)
          (λ v. inorder v ≡ l)
  black_inorder s c p t x near y far l loop e =
      fix_sibling_then s c t x near y far (resume p) l λ u f.
        resume-inorder p u l loop (rw f (inorder-make s c t x (make s black near y far) p ∙ e))

  red_inorder :
      (s : Side) (c k : Color) (p : RbTrail A) (t : RbNode A) (x : A) (near : RbNode A) (y : A)
      (far : RbNode A) (l : List A)
      → before (up s c x (make s k near y far) p)
          ++ (inorder t ++ after (up s c x (make s k near y far) p))
        ≡ l
      → Ensures
          (fix_sibling s red t x (recolor black near) >>= λ u. some (plug p (make s c u.0 y far)))
          (λ v. inorder v ≡ l)
  unfolding fix_sibling recolor make inorder before after
  red_inorder s c k p t x leaf y far l e = tt
  red_inorder left c k p t x (node d m z n) y far l e =
      fix_sibling_then left red t x m z n (λ u. some (plug p (node c u.0 y far))) l
        λ u f. inorder-plug p (node c u.0 y far) ∙ rw f (simp append_assoc (simp append_assoc at e))
  red_inorder right c k p t x (node d m z n) y far l e =
      fix_sibling_then right red t x n z m (λ u. some (plug p (node c far y u.0))) l
        λ u f. inorder-plug p (node c far y u.0) ∙ rw f (simp append_assoc (simp append_assoc at e))

  pub inorder-____rb_erase_color :
      (p : RbTrail A) (t : RbNode A) (l : List A)
      → before p ++ (inorder t ++ after p) ≡ l
      → Ensures (____rb_erase_color p t) (λ v. inorder v ≡ l)
  unfolding ____rb_erase_color make pick flip
  inorder-____rb_erase_color root t l e = unfold before after in sym (append-nil (inorder t)) ∙ e
  inorder-____rb_erase_color (up s c x leaf p) t l e = tt
  inorder-____rb_erase_color (up left c x (node black m y n) p) t l e =
      black_inorder left c p t x m y n l (λ u. inorder-____rb_erase_color p u l) e
  inorder-____rb_erase_color (up right c x (node black m y n) p) t l e =
      black_inorder right c p t x n y m l (λ u. inorder-____rb_erase_color p u l) e
  inorder-____rb_erase_color (up left c x (node red m y n) p) t l e =
      red_inorder left c red p t x m y n l e
  inorder-____rb_erase_color (up right c x (node red m y n) p) t l e =
      red_inorder right c red p t x n y m l e
