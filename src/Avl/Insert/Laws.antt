-- ===== src/Avl/Insert/Laws.antt =====
-- What the way up of an insertion keeps.
use kernel_utils.Base.{
  suc, ℕ, ◌≡◌, ◌⊎◌, inr, Bool, false, List, ◌++◌, append_assoc, refl, arith, Returns, Returns->>=,
  Ensures, Ensures->>=, ◌∙◌, sym, append-nil,
}
use kernel_utils.Binary.{after, before, inorder, left, make, node, plug, right, root, up}
use kernel_utils.Binary.Order.{inorder-plug}
use kernel_utils.Avl.Tree.{even, heavy, Tree, height, IsAvl, Trail, IsTrail}
use kernel_utils.Avl.Shape.{plug-IsAvl, IsTrail-at}
use kernel_utils.Avl.Rotation.{avl_rotation}
use kernel_utils.Avl.Rotation.Laws.{
  is_even, IsRotated, avl_rotation-IsRotated, inorder-avl_rotation,
}
use kernel_utils.Avl.Insert.{insert_up}

module _ {ℓ} {A : Type ℓ} where
  -- After a rotation on the way up of an insertion the subtree has its old height again.
  plug-rotated :
      (p : Trail A) (h : ℕ) (t : Tree A) (r : Tree A × Bool)
      → IsTrail p (suc h)
      → height t ≡ suc h
      → is_even t ≡ false
      → IsRotated t r
      → IsAvl (plug p r.0)
  plug-rotated p h t (r, shrunk) k e n rot =
      plug-IsAvl p r rot.balanced
        (let e' : height r ≡ suc h = ground (arith, rot.shrunk, rot.level) in rw e' k)

  -- A subtree that has grown by one level in its place.
  pub record IsGrown (h : ℕ) (t : Tree A) : Type 0 where
    pub balanced : IsAvl t
    pub taller : height t ≡ suc h
    pub leans : (h ≡ 0) ⊎ (is_even t ≡ false)

  pub insert_up-IsAvl :
      (p : Trail A) (t : Tree A) (h : ℕ) → IsTrail p h → IsGrown h t → Returns (insert_up p t) IsAvl
  unfolding insert_up IsTrail IsAvl height make plug
  insert_up-IsAvl root t h k g = g.balanced
  insert_up-IsAvl (up left even x other p) t h (o, f, k) g =
      insert_up-IsAvl p (node (heavy left) t x other) (suc h) (IsTrail-at p _ _ k (omega arith))
        (record {
          balanced = (g.balanced, o, ground (arith, g.taller));
          taller = ground (arith, g.taller);
          leans = inr refl;
        })
  insert_up-IsAvl (up right even x other p) t h (o, f, k) g =
      insert_up-IsAvl p (node (heavy right) other x t) (suc h) (IsTrail-at p _ _ k (omega arith))
        (record {
          balanced = (o, g.balanced, ground (arith, g.taller));
          taller = ground (arith, g.taller);
          leans = inr refl;
        })
  insert_up-IsAvl (up left (heavy left) x other p) t h (o, f, k) g =
      Returns->>= (avl_rotation left x t other) _ (IsRotated t) _
        (avl_rotation-IsRotated left x t other g.balanced o (ground (arith, g.taller)))
        (λ r rot.
          plug-rotated p h t r (IsTrail-at p _ _ k (omega arith)) g.taller (ground (arith, g.leans))
            rot)
  insert_up-IsAvl (up right (heavy right) x other p) t h (o, f, k) g =
      Returns->>= (avl_rotation right x t other) _ (IsRotated t) _
        (avl_rotation-IsRotated right x t other g.balanced o (ground (arith, g.taller)))
        (λ r rot.
          plug-rotated p h t r (IsTrail-at p _ _ k (omega arith)) g.taller (ground (arith, g.leans))
            rot)
  insert_up-IsAvl (up left (heavy right) x other p) t h (o, f, k) g =
      plug-IsAvl p (node even t x other) (g.balanced, o, ground (arith, g.taller))
        (IsTrail-at p _ _ k (ground (arith, g.taller)))
  insert_up-IsAvl (up right (heavy left) x other p) t h (o, f, k) g =
      plug-IsAvl p (node even other x t) (o, g.balanced, ground (arith, g.taller))
        (IsTrail-at p _ _ k (ground (arith, g.taller)))

  pub inorder-insert_up :
      (p : Trail A) (t : Tree A) (l : List A)
      → before p ++ (inorder t ++ after p) ≡ l
      → Ensures (insert_up p t) (λ r. inorder r ≡ l)
  unfolding insert_up before after inorder make
  inorder-insert_up root t l e = sym (append-nil (inorder t)) ∙ e
  inorder-insert_up (up left even x other p) t l e =
      inorder-insert_up p (node (heavy left) t x other) l (simp append_assoc e)
  inorder-insert_up (up right even x other p) t l e =
      inorder-insert_up p (node (heavy right) other x t) l
        (simp append_assoc (simp append_assoc at e))
  inorder-insert_up (up left (heavy left) x other p) t l e =
      Ensures->>= (avl_rotation left x t other) _ _ _ (inorder-avl_rotation left x t other)
        (λ r o. inorder-plug p r.0 ∙ rw o (simp append_assoc e))
  inorder-insert_up (up right (heavy right) x other p) t l e =
      Ensures->>= (avl_rotation right x t other) _ _ _ (inorder-avl_rotation right x t other)
        (λ r o. inorder-plug p r.0 ∙ rw o (simp append_assoc (simp append_assoc at e)))
  inorder-insert_up (up left (heavy right) x other p) t l e =
      inorder-plug p (node even t x other) ∙ simp append_assoc e
  inorder-insert_up (up right (heavy left) x other p) t l e =
      inorder-plug p (node even other x t) ∙ simp append_assoc (simp append_assoc at e)
