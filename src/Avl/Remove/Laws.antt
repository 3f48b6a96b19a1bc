-- ===== src/Avl/Remove/Laws.antt =====
-- What the way up of a removal keeps.
use kernel_utils.Base.{
  suc, ◌≡◌, Bool, true, false, Option, some, List, ◌++◌, append_assoc, arith, Returns, Returns->>=,
  Ensures, Ensures->>=, ◌∙◌, sym, append-nil,
}
use kernel_utils.Binary.{after, before, flip, inorder, left, make, node, plug, right, root, up}
use kernel_utils.Binary.Order.{inorder-plug}
use kernel_utils.Avl.Tree.{even, heavy, Tree, height, IsAvl, Trail, IsTrail}
use kernel_utils.Avl.Shape.{plug-IsAvl, IsTrail-at}
use kernel_utils.Avl.Rotation.{avl_rotation}
use kernel_utils.Avl.Rotation.Laws.{IsRotated, avl_rotation-IsRotated, inorder-avl_rotation}
use kernel_utils.Avl.Remove.{remove_up}

module _ {ℓ} {A : Type ℓ} where
  -- After a rotation the subtree is one level lower, and the way up goes on, or as high as before.
  abbrev resume : Trail A → Tree A × Bool → Option (Tree A)
  resume p r = elim r.1 [ true ↦ remove_up p r.0 | false ↦ some (plug p r.0) ]

  resume-IsAvl :
      (p : Trail A) (child : Tree A) (r : Tree A × Bool)
      → ((t : Tree A) → IsAvl t → IsTrail p (suc (height t)) → Returns (remove_up p t) IsAvl)
      → IsTrail p (suc (height child))
      → IsRotated child r
      → Returns (resume p r) IsAvl
  resume-IsAvl p child (r, true) ih k rot =
      ih r rot.balanced (IsTrail-at p _ _ k (ground (arith, rot.level)))
  resume-IsAvl p child (r, false) ih k rot =
      plug-IsAvl p r rot.balanced (IsTrail-at p _ _ k (ground (arith, rot.level)))

  resume-inorder :
      (p : Trail A) (r : Tree A × Bool) (l : List A)
      → ((t : Tree A)
          → before p ++ (inorder t ++ after p) ≡ l
          → Ensures (remove_up p t) (λ u. inorder u ≡ l))
      → before p ++ (inorder r.0 ++ after p) ≡ l
      → Ensures (resume p r) (λ u. inorder u ≡ l)
  resume-inorder p (r, true) l ih e = ih r e
  resume-inorder p (r, false) l ih e = inorder-plug p r ∙ e

  pub remove_up-IsAvl :
      (p : Trail A) (t : Tree A)
      → IsAvl t
      → IsTrail p (suc (height t))
      → Returns (remove_up p t) IsAvl
  unfolding remove_up IsTrail IsAvl height make plug flip
  remove_up-IsAvl root t h k = h
  remove_up-IsAvl (up left even x other p) t h (o, f, k) =
      plug-IsAvl p (node (heavy right) t x other) (h, o, sym f) (IsTrail-at p _ _ k (omega arith))
  remove_up-IsAvl (up right even x other p) t h (o, f, k) =
      plug-IsAvl p (node (heavy left) other x t) (o, h, f) (IsTrail-at p _ _ k (omega arith))
  remove_up-IsAvl (up left (heavy left) x other p) t h (o, f, k) =
      remove_up-IsAvl p (node even t x other) (h, o, omega arith) (IsTrail-at p _ _ k (omega arith))
  remove_up-IsAvl (up right (heavy right) x other p) t h (o, f, k) =
      remove_up-IsAvl p (node even other x t) (o, h, omega arith) (IsTrail-at p _ _ k (omega arith))
  remove_up-IsAvl (up left (heavy right) x other p) t h (o, f, k) =
      Returns->>= (avl_rotation right x other t) _ (IsRotated other) _
        (avl_rotation-IsRotated right x other t o h f)
        (λ r rot. resume-IsAvl p other r (remove_up-IsAvl p) (IsTrail-at p _ _ k (omega arith)) rot)
  remove_up-IsAvl (up right (heavy left) x other p) t h (o, f, k) =
      Returns->>= (avl_rotation left x other t) _ (IsRotated other) _
        (avl_rotation-IsRotated left x other t o h f)
        (λ r rot. resume-IsAvl p other r (remove_up-IsAvl p) (IsTrail-at p _ _ k (omega arith)) rot)

  pub inorder-remove_up :
      (p : Trail A) (t : Tree A) (l : List A)
      → before p ++ (inorder t ++ after p) ≡ l
      → Ensures (remove_up p t) (λ r. inorder r ≡ l)
  unfolding remove_up before after inorder make flip
  inorder-remove_up root t l e = sym (append-nil (inorder t)) ∙ e
  inorder-remove_up (up left even x other p) t l e =
      inorder-plug p (node (heavy right) t x other) ∙ simp append_assoc e
  inorder-remove_up (up right even x other p) t l e =
      inorder-plug p (node (heavy left) other x t) ∙ simp append_assoc (simp append_assoc at e)
  inorder-remove_up (up left (heavy left) x other p) t l e =
      inorder-remove_up p (node even t x other) l (simp append_assoc e)
  inorder-remove_up (up right (heavy right) x other p) t l e =
      inorder-remove_up p (node even other x t) l (simp append_assoc (simp append_assoc at e))
  inorder-remove_up (up left (heavy right) x other p) t l e =
      Ensures->>= (avl_rotation right x other t) _ _ _ (inorder-avl_rotation right x other t)
        (λ r o. resume-inorder p r l (λ u. inorder-remove_up p u l) (rw o (simp append_assoc e)))
  inorder-remove_up (up right (heavy left) x other p) t l e =
      Ensures->>= (avl_rotation left x other t) _ _ _ (inorder-avl_rotation left x other t) (λ r o.
        resume-inorder p r l (λ u. inorder-remove_up p u l)
          (rw o (simp append_assoc (simp append_assoc at e))))
