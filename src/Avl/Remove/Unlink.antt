-- ===== src/Avl/Remove/Unlink.antt =====
-- What taking out a node does to the order of the items and to the balance of the tree.
use kernel_utils.Base.{
  suc, max, ◌≡◌, ◌++◌, append_assoc, refl, arith, Returns, Returns->>=, Ensures, Ensures->>=,
  Ensures-self,
}
use kernel_utils.Binary.{
  Side, after, before, descend, extreme, flip, inorder, leaf, left, node, pick, right, up,
}
use kernel_utils.Binary.Order.{IsNode, descend_left-inorder, descend_right-inorder, extreme_total}
use kernel_utils.Avl.Tree.{
  Balance, balance2child, even, heavy, Tree, height, IsAvl, Fits, Trail, IsTrail,
}
use kernel_utils.Avl.Shape.{IsTrail-at}
use kernel_utils.Avl.Remove.{via_neighbour, unlink}
use kernel_utils.Avl.Remove.Laws.{remove_up-IsAvl, inorder-remove_up}

module _ {ℓ} {A : Type ℓ} where
  -- The place where the walk ends is right for a subtree one level higher than the child there.
  descend-IsTrail :
      (d : Side) (t : Tree A) (p : Trail A)
      → IsNode t
      → IsAvl t
      → IsTrail p (height t)
      → let (q, c) = descend d t p in IsAvl c × IsTrail q (suc (height c))
  unfolding descend IsTrail IsAvl height
  descend-IsTrail left leaf p n h k = absurd n
  descend-IsTrail right leaf p n h k = absurd n
  descend-IsTrail left (node b leaf x r) p n (_, h, f) k = (h, IsTrail-at p _ _ k (omega arith))
  descend-IsTrail left (node b (node b' l' x' r') x r) p n (i, h, f) k =
      descend-IsTrail left (node b' l' x' r') (up left b x r p) tt i (h, f, k)
  descend-IsTrail right (node b l x leaf) p n (h, _, f) k = (h, IsTrail-at p _ _ k (omega arith))
  descend-IsTrail right (node b l x (node b' l' x' r')) p n (h, i, f) k =
      descend-IsTrail right (node b' l' x' r') (up right b x l p) tt i (h, f, k)

  via_neighbour-IsAvl :
      (s : Side) (p : Trail A) (b : Balance) (l r : Tree A)
      → IsNode (pick s l r)
      → IsAvl l
      → IsAvl r
      → Fits b (height l) (height r)
      → IsTrail p (suc (max (height l) (height r)))
      → Returns (via_neighbour s p b l r) IsAvl
  unfolding via_neighbour pick flip IsTrail
  via_neighbour-IsAvl left p b l r n h i f k =
      Returns->>= (extreme right l) _ _ IsAvl (extreme_total right l n) λ z _.
        let walk = descend-IsTrail right l (up left b z r p) n h (i, f, k) in
        remove_up-IsAvl _ _ walk.0 walk.1
  via_neighbour-IsAvl right p b l r n h i f k =
      Returns->>= (extreme left r) _ _ IsAvl (extreme_total left r n) λ z _.
        let walk = descend-IsTrail left r (up right b z l p) n i (h, f, k) in
        remove_up-IsAvl _ _ walk.0 walk.1

  via_neighbour-inorder :
      (s : Side) (p : Trail A) (b : Balance) (l r : Tree A)
      → Ensures
          (via_neighbour s p b l r)
          (λ t. inorder t ≡ before p ++ (inorder l ++ (inorder r ++ after p)))
  unfolding via_neighbour pick flip before after
  via_neighbour-inorder left p b l r =
      Ensures->>= (extreme right l) _ _ _ (Ensures-self (extreme right l)) λ z e.
        let walk = descend_right-inorder l (up left b z r p) z (inorder r ++ after p) e in
        let (q, c) = descend right l (up left b z r p) in
        inorder-remove_up q c (before p ++ (inorder l ++ (inorder r ++ after p))) (rw walk.1 walk.0)
  via_neighbour-inorder right p b l r =
      Ensures->>= (extreme left r) _ _ _ (Ensures-self (extreme left r)) λ z e.
        let walk = descend_left-inorder r (up right b z l p) z e in
        let (q, c) = descend left r (up right b z l p) in
        inorder-remove_up q c (before p ++ (inorder l ++ (inorder r ++ after p)))
          (rw walk.1 (simp append_assoc (rw walk.0)))

  -- Taking out a node of an AVL tree returns an AVL tree.
  pub unlink-IsAvl :
      (p : Trail A) (b : Balance) (l : Tree A) (x : A) (r : Tree A)
      → IsAvl (node b l x r)
      → IsTrail p (height (node b l x r))
      → Returns (unlink p b l x r) IsAvl
  unfolding unlink balance2child pick IsAvl height
  unlink-IsAvl p b leaf x r (_, h, f) k = remove_up-IsAvl p r h (IsTrail-at p _ _ k (omega arith))
  unlink-IsAvl p b (node b' l' x' r') x leaf (h, _, f) k =
      remove_up-IsAvl p (node b' l' x' r') h (IsTrail-at p _ _ k (omega arith))
  unlink-IsAvl p even (node b' l' x' r') x (node c m y n) (h, i, f) k =
      via_neighbour-IsAvl left p even (node b' l' x' r') (node c m y n) tt h i f k
  unlink-IsAvl p (heavy left) (node b' l' x' r') x (node c m y n) (h, i, f) k =
      via_neighbour-IsAvl left p (heavy left) (node b' l' x' r') (node c m y n) tt h i f k
  unlink-IsAvl p (heavy right) (node b' l' x' r') x (node c m y n) (h, i, f) k =
      via_neighbour-IsAvl right p (heavy right) (node b' l' x' r') (node c m y n) tt h i f k

  -- Taking out a node leaves the other items in their order.
  pub inorder-unlink :
      (p : Trail A) (b : Balance) (l : Tree A) (x : A) (r : Tree A)
      → Ensures
          (unlink p b l x r)
          (λ t. inorder t ≡ before p ++ (inorder l ++ (inorder r ++ after p)))
  unfolding unlink inorder
  inorder-unlink p b leaf x r = inorder-remove_up p r _ refl
  inorder-unlink p b (node b' l' x' r') x leaf = inorder-remove_up p (node b' l' x' r') _ refl
  inorder-unlink p b (node b' l' x' r') x (node c m y n) =
      via_neighbour-inorder (balance2child b) p b (node b' l' x' r') (node c m y n)
