-- ===== src/Binary/Order.antt =====
-- The items of a tree in order: around a place in it, at its ends, and from one node to the next.
use kernel_utils.Base.{
  ◌≡◌, refl, sym, ap, ◌∙◌, List, [], ◌∷◌, ◌++◌, append_assoc, append-nil, Option, some, none, arith,
  Returns,
}
use kernel_utils.Binary.{
  Side, left, right, flip, Tree, leaf, node, make, pick, inorder, Trail, root, up, plug, before,
  after, extreme, descend, climb, walk,
}

module _ {ℓ} {A : Type ℓ} where
  -- The first and the last item of a list.
  abbrev pub first : List A → Option A
  first [] = none
  first (x ∷ xs) = some x

  abbrev pub last_or : List A → Option A → Option A
  last_or [] o = o
  last_or (x ∷ xs) o = last_or xs (some x)

  abbrev pub last : List A → Option A
  last xs = last_or xs none

  abbrev pub first_or : List A → Option A → Option A
  first_or [] o = o
  first_or (x ∷ xs) o = some x

module _ {ℓ} {A : Type ℓ} where
  pub last_or-append :
      (xs ys : List A) (o : Option A) → last_or (xs ++ ys) o ≡ last_or ys (last_or xs o)
  last_or-append [] ys o = refl
  last_or-append (x ∷ xs) ys o = last_or-append xs ys (some x)

  pub first_or-append :
      (xs ys : List A) (o : Option A) → first_or (xs ++ ys) o ≡ first_or xs (first_or ys o)
  first_or-append [] ys o = refl
  first_or-append (x ∷ xs) ys o = refl

  pub first_or-none : (xs : List A) → first_or xs none ≡ first xs
  first_or-none [] = refl
  first_or-none (x ∷ xs) = refl

module _ {ℓ} {L : Type 0} {A : Type ℓ} where
  pub inorder-plug :
      (p : Trail L A) (t : Tree L A) → inorder (plug p t) ≡ before p ++ (inorder t ++ after p)
  unfolding plug before after inorder
  inorder-plug root t = sym (append-nil (inorder t))
  inorder-plug (up left b x other p) t = simp (inorder-plug p, append_assoc)
  inorder-plug (up right b x other p) t = simp (inorder-plug p, append_assoc)

  abbrev pub IsNode : Tree L A → Type 0
  IsNode leaf = ⊥
  IsNode (node b l x r) = Unit

  -- The walk to the right ends at the last item of the subtree.
  pub descend_right-inorder :
      (t : Tree L A) (p : Trail L A) (z : A) (rest : List A)
      → extreme right t ≡ some z
      → let (q, c) = descend right t p in
        (before q ++ (inorder c ++ (z ∷ rest)) ≡ before p ++ (inorder t ++ rest))
        × (after q ≡ after p)
  unfolding descend extreme inorder before after
  descend_right-inorder leaf p z rest e = ground arith
  descend_right-inorder (node b l x leaf) p z rest e =
      let z≡x : x ≡ z = cc in (rw z≡x (simp append_assoc), refl)
  descend_right-inorder (node b l x (node b' l' x' r')) p z rest e =
      let ih = descend_right-inorder (node b' l' x' r') (up right b x l p) z rest e in
      (ih.0 ∙ simp append_assoc, ih.1)

  -- The walk to the left ends at the first item of the subtree.
  pub descend_left-inorder :
      (t : Tree L A) (p : Trail L A) (z : A)
      → extreme left t ≡ some z
      → let (q, c) = descend left t p in
        (z ∷ (inorder c ++ after q) ≡ inorder t ++ after p) × (before q ≡ before p)
  unfolding descend extreme inorder before after
  descend_left-inorder leaf p z e = ground arith
  descend_left-inorder (node b leaf x r) p z e = let z≡x : x ≡ z = cc in (rw z≡x refl, refl)
  descend_left-inorder (node b (node b' l' x' r') x r) p z e =
      let ih = descend_left-inorder (node b' l' x' r') (up left b x r p) z e in
      (ih.0 ∙ simp append_assoc, ih.1)

  pub extreme_total : (d : Side) (t : Tree L A) → IsNode t → Returns (extreme d t) (λ z. Unit)
  unfolding extreme
  extreme_total left leaf n = n
  extreme_total right leaf n = n
  extreme_total left (node b leaf x r) n = tt
  extreme_total left (node b (node b' l' x' r') x r) n = extreme_total left (node b' l' x' r') tt
  extreme_total right (node b l x leaf) n = tt
  extreme_total right (node b l x (node b' l' x' r')) n = extreme_total right (node b' l' x' r') tt

  pub extreme_left-first :
      (b : L) (l : Tree L A) (x : A) (r : Tree L A) (ys : List A)
      → extreme left (node b l x r) ≡ first (inorder (node b l x r) ++ ys)
  unfolding extreme inorder
  extreme_left-first b leaf x r ys = refl
  extreme_left-first b (node c l y m) x r ys =
      extreme_left-first c l y m ((x ∷ inorder r) ++ ys)
      ∙ ap first (sym (append_assoc _ (x ∷ inorder r) ys))

  pub extreme_right-last :
      (b : L) (l : Tree L A) (x : A) (r : Tree L A) (o : Option A)
      → extreme right (node b l x r) ≡ last_or (inorder (node b l x r)) o
  unfolding extreme inorder
  extreme_right-last b l x leaf o = sym (last_or-append (inorder l) (x ∷ []) o)
  extreme_right-last b l x (node c m y r) o =
      extreme_right-last c m y r (some x)
      ∙ sym (last_or-append (inorder l) (x ∷ inorder (node c m y r)) o)

  climb_right-first : (p : Trail L A) → climb right p ≡ first (after p)
  unfolding climb after flip
  climb_right-first root = refl
  climb_right-first (up left b x other p) = refl
  climb_right-first (up right b x other p) = climb_right-first p

  climb_left-last : (p : Trail L A) → climb left p ≡ last (before p)
  unfolding climb before flip
  climb_left-last root = refl
  climb_left-last (up left b x other p) = climb_left-last p
  climb_left-last (up right b x other p) = sym (
      last_or-append (before p) (inorder other ++ (x ∷ [])) none
      ∙ last_or-append (inorder other) (x ∷ []) _)

  climb_left-before : (p : Trail L A) → climb left p ≡ last (before p ++ [])
  climb_left-before p = climb_left-last p ∙ ap last (sym (append-nil (before p)))

  extreme_right-before :
      (b : L) (l : Tree L A) (x : A) (r : Tree L A) (p : Trail L A)
      → extreme right (node b l x r) ≡ last (before p ++ inorder (node b l x r))
  extreme_right-before b l x r p =
      extreme_right-last b l x r (last (before p))
      ∙ sym (last_or-append (before p) (inorder (node b l x r)) none)

  -- `walk` goes from a node to the item just after it, or just before it, in order; it
  -- returns NULL at the end.
  pub walk_lem :
      (p : Trail L A) (b : L) (l : Tree L A) (x : A) (r : Tree L A)
      → (walk right p (node b l x r) ≡ first (inorder r ++ after p))
        × (walk left p (node b l x r) ≡ last (before p ++ inorder l))
  unfolding walk flip pick inorder
  walk_lem p b leaf x leaf = (climb_right-first p, climb_left-before p)
  walk_lem p b (node c m y n) x leaf = (climb_right-first p, extreme_right-before c m y n p)
  walk_lem p b leaf x (node c' m' y' n') =
      (extreme_left-first c' m' y' n' (after p), climb_left-before p)
  walk_lem p b (node c m y n) x (node c' m' y' n') =
      (extreme_left-first c' m' y' n' (after p), extreme_right-before c m y n p)

  -- Moving the end of a trail from a node to its child on side `s` does not change the items.
  pub inorder-make :
      (s : Side) (b : L) (t : Tree L A) (x : A) (other : Tree L A) (p : Trail L A)
      → before p ++ (inorder (make s b t x other) ++ after p)
        ≡ before (up s b x other p) ++ (inorder t ++ after (up s b x other p))
  unfolding make before after inorder
  inorder-make left b t x other p = simp append_assoc
  inorder-make right b t x other p = simp append_assoc

  -- The items of a node depend on those of its children alone.
  pub inorder-make_congr :
      (s : Side) (b c : L) (t t' : Tree L A) (x : A) (other other' : Tree L A)
      → inorder t ≡ inorder t'
      → inorder other ≡ inorder other'
      → inorder (make s b t x other) ≡ inorder (make s c t' x other')
  unfolding make inorder
  inorder-make_congr left b c t t' x other other' e f = rw (e, f)
  inorder-make_congr right b c t t' x other other' e f = rw (e, f)
