-- ===== src/Llist/Ring.antt =====
-- Rings of nodes in a store.
use kernel_utils.Base.{ℕ, ◌==◌, arith, ◌≡◌, refl, ◌∙◌, true, false, List, [], ◌∷◌, ◌++◌, All}
use kernel_utils.Llist.{Store, set}

-- From `a` the pointers lead over the nodes `xs` to `b`, and back.
unfoldable pub IsSegment : Store → ℕ → List ℕ → ℕ → Type 0
IsSegment st a [] b = (st.next a ≡ b) × (st.prev b ≡ a)
IsSegment st a (x ∷ xs) b = (st.next a ≡ x) × (st.prev x ≡ a) × IsSegment st x xs b

-- `y` is not among the nodes.
abbrev pub IsAbsent : ℕ → List ℕ → Type 0
IsAbsent y xs = All (λ z. (z == y) ≡ false) xs

abbrev pub IsDistinct : List ℕ → Type 0
IsDistinct [] = Unit
IsDistinct (x ∷ xs) = IsAbsent x xs × IsDistinct xs

-- The list of a head: a ring of nodes that differ from each other, none of them NULL.
pub record IsList (st : Store) (head : ℕ) (xs : List ℕ) : Type 0 where
  pub ring : IsSegment st head xs head
  pub distinct : IsDistinct (head ∷ xs)
  pub nonnull : IsAbsent 0 (head ∷ xs)

pub differ : (a b : ℕ) → (a == b) ≡ false → (b == a) ≡ false
differ a b h = ground arith

pub set_self : (f : ℕ → ℕ) (a v : ℕ) → set f a v a ≡ v
unfolding set
set_self f a v = let same : (a == a) ≡ true = ground arith in rw same refl

pub set_other : (f : ℕ → ℕ) (a v b : ℕ) → (b == a) ≡ false → set f a v b ≡ f b
unfolding set
set_other f a v b h = rw h refl

-- Two writes at nodes that are not read.
pub All-set :
    (f : ℕ → ℕ) (a v b w : ℕ) (xs : List ℕ)
    → IsAbsent a xs
    → IsAbsent b xs
    → All (λ y. set (set f a v) b w y ≡ f y) xs
All-set f a v b w [] h k = tt
All-set f a v b w (x ∷ xs) h k =
    (set_other (set f a v) b w x k.0 ∙ set_other f a v x h.0, All-set f a v b w xs h.1 k.1)

pub IsSegment-agree :
    (st st' : Store) (a : ℕ) (xs : List ℕ) (b : ℕ)
    → All (λ y. st'.next y ≡ st.next y) (a ∷ xs)
    → All (λ y. st'.prev y ≡ st.prev y) (xs ++ (b ∷ []))
    → IsSegment st a xs b
    → IsSegment st' a xs b
unfolding IsSegment
IsSegment-agree st st' a [] b n p (s, t) = (n.0 ∙ s, p.0 ∙ t)
IsSegment-agree st st' a (x ∷ xs) b n p (s, t, r) =
    (n.0 ∙ s, p.0 ∙ t, IsSegment-agree st st' x xs b n.1 p.1 r)
