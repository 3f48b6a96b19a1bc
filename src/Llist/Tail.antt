-- ===== src/Llist/Tail.antt =====
-- `list_add_tail` on a ring, seen as `list_add` with the pointers exchanged.
use kernel_utils.Base.{
  ℕ, ◌==◌, ◌≡◌, refl, sym, ap, ◌∙◌, false, Option, none, some, List, [], ◌∷◌, ◌++◌, append_assoc,
  append-nil, All, All-append, Bool-cases, inl, inr,
}
use kernel_utils.Llist.{Store, set, list_add, list_add_tail}
use kernel_utils.Llist.Ring.{IsSegment, IsAbsent, IsDistinct, IsList, differ}
use kernel_utils.Llist.Laws.{list_add-IsList}

abbrev mirror : Store → Store
mirror st = record { next = st.prev; prev = st.next }

unfoldable backwards : List ℕ → List ℕ
backwards [] = []
backwards (x ∷ xs) = backwards xs ++ (x ∷ [])

backwards-append : (xs ys : List ℕ) → backwards (xs ++ ys) ≡ backwards ys ++ backwards xs
unfolding backwards
backwards-append [] ys = sym (append-nil (backwards ys))
backwards-append (x ∷ xs) ys = simp (backwards-append xs ys, append_assoc)

backwards_twice : (xs : List ℕ) → backwards (backwards xs) ≡ xs
unfolding backwards
backwards_twice [] = refl
backwards_twice (x ∷ xs) =
    backwards-append (backwards xs) (x ∷ []) ∙ ap (λ ys. x ∷ ys) (backwards_twice xs)

All-backwards : (P : ℕ → Type 0) (xs : List ℕ) → All P xs → All P (backwards xs)
unfolding backwards
All-backwards P [] h = tt
All-backwards P (x ∷ xs) h = All-append P (backwards xs) (x ∷ []) (All-backwards P xs h.1) (h.0, tt)

IsDistinct-append_one :
    (xs : List ℕ) (x : ℕ) → IsDistinct xs → IsAbsent x xs → IsDistinct (xs ++ (x ∷ []))
IsDistinct-append_one [] x d h = (tt, tt)
IsDistinct-append_one (y ∷ ys) x d h =
    (All-append _ ys (x ∷ []) d.0 (differ y x h.0, tt), IsDistinct-append_one ys x d.1 h.1)

IsDistinct-backwards : (xs : List ℕ) → IsDistinct xs → IsDistinct (backwards xs)
unfolding backwards
IsDistinct-backwards [] d = tt
IsDistinct-backwards (x ∷ xs) d =
    IsDistinct-append_one (backwards xs) x (IsDistinct-backwards xs d.1) (All-backwards _ xs d.0)

-- One more node at the end.
IsSegment-longer :
    (st : Store) (a : ℕ) (xs : List ℕ) (m b : ℕ)
    → IsSegment st a xs m
    → st.next m ≡ b
    → st.prev b ≡ m
    → IsSegment st a (xs ++ (m ∷ [])) b
unfolding IsSegment
IsSegment-longer st a [] m b (e, f) g h = (e, f, (g, h))
IsSegment-longer st a (x ∷ xs) m b (e, f, r) g h = (e, f, IsSegment-longer st x xs m b r g h)

IsSegment-mirror :
    (st : Store) (a : ℕ) (xs : List ℕ) (b : ℕ)
    → IsSegment st a xs b
    → IsSegment (mirror st) b (backwards xs) a
unfolding IsSegment backwards
IsSegment-mirror st a [] b (e, f) = (f, e)
IsSegment-mirror st a (x ∷ xs) b (e, f, r) =
    IsSegment-longer (mirror st) b (backwards xs) x a (IsSegment-mirror st x xs b r) f e

IsList-mirror :
    (st : Store) (head : ℕ) (xs : List ℕ)
    → IsList st head xs
    → IsList (mirror st) head (backwards xs)
IsList-mirror st head xs l = record {
  ring = IsSegment-mirror st head xs head l.ring;
  distinct = (All-backwards _ xs l.distinct.0, IsDistinct-backwards xs l.distinct.1);
  nonnull = (l.nonnull.0, All-backwards _ xs l.nonnull.1);
}

abbrev mirrored : Option Store → Option Store
mirrored none = none
mirrored (some st) = some (mirror st)

-- What `list_add_tail` returns is what `list_add` does, mirrored.
list_add_tail-mirrored :
    (newp head : ℕ) (st : Store)
    → list_add_tail newp head st ≡ mirrored (list_add newp head (mirror st))
unfolding list_add list_add_tail
list_add_tail-mirrored newp head st = elim (Bool-cases (newp == 0)) [
  | inl null ↦ rw null refl
  | inr n ↦ elim (Bool-cases (set st.prev newp (st.prev head) head == 0)) [
    | inl null ↦ rw (n, null) refl
    | inr m ↦ elim (Bool-cases (head == 0)) [
      | inl null ↦ rw (n, m, null) refl
      | inr k ↦ rw (n, m, k) refl
    ]
  ]
]

-- On a list, a ring of nodes that differ from each other and none of which is NULL, `list_add_tail`
-- puts a node that is not NULL and in no place of the list last, without running into NULL.
pub list_add_tail-IsList :
    (newp head : ℕ) (xs : List ℕ) (st : Store)
    → IsList st head xs
    → (newp == 0) ≡ false
    → IsAbsent newp (head ∷ xs)
    → (after : Store) × (list_add_tail newp head st ≡ some after)
      × IsList after head (xs ++ (newp ∷ []))
unfolding backwards
list_add_tail-IsList newp head xs st l z h =
    let (after, returns, m) =
      list_add-IsList newp head (backwards xs) (mirror st) (IsList-mirror st head xs l) z
        (h.0, All-backwards _ xs h.1) in
    (
      mirror after,
      list_add_tail-mirrored newp head st ∙ ap mirrored returns,
      rw (sym (backwards_twice xs)) (IsList-mirror after head (newp ∷ backwards xs) m),
    )
