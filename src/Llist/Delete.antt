-- ===== src/Llist/Delete.antt =====
-- `list_del` on a ring.
use kernel_utils.Base.{
  ℕ, ◌==◌, ◌≡◌, refl, ◌∙◌, false, some, List, [], ◌∷◌, ◌++◌, All-append, All-left, All-right,
}
use kernel_utils.Llist.{Store, set, list_del, unlink}
use kernel_utils.Llist.Ring.{
  IsSegment, IsAbsent, IsDistinct, IsList, differ, set_self, set_other, All-set, IsSegment-agree,
}

-- What `list_del` leaves, where `x` stands between `p` and `n`.
abbrev deleted : ℕ → ℕ → ℕ → Store → Store
deleted x p n st = record { next = set (set st.next p n) x 0; prev = set (set st.prev n p) x 0 }

list_del_runs :
    (x p n : ℕ) (st : Store)
    → st.next x ≡ n
    → st.prev x ≡ p
    → (x == 0) ≡ false
    → (p == 0) ≡ false
    → (n == 0) ≡ false
    → (x == n) ≡ false
    → list_del x st ≡ some (deleted x p n st)
unfolding list_del unlink
list_del_runs x p n st e f a b c d = rw (e, c, set_other st.prev n (st.prev x) x d, f, b, e, a) refl

-- `p` is one of the nodes.
abbrev IsAmong : ℕ → List ℕ → Type 0
IsAmong p xs = (z : ℕ) → IsAbsent z xs → (p == z) ≡ false

-- What is known of a node that is in no place of a list with `x` in the middle.
IsAbsent-middle :
    (z x : ℕ) (xs ys : List ℕ)
    → IsAbsent z (xs ++ (x ∷ ys))
    → IsAbsent z xs × ((x == z) ≡ false) × IsAbsent z ys
IsAbsent-middle z x xs ys h =
    (All-left _ xs (x ∷ ys) h, (All-right _ xs (x ∷ ys) h).0, (All-right _ xs (x ∷ ys) h).1)

record Between (st : Store) (a : ℕ) (xs : List ℕ) (x : ℕ) (ys : List ℕ) (b : ℕ) : Type 0 where
  p : ℕ
  n : ℕ
  before : st.prev x ≡ p
  after : st.next x ≡ n
  p_among : IsAmong p (a ∷ xs)
  n_among : IsAmong n (ys ++ (b ∷ []))
  closed : IsSegment (deleted x p n st) a (xs ++ ys) b

list_del-Between :
    (st : Store) (a : ℕ) (xs : List ℕ) (x : ℕ) (ys : List ℕ) (b : ℕ)
    → IsSegment st a (xs ++ (x ∷ ys)) b
    → IsDistinct (a ∷ (xs ++ (x ∷ ys)))
    → IsAbsent b (xs ++ (x ∷ ys))
    → Between st a xs x ys b
unfolding IsSegment
list_del-Between st a [] x [] b (e, f, (g, h)) d k = record {
  p = a;
  n = b;
  before = f;
  after = g;
  p_among = λ z m. m.0;
  n_among = λ z m. m.0;
  closed = (
    set_other (set st.next a b) x 0 a (differ x a d.0.0) ∙ set_self st.next a b,
    set_other (set st.prev b a) x 0 b (differ x b k.0) ∙ set_self st.prev b a,
  );
}
list_del-Between st a [] x (y ∷ ys) b (e, f, (g, h, r)) d k = record {
  p = a;
  n = y;
  before = f;
  after = g;
  p_among = λ z m. m.0;
  n_among = λ z m. m.0;
  closed = (
    set_other (set st.next a y) x 0 a (differ x a d.0.0) ∙ set_self st.next a y,
    set_other (set st.prev y a) x 0 y d.1.0.0 ∙ set_self st.prev y a,
    IsSegment-agree st (deleted x a y st) y ys b (All-set st.next a y x 0 (y ∷ ys) d.0.1 d.1.0)
        (All-set st.prev y a x 0 (ys ++ (b ∷ []))
          (All-append _ ys (b ∷ []) d.1.1.0 (differ y b k.1.0, tt))
          (All-append _ ys (b ∷ []) d.1.0.1 (differ x b k.0, tt)))
        r,
  );
}
list_del-Between st a (z ∷ zs) x ys b (e, f, r) d k =
    let rest = list_del-Between st z zs x ys b r d.1 k.1 in
    let (_, x_a, _) = IsAbsent-middle a x (z ∷ zs) ys d.0 in
    let (_, x_z, ys_z) = IsAbsent-middle z x zs ys d.1.0 in
    record {
      p = rest.p;
      n = rest.n;
      before = rest.before;
      after = rest.after;
      p_among = λ w m. rest.p_among w m.1;
      n_among = rest.n_among;
      closed = (
        set_other (set st.next rest.p rest.n) x 0 a (differ x a x_a)
            ∙ set_other st.next rest.p rest.n a
                (differ rest.p a (rest.p_among a (IsAbsent-middle a x (z ∷ zs) ys d.0).0))
            ∙ e,
        set_other (set st.prev rest.n rest.p) x 0 z (differ x z x_z)
            ∙ set_other st.prev rest.n rest.p z (
                differ rest.n z
                  (rest.n_among z (All-append _ ys (b ∷ []) ys_z (differ z b k.0, tt))))
            ∙ f,
        rest.closed,
      );
    }

IsDistinct-without :
    (xs : List ℕ) (x : ℕ) (ys : List ℕ)
    → IsDistinct (xs ++ (x ∷ ys))
    → IsDistinct (xs ++ ys) × IsAbsent x ys
IsDistinct-without [] x ys d = (d.1, d.0)
IsDistinct-without (z ∷ zs) x ys d =
    let (zs_z, _, ys_z) = IsAbsent-middle z x zs ys d.0 in
    let (rest, absent) = IsDistinct-without zs x ys d.1 in
    ((All-append _ zs ys zs_z ys_z, rest), absent)

-- On a list, a ring of nodes that differ from each other and none of which is NULL, `list_del`
-- takes a node out without running into NULL: the other nodes stay in their order, and the pointers
-- of the node are NULL.
pub list_del-IsList :
    (head : ℕ) (xs : List ℕ) (x : ℕ) (ys : List ℕ) (st : Store)
    → IsList st head (xs ++ (x ∷ ys))
    → (after : Store) × (list_del x st ≡ some after)
      × IsList after head (xs ++ ys)
      × (after.next x ≡ 0)
      × (after.prev x ≡ 0)
list_del-IsList head xs x ys st l =
    let r = list_del-Between st head xs x ys head l.ring l.distinct l.distinct.0 in
    let (xs_0, x_0, ys_0) = IsAbsent-middle 0 x xs ys l.nonnull.1 in
    let (xs_h, x_h, ys_h) = IsAbsent-middle head x xs ys l.distinct.0 in
    let (distinct, ys_x) = IsDistinct-without xs x ys l.distinct.1 in
    (
      deleted x r.p r.n st,
      list_del_runs x r.p r.n st r.after r.before x_0 (r.p_among 0 (l.nonnull.0, xs_0))
          (r.n_among 0 (All-append _ ys (head ∷ []) ys_0 (l.nonnull.0, tt)))
          (differ r.n x (r.n_among x (All-append _ ys (head ∷ []) ys_x (differ x head x_h, tt)))),
      record {
        ring = r.closed;
        distinct = (All-append _ xs ys xs_h ys_h, distinct);
        nonnull = (l.nonnull.0, All-append _ xs ys xs_0 ys_0);
      },
      set_self (set st.next r.p r.n) x 0,
      set_self (set st.prev r.n r.p) x 0,
    )
