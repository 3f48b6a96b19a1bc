-- ===== src/Llist/Laws.antt =====
-- `list_add` on a ring.
use kernel_utils.Base.{ℕ, ◌==◌, ◌≡◌, refl, ◌∙◌, false, some, List, [], ◌∷◌, ◌++◌, All-append}
use kernel_utils.Llist.{Store, set, list_add}
use kernel_utils.Llist.Ring.{
  IsSegment, IsAbsent, IsList, differ, set_self, set_other, All-set, IsSegment-agree,
}

-- What `list_add` leaves, where `n` follows the head.
abbrev added : ℕ → ℕ → ℕ → Store → Store
added newp head n st = record {
  next = set (set st.next newp n) head newp;
  prev = set (set st.prev newp head) n newp;
}

list_add_runs :
    (newp head n : ℕ) (st : Store)
    → st.next head ≡ n
    → (newp == 0) ≡ false
    → (head == 0) ≡ false
    → (n == 0) ≡ false
    → (head == newp) ≡ false
    → list_add newp head st ≡ some (added newp head n st)
unfolding list_add
list_add_runs newp head n st e a b c d = rw (e, a, set_other st.next newp n head d ∙ e, c, b) refl

-- What leads from the head over the new node.
added_front :
    (newp head n : ℕ) (st : Store)
    → (head == newp) ≡ false
    → (n == newp) ≡ false
    → let st' = added newp head n st in
      (st'.next head ≡ newp) × (st'.prev newp ≡ head) × (st'.next newp ≡ n) × (st'.prev n ≡ newp)
added_front newp head n st h k = (
  set_self (set st.next newp n) head newp,
  set_other (set st.prev newp head) n newp newp (differ n newp k) ∙ set_self st.prev newp head,
  set_other (set st.next newp n) head newp newp (differ head newp h) ∙ set_self st.next newp n,
  set_self (set st.prev newp head) n newp,
)

-- On a list, a ring of nodes that differ from each other and none of which is NULL, `list_add` puts
-- a node that is not NULL and in no place of the list first, without running into NULL.
pub list_add-IsList :
    (newp head : ℕ) (xs : List ℕ) (st : Store)
    → IsList st head xs
    → (newp == 0) ≡ false
    → IsAbsent newp (head ∷ xs)
    → (after : Store) × (list_add newp head st ≡ some after) × IsList after head (newp ∷ xs)
unfolding IsSegment
list_add-IsList newp head [] st l z h =
    let (a, b, c, d) = added_front newp head head st h.0 h.0 in
    (
      added newp head head st,
      list_add_runs newp head head st l.ring.0 z l.nonnull.0 l.nonnull.0 h.0,
      record {
        ring = (a, b, (c, d));
        distinct = ((differ head newp h.0, tt), (tt, tt));
        nonnull = (l.nonnull.0, (z, tt));
      },
    )
list_add-IsList newp head (x ∷ xs) st l z h =
    let (a, b, c, d) = added_front newp head x st h.0 h.1.0 in
    (
      added newp head x st,
      list_add_runs newp head x st l.ring.0 z l.nonnull.0 l.nonnull.1.0 h.0,
      record {
        ring = (
          a,
          b,
          (
            c,
            d,
            IsSegment-agree st (added newp head x st) x xs head
                (All-set st.next newp x head newp (x ∷ xs) h.1 l.distinct.0)
                (All-set st.prev newp head x newp (xs ++ (head ∷ []))
                  (All-append _ xs (head ∷ []) h.1.1 (h.0, tt))
                  (All-append _ xs (head ∷ []) l.distinct.1.0 (differ x head l.distinct.0.0, tt)))
                l.ring.2,
          ),
        );
        distinct = ((differ head newp h.0, l.distinct.0), (h.1, l.distinct.1));
        nonnull = (l.nonnull.0, (z, l.nonnull.1));
      },
    )
