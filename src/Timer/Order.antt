-- ===== src/Timer/Order.antt =====
-- Lists of timers in order, each of which stands there once.
use kernel_utils.Base.{
  is_empty, ℕ, suc, ◌+◌, ◌%◌, ◌^◌, ◌≤◌, ◌<◌, ◌==◌, arith, ◌≡◌, refl, sym, ap, true, false, List, [],
  ◌∷◌, ◌++◌, All, Bool-cases, inl, inr,
}
use kernel_utils.Timer.{long_ltb, Entry, is_queued, list_del, insert_entry, is_at_head}

-- The position of a long in the order: the smallest one is 0.
abbrev pub key : ℕ → ℕ
key n = (n + 2 ^ 63) % 2 ^ 64

abbrev pub IsOrdered : List Entry → Type 0
IsOrdered [] = Unit
IsOrdered (c ∷ cs) = All (λ d. key c.expires ≤ key d.expires) cs × IsOrdered cs

abbrev pub IsDistinct : List Entry → Type 0
IsDistinct [] = Unit
IsDistinct (c ∷ cs) = (is_queued c.timer cs ≡ false) × IsDistinct cs

pub All-list_del : (P : Entry → Type 0) (t : ℕ) (cs : List Entry) → All P cs → All P (list_del t cs)
unfolding list_del
All-list_del P t [] h = tt
All-list_del P t (c ∷ cs) h = elim (Bool-cases (c.timer == t)) [
  | inl same ↦ rw same h.1
  | inr other ↦ rw other (h.0, All-list_del P t cs h.1)
]

pub IsOrdered-list_del : (t : ℕ) (cs : List Entry) → IsOrdered cs → IsOrdered (list_del t cs)
unfolding list_del
IsOrdered-list_del t [] h = tt
IsOrdered-list_del t (c ∷ cs) h = elim (Bool-cases (c.timer == t)) [
  | inl same ↦ rw same h.1
  | inr other ↦ rw other (All-list_del _ t cs h.0, IsOrdered-list_del t cs h.1)
]

-- A timer that is not in the list is not there when another one has left it.
is_queued_still :
    (u t : ℕ) (cs : List Entry) → is_queued u cs ≡ false → is_queued u (list_del t cs) ≡ false
unfolding list_del is_queued
is_queued_still u t [] h = refl
is_queued_still u t (c ∷ cs) h = elim (Bool-cases (c.timer == u)) [
  | inl same ↦ let queued : true ≡ false = rw same at h in cc
  | inr other ↦ elim (Bool-cases (c.timer == t)) [
    | inl gone ↦ rw gone (rw other at h)
    | inr stays ↦ rw (stays, is_queued, other) (is_queued_still u t cs (rw other at h))
  ]
]

-- Once deleted, a timer is not in the list.
pub is_queued-list_del :
    (t : ℕ) (cs : List Entry) → IsDistinct cs → is_queued t (list_del t cs) ≡ false
unfolding list_del is_queued
is_queued-list_del t [] h = refl
is_queued-list_del t (c ∷ cs) h = elim (Bool-cases (c.timer == t)) [
  | inl same ↦ rw same (subst_queued c.timer t cs same h.0)
  | inr other ↦ rw (other, is_queued, other) (is_queued-list_del t cs h.1)
]
  where
    subst_queued :
        (u t : ℕ) (cs : List Entry)
        → (u == t) ≡ true
        → is_queued u cs ≡ false
        → is_queued t cs ≡ false
    subst_queued u t cs e h = let same : u ≡ t = ground arith in rw (sym same) h

pub IsDistinct-list_del : (t : ℕ) (cs : List Entry) → IsDistinct cs → IsDistinct (list_del t cs)
unfolding list_del
IsDistinct-list_del t [] h = tt
IsDistinct-list_del t (c ∷ cs) h = elim (Bool-cases (c.timer == t)) [
  | inl same ↦ rw same h.1
  | inr other ↦ rw other (is_queued_still c.timer t cs h.0, IsDistinct-list_del t cs h.1)
]

-- A deleted timer that was not there changes nothing.
pub list_del_absent : (t : ℕ) (cs : List Entry) → is_queued t cs ≡ false → list_del t cs ≡ cs
unfolding list_del is_queued
list_del_absent t [] h = refl
list_del_absent t (c ∷ cs) h = elim (Bool-cases (c.timer == t)) [
  | inl same ↦ let queued : true ≡ false = rw same at h in cc
  | inr other ↦ rw other (ap (λ ds. c ∷ ds) (list_del_absent t cs (rw other at h)))
]

pub All-insert_entry :
    (P : Entry → Type 0) (e : Entry) (cs : List Entry) → P e → All P cs → All P (insert_entry e cs)
unfolding insert_entry
All-insert_entry P e [] p h = (p, tt)
All-insert_entry P e (c ∷ cs) p h = elim (Bool-cases (long_ltb e.expires c.expires)) [
  | inl earlier ↦ rw earlier (p, h)
  | inr later ↦ rw later (h.0, All-insert_entry P e cs p h.1)
]

pub key_before : (a b : ℕ) → long_ltb a b ≡ true → key a < key b
key_before a b h = ground arith

pub key_not_before : (a b : ℕ) → long_ltb a b ≡ false → key b ≤ key a
key_not_before a b h = ground arith

pub All-from :
    (m n : ℕ) (cs : List Entry)
    → m ≤ n
    → All (λ d. n ≤ key d.expires) cs
    → All (λ d. m ≤ key d.expires) cs
All-from m n [] e h = tt
All-from m n (c ∷ cs) e h = (omega arith, All-from m n cs e h.1)

pub IsOrdered-insert_entry :
    (e : Entry) (cs : List Entry) → IsOrdered cs → IsOrdered (insert_entry e cs)
unfolding insert_entry
IsOrdered-insert_entry e [] h = (tt, tt)
IsOrdered-insert_entry e (c ∷ cs) h = elim (Bool-cases (long_ltb e.expires c.expires)) [
  | inl earlier ↦
      let before : key e.expires ≤ key c.expires =
        omega (arith, key_before e.expires c.expires earlier) in
      rw earlier ((before, All-from _ (key c.expires) cs before h.0), h)
  | inr later ↦ rw later (
    All-insert_entry _ e cs (key_not_before e.expires c.expires later) h.0,
    IsOrdered-insert_entry e cs h.1,
  )
]

is_queued_other :
    (u : ℕ) (e : Entry) (cs : List Entry)
    → (e.timer == u) ≡ false
    → is_queued u cs ≡ false
    → is_queued u (insert_entry e cs) ≡ false
unfolding insert_entry is_queued
is_queued_other u e [] d h = rw d refl
is_queued_other u e (c ∷ cs) d h = elim (Bool-cases (long_ltb e.expires c.expires)) [
  | inl earlier ↦ rw (earlier, is_queued, d) h
  | inr later ↦ elim (Bool-cases (c.timer == u)) [
    | inl same ↦ let queued : true ≡ false = rw same at h in cc
    | inr other ↦ rw (later, is_queued, other) (is_queued_other u e cs d (rw other at h))
  ]
]

pub IsDistinct-insert_entry :
    (e : Entry) (cs : List Entry)
    → is_queued e.timer cs ≡ false
    → IsDistinct cs
    → IsDistinct (insert_entry e cs)
unfolding insert_entry is_queued
IsDistinct-insert_entry e [] n h = (refl, tt)
IsDistinct-insert_entry e (c ∷ cs) n h = elim (Bool-cases (c.timer == e.timer)) [
  | inl same ↦ let queued : true ≡ false = rw same at n in cc
  | inr other ↦
      let absent : is_queued e.timer cs ≡ false = rw other at n in
      elim (Bool-cases (long_ltb e.expires c.expires)) [
        | inl earlier ↦ rw earlier (n, h)
        | inr later ↦
            let different : (e.timer == c.timer) ≡ false = ground arith in
            rw later
              (is_queued_other c.timer e cs different h.0, IsDistinct-insert_entry e cs absent h.1)
      ]
]

-- Where a timer is put: after all that expire no later, and before all that expire later.
pub insert_entry_place :
    (e : Entry) (cs : List Entry)
    → IsOrdered cs
    → (xs : List Entry) × (ys : List Entry) × (cs ≡ xs ++ ys)
      × (insert_entry e cs ≡ xs ++ (e ∷ ys))
      × (is_at_head e cs ≡ is_empty xs)
      × All (λ d. key d.expires ≤ key e.expires) xs
      × All (λ d. key e.expires < key d.expires) ys
unfolding insert_entry is_at_head
insert_entry_place e [] h = ([], [], refl, refl, refl, tt, tt)
insert_entry_place e (c ∷ cs) h = elim (Bool-cases (long_ltb e.expires c.expires)) [
  | inl earlier ↦
      let before = key_before e.expires c.expires earlier in
      (
        [],
        c ∷ cs,
        refl,
        rw earlier refl,
        earlier,
        tt,
        (before, All-from (suc (key e.expires)) (key c.expires) cs before h.0),
      )
  | inr later ↦
      let (xs, ys, split, inserted, head, no_later, later') = insert_entry_place e cs h.1 in
      (
        c ∷ xs,
        ys,
        ap (λ ds. c ∷ ds) split,
        rw later (ap (λ ds. c ∷ ds) inserted),
        later,
        (key_not_before e.expires c.expires later, no_later),
        later',
      )
]
