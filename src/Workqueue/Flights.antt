-- ===== src/Workqueue/Flights.antt =====
-- The works in flight of each pwq (workqueue.c), with the color that they have and the time when they
-- were queued. They are not in the program, which only counts them.
use kernel_utils.Base.{
  ℕ, zero, suc, ◌+◌, ◌==◌, arith, ◌≡◌, refl, false, Bool-cases, inl, inr, some, List, [], ◌∷◌, ◌++◌,
  map, All, if◌then◌else◌,
}
use kernel_utils.Workqueue.{Pwq}
use kernel_utils.Workqueue.Flush.{set, get_elem?}

pub record Flight : Type 0 where
  pub color : ℕ
  pub queued : ℕ

-- How many works of a color are in flight.
abbrev pub count : ℕ → List Flight → ℕ
count c [] = 0
count c (h ∷ hs) = if c == h.color then suc (count c hs) else count c hs

pub count-middle :
    (c : ℕ) (xs : List Flight) (h : Flight) (ys : List Flight)
    → count c (xs ++ (h ∷ ys)) ≡ (if c == h.color then 1 else 0) + count c (xs ++ ys)
count-middle c [] h ys = ground arith
count-middle c (x ∷ xs) h ys = ground (arith, count-middle c xs h ys)

-- No work of the color, and none of another one.
pub no_flights : (c : ℕ) (hs : List Flight) → count c hs ≡ 0 → All (λ h. h.color ≡ c) hs → hs ≡ []
no_flights c [] e a = refl
no_flights c (h ∷ hs) e a = ground (arith, e, a.0)

pub not_counted : (c : ℕ) (hs : List Flight) → count c hs ≡ 0 → All (λ h. (c == h.color) ≡ false) hs
not_counted c [] e = tt
not_counted c (h ∷ hs) e = elim (Bool-cases (c == h.color)) [
  | inl t ↦ ground (arith, e, t)
  | inr t ↦ (t, not_counted c hs (ground (arith, e, t)))
]

-- Each pwq with its works in flight.
abbrev pub Zip : (Pwq → List Flight → Type 0) → List Pwq → List (List Flight) → Type 0
Zip P [] [] = Unit
Zip P [] (l ∷ ls) = ⊥
Zip P (p ∷ ps) [] = ⊥
Zip P (p ∷ ps) (l ∷ ls) = P p l × Zip P ps ls

module _ (P : Pwq → List Flight → Type 0) where
  pub Zip-map :
      (Q : Pwq → List Flight → Type 0) (g : Pwq → Pwq)
      → ((p : Pwq) (l : List Flight) → P p l → Q (g p) l)
      → (ps : List Pwq) (ls : List (List Flight)) → Zip P ps ls
      → Zip Q (map g ps) ls
  Zip-map Q g f [] [] z = tt
  Zip-map Q g f [] (l ∷ ls) z = absurd z
  Zip-map Q g f (p ∷ ps) [] z = absurd z
  Zip-map Q g f (p ∷ ps) (l ∷ ls) z = (f p l z.0, Zip-map Q g f ps ls z.1)

  pub Zip-get :
      (i : ℕ) (ps : List Pwq) (ls : List (List Flight)) (p : Pwq) (l : List Flight)
      → Zip P ps ls
      → get_elem? i ps ≡ some p
      → get_elem? i ls ≡ some l
      → P p l
  Zip-get i [] [] p l z e f = cc
  Zip-get i [] (m ∷ ls) p l z e f = absurd z
  Zip-get i (q ∷ ps) [] p l z e f = absurd z
  Zip-get zero (q ∷ ps) (m ∷ ls) p l z e f =
      let same : q ≡ p = cc in let same' : m ≡ l = cc in rw (← same, ← same') z.0
  Zip-get (suc i) (q ∷ ps) (m ∷ ls) p l z e f = Zip-get i ps ls p l z.1 e f

  pub Zip-set :
      (i : ℕ) (ps : List Pwq) (ls : List (List Flight)) (p : Pwq) (l : List Flight)
      → Zip P ps ls
      → P p l
      → Zip P (set i p ps) (set i l ls)
  Zip-set i [] [] p l z h = tt
  Zip-set i [] (m ∷ ls) p l z h = absurd z
  Zip-set i (q ∷ ps) [] p l z h = absurd z
  Zip-set zero (q ∷ ps) (m ∷ ls) p l z h = (h, z.1)
  Zip-set (suc i) (q ∷ ps) (m ∷ ls) p l z h = (z.0, Zip-set i ps ls p l z.1 h)

  -- What holds of each pwq says something of its works.
  pub Zip-All :
      (Q : Pwq → Type 0) (R : List Flight → Type 0)
      → ((p : Pwq) (l : List Flight) → P p l → Q p → R l)
      → (ps : List Pwq) (ls : List (List Flight)) → Zip P ps ls
      → All Q ps
      → All R ls
  Zip-All Q R f [] [] z a = tt
  Zip-All Q R f [] (l ∷ ls) z a = absurd z
  Zip-All Q R f (p ∷ ps) [] z a = absurd z
  Zip-All Q R f (p ∷ ps) (l ∷ ls) z a = (f p l z.0 a.0, Zip-All Q R f ps ls z.1 a.1)

module _ {ℓ κ} {A : Type ℓ} (P : A → Type κ) where
  pub All-set : (i : ℕ) (x : A) (xs : List A) → P x → All P xs → All P (set i x xs)
  All-set i x [] h a = tt
  All-set zero x (y ∷ xs) h a = (h, a.1)
  All-set (suc i) x (y ∷ xs) h a = (a.0, All-set i x xs h a.1)

  pub All-get : (i : ℕ) (xs : List A) (x : A) → All P xs → get_elem? i xs ≡ some x → P x
  All-get i [] x a e = cc
  All-get zero (y ∷ xs) x a e = let same : y ≡ x = cc in rw (← same) a.0
  All-get (suc i) (y ∷ xs) x a e = All-get i xs x a.1 e

-- Two facts on all members make a third.
pub All-both {ℓ κ} :
    {A : Type ℓ} (P Q R : A → Type κ)
    → ((x : A) → P x → Q x → R x)
    → (xs : List A) → All P xs
    → All Q xs
    → All R xs
All-both P Q R f [] a b = tt
All-both P Q R f (x ∷ xs) a b = (f x a.0 b.0, All-both P Q R f xs a.1 b.1)
