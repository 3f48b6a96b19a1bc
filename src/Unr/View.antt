-- ===== src/Unr/View.antt =====
-- A list of chunks of unr.c as the sequence of its numbers, `true` for an allocated one; the memory
-- it takes; and which chunks may stand next to each other.
use kernel_utils.Base.{
  ℕ, ◌+◌, ◌^◌, ◌≤◌, ◌<◌, arith, ◌≡◌, refl, ap, Bool, true, false, List, [], ◌∷◌, ◌++◌, append_assoc,
  append-nil, length, All,
}
use kernel_utils.Bits.{replicate, take, count}
use kernel_utils.Unr.{nbits, Unr, free_run, allocated_run, bitmap, Unrhdr, rewind}

abbrev pub items : Unr → List Bool
items (free_run n) = replicate n false
items (allocated_run n) = replicate n true
items (bitmap n ub) = take n ub

abbrev pub all_items : List Unr → List Bool
all_items [] = []
all_items (u ∷ us) = items u ++ all_items us

-- The numbers from `low` to `high`.
abbrev pub numbers : Unrhdr → List Bool
numbers uh = replicate uh.first true ++ (all_items uh.head ++ replicate uh.last false)

-- The pieces of memory of a list.
abbrev pub pieces_of : Unr → ℕ
pieces_of (bitmap n ub) = 2
pieces_of (free_run n) = 1
pieces_of (allocated_run n) = 1

abbrev pub total : List Unr → ℕ
total [] = 0
total (u ∷ us) = pieces_of u + total us

-- A chunk is as long as it says; a run has a number, and a bitmap has free and allocated ones.
abbrev pub IsRun : ℕ → Type 0
IsRun n = (1 ≤ n) × (n ≤ 2 ^ 31)

abbrev pub IsMap : ℕ → List Bool → Type 0
IsMap n ub = (n ≤ nbits) × (length ub ≡ nbits)

abbrev pub IsMixed : List Bool → Type 0
IsMixed xs = (1 ≤ count xs) × (count xs < length xs)

abbrev pub IsChunk : Unr → Type 0
IsChunk (free_run n) = IsRun n
IsChunk (allocated_run n) = IsRun n
IsChunk (bitmap n ub) = IsMap n ub × IsMixed (take n ub)

pub data Kind : Type 0 where
  free allocated mixed : Kind

abbrev pub kind : Unr → Kind
kind (free_run n) = free
kind (allocated_run n) = allocated
kind (bitmap n ub) = mixed

-- Two chunks of these kinds do not merge.
abbrev pub IsApart : Kind → Kind → Type 0
IsApart free free = ⊥
IsApart allocated allocated = ⊥
IsApart _ _ = Unit

-- No two neighbours of a list merge, with `j` in front of it and `k` behind it.
abbrev pub IsBetween : Kind → List Unr → Kind → Type 0
IsBetween j [] k = IsApart j k
IsBetween j (u ∷ us) k = IsApart j (kind u) × IsBetween (kind u) us k

-- The same of the chunks before a place, the nearest first.
abbrev pub IsBehind : Kind → List Unr → Type 0
IsBehind j [] = Unit
IsBehind j (u ∷ []) = IsApart j (kind u)
IsBehind j (u ∷ v ∷ us) = IsApart (kind v) (kind u) × IsBehind j (v ∷ us)

abbrev pub nearest : Kind → List Unr → Kind
nearest j [] = j
nearest j (u ∷ us) = kind u

pub IsBehind-cons :
    (j : Kind) (u : Unr) (before : List Unr)
    → IsBehind j before
    → IsApart (nearest j before) (kind u)
    → IsBehind j (u ∷ before)
IsBehind-cons j u [] h a = a
IsBehind-cons j u (v ∷ before) h a = (a, h)

pub IsBehind-tail :
    (j : Kind) (u : Unr) (before : List Unr)
    → IsBehind j (u ∷ before)
    → IsBehind j before × IsApart (nearest j before) (kind u)
IsBehind-tail j u [] h = (tt, h)
IsBehind-tail j u (v ∷ before) h = (h.1, h.0)

pub IsApart-mixed_left : (k : Kind) → IsApart mixed k
IsApart-mixed_left free = tt
IsApart-mixed_left allocated = tt
IsApart-mixed_left mixed = tt

pub IsApart-mixed_right : (k : Kind) → IsApart k mixed
IsApart-mixed_right free = tt
IsApart-mixed_right allocated = tt
IsApart-mixed_right mixed = tt

pub IsBetween-rewind :
    (j : Kind) (before us : List Unr) (k : Kind)
    → IsBehind j before
    → IsBetween (nearest j before) us k
    → IsBetween j (rewind before us) k
IsBetween-rewind j [] us k h b = b
IsBetween-rewind j (u ∷ before) us k h b =
    let t = IsBehind-tail j u before h in IsBetween-rewind j before (u ∷ us) k t.0 (t.1, b)

pub IsBetween-unwind :
    (j : Kind) (before us : List Unr) (k : Kind)
    → IsBetween j (rewind before us) k
    → IsBehind j before × IsBetween (nearest j before) us k
IsBetween-unwind j [] us k b = (tt, b)
IsBetween-unwind j (u ∷ before) us k b =
    let (h, b') = IsBetween-unwind j before (u ∷ us) k b in (IsBehind-cons j u before h b'.0, b'.1)

pub IsBetween-weaken : (j k : Kind) (us : List Unr) → IsBetween j us k → IsBetween mixed us k
IsBetween-weaken j k [] b = IsApart-mixed_left k
IsBetween-weaken j k (u ∷ us) b = (IsApart-mixed_left (kind u), b.1)

pub IsBetween-weaken_right : (j k : Kind) (us : List Unr) → IsBetween j us k → IsBetween j us mixed
IsBetween-weaken_right j k [] b = IsApart-mixed_right j
IsBetween-weaken_right j k (u ∷ us) b = (b.0, IsBetween-weaken_right (kind u) k us b.1)

pub IsBehind-weaken : (j : Kind) (before : List Unr) → IsBehind j before → IsBehind mixed before
IsBehind-weaken j [] h = tt
IsBehind-weaken j (u ∷ []) h = IsApart-mixed_left (kind u)
IsBehind-weaken j (u ∷ v ∷ before) h = (h.0, IsBehind-weaken j (v ∷ before) h.1)

-- What is before a place stays as it is.
pub all_items-rewind :
    (before us vs : List Unr)
    → all_items us ≡ all_items vs
    → all_items (rewind before us) ≡ all_items (rewind before vs)
all_items-rewind [] us vs e = e
all_items-rewind (u ∷ before) us vs e =
    all_items-rewind before (u ∷ us) (u ∷ vs) (ap (λ xs. items u ++ xs) e)

pub all_items_split :
    (before us : List Unr)
    → all_items (rewind before us) ≡ all_items (rewind before []) ++ all_items us
all_items_split [] us = refl
all_items_split (u ∷ before) us =
    rw (all_items_split before (u ∷ us), all_items_split before (u ∷ []), append-nil, append_assoc)
      refl

pub total-rewind : (before us : List Unr) → total (rewind before us) ≡ total before + total us
total-rewind [] us = omega arith
total-rewind (u ∷ before) us = omega (arith, total-rewind before (u ∷ us))

pub length-rewind : (before us : List Unr) → length (rewind before us) ≡ length before + length us
length-rewind [] us = omega arith
length-rewind (u ∷ before) us = omega (arith, length-rewind before (u ∷ us))

module _ {ℓ} (P : Unr → Type ℓ) where
  pub All-rewind : (before us : List Unr) → All P before → All P us → All P (rewind before us)
  All-rewind [] us h k = k
  All-rewind (u ∷ before) us h k = All-rewind before (u ∷ us) h.1 (h.0, k)

  pub All-unwind : (before us : List Unr) → All P (rewind before us) → All P before × All P us
  All-unwind [] us h = (tt, h)
  All-unwind (u ∷ before) us h = let (b, k) = All-unwind before (u ∷ us) h in ((k.0, b), k.1)
