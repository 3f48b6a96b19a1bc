-- ===== src/Unr/Locate.antt =====
-- The search of unr.c for the chunk that has a number, and the chunks cut off around one.
use kernel_utils.Base.{
  ℕ, ◌+◌, ◌-◌, ◌^◌, ◌≤◌, ◌<◌, arith, ◌≡◌, refl, ap, ◌∙◌, ltb, Bool, true, false, Option, none, some,
  List, [], ◌∷◌, ◌++◌, length, length-append, All, Bool-cases, inl, inr,
}
use kernel_utils.Bits.{replicate, write, bit_test}
use kernel_utils.Bits.Laws.{length-replicate}
use kernel_utils.Bits.Writes.{bit_test-left, bit_test-right, write-left, write-right}
use kernel_utils.Unr.{sub32, Unr, len, Memory, Place, rewind, whole}
use kernel_utils.Unr.Alloc.{locate}
use kernel_utils.Unr.View.{
  items, all_items, IsChunk, free, allocated, kind, IsBetween-unwind, IsBetween-weaken,
  all_items_split, All-unwind,
}
use kernel_utils.Unr.Absorb.{length-items}
use kernel_utils.Unr.Tidy.{IsTidy}
use kernel_utils.Unr.Settle.{IsAround}
use kernel_utils.Unr.Valid.{before_place, after_place, numbers_place}

-- How many numbers the chunks before a place have.
abbrev pub passed : List Unr → ℕ
passed before = length (all_items (rewind before []))

-- The number is in the chunk found, or it lies behind the list.
abbrev pub IsLocated : List Unr → ℕ → ℕ × List Unr × Option Place → Type 0
IsLocated head i (k, before, some p) = (whole p ≡ head) × (k < len p.up) × (passed p.before + k ≡ i)
IsLocated head i (k, before, none) = (rewind before [] ≡ head) × (k + length (all_items head) ≡ i)

locate-IsLocated :
    (before us : List Unr) (i n : ℕ)
    → All IsChunk us
    → passed before + i ≡ n
    → n < 2 ^ 32
    → IsLocated (rewind before us) n (locate before us i)
unfolding locate
locate-IsLocated before [] i n h e b = (refl, omega arith)
locate-IsLocated before (up ∷ us) i n h e b = elim (Bool-cases (ltb i (len up))) [
  | inl t ↦ rw t (refl, ground arith, e)
  | inr t ↦
      let long : len up ≤ i = ground arith in
      let less : sub32 i (len up) ≡ i - len up = omega arith in
      let split : passed (up ∷ before) ≡ passed before + len up = omega (
        arith,
        ap length (all_items_split before (up ∷ [])),
        length-append (all_items (rewind before [])) (items up ++ []),
        length-append (items up) [],
        length-items up h.0,
      ) in
      rw (t, less) (locate-IsLocated (up ∷ before) us (i - len up) n h.1 (omega arith) b)
]

pub locate_lem :
    (head : List Unr) (i : ℕ) → All IsChunk head → i < 2 ^ 32 → IsLocated head i (locate [] head i)
locate_lem head i h b = locate-IsLocated [] head i i h (omega arith) b

-- What surrounds a place of a tidy list.
pub tidy_around : (m : Memory) (p : Place) → IsTidy m (whole p) → IsAround p × IsChunk p.up
tidy_around m p t =
    let (before, after) = All-unwind IsChunk p.before (p.up ∷ p.after) t.chunks in
    let (behind, ahead) = IsBetween-unwind allocated p.before (p.up ∷ p.after) free t.apart in
    (
      record {
        before = before;
        after = after.1;
        behind = behind;
        ahead = IsBetween-weaken (kind p.up) free p.after ahead.1;
      },
      after.0,
    )

pub index_inside :
    (p : Place) (k : ℕ)
    → k < len p.up
    → IsChunk p.up
    → passed p.before + k < length (all_items (whole p))
index_inside p k inside chunk = omega (
  arith,
  ap length (all_items_split p.before (p.up ∷ p.after)),
  length-append (all_items (rewind p.before [])) (items p.up ++ all_items p.after),
  length-append (items p.up) (all_items p.after),
  length-items p.up chunk,
)

-- A number in a chunk: its bit, and the numbers after a write.
module _ (first last : ℕ) (p : Place) (k : ℕ) (inside : k < len p.up) (chunk : IsChunk p.up) where
  abbrev place_numbers : List Bool
  place_numbers = replicate first true ++ (all_items (whole p) ++ replicate last false)

  abbrev place_index : ℕ
  place_index = first + (passed p.before + k)

  abbrev front : List Bool
  front = before_place first p.before

  index_lem : place_index ≡ length front + k
  index_lem = omega (
    arith,
    length-append (replicate first true) (all_items (rewind p.before [])),
    length-replicate first true,
  )

  pub bit_test-place : bit_test place_numbers place_index ≡ bit_test (items p.up) k
  bit_test-place =
      rw (numbers_place first last p, index_lem)
        (bit_test-right front (items p.up ++ after_place p.after last) k
          ∙ bit_test-left (items p.up) (after_place p.after last) k
              (omega (arith, length-items p.up chunk)))

  pub write-place :
      (v : Bool)
      → write place_numbers place_index v
        ≡ front ++ (write (items p.up) k v ++ after_place p.after last)
  write-place v =
      rw (numbers_place first last p, index_lem)
        (write-right front (items p.up ++ after_place p.after last) k v
          ∙ ap (λ xs. front ++ xs)
              (write-left (items p.up) (after_place p.after last) k v
                (omega (arith, length-items p.up chunk))))
