-- ===== src/Unr/Bitmaps.antt =====
-- What `optimize_unr` of unr.c does to a list of chunks.
use kernel_utils.Base.{
  ℕ, suc, ◌+◌, ◌^◌, ◌≤◌, ◌<◌, arith, ◌≡◌, ltb, Bool, false, List, [], ◌∷◌, ◌++◌, append_assoc,
  length, All, Bool-cases, inl, inr,
}
use kernel_utils.Bits.{take}
use kernel_utils.Unr.{add32, nbits, Unr, free_run, allocated_run, bitmap, len, Memory, delete_unr}
use kernel_utils.Unr.Optimize.{write_chunk, delete_chunk, Absorbed, absorb}
use kernel_utils.Unr.View.{
  items, all_items, pieces_of, total, IsMap, IsMixed, IsChunk, Kind, mixed, kind, IsBetween,
  IsBetween-weaken,
}
use kernel_utils.Unr.Absorb.{len_bound, length-write_chunk, take-write_chunk, IsMixed-append}

-- The header counts `n` pieces of memory.
abbrev pub IsCounted : Memory → ℕ → Type 0
IsCounted m n = (m.alloc ≡ n) × (n < 2 ^ 32)

pub delete_unr-IsCounted : (m : Memory) (n : ℕ) → IsCounted m (suc n) → IsCounted (delete_unr m) n
unfolding delete_unr
delete_unr-IsCounted m n h = omega arith

delete_chunk-IsCounted :
    (u : Unr) (m : Memory) (n : ℕ) → IsCounted m (pieces_of u + n) → IsCounted (delete_chunk u m) n
unfolding delete_chunk
delete_chunk-IsCounted (free_run k) m n h = delete_unr-IsCounted m n (omega arith)
delete_chunk-IsCounted (allocated_run k) m n h = delete_unr-IsCounted m n (omega arith)
delete_chunk-IsCounted (bitmap k ub) m n h =
    delete_unr-IsCounted (delete_unr m) n (delete_unr-IsCounted m (suc n) (omega arith))

-- A bitmap with the bits `xs` and the chunks after it, of `n` pieces beside those, at most `c` chunks.
pub record IsAbsorbed (xs : List Bool) (n c : ℕ) (k : Kind) (a : Absorbed) : Type 0 where
  pub same : take a.bits a.ub ++ all_items a.after ≡ xs
  pub fits : IsMap a.bits a.ub
  pub both : IsMixed (take a.bits a.ub)
  pub chunks : All IsChunk a.after
  pub apart : IsBetween mixed a.after k
  pub counted : IsCounted a.memory (n + total a.after)
  pub fewer : length a.after ≤ c

more :
    (c : ℕ) {xs : List Bool} {n : ℕ} {k : Kind} {a : Absorbed}
    → IsAbsorbed xs n c k a
    → IsAbsorbed xs n (suc c) k a
more c h = record {
  same = h.same;
  fits = h.fits;
  both = h.both;
  chunks = h.chunks;
  apart = h.apart;
  counted = h.counted;
  fewer = omega (arith, h.fewer);
}

pub no_wrap : (u : Unr) (l : ℕ) → IsChunk u → l ≤ nbits → add32 (len u) l ≡ len u + l
no_wrap u l c h = omega (arith, len_bound u c)

taken : (u : Unr) (l : ℕ) → IsChunk u → l ≤ nbits → add32 l (len u) ≡ l + len u
taken u l c h = omega (arith, len_bound u c)

-- A chunk that fits can be written.
pub room :
    (u : Unr) (l : ℕ)
    → IsChunk u
    → l ≤ nbits
    → ltb nbits (add32 (len u) l) ≡ false
    → l + len u ≤ nbits
room u l c h f = let e = no_wrap u l c h in ground (arith, e)

-- The state in which the loop of `absorb` is.
pub record IsReady (xs : List Bool) (n : ℕ) (k : Kind) (m : Memory) (l : ℕ) (ub : List Bool)
    (us : List Unr) : Type 0 where
  pub same : take l ub ++ all_items us ≡ xs
  pub fits : IsMap l ub
  pub both : IsMixed (take l ub)
  pub chunks : All IsChunk us
  pub apart : IsBetween mixed us k
  pub counted : IsCounted m (n + total us)

module _ (xs : List Bool) (n : ℕ) (k : Kind) where
  absorb_step :
      (u : Unr) (us : List Unr) (m : Memory) (l : ℕ) (ub : List Bool)
      → ltb nbits (add32 (len u) l) ≡ false
      → IsReady xs n k m l ub (u ∷ us)
      → IsReady xs n k (delete_chunk u m) (add32 l (len u)) (write_chunk u ub l) us
  absorb_step u us m l ub t r =
      let c = r.chunks.0 in
      let h = room u l c r.fits.0 t in
      let e = taken u l c r.fits.0 in
      let written = take-write_chunk u ub l c (omega (arith, r.fits)) in
      record {
        same = rw (e, written, append_assoc) r.same;
        fits = rw (e, length-write_chunk u ub l) (h, r.fits.1);
        both = rw (e, written) (IsMixed-append (take l ub) (items u) r.both);
        chunks = r.chunks.1;
        apart = IsBetween-weaken (kind u) k us r.apart.1;
        counted = delete_chunk-IsCounted u m (n + total us) (omega (arith, r.counted));
      }

  pub absorb-IsAbsorbed :
      (us : List Unr) (m : Memory) (l : ℕ) (ub : List Bool)
      → IsReady xs n k m l ub us
      → IsAbsorbed xs n (length us) k (absorb m l ub us)
  unfolding absorb
  absorb-IsAbsorbed [] m l ub r = record {
    same = r.same;
    fits = r.fits;
    both = r.both;
    chunks = tt;
    apart = r.apart;
    counted = r.counted;
    fewer = omega arith;
  }
  absorb-IsAbsorbed (u ∷ us) m l ub r = elim (Bool-cases (ltb nbits (add32 (len u) l))) [
    | inl t ↦ rw t (record {
      same = r.same;
      fits = r.fits;
      both = r.both;
      chunks = r.chunks;
      apart = r.apart;
      counted = r.counted;
      fewer = omega arith;
    })
    | inr t ↦ rw t (
        more (length us) (
          absorb-IsAbsorbed us (delete_chunk u m) (add32 l (len u)) (write_chunk u ub l)
            (absorb_step u us m l ub t r)))
  ]

  -- The first chunk fits.
  pub absorb_one :
      (u : Unr) (us : List Unr) (m : Memory) (l : ℕ) (ub : List Bool)
      → ltb nbits (add32 (len u) l) ≡ false
      → IsReady xs n k m l ub (u ∷ us)
      → IsAbsorbed xs n (length us) k (absorb m l ub (u ∷ us))
  unfolding absorb
  absorb_one u us m l ub t r = rw t (
      absorb-IsAbsorbed us (delete_chunk u m) (add32 l (len u)) (write_chunk u ub l)
        (absorb_step u us m l ub t r))
