-- ===== src/Unr/Optimize.antt =====
-- `optimize_unr` of unr.c: chunks in a row that fit into one bitmap become one.
use kernel_utils.Base.{
  ℕ, zero, suc, ◌+◌, ◌-◌, leb, ltb, Bool, true, false, Option, none, some, ◌>>=◌, List, [], ◌∷◌,
  if◌then◌else◌,
}
use kernel_utils.Bits.{replicate, bit_test, bit_set, bit_clear, bit_nset, bit_nclear}
use kernel_utils.Unr.{
  add32, nbits, Unr, free_run, allocated_run, bitmap, len, is_bitmap, Memory, delete_unr, Place,
  rewind,
}

-- The pieces of memory of a chunk.
abbrev pub pieces : Unr → ℕ
pieces u = if is_bitmap u then 2 else 1

-- The inner loop: `a` pieces in the chunks that fit together, with `l` bits so far.
unfoldable pub gather : ℕ → ℕ → List Unr → ℕ
gather a l [] = a
gather a l (up ∷ us) =
    if ltb nbits (add32 (len up) l) then a else gather (add32 a (pieces up)) (add32 l (len up)) us

-- The outer loop: `ba` pieces at the place `us`, at most so far.
unfoldable pub best : List Unr → List Unr → ℕ → Option Place → ℕ × Option Place
unfolding gather
best before [] ba us = (ba, us)
best before (uf ∷ rest) ba us =
    if leb nbits (len uf)
    then best (uf ∷ before) rest ba us
    else let a = gather (pieces uf) (len uf) rest in
      if ltb ba a
      then best (uf ∷ before) rest a (some (record { before = before; up = uf; after = rest }))
      else best (uf ∷ before) rest ba us

-- `n` bits of `ubf` from `l` on are copied to `ub` at `at`, one by one.
unfoldable pub copy : ℕ → List Bool → ℕ → List Bool → ℕ → List Bool
copy zero ubf l ub at = ub
copy (suc n) ubf l ub at =
    copy n ubf (l + 1) (if bit_test ubf l then bit_set ub at else bit_clear ub at) (at + 1)

-- The bits of a chunk are written to `ub` at `at`.
unfoldable pub write_chunk : Unr → List Bool → ℕ → List Bool
unfolding copy
write_chunk (free_run n) ub at = bit_nclear ub at (at + n - 1)
write_chunk (allocated_run n) ub at = bit_nset ub at (at + n - 1)
write_chunk (bitmap n ubf) ub at = copy n ubf 0 ub at

-- The memory of a chunk that a bitmap has taken in is let go.
unfoldable pub delete_chunk : Unr → Memory → Memory
unfolding delete_unr
delete_chunk (free_run n) m = delete_unr m
delete_chunk (allocated_run n) m = delete_unr m
delete_chunk (bitmap n ub) m = delete_unr (delete_unr m)

pub record Absorbed : Type 0 where
  pub memory : Memory
  pub bits : ℕ
  pub ub : List Bool
  pub after : List Unr

abbrev pub cleared : List Bool
cleared = bit_nclear (replicate nbits false) 0 (nbits - 1)

-- The bits of a run, and one more where it is allocated.
unfoldable pub first_bits : Unr → List Bool
first_bits (free_run n) = cleared
first_bits (allocated_run n) = bit_nset cleared 0 n
first_bits (bitmap n ub) = ub

-- The first two chunks become a bitmap, without new memory: the first chunk's is used for its bits.
-- Whatever these were, all of them are cleared.
unfoldable pub make_bitmap : Memory → Unr → List Unr → Option Absorbed
unfolding write_chunk first_bits delete_unr
make_bitmap m us [] = none
make_bitmap m us (uf ∷ rest) = some (record {
  memory = if is_bitmap uf then delete_unr m else m;
  bits = add32 (len uf) (len us);
  ub = write_chunk uf (first_bits us) (len us);
  after = rest;
})

-- The last loop: the chunks after a bitmap are taken in while they fit.
unfoldable pub absorb : Memory → ℕ → List Bool → List Unr → Absorbed
unfolding write_chunk delete_chunk
absorb m l ub [] = record { memory = m; bits = l; ub = ub; after = [] }
absorb m l ub (uf ∷ rest) =
    if ltb nbits (add32 (len uf) l)
    then record { memory = m; bits = l; ub = ub; after = uf ∷ rest }
    else absorb (delete_chunk uf m) (add32 l (len uf)) (write_chunk uf ub l) rest

abbrev pub begin_bitmap : Memory → Unr → List Unr → Option Absorbed
begin_bitmap m (bitmap l ub) after = some (record { memory = m; bits = l; ub = ub; after = after })
begin_bitmap m (free_run n) after = make_bitmap m (free_run n) after
begin_bitmap m (allocated_run n) after = make_bitmap m (allocated_run n) after

unfoldable pub collect : Memory → Place → Option (Memory × List Unr)
unfolding make_bitmap absorb
collect m p = begin_bitmap m p.up p.after >>= λ a.
    let b = absorb a.memory a.bits a.ub a.after in
    some (b.memory, rewind p.before (bitmap b.bits b.ub ∷ b.after))

-- Without a place the code would read through NULL.
abbrev pub collect_at : Memory → Option Place → Option (Memory × List Unr)
collect_at m none = none
collect_at m (some p) = collect m p

-- Whether another call might do more.
unfoldable pub optimize_unr : Memory → List Unr → Option (Bool × Memory × List Unr)
unfolding best collect
optimize_unr m head =
    let (ba, us) = best [] head 0 none in
    if ltb ba 3 then some (false, m, head) else (collect_at m us >>= λ r. some (true, r.0, r.1))

-- `while (optimize_unr(uh)) continue;`, which runs out of fuel after as many calls.
unfoldable pub optimize_all : ℕ → Memory → List Unr → Option (Memory × List Unr)
unfolding optimize_unr
optimize_all zero m head = none
optimize_all (suc fuel) m head =
    optimize_unr m head >>= λ r. if r.0 then optimize_all fuel r.1 r.2 else some (r.1, r.2)
