-- ===== src/Unr/Serves.antt =====
-- `alloc_unr` of unr.c on a valid header.
use kernel_utils.Base.{
  ℕ, Bool, true, false, Option, none, some, Returns, Returns->>=, List, [], ◌∷◌,
}
use kernel_utils.Bits.{first_of, write}
use kernel_utils.Unr.{Unr, Unrhdr, clean_unrhdrl}
use kernel_utils.Unr.Alloc.{alloc_unrl, alloc_unr}
use kernel_utils.Unr.View.{numbers}
use kernel_utils.Unr.Valid.{IsValid, IsNow}
use kernel_utils.Unr.Allocates.{Serves, split_allocates, first_allocates}

alloc_unrl_lem :
    (uh : Unrhdr)
    → IsValid uh
    → Returns (alloc_unrl uh) (Serves (numbers uh) uh (first_of false (numbers uh)))
alloc_unrl_lem uh v = on_list uh.head v
  where
    on_list :
        (us : List Unr)
        → IsValid (record uh { head = us })
        → Returns (alloc_unrl (record uh { head = us })) (
            Serves
              (numbers (record uh { head = us }))
              (record uh { head = us })
              (first_of false (numbers (record uh { head = us }))))
    on_list [] w = split_allocates uh.low uh.high uh.busy uh.first uh.last uh.memory w
    on_list (u ∷ us) w = first_allocates uh.low uh.high uh.busy uh.first uh.last uh.memory u us w

pub clean-IsValid : (uh : Unrhdr) → IsValid uh → IsValid (clean_unrhdrl uh)
unfolding clean_unrhdrl
clean-IsValid uh v = record {
  tidy = record { chunks = v.tidy.chunks; apart = v.tidy.apart; counted = v.tidy.counted };
  range = v.range;
  busy = v.busy;
  ordered = v.ordered;
  small = v.small;
}

clean-IsNow : (xs : List Bool) (uh r : Unrhdr) → IsNow xs uh r → IsNow xs uh (clean_unrhdrl r)
unfolding clean_unrhdrl
clean-IsNow xs uh r n = record {
  valid = clean-IsValid r n.valid;
  same = n.same;
  low = n.low;
  high = n.high;
}

clean-Serves :
    (xs : List Bool) (uh : Unrhdr) (k : Option ℕ) (r : Option ℕ × Unrhdr)
    → Serves xs uh k r
    → Serves xs uh k (r.0, clean_unrhdrl r.1)
clean-Serves xs uh none r h = (h.0, clean-IsNow xs uh r.1 h.1)
clean-Serves xs uh (some k) r h = (h.0, clean-IsNow (write xs k true) uh r.1 h.1)

-- On a valid header `alloc_unr` does not fault. It returns the lowest free number, which it
-- allocates, and -1 only if none is free. Nothing else changes, and the header stays valid.
pub alloc_unr-Serves :
    (uh : Unrhdr)
    → IsValid uh
    → Returns (alloc_unr uh) (Serves (numbers uh) uh (first_of false (numbers uh)))
unfolding alloc_unr
alloc_unr-Serves uh v =
    let k = first_of false (numbers uh) in
    Returns->>= (alloc_unrl uh) _ (Serves (numbers uh) uh k) (Serves (numbers uh) uh k)
      (alloc_unrl_lem uh v) (λ r h. clean-Serves (numbers uh) uh k r h)
