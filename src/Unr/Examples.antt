-- ===== src/Unr/Examples.antt =====
-- The theorems on unit numbers at concrete headers.
use kernel_utils.Base.{
  ◌+◌, ◌-◌, arith, ◌≡◌, ◌⊎◌, refl, true, false, none, some, Returns, List, [], ◌∷◌, inr, length,
}
use kernel_utils.Bits.{replicate, first_of, write, fill}
use kernel_utils.Unr.{Unr, free_run, allocated_run, Memory, Unrhdr, init_unrhdr}
use kernel_utils.Unr.Alloc.{alloc_unr, alloc_unr_specific}
use kernel_utils.Unr.Free.{free_unr}
use kernel_utils.Unr.View.{numbers}
use kernel_utils.Unr.Tidy.{IsTidy}
use kernel_utils.Unr.Valid.{IsValid, IsNow}
use kernel_utils.Unr.Allocates.{Serves}
use kernel_utils.Unr.Serves.{alloc_unr-Serves}
use kernel_utils.Unr.Released.{free_unr-IsNow}
use kernel_utils.Unr.Faults.{free_unr_fault}
use kernel_utils.Unr.Claims.{Claims}
use kernel_utils.Unr.Requests.{alloc_unr_specific-Claims, alloc_unr_specific_wrong}
use kernel_utils.Unr.Refused.{alloc_unr_specific_refused}
use kernel_utils.Unr.Run.{
  Call, allocates, frees, run, replay, run_refines, IsRange, init_unrhdr-IsValid,
}

-- The numbers from 0 to 9: 0 and 1 are allocated, and 4.
abbrev split_memory : Memory
split_memory = record { alloc = 2; ppfree = 0; cached = 0 }

abbrev runs : List Unr
runs = free_run 2 ∷ allocated_run 1 ∷ []

abbrev some_used : Unrhdr
some_used = record {
  head = runs;
  low = 0;
  high = 9;
  busy = 3;
  first = 2;
  last = 5;
  memory = split_memory;
}

runs-IsTidy : IsTidy split_memory runs
runs-IsTidy = record {
  chunks = (omega arith, (omega arith, tt));
  apart = (tt, (tt, tt));
  counted = omega arith;
}

some_used-IsValid : IsValid some_used
some_used-IsValid = record {
  tidy = runs-IsTidy;
  range = refl;
  busy = refl;
  ordered = omega arith;
  small = omega arith;
}

-- The numbers 0 to 2 are allocated, and nothing is in the list.
abbrev three_used : Unrhdr
three_used = record {
  head = [];
  low = 0;
  high = 9;
  busy = 3;
  first = 3;
  last = 7;
  memory = record { alloc = 0; ppfree = 0; cached = 0 };
}

three_used-IsValid : IsValid three_used
three_used-IsValid = record {
  tidy = record { chunks = tt; apart = tt; counted = omega arith };
  range = refl;
  busy = refl;
  ordered = omega arith;
  small = omega arith;
}

abbrev calls : List Call
calls = allocates ∷ frees 0 ∷ allocates ∷ allocates ∷ frees 4 ∷ allocates ∷ []

run_answers : run some_used calls ≡ some (some 2 ∷ some 0 ∷ some 3 ∷ some 4 ∷ [])
unfolding run fill
run_answers = refl

run_refines_example : run some_used calls ≡ replay 0 (numbers some_used) calls
run_refines_example = run_refines some_used calls some_used-IsValid

init_unrhdr-IsValid_example :
    (IsRange 3 7
      × Returns (init_unrhdr 3 7) (λ uh.
        IsValid uh × (numbers uh ≡ replicate (1 + (7 - 3)) false) × (uh.low ≡ 3) × (uh.high ≡ 7)))
    ⊎ (¬ IsRange 3 7 × (init_unrhdr 3 7 ≡ none))
init_unrhdr-IsValid_example = init_unrhdr-IsValid 3 7

alloc_unr-Serves_example :
    Returns
      (alloc_unr some_used)
      (Serves (numbers some_used) some_used (first_of false (numbers some_used)))
alloc_unr-Serves_example = alloc_unr-Serves some_used some_used-IsValid

free_unr-IsNow_example :
    Returns (free_unr some_used 4) (IsNow (write (numbers some_used) (4 - 0) false) some_used)
free_unr-IsNow_example = free_unr-IsNow some_used 4 some_used-IsValid (omega arith) refl

free_unr_fault_example : free_unr some_used 3 ≡ none
free_unr_fault_example = free_unr_fault some_used 3 some_used-IsValid (inr refl)

alloc_unr_specific-Claims_example :
    Returns
      (alloc_unr_specific some_used 7)
      (Claims (write (numbers some_used) (7 - 0) true) some_used 7)
alloc_unr_specific-Claims_example =
    alloc_unr_specific-Claims some_used 7 some_used-IsValid (omega arith) (omega arith) refl
      (λ e. ground (arith, e))

alloc_unr_specific_wrong_example : Returns (alloc_unr_specific three_used 5) (λ r.
    (r.0 ≡ some 5)
    × (r.1.low ≡ 0)
    × (r.1.high ≡ 9)
    × (length (numbers r.1) ≡ length (numbers three_used) + 3))
alloc_unr_specific_wrong_example =
    alloc_unr_specific_wrong three_used 5 three_used-IsValid refl (omega arith) (omega arith)

alloc_unr_specific_refused_example :
    Returns
      (alloc_unr_specific some_used 4)
      (λ r. (r.0 ≡ none) × IsNow (numbers some_used) some_used r.1)
alloc_unr_specific_refused_example =
    alloc_unr_specific_refused some_used 4 some_used-IsValid (inr (inr refl))
