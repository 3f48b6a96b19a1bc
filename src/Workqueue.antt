-- ===== src/Workqueue.antt =====
-- The works of a pool_workqueue (workqueue.c): what is in flight, what is active and what is delayed.
-- A work on a list is its address with the flags of its `data`. `pool->worklist` belongs to the pool,
-- and the functions only append to it: they return what they append. The int counters count works
-- in memory and do not overflow; -1 as `flush_color` is `none`. `nr_in_flight` is a function of the
-- color. The wake-up of a worker, `watchdog_ts` and the warnings are left out.
pub mod Active
pub mod Accounted
pub mod Works
pub mod Barrier
pub mod Flush
pub mod Colors
pub mod Counts
pub mod Flights
pub mod Valid
pub mod Arms
pub mod Advance
pub mod Overflow
pub mod Cascade
pub mod Loop
pub mod Timely
pub mod Starts
pub mod Keeps
pub mod Links
pub mod Fewer
pub mod Finishes
pub mod Accounts
pub mod Run
pub mod Served
pub mod Promise
pub mod Ends
mod Examples
use kernel_utils.Base.{
  ℕ, zero, suc, ◌+◌, ◌-◌, ◌%◌, ◌==◌, ltb, Bool, true, false, Option, none, some, List, [], ◌∷◌,
  ◌++◌, is_empty, length, if◌then◌else◌,
}

abbrev pub work_nr_colors : ℕ
work_nr_colors = 15

abbrev pub work_no_color : ℕ
work_no_color = work_nr_colors

unfoldable pub work_next_color : ℕ → ℕ
work_next_color color = (color + 1) % work_nr_colors

pub record Work : Type 0 where
  pub address : ℕ
  pub color : ℕ
  pub linked : Bool
  pub delayed : Bool

pub record Pwq : Type 0 where
  pub work_color : ℕ
  pub flush_color : Option ℕ
  pub refcnt : ℕ
  pub nr_in_flight : ℕ → ℕ
  pub nr_active : ℕ
  pub max_active : ℕ
  pub delayed_works : List Work

-- `init_pwq`, with the color and the number that `link_pwq` gives.
abbrev pub init_pwq : ℕ → ℕ → Pwq
init_pwq color max_active = record {
  work_color = color;
  flush_color = none;
  refcnt = 1;
  nr_in_flight = λ _. 0;
  nr_active = 0;
  max_active = max_active;
  delayed_works = [];
}

-- An assignment to an element of `nr_in_flight`.
abbrev pub update : (ℕ → ℕ) → ℕ → ℕ → ℕ → ℕ
update f i v j = if j == i then v else f j

-- The works from the first one on up to one that is not linked to the next, and the others.
unfoldable pub move_linked_works : List Work → List Work × List Work
move_linked_works [] = ([], [])
move_linked_works (w ∷ ws) =
    let (moved, rest) = move_linked_works ws in if w.linked then (w ∷ moved, rest) else (w ∷ [], ws)

abbrev pub clear_delayed : List Work → List Work
clear_delayed [] = []
clear_delayed (w ∷ ws) = record w { delayed = false } ∷ ws

-- The work is the first of `after`, and `before` are those delayed before it.
unfoldable pub pwq_activate_delayed_work : List Work → List Work → Pwq → List Work × Pwq
unfolding move_linked_works
pwq_activate_delayed_work before after pwq =
    let (moved, rest) = move_linked_works after in
    (
      clear_delayed moved,
      record pwq { delayed_works = before ++ rest; nr_active = pwq.nr_active + 1 },
    )

unfoldable pub pwq_activate_first_delayed : Pwq → List Work × Pwq
unfolding pwq_activate_delayed_work
pwq_activate_first_delayed pwq = pwq_activate_delayed_work [] pwq.delayed_works pwq

-- One down, submit a delayed one.
unfoldable pub submit_delayed : Pwq → List Work × Pwq
unfolding pwq_activate_first_delayed
submit_delayed pwq =
    if is_empty pwq.delayed_works
    then ([], pwq)
    else if ltb pwq.nr_active pwq.max_active
    then pwq_activate_first_delayed pwq
    else ([], pwq)

-- The loop of `pwq_adjust_max_active`: each turn takes a delayed work, so as many turns as there are
-- delayed works are enough.
unfoldable pub activate_delayed : ℕ → Pwq → List Work × Pwq
unfolding pwq_activate_first_delayed
activate_delayed zero pwq = ([], pwq)
activate_delayed (suc n) pwq =
    let (moved, activated) = pwq_activate_first_delayed pwq in
    let (others, last) = activate_delayed n activated in
    if is_empty pwq.delayed_works
    then ([], pwq)
    else if ltb pwq.nr_active pwq.max_active
    then (moved ++ others, last)
    else ([], pwq)

unfoldable pub pwq_adjust_max_active : ℕ → Pwq → List Work × Pwq
unfolding activate_delayed
pwq_adjust_max_active saved_max_active pwq =
    if pwq.max_active == saved_max_active
    then ([], pwq)
    else activate_delayed (length pwq.delayed_works) (record pwq { max_active = saved_max_active })

-- Whether the pwq is done with the color that is flushed, and then without its `flush_color`.
unfoldable pub finish_flush : Option ℕ → ℕ → Pwq → Bool × Pwq
finish_flush none color pwq = (false, pwq)
finish_flush (some tip) color pwq =
    if tip == color
    then if pwq.nr_in_flight color == 0
      then (true, record pwq { flush_color = none })
      else (false, pwq)
    else (false, pwq)

-- What `pwq_dec_nr_in_flight` does: `appended` goes to `pool->worklist`, `flushed` says that
-- `nr_pwqs_to_flush` is taken down by one, `released` that the last reference is gone.
pub record Finished : Type 0 where
  pub pwq : Pwq
  pub appended : List Work
  pub flushed : Bool
  pub released : Bool

abbrev pub put_pwq : Pwq → List Work → Bool → Finished
put_pwq pwq appended flushed = record {
  pwq = record pwq { refcnt = pwq.refcnt - 1 };
  appended = appended;
  flushed = flushed;
  released = pwq.refcnt - 1 == 0;
}

abbrev pub count_down : ℕ → Pwq → Pwq
count_down color pwq = record pwq {
  nr_in_flight = update pwq.nr_in_flight color (pwq.nr_in_flight color - 1);
  nr_active = pwq.nr_active - 1;
}

unfoldable pub pwq_dec_nr_in_flight : ℕ → Pwq → Finished
unfolding submit_delayed finish_flush
pwq_dec_nr_in_flight color pwq =
    if color == work_no_color
    then put_pwq pwq [] false
    else (let (appended, submitted) = submit_delayed (count_down color pwq) in
        let (flushed, settled) = finish_flush submitted.flush_color color submitted in
        put_pwq settled appended flushed)

-- `__queue_work` once the pwq is chosen; `none` where its last reference is gone and the choice is
-- made again.
unfoldable pub queue_work : ℕ → Pwq → Option (List Work × Pwq)
queue_work address pwq =
    let counted = update pwq.nr_in_flight pwq.work_color (pwq.nr_in_flight pwq.work_color + 1) in
    if pwq.refcnt == 0
    then none
    else if ltb pwq.nr_active pwq.max_active
    then some (
      record { address = address; color = pwq.work_color; linked = false; delayed = false } ∷ [],
      record pwq { nr_in_flight = counted; nr_active = pwq.nr_active + 1; refcnt = pwq.refcnt + 1 },
    )
    else some (
      [],
      record pwq {
        nr_in_flight = counted;
        delayed_works =
            pwq.delayed_works
            ++ (record { address = address; color = pwq.work_color; linked = false; delayed = true }
                ∷ []);
        refcnt = pwq.refcnt + 1;
      },
    )

-- `insert_work` in front of the rest of a list, with its reference to the pwq.
unfoldable pub insert_work : Work → List Work → Pwq → List Work × Pwq
insert_work work head pwq = (work ∷ head, record pwq { refcnt = pwq.refcnt + 1 })

-- The work that a barrier is for: it is on a list, of which `after` is the rest, or a worker runs it,
-- whose `scheduled` works are those that it runs next.
pub data Target : Type 0 where
  waits : (target : Work) (after : List Work) → Target
  runs : (scheduled : List Work) → Target

abbrev pub barrier : ℕ → Bool → Work
barrier address linked = record {
  address = address;
  color = work_no_color;
  linked = linked;
  delayed = false;
}

-- The list from the target on, or the one of the worker, with the barrier, and the pwq.
unfoldable pub insert_wq_barrier : ℕ → Target → Pwq → List Work × Pwq
unfolding insert_work
insert_wq_barrier address (waits target after) pwq =
    let (works, held) = insert_work (barrier address target.linked) after pwq in
    (record target { linked = true } ∷ works, held)
insert_wq_barrier address (runs scheduled) pwq = insert_work (barrier address false) scheduled pwq
