-- ===== src/Workqueue/Flush.antt =====
-- `util_flush_workqueue` of workqueue.c, once `wq_online` is set. A flusher is its number, its color,
-- and whether its completion is done; one in `flusher_overflow` has no color yet. `woken` are the
-- flushers that return: the first one when it is `first_flusher` no more, the others when their
-- completion is done, for they find that they are not the first one and do nothing.
use kernel_utils.Base.{
  ℕ, zero, suc, ◌+◌, ◌-◌, ◌==◌, Bool, true, false, Option, none, some, List, [], ◌∷◌, ◌++◌, map,
  length, is_empty, if◌then◌else◌, ◌>>=◌,
}
use kernel_utils.Workqueue.{Pwq, init_pwq, work_next_color, Finished}

pub record Flusher : Type 0 where
  pub id : ℕ
  pub color : ℕ
  pub done : Bool

pub record Wq : Type 0 where
  pub pwqs : List Pwq
  pub work_color : ℕ
  pub flush_color : ℕ
  pub nr_pwqs_to_flush : ℕ
  pub first_flusher : Option Flusher
  pub flusher_queue : List Flusher
  pub flusher_overflow : List ℕ
  pub woken : List ℕ

-- A new workqueue, and `link_pwq` of a new pwq.
abbrev pub init_wq : Wq
init_wq = record {
  pwqs = [];
  work_color = 0;
  flush_color = 0;
  nr_pwqs_to_flush = 0;
  first_flusher = none;
  flusher_queue = [];
  flusher_overflow = [];
  woken = [];
}

unfoldable pub link_pwq : ℕ → Wq → Wq
link_pwq max_active wq = record wq { pwqs = init_pwq wq.work_color max_active ∷ wq.pwqs }

-- `util_complete(&wq->first_flusher->done)`.
abbrev pub complete_first : Wq → Option Wq
complete_first wq = elim wq.first_flusher [
  | none ↦ none
  | some f ↦ some (record wq { first_flusher = some (record f { done = true }) })
]

-- The color to flush, where the pwq has works of it.
abbrev pub arm : ℕ → Pwq → Pwq
arm color pwq = if pwq.nr_in_flight color == 0 then pwq else record pwq { flush_color = some color }

-- The pwqs with the color to flush, and how many of them have works of it.
unfoldable pub arm_all : ℕ → List Pwq → ℕ × List Pwq
arm_all color [] = (0, [])
arm_all color (pwq ∷ pwqs) =
    let (n, armed) = arm_all color pwqs in
    ((if pwq.nr_in_flight color == 0 then n else n + 1), arm color pwq ∷ armed)

abbrev pub paint : ℕ → Pwq → Pwq
paint color pwq = record pwq { work_color = color }

-- `flush_workqueue_prep_pwqs` with a color to flush, and with a new color for works. The counter is 1
-- while the pwqs are armed, and goes down by that one at the end.
unfoldable pub prep_flush_color : ℕ → Wq → Option (Bool × Wq)
unfolding arm_all
prep_flush_color color wq =
    let (n, armed) = arm_all color wq.pwqs in
    let next = record wq { pwqs = armed; nr_pwqs_to_flush = n } in
    if n == 0 then complete_first next >>= (λ done. some (false, done)) else some (true, next)

unfoldable pub prep_work_color : ℕ → Wq → Wq
prep_work_color color wq = record wq { pwqs = map (paint color) wq.pwqs }

-- `wq->first_flusher = NULL`: a first flusher whose completion is done returns.
abbrev pub clear_first : ℕ → Wq → Wq
clear_first id wq = record wq { first_flusher = none; woken = id ∷ wq.woken }

-- `util_flush_workqueue` up to the wait, and whether there is one.
unfoldable pub flush_workqueue : ℕ → Wq → Option (Bool × Wq)
unfolding prep_flush_color prep_work_color work_next_color
flush_workqueue id wq =
    let next_color = work_next_color wq.work_color in
    let this : Flusher = record { id = id; color = wq.work_color; done = false } in
    if next_color == wq.flush_color
    then some (true, record wq { flusher_overflow = wq.flusher_overflow ++ (id ∷ []) })
    else (let colored = prep_work_color next_color (record wq { work_color = next_color }) in
        elim wq.first_flusher [
          | none ↦
              prep_flush_color wq.flush_color (record colored { first_flusher = some this })
              >>= λ (waits, prepared).
                  if waits
                  then some (true, prepared)
                  else some (false, clear_first id (record prepared { flush_color = next_color }))
          | some f ↦ some (true, record colored { flusher_queue = wq.flusher_queue ++ (this ∷ []) })
        ])

-- The flushers at the front of the queue that share the color, and the rest.
unfoldable pub same_color : ℕ → List Flusher → List ℕ × List Flusher
same_color color [] = ([], [])
same_color color (f ∷ fs) =
    let (ids, rest) = same_color color fs in
    if f.color == color then (f.id ∷ ids, rest) else ([], f ∷ fs)

abbrev pub with_color : ℕ → ℕ → Flusher
with_color color id = record { id = id; color = color; done = false }

-- The flushers of the overflow get the color of new works, and new works the next one.
unfoldable pub take_overflow : Wq → Wq
unfolding prep_work_color work_next_color
take_overflow wq =
    if is_empty wq.flusher_overflow
    then wq
    else (let color = work_next_color wq.work_color in
        prep_work_color color (record wq {
          flusher_queue = wq.flusher_queue ++ map (with_color wq.work_color) wq.flusher_overflow;
          flusher_overflow = [];
          work_color = color;
        }))

-- The flushers of the color that is finished return, and the next color is to be flushed.
unfoldable pub advance : Wq → Wq
unfolding same_color take_overflow
advance wq =
    let (ids, rest) = same_color wq.flush_color wq.flusher_queue in
    take_overflow (record wq {
      flusher_queue = rest;
      woken = ids ++ wq.woken;
      flush_color = work_next_color wq.flush_color;
    })

-- The next flusher of the queue becomes the first one; `again` is the loop. Where the loop over the
-- queue has ended at its head, `next` is no flusher, and a flusher may not be there either.
unfoldable pub lead_on : (Wq → Option Wq) → Bool → List Flusher → Wq → Option Wq
unfolding prep_flush_color
lead_on again ended [] wq = some wq
lead_on again ended (f ∷ fs) wq =
    if ended
    then none
    else (prep_flush_color wq.flush_color (record wq { flusher_queue = fs; first_flusher = some f })
        >>= (λ (waits, prepared).
            if waits then some prepared else again (clear_first f.id prepared)))

-- The loop of the first flusher, on fuel.
unfoldable pub cascade : ℕ → Wq → Option Wq
unfolding advance lead_on
cascade zero wq = none
cascade (suc n) wq =
    let (ids, rest) = same_color wq.flush_color wq.flusher_queue in
    lead_on (cascade n) (is_empty rest) (advance wq).flusher_queue (advance wq)

-- `util_flush_workqueue` after the wait of the first flusher, `id`.
unfoldable pub resume : ℕ → Wq → Option Wq
unfolding cascade
resume id wq =
    cascade (suc (length wq.flusher_queue + length wq.flusher_overflow)) (clear_first id wq)

-- `pwqs[i] = pwq`.
abbrev pub set {ℓ} : {A : Type ℓ} → ℕ → A → List A → List A
set i v [] = []
set zero v (x ∷ xs) = v ∷ xs
set (suc i) v (x ∷ xs) = x ∷ set i v xs

abbrev pub get_elem? {ℓ} : {A : Type ℓ} → ℕ → List A → Option A
get_elem? i [] = none
get_elem? zero (x ∷ xs) = some x
get_elem? (suc i) (x ∷ xs) = get_elem? i xs

-- `pwq_dec_nr_in_flight` at the pwq in place `i`, with the counter of the workqueue.
unfoldable pub work_finished : ℕ → Finished → Wq → Option Wq
work_finished i finished wq =
    let next = record wq { pwqs = set i finished.pwq wq.pwqs } in
    if finished.flushed
    then (let down = record next { nr_pwqs_to_flush = wq.nr_pwqs_to_flush - 1 } in
        if down.nr_pwqs_to_flush == 0 then complete_first down else some down)
    else some next
