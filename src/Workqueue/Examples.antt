-- ===== src/Workqueue/Examples.antt =====
-- A workqueue at concrete works and flushes, and the theorems there.
use kernel_utils.Base.{◌+◌, ◌≤◌, arith, ◌≡◌, refl, true, false, none, some, [], ◌∷◌, All, Returns}
use kernel_utils.Workqueue.{
  Pwq, Target, waits, init_pwq, update, queue_work, pwq_dec_nr_in_flight, insert_wq_barrier,
}
use kernel_utils.Workqueue.Flush.{
  Flusher, init_wq, link_pwq, flush_workqueue, resume, work_finished,
}
use kernel_utils.Workqueue.Valid.{IsValid}
use kernel_utils.Workqueue.Active.{IsAccounted}
use kernel_utils.Workqueue.Works.{Works, Works-IsAccounted}
use kernel_utils.Workqueue.Barrier.{Follows, insert_wq_barrier-Follows}
use kernel_utils.Workqueue.Run.{System, Step, Reaches, Reaches-IsValid, init_system}
use kernel_utils.Workqueue.Loop.{resume-IsValid}
use kernel_utils.Workqueue.Promise.{flushed_before}
use kernel_utils.Workqueue.Ends.{Steps, flush-can_end}

abbrev one_work : Pwq
one_work = record (init_pwq 0 5) { refcnt = 2; nr_in_flight = update (λ _. 0) 0 1; nr_active = 1 }

abbrev work_queued : System
work_queued = record {
  wq = record init_wq { pwqs = one_work ∷ [] };
  flights = (record { color = 0; queued = 0 } ∷ []) ∷ [];
  clock = 1;
}

abbrev flusher : Flusher
flusher = record { id = 1; color = 0; done = false }

-- The flusher 1 waits for the work.
abbrev waiting : System
waiting = record work_queued {
  wq = record init_wq {
    pwqs = record one_work { work_color = 1; flush_color = some 0 } ∷ [];
    work_color = 1;
    nr_pwqs_to_flush = 1;
    first_flusher = some flusher;
  };
  clock = 2;
}

-- The work is finished.
abbrev finished : System
finished = record waiting {
  wq = record waiting.wq {
    pwqs =
        (pwq_dec_nr_in_flight 0 (record one_work { work_color = 1; flush_color = some 0 })).pwq
        ∷ [];
    nr_pwqs_to_flush = 0;
    first_flusher = some (record flusher { done = true });
  };
  flights = [] ∷ [];
}

work_queued-Reaches : Reaches work_queued
unfolding queue_work link_pwq
work_queued-Reaches =
    Reaches.goes_on _ work_queued
      (Reaches.goes_on init_system _ Reaches.starts (Step.links 5 (omega arith)))
      (Step.queues 0 7 (init_pwq 0 5) one_work _ [] refl refl refl)

waiting-Reaches : Reaches waiting
unfolding flush_workqueue
waiting-Reaches =
    Reaches.goes_on work_queued waiting work_queued-Reaches (Step.flushes true waiting.wq refl)

finished-Reaches : Reaches finished
unfolding work_finished pwq_dec_nr_in_flight
finished-Reaches = Reaches.goes_on waiting finished waiting-Reaches (
    Step.finishes 0 (record one_work { work_color = 1; flush_color = some 0 }) []
      (record { color = 0; queued = 0 }) [] finished.wq refl refl (omega arith) refl)

-- The flusher has returned, and another work is queued.
abbrev emptied : Pwq
emptied =
    record (pwq_dec_nr_in_flight 0 (record one_work { work_color = 1; flush_color = some 0 })).pwq {
      flush_color = none;
    }

abbrev returned : System
returned = record finished {
  wq = record init_wq { pwqs = emptied ∷ []; work_color = 1; flush_color = 1; woken = 1 ∷ [] };
}

abbrev queued_again : System
queued_again = record returned {
  wq = record returned.wq {
    pwqs =
        record emptied { refcnt = 2; nr_in_flight = update emptied.nr_in_flight 1 1; nr_active = 1 }
        ∷ [];
  };
  flights = (record { color = 1; queued = 2 } ∷ []) ∷ [];
  clock = 3;
}

returned-Reaches : Reaches returned
unfolding resume pwq_dec_nr_in_flight
returned-Reaches =
    Reaches.goes_on finished returned finished-Reaches
      (Step.resumes (record flusher { done = true }) returned.wq refl refl refl)

queued_again-Reaches : Reaches queued_again
unfolding queue_work pwq_dec_nr_in_flight
queued_again-Reaches =
    Reaches.goes_on returned queued_again returned-Reaches
      (Step.queues 0 8 emptied _ _ [] refl refl refl)

flushed_before_example :
    All (λ l. All (λ h. All (λ id. id ≤ h.queued) queued_again.wq.woken) l) queued_again.flights
flushed_before_example = flushed_before queued_again queued_again-Reaches

resume-IsValid_example : Returns (resume 1 finished.wq) (IsValid 2 ([] ∷ []))
resume-IsValid_example =
    resume-IsValid 2 ([] ∷ []) finished.wq (record flusher { done = true })
      (Reaches-IsValid finished finished-Reaches) refl refl

-- Of two works one is active and the other delayed.
abbrev one_of_two : Pwq
one_of_two = record (init_pwq 0 1) {
  refcnt = 3;
  nr_in_flight = update (update (λ _. 0) 0 1) 0 2;
  nr_active = 1;
  delayed_works = record { address = 8; color = 0; linked = false; delayed = true } ∷ [];
}

-- The flusher 2 waits for two works, of which the later one is delayed.
abbrev two_waiting : System
two_waiting = record {
  wq = record init_wq {
    pwqs = record one_of_two { work_color = 1; flush_color = some 0 } ∷ [];
    work_color = 1;
    nr_pwqs_to_flush = 1;
    first_flusher = some (record flusher { id = 2 });
  };
  flights = (record { color = 0; queued = 1 } ∷ (record { color = 0; queued = 0 } ∷ [])) ∷ [];
  clock = 3;
}

abbrev one_active : Pwq
one_active = record (init_pwq 0 1) { refcnt = 2; nr_in_flight = update (λ _. 0) 0 1; nr_active = 1 }

two_waiting-Reaches : Reaches two_waiting
unfolding queue_work link_pwq flush_workqueue
two_waiting-Reaches =
    Reaches.goes_on _ two_waiting
      (Reaches.goes_on _ _
        (Reaches.goes_on _ _
          (Reaches.goes_on init_system _ Reaches.starts (Step.links 1 (omega arith)))
          (Step.queues 0 7 (init_pwq 0 1) one_active _ [] refl refl refl))
        (Step.queues 0 8 one_active one_of_two _ _ refl refl refl))
      (Step.flushes true two_waiting.wq refl)

flush-can_end_example :
    (t : System) × Steps t two_waiting
    × (t.wq.first_flusher ≡ some (record flusher { id = 2; done = true }))
flush-can_end_example =
    flush-can_end two_waiting (record flusher { id = 2 }) two_waiting-Reaches refl refl

one_of_two-Works : Works 2 one_of_two
unfolding queue_work
one_of_two-Works =
    Works.queues 1 8 _ one_of_two []
      (Works.queues 0 7 (init_pwq 0 1)
        (record (init_pwq 0 1) { refcnt = 2; nr_in_flight = update (λ _. 0) 0 1; nr_active = 1 }) _
        (Works.starts 0 1 (omega arith)) refl)
      refl

Works-IsAccounted_example : IsAccounted 2 one_of_two × (1 ≤ 2 → 1 ≤ one_of_two.nr_active)
Works-IsAccounted_example = Works-IsAccounted 2 one_of_two one_of_two-Works

abbrev two_delayed : Target
two_delayed =
    waits (record { address = 8; color = 0; linked = false; delayed = true })
      (record { address = 10; color = 1; linked = false; delayed = true } ∷ [])

insert_wq_barrier-Follows_example :
    Follows 9 two_delayed (insert_wq_barrier 9 two_delayed one_of_two).0
    × ((insert_wq_barrier 9 two_delayed one_of_two).1 ≡ record one_of_two { refcnt = 3 + 1 })
    × ((pwq_dec_nr_in_flight 15 (insert_wq_barrier 9 two_delayed one_of_two).1).pwq ≡ one_of_two)
insert_wq_barrier-Follows_example = insert_wq_barrier-Follows 9 two_delayed one_of_two
