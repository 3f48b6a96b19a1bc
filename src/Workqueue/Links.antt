-- ===== src/Workqueue/Links.antt =====
-- A new pwq in the workqueue of workqueue.c.
use kernel_utils.Base.{ℕ, arith, refl, Option, none, some, List, [], ◌∷◌}
use kernel_utils.Workqueue.{init_pwq}
use kernel_utils.Workqueue.Flush.{Flusher, Wq, link_pwq}
use kernel_utils.Workqueue.Flights.{Flight}
use kernel_utils.Workqueue.Valid.{IsMode, IsValid}

-- A new pwq has the color of new works, and none in flight.
pub linked-IsValid :
    (clock max_active : ℕ) (flights : List (List Flight)) (wq : Wq)
    → IsValid clock flights wq
    → IsValid clock ([] ∷ flights) (link_pwq max_active wq)
unfolding link_pwq
linked-IsValid clock max_active flights wq v = record {
  flush_small = v.flush_small;
  work_small = v.work_small;
  pwqs = (record { counted = λ c. refl; painted = refl }, v.pwqs);
  timely = (tt, v.timely);
  ids = v.ids;
  ids_overflow = v.ids_overflow;
  ids_woken = v.ids_woken;
  mode = mode wq.first_flusher v.mode;
}
  where
    mode :
        (o : Option Flusher)
        → IsMode wq o
        → IsMode (record wq { pwqs = init_pwq wq.work_color max_active ∷ wq.pwqs }) o
    mode none m = record {
      same = m.same;
      no_queue = m.no_queue;
      no_overflow = m.no_overflow;
      idle = (refl, m.idle);
    }
    mode (some f) m = record {
      color = m.color;
      chain = m.chain;
      full = m.full;
      armed = (refl, m.armed);
      counted = omega (arith, m.counted);
      completed = m.completed;
    }
