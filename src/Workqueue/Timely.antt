-- ===== src/Workqueue/Timely.antt =====
-- Works and flushers of a workqueue (workqueue.c) as time goes on.
use kernel_utils.Base.{ℕ, ◌+◌, ◌<◌, arith, List, All, All-map}
use kernel_utils.Workqueue.Flush.{Flusher}
use kernel_utils.Workqueue.Flights.{Flight}
use kernel_utils.Workqueue.Valid.{IsTimely, AreTimely}

-- Works that were in time stay so when flushers and colors change.
pub retime :
    (f w f' w' : ℕ) (queue queue' : List Flusher) (woken woken' : List ℕ)
    → ((h : Flight) → IsTimely f w queue woken h → IsTimely f' w' queue' woken' h)
    → (flights : List (List Flight)) → AreTimely f w queue woken flights
    → AreTimely f' w' queue' woken' flights
retime f w f' w' queue queue' woken woken' g flights a =
    All-map (λ l. All (λ h. IsTimely f w queue woken h) l)
      (λ l. All (λ h. IsTimely f' w' queue' woken' h) l)
      (λ l. All-map (λ h. IsTimely f w queue woken h) (λ h. IsTimely f' w' queue' woken' h) g l)
      flights a

pub later_ids :
    (clock : ℕ) (gs : List Flusher) → All (λ g. g.id < clock) gs → All (λ g. g.id < clock + 1) gs
later_ids clock = All-map (λ g. g.id < clock) (λ g. g.id < clock + 1) (λ g h. omega arith)

pub later_numbers :
    (clock : ℕ) (is : List ℕ) → All (λ i. i < clock) is → All (λ i. i < clock + 1) is
later_numbers clock = All-map (λ i. i < clock) (λ i. i < clock + 1) (λ i h. omega arith)
