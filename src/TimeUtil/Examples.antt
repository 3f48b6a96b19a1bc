-- ===== src/TimeUtil/Examples.antt =====
-- The theorems on times at concrete times.
use kernel_utils.Base.{◌-◌, ◌^◌, arith, ◌≡◌, refl, true, false, some}
use kernel_utils.TimeUtil.{
  Timespec, timespecadd, time_after, time_after_eq, jiffies_to_timespec, timespec_to_jiffies,
}
use kernel_utils.TimeUtil.Laws.{IsNormal, timespec_to_jiffies-jiffies_to_timespec, time_after_lem}

abbrev late : Timespec
late = record { tv_sec = 3; tv_nsec = 700000000 }

abbrev more : Timespec
more = record { tv_sec = 2; tv_nsec = 600000000 }

test_timespecadd : timespecadd late more ≡ record { tv_sec = 6; tv_nsec = 300000000 }
unfolding timespecadd
test_timespecadd = refl

timespec_to_jiffies-jiffies_to_timespec_example :
    IsNormal (jiffies_to_timespec 1234567)
    × (timespec_to_jiffies (jiffies_to_timespec 1234567) ≡ some 1234567)
timespec_to_jiffies-jiffies_to_timespec_example =
    timespec_to_jiffies-jiffies_to_timespec 1234567 (omega arith)

-- A counter that runs over its end.
time_after_lem_example :
    (time_after 4 (2 ^ 64 - 1) ≡ true)
    × (time_after (2 ^ 64 - 1) 4 ≡ false)
    × (time_after_eq 4 (2 ^ 64 - 1) ≡ true)
    × (time_after_eq (2 ^ 64 - 1) 4 ≡ false)
time_after_lem_example = time_after_lem (2 ^ 64 - 1) 5 (omega arith) (omega arith)
