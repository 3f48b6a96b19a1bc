-- ===== src/TimeUtil/Laws.antt =====
-- Normal times, sums and conversions of times, and times on a counter that wraps around.
use kernel_utils.Base.{
  ℕ, ◌+◌, ◌-◌, ◌*◌, ◌/◌, ◌%◌, ◌^◌, ◌<◌, leb, ltb, arith, ◌≡◌, refl, true, false, none, some,
  Bool-cases, inl, inr, if◌then◌else◌,
}
use kernel_utils.TimeUtil.{
  Timespec, timespecadd, timespecsub, time_after, time_after_eq, jiffies_to_timespec,
  timespec_to_jiffies, to_long,
}

abbrev pub IsNormal : Timespec → Type 0
IsNormal ts = ts.tv_nsec < 1000000000

abbrev pub nanoseconds : Timespec → ℕ
nanoseconds ts = ts.tv_sec * 1000000000 + ts.tv_nsec

-- The sum of two normal times is normal, and so is what `timespecsub` leaves when it takes the
-- second off the sum again; in nanoseconds they are the sum and the first time.
pub timespecadd-IsNormal :
    (a b : Timespec)
    → IsNormal a
    → IsNormal b
    → IsNormal (timespecadd a b)
      × (nanoseconds (timespecadd a b) ≡ nanoseconds a + nanoseconds b)
      × IsNormal (timespecsub (timespecadd a b) b)
      × (nanoseconds (timespecsub (timespecadd a b) b) ≡ nanoseconds a)
unfolding timespecadd timespecsub
timespecadd-IsNormal a b n m = ground arith

-- For a count below 2^64 `jiffies_to_timespec` gives a normal time. Where the count is below 2^63,
-- `timespec_to_jiffies` takes the time back to it, and from 2^63 on it overflows a `long`.
pub timespec_to_jiffies-jiffies_to_timespec :
    (j : ℕ)
    → j < 2 ^ 64
    → IsNormal (jiffies_to_timespec j)
      × (timespec_to_jiffies (jiffies_to_timespec j) ≡ (if ltb j (2 ^ 63) then some j else none))
unfolding jiffies_to_timespec timespec_to_jiffies to_long
timespec_to_jiffies-jiffies_to_timespec j b =
    let nsec = ((j % 1000) * 1000 * 1000 * 1000) / 1000 in
    let product : ltb (1000 * nsec) (2 ^ 63) ≡ true = ground arith in
    let sum : (j / 1000) * 1000 + (1000 * nsec) / 1000000000 ≡ j = omega arith in
    (
      omega arith,
      elim (Bool-cases (ltb ((j / 1000) * 1000) (2 ^ 63))) [
        | inl t ↦ rw (t, product, sum) refl
        | inr t ↦ let large : ltb j (2 ^ 63) ≡ false = ground (arith, t) in rw (t, large) refl
      ],
    )

ahead : (t d : ℕ) → t < 2 ^ 64 → d < 2 ^ 63 → ((t + d) % 2 ^ 64 + 2 ^ 64 - t) % 2 ^ 64 ≡ d
ahead t d b c = omega arith

behind :
    (t d : ℕ)
    → t < 2 ^ 64
    → d < 2 ^ 63
    → (t + 2 ^ 64 - (t + d) % 2 ^ 64) % 2 ^ 64 ≡ (2 ^ 64 - d) % 2 ^ 64
behind t d b c = omega arith

-- Where a counter of 64 bits has run on from one value to a later one, by less than half its range,
-- also over its end: `time_after` holds of the later one and the first exactly if they differ, and
-- never the other way round; `time_after_eq` holds of the later one and the first, and the other
-- way round only if they are the same.
pub time_after_lem :
    (t d : ℕ)
    → t < 2 ^ 64
    → d < 2 ^ 63
    → let later = (t + d) % 2 ^ 64 in
      (time_after later t ≡ ltb 0 d)
      × (time_after t later ≡ false)
      × (time_after_eq later t ≡ true)
      × (time_after_eq t later ≡ leb d 0)
unfolding time_after time_after_eq
time_after_lem t d b c =
    rw (ahead t d b c, behind t d b c) (ground arith, ground arith, ground arith, ground arith)
