-- ===== src/TimeUtil.antt =====
-- The clock arithmetic of time_util.h.
pub mod Laws
mod Examples
use kernel_utils.Base.{
  ℕ, ◌+◌, ◌-◌, ◌*◌, ◌/◌, ◌%◌, ◌^◌, leb, ltb, Bool, true, false, Option, none, some, if◌then◌else◌,
  ◌>>=◌,
}

-- `struct timespec`, with the seconds as a natural number.
pub record Timespec : Type 0 where
  pub tv_sec : ℕ
  pub tv_nsec : ℕ

unfoldable pub timespecadd : Timespec → Timespec → Timespec
timespecadd a b =
    let sec = a.tv_sec + b.tv_sec in
    let nsec = a.tv_nsec + b.tv_nsec in
    if leb 1000000000 nsec
    then record { tv_sec = sec + 1; tv_nsec = nsec - 1000000000 }
    else record { tv_sec = sec; tv_nsec = nsec }

-- `a` is not before `b`: the seconds of the difference do not go below zero, and the nanoseconds do
-- where those of `a` are fewer.
unfoldable pub timespecsub : Timespec → Timespec → Timespec
timespecsub a b =
    if ltb a.tv_nsec b.tv_nsec
    then record { tv_sec = a.tv_sec - b.tv_sec - 1; tv_nsec = a.tv_nsec + 1000000000 - b.tv_nsec }
    else record { tv_sec = a.tv_sec - b.tv_sec; tv_nsec = a.tv_nsec - b.tv_nsec }

-- `(long)(b - a) < 0`, in 64 bits.
unfoldable pub time_after : ℕ → ℕ → Bool
time_after a b = leb (2 ^ 63) ((b + 2 ^ 64 - a) % 2 ^ 64)

-- `(long)(a - b) >= 0`.
unfoldable pub time_after_eq : ℕ → ℕ → Bool
time_after_eq a b = ltb ((a + 2 ^ 64 - b) % 2 ^ 64) (2 ^ 63)

unfoldable pub jiffies_to_timespec : ℕ → Timespec
jiffies_to_timespec j = record {
  tv_sec = j / 1000;
  tv_nsec = ((j % 1000) * 1000 * 1000 * 1000) / 1000;
}

-- A result of `long` that is not negative; `none` where it overflows, which C leaves undefined.
unfoldable pub to_long : ℕ → Option ℕ
to_long n = if ltb n (2 ^ 63) then some n else none

-- `tv_sec` and `tv_nsec` are of type `long`, and so are the products and the sum.
unfoldable pub timespec_to_jiffies : Timespec → Option ℕ
unfolding to_long
timespec_to_jiffies ts = to_long (ts.tv_sec * 1000) >>= λ seconds.
    to_long (1000 * ts.tv_nsec) >>= λ product. to_long (seconds + product / 1000000000)
