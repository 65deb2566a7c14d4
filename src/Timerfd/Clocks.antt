-- ===== src/Timerfd/Clocks.antt =====
-- kernel/src/sched/clock.c: the clocks in nanoseconds.
use bleed_kernel.Common.{
  ℕ, ◌*◌, ◌%◌, ◌^◌, ◌||◌, Option, none, some, if◌then◌else◌, ◌==◌, add64, sub64, Result, ok, err,
  einval,
}
use bleed_kernel.Timerfd.Settings.{clock_counts_to_ns}

-- clock_monotonic_ns; `counts` is what hpet_read_counter gives.
unfoldable pub clock_monotonic_ns : ℕ → ℕ → ℕ
clock_monotonic_ns fs counts = clock_counts_to_ns fs counts

-- clock_realtime_ns: the time, and `realtime_base`, which is `none` until it has been read. `secs` are
-- the seconds of the real time clock, `counts` and `counts'` the two reads of the HPET.
unfoldable pub clock_realtime_ns : ℕ → ℕ → ℕ → ℕ → Option ℕ → ℕ × Option ℕ
clock_realtime_ns fs secs counts counts' none =
    let base = sub64 (secs * 1000000000 % 2 ^ 64) (clock_monotonic_ns fs counts) in
    (add64 base (clock_monotonic_ns fs counts'), some base)
clock_realtime_ns fs secs counts counts' (some base) =
    (add64 base (clock_monotonic_ns fs counts'), some base)

-- clock_read: CLOCK_REALTIME and its coarse form, then the monotonic clocks and CLOCK_BOOTTIME.
unfoldable pub clock_read : ℕ → ℕ → ℕ → ℕ → Option ℕ → ℕ → Result ℕ × Option ℕ
clock_read fs secs counts counts' base clock =
    let (now, base') = clock_realtime_ns fs secs counts counts' base in
    if clock == 0 || clock == 5
    then (ok now, base')
    else if clock == 1 || (clock == 4 || (clock == 6 || clock == 7))
    then (ok (clock_monotonic_ns fs counts'), base)
    else (err einval, base)
