-- ===== src/Timerfd/Settings.antt =====
-- kernel/src/fs/eventfd.c: setting and asking for a timer, and creating one; the conversions of
-- kernel/src/sched/clock.c.
use bleed_kernel.Common.{
  ℕ, ◌+◌, ◌-◌, ◌*◌, ◌/◌, ◌%◌, ◌^◌, Bool, true, false, not, ◌&&◌, ◌||◌, Option, none, some, ◌∷◌,
  if◌then◌else◌, ltb, ◌==◌, add64, Result, ok, err, enomem, einval, ℤ, pos, negsuc,
}
use Prim.Native.Nat.{bit_and}
use bleed_kernel.Eventfd.Calls.{install}
use bleed_kernel.Timerfd.Calls.{Timer, Timers, update, tfd_unlink, tfd_update}

-- `clock_timespec_t` and `itimerspec_t`
pub record Timespec : Type 0 where
  pub tv_sec : ℤ
  pub tv_nsec : ℤ

pub record Itimerspec : Type 0 where
  pub interval : Timespec
  pub value : Timespec

-- A cast of an `int64_t` to `uint64_t`.
abbrev pub to_u64 : ℤ → ℕ
to_u64 (pos n) = n % 2 ^ 64
to_u64 (negsuc n) = 2 ^ 64 - 1 - n

-- ts_ok
abbrev pub non_negative : ℤ → Bool
non_negative (pos n) = true
non_negative (negsuc n) = false

abbrev pub below : ℤ → ℕ → Bool
below (pos n) b = ltb n b
below (negsuc n) b = true

unfoldable pub ts_ok : Timespec → Bool
ts_ok ts = non_negative ts.tv_sec && (non_negative ts.tv_nsec && below ts.tv_nsec 1000000000)

-- ts_ns and ns_ts
unfoldable pub ts_ns : Timespec → ℕ
ts_ns ts = (to_u64 ts.tv_sec * 1000000000 + to_u64 ts.tv_nsec) % 2 ^ 64

unfoldable pub ns_ts : ℕ → Timespec
ns_ts ns = record { tv_sec = pos (ns / 1000000000); tv_nsec = pos (ns % 1000000000) }

-- clock_ns_to_counts and clock_counts_to_ns; `fs` is femtosecondsPerTick.
unfoldable pub clock_ns_to_counts : ℕ → ℕ → ℕ
clock_ns_to_counts fs ns =
    if fs == 0
    then 0
    else (let per_sec = 1000000000000000 / fs in
        (ns / 1000000000 * per_sec + ns % 1000000000 * 1000000 / fs) % 2 ^ 64)

unfoldable pub clock_counts_to_ns : ℕ → ℕ → ℕ
clock_counts_to_ns fs counts =
    if fs == 0
    then 0
    else (let per_sec = 1000000000000000 / fs in
        (counts / per_sec * 1000000000 + counts % per_sec * fs / 1000000) % 2 ^ 64)

-- tfd_current: the two durations that it puts into `cur`.
unfoldable pub tfd_current : ℕ → ℕ → Timer → Itimerspec
tfd_current fs now t =
    let left = if t.armed && ltb now t.expire then t.expire - now else 0 in
    let shown = if t.armed && left == 0 then 1 else left in
    record {
      interval = ns_ts (clock_counts_to_ns fs t.interval);
      value = ns_ts (if t.armed then clock_counts_to_ns fs shown else 0);
    }

-- TFD_TIMER_ABSTIME; TFD_NONBLOCK | TFD_CLOEXEC
abbrev pub tfd_timer_abstime : ℕ
tfd_timer_abstime = 1

abbrev pub tfd_nonblock : ℕ
tfd_nonblock = 2048

abbrev pub tfd_cloexec : ℕ
tfd_cloexec = 524288

abbrev pub tfd_flags : ℕ
tfd_flags = 526336

-- The rest of timerfd_settime once the arguments are good: `now` is the counter, `clock_now` what
-- clock_read gives for the timer's clock.
unfoldable pub set_timer : ℕ → ℕ → ℕ → Bool → Itimerspec → ℕ → Timers → Timers
set_timer fs now clock_now absolute new id s =
    let s' = tfd_unlink id s in
    let t = record (s'.timer id) {
      armed = false;
      ticks = 0;
      interval = clock_ns_to_counts fs (ts_ns new.interval);
    } in
    let ns = ts_ns new.value in
    if not (ns == 0)
    then (let rel = if absolute then (if ltb clock_now ns then ns - clock_now else 0) else ns in
        let t' = record t { expire = add64 now (clock_ns_to_counts fs rel); armed = true } in
        record { timer = update id t' s'.timer; armed_list = id ∷ s'.armed_list })
    else record s' { timer = update id t s'.timer }

-- timerfd_settime: the result, what goes into `old` if it is asked for, and the timers. `id` is what
-- tfd_from_fd finds, `none` where the descriptor is no timer.
unfoldable pub timerfd_settime :
    ℕ → ℕ → ℕ → Option ℕ → ℕ → Itimerspec → Bool → Timers → Result ℕ × Option Itimerspec × Timers
timerfd_settime fs now clock_now id flags new old s =
    if not (bit_and flags tfd_timer_abstime == flags)
    then (err einval, none, s)
    else if not (ts_ok new.value) || not (ts_ok new.interval)
    then (err einval, none, s)
    else elim id [
      | none ↦ (err einval, none, s)
      | some t ↦ (
        ok 0,
        if old then some (tfd_current fs now (s.timer t)) else none,
        set_timer fs now clock_now (not (bit_and flags tfd_timer_abstime == 0)) new t s,
      )
    ]

-- timerfd_gettime; `now'` is the counter when tfd_current reads it.
unfoldable pub timerfd_gettime :
    ℕ → ℕ → ℕ → Option ℕ → Timers → Result ℕ × Option Itimerspec × Timers
timerfd_gettime fs now now' id s = elim id [
  | none ↦ (err einval, none, s)
  | some t ↦
      let (happened, s') = tfd_update now t s in (ok 0, some (tfd_current fs now' (s'.timer t)), s')
]

-- The clocks that timerfd_create takes: CLOCK_REALTIME, CLOCK_MONOTONIC and CLOCK_BOOTTIME.
abbrev pub clock_id : ℤ → Option ℕ
clock_id (pos n) = if n == 0 || (n == 1 || n == 7) then some n else none
clock_id (negsuc n) = none

-- timerfd_create: `hooked` is `tick_hooked`, `registers` whether tick_register succeeds, `room`
-- whether the kmalloc does, `at` where the new timer lies.
unfoldable pub timerfd_create :
    Bool
    → Bool
    → Bool
    → Bool
    → Result ℕ
    → ℕ
    → ℤ
    → ℕ
    → Timers
    → Result (ℕ × ℕ × Bool) × Bool × Timers
timerfd_create hooked registers room memory install_fd at clock flags s = elim (clock_id clock) [
  | none ↦ (err einval, hooked, s)
  | some c ↦
      if not (bit_and flags tfd_flags == flags)
      then (err einval, hooked, s)
      else if not hooked && not registers
      then (err enomem, false, s)
      else if not room
      then (err enomem, true, s)
      else (let t : Timer = record {
        clock = c;
        nonblock = not (bit_and flags tfd_nonblock == 0);
        armed = false;
        expire = 0;
        interval = 0;
        ticks = 0;
        wakes = 0;
      } in
          (
            install memory install_fd at (not (bit_and flags tfd_cloexec == 0)),
            true,
            record s { timer = update at t s.timer },
          ))
]
