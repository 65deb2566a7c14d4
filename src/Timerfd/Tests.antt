-- ===== src/Timerfd/Tests.antt =====
-- Concrete timers: runs of the calls, and the theorems at them.
use bleed_kernel.Common.{
  count, ℕ, ◌+◌, ◌<◌, ◌≡◌, refl, true, false, [], ◌∷◌, if◌then◌else◌, ◌==◌, arith, u64_mod, pos,
}
use bleed_kernel.Timerfd.Calls.{Timer, Timers, tfd_update, tfd_tick}
use bleed_kernel.Timerfd.Expiry.{Roomy, Updated, tfd_update-Updated}
use bleed_kernel.Timerfd.Armed.{IsSound, Served, tfd_tick-Served}
use bleed_kernel.Timerfd.Settings.{Itimerspec, ts_ns, clock_ns_to_counts}

-- A timer that goes off at 100 and every 30 counts, and the others, which are not armed.
abbrev every_30 : Timer
every_30 = record {
  clock = 1;
  nonblock = true;
  armed = true;
  expire = 100;
  interval = 30;
  ticks = 0;
  wakes = 0;
}

abbrev off : Timer
off = record every_30 { armed = false }

abbrev two : Timers
two = record { timer = λ id. if id == 4 then every_30 else off; armed_list = 4 ∷ [] }

two-IsSound : IsSound two
unfolding count
two-IsSound id = ground arith

two-Roomy : (id : ℕ) → Roomy 170 (two.timer id)
two-Roomy id = record { time = ground arith; count = ground arith }

ticks_at_170 : ((tfd_update 170 4 two).1.timer 4).ticks ≡ 3
unfolding tfd_update
ticks_at_170 = refl

next_at_170 : ((tfd_update 170 4 two).1.timer 4).expire ≡ 190
unfolding tfd_update
next_at_170 = refl

tfd_update-Updated_example : Updated 170 4 two (tfd_update 170 4 two)
tfd_update-Updated_example = tfd_update-Updated 170 4 two (two-Roomy 4)

tfd_tick-Served_example :
    ((id : ℕ) → Served 170 (two.timer id) ((tfd_tick (λ id. 170) two).timer id))
    × IsSound (tfd_tick (λ id. 170) two)
tfd_tick-Served_example = tfd_tick-Served (λ id. 170) two two-IsSound two-Roomy

-- In two seconds, once.
abbrev two_seconds : Itimerspec
two_seconds = record {
  interval = record { tv_sec = pos 0; tv_nsec = pos 0 };
  value = record { tv_sec = pos 2; tv_nsec = pos 0 };
}

small : 200000050 + clock_ns_to_counts 10000000 (ts_ns two_seconds.interval) < u64_mod
unfolding clock_ns_to_counts ts_ns
small = omega arith
