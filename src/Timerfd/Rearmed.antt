-- ===== src/Timerfd/Rearmed.antt =====
-- Setting a timer: the list stays sound, the timer goes off when it was asked to, and durations
-- survive their conversions.
use bleed_kernel.Common.{
  erase_first, count-erase_first_ne, count-here, count-there, ℕ, ◌+◌, ◌-◌, ◌%◌, ◌<◌, ◌≡◌, refl, ap,
  ◌∙◌, inl, inr, Bool, true, false, not, ◌&&◌, List, ◌∷◌, if◌then◌else◌, ltb, leb, ◌==◌, Bool-cases,
  arith, add64, u64_mod, lt→ltb, ==→eq,
}
use bleed_kernel.Timerfd.Calls.{Timer, Timers, update, tfd_unlink, tfd_update, tfd_poll}
use bleed_kernel.Timerfd.Expiry.{Roomy, Updated, idle, periodic, once, tfd_update-Updated}
use bleed_kernel.Timerfd.Armed.{IsSound, count-erase_first_sound, unlinked-IsSound, update_self}
use bleed_kernel.Timerfd.Settings.{Itimerspec, set_timer, ts_ns, ns_ts, ts_ok, clock_ns_to_counts}

relinked-IsSound :
    (id : ℕ) (t : Timer) (s : Timers)
    → t.armed ≡ true
    → IsSound s
    → IsSound
        (record { timer = update id t s.timer; armed_list = id ∷ erase_first id s.armed_list })
relinked-IsSound id t s on sound j = elim (Bool-cases (j == id)) [
  | inl e ↦
      let eq : j ≡ id = ==→eq j id e in
      rw (e, on, eq)
        (omega
          (arith, count-here id (erase_first id s.armed_list), count-erase_first_sound id s sound))
  | inr ne ↦
      let other : (id == j) ≡ false = ground arith in
      rw ne (count-there j id _ ne ∙ count-erase_first_ne id j s.armed_list other ∙ sound j)
]

-- What timerfd_settime does to the list keeps it sound, whether it arms the timer or disarms it.
pub set_timer-IsSound :
    (fs now clock_now : ℕ) (absolute : Bool) (new : Itimerspec) (id : ℕ) (s : Timers)
    → IsSound s
    → IsSound (set_timer fs now clock_now absolute new id s)
unfolding set_timer tfd_unlink
set_timer-IsSound fs now clock_now absolute new id s sound =
    elim (Bool-cases (ts_ns new.value == 0)) [
      | inl never ↦ rw never (unlinked-IsSound id _ s refl sound)
      | inr some_time ↦ rw some_time (relinked-IsSound id _ s refl sound)
    ]

-- A Boolean as a number.
abbrev pub bit : Bool → ℕ
bit b = if b then 1 else 0

polled :
    (now id : ℕ) (s : Timers) (r : Bool × Timers)
    → (s.timer id).ticks ≡ 0
    → Updated now id s r
    → bit (not ((r.1.timer id).ticks == 0))
      ≡ bit ((s.timer id).armed && leb (s.timer id).expire now)
polled now id s r nothing (idle _ eq why) = rw eq (ground (arith, why, nothing))
polled now id s r nothing (periodic n t _ many eq counts ticks next later on was due same silent) =
    let some_due : 0 < n = (counts 0).1 (omega (arith, due)) in
    rw (eq, update_self id t s.timer, was) (ground (arith, some_due, ticks, due))
polled now id s r nothing (once t _ single eq was due ticks off silent) =
    rw (eq, update_self id t s.timer, was) (ground (arith, ticks, due))

-- A timer without ticks to read is ready exactly if it is armed and due.
ready_when_due :
    (now id : ℕ) (s : Timers)
    → Roomy now (s.timer id)
    → (s.timer id).ticks ≡ 0
    → (tfd_poll now id s).0 ≡ bit ((s.timer id).armed && leb (s.timer id).expire now)
unfolding tfd_poll
ready_when_due now id s roomy nothing =
    polled now id s (tfd_update now id s) nothing (tfd_update-Updated now id s roomy)

ready_once_stored :
    (later id : ℕ) (t : Timer) (heap : ℕ → Timer) (list : List ℕ)
    → Roomy later t
    → t.ticks ≡ 0
    → (tfd_poll later id (record { timer = update id t heap; armed_list = list })).0
      ≡ bit (t.armed && leb t.expire later)
ready_once_stored later id t heap list roomy nothing =
    let s : Timers = record { timer = update id t heap; armed_list = list } in
    let here : s.timer id ≡ t = update_self id t heap in
    ready_when_due later id s (rw here roomy) (rw here nothing)
    ∙ ap (λ u. bit (u.armed && leb u.expire later)) here

-- The instant for which timerfd_settime arms a timer: a duration from now, or until a time of its
-- clock, and at once if that has passed.
abbrev pub due_at : ℕ → ℕ → ℕ → Bool → ℕ → ℕ
due_at fs now clock_now absolute ns =
    let rel = if absolute then (if ltb clock_now ns then ns - clock_now else 0) else ns in
    add64 now (clock_ns_to_counts fs rel)

-- A timer that has just been set, for times that stay below 2 ^ 64, has no expiration left from before:
-- it is ready for a reader exactly if it was given a time other than 0 and that time has come.
pub set_timer-tfd_poll :
    (fs now clock_now : ℕ) (absolute : Bool) (new : Itimerspec) (id later : ℕ) (s : Timers)
    → later + clock_ns_to_counts fs (ts_ns new.interval) < u64_mod
    → later + 1 < u64_mod
    → (tfd_poll later id (set_timer fs now clock_now absolute new id s)).0
      ≡ bit (
          not (ts_ns new.value == 0)
          && leb (due_at fs now clock_now absolute (ts_ns new.value)) later)
unfolding set_timer
set_timer-tfd_poll fs now clock_now absolute new id later s time count_room =
    elim (Bool-cases (ts_ns new.value == 0)) [
      | inl never ↦ rw never (
          ready_once_stored later id _ _ _
            (record { time = time; count = omega (arith, count_room) }) refl)
      | inr some_time ↦ rw some_time (
          ready_once_stored later id _ _ _
            (record { time = time; count = omega (arith, count_room) }) refl)
    ]

-- Nanoseconds below 2 ^ 64 survive the way into seconds and nanoseconds and back, and what they become
-- passes ts_ok.
pub ts_ns-ns_ts : (ns : ℕ) → ns < u64_mod → (ts_ns (ns_ts ns) ≡ ns) × (ts_ok (ns_ts ns) ≡ true)
unfolding ts_ns ns_ts ts_ok
ts_ns-ns_ts ns small = (omega (arith), lt→ltb (ns % 1000000000) 1000000000 (omega arith))
