-- ===== src/Timerfd/Calls.antt =====
-- kernel/src/fs/eventfd.c: `tfd_t`, the list of armed timers, and the calls on a timer.
use bleed_kernel.Common.{
  erase_first, ℕ, ◌+◌, ◌-◌, ◌*◌, ◌/◌, Bool, true, false, not, Option, none, some, List, [], ◌∷◌,
  if◌then◌else◌, ltb, ◌==◌, add64, Result, ok, err, eagain, einval, Turn, returns, again, waits,
  Blocking, block_on,
}
use bleed_kernel.Pipe.Control.{Request, UserArg}
use bleed_kernel.Eventfd.Calls.{nonblock_ioctl}

-- `tfd_t`; `next` is in the list of armed timers below. `wakes` counts the calls of sched_wake_queue.
pub record Timer : Type 0 where
  pub clock : ℕ
  pub nonblock : Bool
  pub armed : Bool
  pub expire : ℕ
  pub interval : ℕ
  pub ticks : ℕ
  pub wakes : ℕ

-- The timers by their address, and `armed_list`.
pub record Timers : Type 0 where
  pub timer : ℕ → Timer
  pub armed_list : List ℕ

-- A store to the timer at an address.
abbrev pub update : ℕ → Timer → (ℕ → Timer) → ℕ → Timer
update id t heap at = if at == id then t else heap at

-- tfd_unlink: the first occurrence leaves the list.
unfoldable pub tfd_unlink : ℕ → Timers → Timers
tfd_unlink id s = record s { armed_list = erase_first id s.armed_list }

-- tfd_update at the counter's value `now`.
unfoldable pub tfd_update : ℕ → ℕ → Timers → Bool × Timers
tfd_update now id s =
    let t = s.timer id in
    if not t.armed
    then (false, s)
    else if ltb now t.expire
    then (false, s)
    else if not (t.interval == 0)
    then (let n = add64 ((now - t.expire) / t.interval) 1 in
        let t' = record t { ticks = add64 t.ticks n; expire = add64 t.expire (n * t.interval) } in
        (true, record s { timer = update id t' s.timer }))
    else (let t' = record t { ticks = add64 t.ticks 1; armed = false } in
        (true, tfd_unlink id (record s { timer = update id t' s.timer })))

-- sched_wake_queue(&t->wait)
abbrev pub wake_timer : ℕ → Timers → Timers
wake_timer id s = record s {
  timer = update id (record (s.timer id) { wakes = (s.timer id).wakes + 1 }) s.timer;
}

-- The loop of tfd_tick: `next` is read before a timer is updated, and only that timer leaves the list,
-- so that the loop goes through the list as it was. `now id` is the counter's value when that timer is
-- updated: each update reads it anew.
unfoldable pub tick_loop : (ℕ → ℕ) → List ℕ → Timers → Timers
tick_loop now [] s = s
tick_loop now (id ∷ rest) s =
    let (happened, s') = tfd_update (now id) id s in
    tick_loop now rest (if happened then wake_timer id s' else s')

unfoldable pub tfd_tick : (ℕ → ℕ) → Timers → Timers
tfd_tick now s = tick_loop now s.armed_list s

-- tfd_ready
unfoldable pub tfd_ready : ℕ → ℕ → Timers → Bool × Timers
tfd_ready now id s = let (happened, s') = tfd_update now id s in (ltb 0 (s'.timer id).ticks, s')

abbrev pub TfdReply : Type 0
TfdReply = Result ℕ × Option ℕ × Timers

-- A round of tfd_read.
unfoldable pub tfd_read_round : ℕ → ℕ → Timers → Turn Timers TfdReply
tfd_read_round now id s =
    let (happened, s') = tfd_update now id s in
    let got = (s'.timer id).ticks in
    let emptied = record s' { timer = update id (record (s'.timer id) { ticks = 0 }) s'.timer } in
    if not (got == 0)
    then returns (ok 8, some got, emptied)
    else if (s'.timer id).nonblock
    then returns (err eagain, none, emptied)
    else waits emptied

-- A pause of tfd_read: the counter's value in the round before it and in its own look at the timer.
abbrev pub TfdPause : Type 0
TfdPause = ℕ × ℕ × Blocking Timers

-- The rounds of tfd_read; `none` where the pauses run out.
unfoldable pub tfd_read_loop : List TfdPause → ℕ → ℕ → Timers → Option TfdReply
tfd_read_loop [] last id s = elim (tfd_read_round last id s) [
  | returns r ↦ some r
  | again s' ↦ none
  | waits s' ↦ none
]
tfd_read_loop ((now, then_at, b) ∷ rest) last id s = elim (tfd_read_round now id s) [
  | returns r ↦ some r
  | again s' ↦ none
  | waits s' ↦ elim (block_on (tfd_ready then_at id) b s') [
    | err eno ↦ some (err eno, none, s')
    | ok next ↦ tfd_read_loop rest last id next
  ]
]

-- tfd_read
unfoldable pub tfd_read : List TfdPause → ℕ → ℕ → ℕ → Timers → Option TfdReply
tfd_read pauses last size id s =
    if ltb size 8 then some (err einval, none, s) else tfd_read_loop pauses last id s

-- tfd_poll, with POLLIN written out.
unfoldable pub tfd_poll : ℕ → ℕ → Timers → ℕ × Timers
tfd_poll now id s =
    let (happened, s') = tfd_update now id s in
    (if not ((s'.timer id).ticks == 0) then 1 else 0, s')

-- tfd_drop, but for the freed memory.
unfoldable pub tfd_drop : ℕ → Timers → Timers
tfd_drop id s = tfd_unlink id s

-- tfd_ioctl
unfoldable pub tfd_ioctl : Request → UserArg → ℕ → Timers → Result ℕ × Option ℕ × Timers
tfd_ioctl request arg id s =
    let (r, out, on) = nonblock_ioctl request arg (s.timer id).nonblock in
    (r, out, record s { timer = update id (record (s.timer id) { nonblock = on }) s.timer })
