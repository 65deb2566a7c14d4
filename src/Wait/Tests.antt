-- ===== src/Wait/Tests.antt =====
-- Waits with deadlines: runs, and the theorems at them.
use bleed_kernel.Common.{
  add64, count_nil, erase_first, pos, ◌≤◌, ◌<◌, ◌≡◌, refl, false, none, [], ◌∷◌, arith, length,
}
use bleed_kernel.Sched.Queue.{blocked, Sched}
use bleed_kernel.Wait.Calls.{
  Waits, never, event_ticks_for, insert_by, set_deadline, add_all, sched_prepare_wait,
  deadline_loop, sched_event_tick,
}
use bleed_kernel.Wait.Deadlines.{IsTimed}
use bleed_kernel.Wait.Tick.{Ticked, sched_event_tick-Ticked, Queued, set_deadline-Queued}

-- Every task sleeps.
abbrev sleepers : Sched
sleepers = record {
  task = λ t. record {
    state = blocked;
    quantum_remaining = 10;
    cpu_time = 0;
    run_tsc = 0;
    on_cpu = false;
    idle = false;
    prio_base = 16;
    prio_bonus = pos 0;
    ready_prio = 0;
    ready_array = none;
  };
  array = λ a. record { bitmap = λ p. false; queue = λ p. [] };
  active = 0;
  expired_since = 0;
  timer_ticks = 7;
  idle_mask = λ i. false;
  cpu = record {
    id = 0;
    current = none;
    need_resched = false;
    prev_task = none;
    idle_task = none;
    busy_tsc = 0;
    idle_tsc = 0;
    switch_tsc = 0;
  };
  sent = [];
}

abbrev no_waits : Waits
no_waits = record {
  queue = λ q. [];
  entry_task = λ e. 0;
  entry_queue = λ e. none;
  wait_entries = λ t. [];
  event_deadline = λ t. 0;
  deadline_queued = λ t. false;
  deadlines = [];
  event_check_tick = never;
  sched = sleepers;
}

no_waits-IsTimed : IsTimed no_waits
no_waits-IsTimed = record { sorted = tt; once = λ t. count_nil t; small = λ t. omega arith }

-- Two waits, of which the second ends first.
abbrev one_wait : Waits
one_wait = set_deadline 10 100 700 4 no_waits

abbrev two_waits : Waits
two_waits = set_deadline 10 100 300 5 one_wait

set_deadline-Queued_example : Queued (add64 7 (event_ticks_for 10 600)) 700 4 no_waits one_wait
set_deadline-Queued_example =
    set_deadline-Queued 10 100 700 4 no_waits no_waits-IsTimed refl (omega arith)

free_5 : one_wait.deadline_queued 5 ≡ false
unfolding set_deadline insert_by event_ticks_for
free_5 = refl

two_waits-IsTimed : IsTimed two_waits
two_waits-IsTimed =
    let first = set_deadline-Queued 10 100 700 4 no_waits no_waits-IsTimed refl (omega arith) in
    (set_deadline-Queued 10 100 300 5 one_wait first.timed free_5 (omega arith)).timed

two_waits_line : two_waits.deadlines ≡ 5 ∷ 4 ∷ []
unfolding set_deadline insert_by event_ticks_for
two_waits_line = refl

two_waits_check : two_waits.event_check_tick ≡ 17
unfolding set_deadline insert_by event_ticks_for
two_waits_check = refl

-- The first of them is over, and the tick is late.
abbrev later : Waits
later = record two_waits { sched = record two_waits.sched { timer_ticks = 20 } }

later_late : later.event_check_tick ≤ later.sched.timer_ticks
unfolding set_deadline insert_by event_ticks_for
later_late = omega arith

later_few : length later.deadlines < 3
unfolding set_deadline insert_by event_ticks_for
later_few = omega arith

later-IsTimed : IsTimed later
later-IsTimed = record {
  sorted = two_waits-IsTimed.sorted;
  once = two_waits-IsTimed.once;
  small = two_waits-IsTimed.small;
}

sched_event_tick-Ticked_example : Ticked 10 310 later (sched_event_tick 3 10 310 later)
sched_event_tick-Ticked_example =
    sched_event_tick-Ticked 3 10 310 later later-IsTimed later_late later_few

later_line : (sched_event_tick 3 10 310 later).deadlines ≡ 4 ∷ []
unfolding set_deadline insert_by event_ticks_for sched_event_tick deadline_loop erase_first
later_line = refl

-- An entry is on its queue until it is cleaned up.
prepared : (sched_prepare_wait 1 10 100 ((8, 2) ∷ []) 0 4 no_waits).queue 2 ≡ 8 ∷ []
unfolding sched_prepare_wait add_all
prepared = refl
