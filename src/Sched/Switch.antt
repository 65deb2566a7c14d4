-- ===== src/Sched/Switch.antt =====
-- kernel/src/sched/scheduler.c: switching between tasks. `tsc` is a reading of the time stamp counter; page
-- tables, registers and the floating point state are left out.
use bleed_kernel.Common.{
  put, pos, negsuc, ℕ, ◌+◌, ◌-◌, true, false, not, ◌&&◌, ◌||◌, Option, none, some, List, [], ◌∷◌,
  if◌then◌else◌, ltb, ◌==◌, add64, sub64, ℤ, decrement,
}
use bleed_kernel.Sched.Queue.{
  ready, running, is_ready, is_running, Task, Sched, prio_bonus_max, is_none, kick_idle_cpu,
  rq_enqueue, set_state,
}
use bleed_kernel.Sched.Calls.{sched_has_ready, sched_set_blocked, Popped, popped, stuck, ready_pop}

-- sched_switch_task, from the task `prev`.
unfoldable pub sched_switch_task : ℕ → ℕ → ℕ → Sched → Sched
sched_switch_task tsc prev next s =
    let ran = sub64 tsc (s.task prev).run_tsc in
    let p = s.task prev in
    let s1 = record s { task = put prev (record p { cpu_time = add64 p.cpu_time ran }) s.task } in
    let n = s1.task next in
    record s1 {
      task = put next (record n { run_tsc = tsc; on_cpu = true; state = running }) s1.task;
      idle_mask = if n.idle then s.idle_mask else put s.cpu.id false s.idle_mask;
      cpu = record s.cpu {
        idle_tsc = if p.idle then add64 s.cpu.idle_tsc ran else s.cpu.idle_tsc;
        busy_tsc = if p.idle then s.cpu.busy_tsc else add64 s.cpu.busy_tsc ran;
        switch_tsc = tsc;
        prev_task = some prev;
        current = some next;
      };
    }

-- The task that goes on when ready_pop has none: the idle task if `prev` cannot run, and `prev` if not.
abbrev pub fallback : ℕ → Sched → ℕ
fallback prev s = elim s.cpu.idle_task [
  | none ↦ prev
  | some i ↦ if not (is_ready (s.task prev).state) && not (prev == i) then i else prev
]

-- How a call of sched_next_context ends: the processor goes on with its current task, or it still waits for
-- the chosen task to leave another processor, or ready_pop is stuck.
pub data Next : Type 0 where
  resumes : Sched → Next
  spins : ℕ → Sched → Next
  stopped_short : Next

-- The wait for `next->on_cpu`, without the lock: the list has what the other processors do between one look
-- and the one after it.
unfoldable pub spin : ℕ → ℕ → ℕ → List (Sched → Sched) → Sched → Next
spin tsc prev next [] s =
    if (s.task next).on_cpu then spins next s else resumes (sched_switch_task tsc prev next s)
spin tsc prev next (w ∷ ws) s =
    let rest = spin tsc prev next ws (w s) in
    if (s.task next).on_cpu then rest else resumes (sched_switch_task tsc prev next s)

-- The end of sched_next_context, with the task that goes on.
unfoldable pub go_on : ℕ → List (Sched → Sched) → ℕ → ℕ → Sched → Next
go_on tsc waits prev next s =
    if next == prev
    then resumes (if is_ready (s.task prev).state then set_state prev running s else s)
    else spin tsc prev next waits s

-- The current task goes back in line if it can still run.
unfoldable pub back_in_line : ℕ → Sched → Sched
back_in_line prev s =
    let s1 = record s { cpu = record s.cpu { need_resched = false } } in
    let s2 = if is_running (s1.task prev).state then set_state prev ready s1 else s1 in
    if is_ready (s2.task prev).state then rq_enqueue prev s2 else s2

-- The task that is chosen under the lock, and the queues then.
abbrev pub chosen : ℕ → Popped → Option (ℕ × Sched)
chosen prev (popped (some t) s) = some (t, s)
chosen prev (popped none s) = some (fallback prev s, s)
chosen prev stuck = none

unfoldable pub locked_choice : ℕ → ℕ → Sched → Option (ℕ × Sched)
locked_choice fuel prev s = chosen prev (ready_pop fuel (back_in_line prev s))

abbrev pub after_choice : ℕ → List (Sched → Sched) → ℕ → Option (ℕ × Sched) → Next
after_choice tsc waits prev none = stopped_short
after_choice tsc waits prev (some (next, s)) = go_on tsc waits prev next s

-- sched_next_context on a processor whose current task is `prev`.
unfoldable pub sched_next_context : ℕ → ℕ → List (Sched → Sched) → ℕ → Sched → Next
sched_next_context fuel tsc waits prev s = after_choice tsc waits prev (locked_choice fuel prev s)

-- The part of sched_return that lets go of the task switched away from.
abbrev pub let_go : Option ℕ → Sched → Sched
let_go none s = s
let_go (some prev) s =
    let s1 = record s {
      task = put prev (record (s.task prev) { on_cpu = false }) s.task;
      cpu = record s.cpu { prev_task = none };
    } in
    let p = s1.task prev in
    if is_ready p.state && is_none p.ready_array then kick_idle_cpu (rq_enqueue prev s1) else s1

unfoldable pub sched_return : Sched → Sched
sched_return s = let_go s.cpu.prev_task s

-- The bonus of a task that ran a whole turn.
abbrev pub lowered : ℤ → ℤ
lowered (pos n) = decrement (pos n)
lowered (negsuc n) = if ltb (n + 1) prio_bonus_max then negsuc (n + 1) else negsuc n

-- What sched_tick does to a running task, and whether that leads to sched_next_context.
abbrev pub ticked : Task → Task
ticked x =
    let left = x.quantum_remaining - 1 in
    record x {
      quantum_remaining = left;
      prio_bonus = if left == 0 then lowered x.prio_bonus else x.prio_bonus;
    }

abbrev pub tick_current : ℕ → ℕ → List (Sched → Sched) → ℕ → Sched → Next
tick_current fuel tsc waits t s =
    let x = s.task t in
    let s' = record s { task = put t (ticked x) s.task } in
    if x.idle
    then (if sched_has_ready s then sched_next_context fuel tsc waits t s else resumes s)
    else if is_running x.state
    then (if (ticked x).quantum_remaining == 0 || s.cpu.need_resched
        then sched_next_context fuel tsc waits t s'
        else resumes s')
    else sched_next_context fuel tsc waits t s

unfoldable pub sched_tick : ℕ → ℕ → List (Sched → Sched) → Sched → Next
sched_tick fuel tsc waits s = elim s.cpu.current [
  | none ↦ resumes s
  | some t ↦ tick_current fuel tsc waits t s
]

-- sched_resched_handle and sched_yield_handle
unfoldable pub sched_resched_handle : ℕ → ℕ → List (Sched → Sched) → Sched → Next
sched_resched_handle fuel tsc waits s = elim s.cpu.current [
  | none ↦ resumes s
  | some t ↦
      let idle_cpu = (s.task t).idle in
      if (idle_cpu && not (sched_has_ready s)) || (not idle_cpu && not s.cpu.need_resched)
      then resumes s
      else sched_next_context fuel tsc waits t s
]

unfoldable pub sched_yield_handle : ℕ → ℕ → List (Sched → Sched) → Sched → Next
sched_yield_handle fuel tsc waits s = elim s.cpu.current [
  | none ↦ resumes s
  | some t ↦ sched_next_context fuel tsc waits t s
]

-- sched_yield up to its interrupt, which runs sched_yield_handle.
abbrev pub gives_up : Option ℕ → Sched → Sched
gives_up none s = s
gives_up (some t) s =
    if is_running (s.task t).state
    then record s {
      task = put t (record (s.task t) { quantum_remaining = 0; state = ready }) s.task;
    }
    else s

unfoldable pub sched_yield : ℕ → ℕ → List (Sched → Sched) → Option ℕ → Sched → Next
sched_yield fuel tsc waits t s =
    if is_none s.cpu.current then resumes s else sched_yield_handle fuel tsc waits (gives_up t s)

-- sched_block, whose interrupt runs sched_yield_handle, and sched_idle but for the halt.
unfoldable pub sched_block : ℕ → ℕ → List (Sched → Sched) → ℕ → Sched → Next
sched_block fuel tsc waits t s =
    if is_none s.cpu.current
    then resumes s
    else sched_yield_handle fuel tsc waits (sched_set_blocked t s)

unfoldable pub sched_idle : ℕ → ℕ → List (Sched → Sched) → Sched → Next
sched_idle fuel tsc waits s =
    let s' = record s { idle_mask = put s.cpu.id true s.idle_mask } in
    if sched_has_ready s' then sched_yield fuel tsc waits s.cpu.current s' else resumes s'

-- sched_task_cpu_time
abbrev pub sched_task_cpu_time : ℕ → ℕ → Sched → ℕ
sched_task_cpu_time tsc t s =
    let x = s.task t in
    if not (is_running x.state) then x.cpu_time else add64 x.cpu_time (sub64 tsc x.run_tsc)
