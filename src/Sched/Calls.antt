-- ===== src/Sched/Calls.antt =====
-- kernel/src/sched/scheduler.c: the calls.
use bleed_kernel.Common.{
  put, increment, pos, negsuc, ℕ, zero, suc, Bool, not, ◌&&◌, ◌||◌, Option, none, some, List, [],
  ◌∷◌, if◌then◌else◌, ltb, leb, sub64, ℤ,
}
use bleed_kernel.Sched.Queue.{
  ready, running, blocked, is_ready, is_blocked, is_stopped, PrioArray, Sched, starve_ticks,
  prio_levels, prio_bonus_max, expired, first_set, is_empty, kick_idle_cpu, rq_enqueue, rq_dequeue,
  set_state,
}

-- ready_enqueue, ready_dequeue and sched_has_ready
abbrev pub ready_enqueue : Option ℕ → Sched → Sched
ready_enqueue none s = s
ready_enqueue (some t) s = kick_idle_cpu (rq_enqueue t s)

abbrev pub ready_dequeue : Option ℕ → Sched → Sched
ready_dequeue none s = s
ready_dequeue (some t) s = rq_dequeue t s

abbrev pub sched_has_ready : Sched → Bool
sched_has_ready s = not (is_empty (s.array s.active)) || not (is_empty (s.array (expired s)))

-- The arrays swap when the active one is empty, or when the other has waited for too long.
abbrev pub swap_arrays : Sched → Sched
swap_arrays s =
    let starving =
      not (is_empty (s.array (expired s)))
      && leb starve_ticks (sub64 s.timer_ticks s.expired_since) in
    if is_empty (s.array s.active) || starving
    then record s { active = expired s; expired_since = s.timer_ticks }
    else s

abbrev pub head : List ℕ → Option ℕ
head [] = none
head (x ∷ xs) = some x

-- The task that the lowest set bit leads to; `none` inside for an empty queue behind a set bit, where the
-- code follows a null pointer.
abbrev pub front_of : PrioArray → Option ℕ → Option (Option ℕ)
front_of a none = none
front_of a (some p) = some (head (a.queue p))

abbrev pub front : PrioArray → Option (Option ℕ)
front a = front_of a (first_set a.bitmap prio_levels 0)

-- What ready_pop returns: a task or NULL. `stuck` is a null pointer or the end of the fuel.
pub data Popped : Type 0 where
  popped : Option ℕ → Sched → Popped
  stuck : Popped

unfoldable pub pop_front : (Sched → Popped) → Option (Option ℕ) → Sched → Popped
pop_front again none s = popped none s
pop_front again (some none) s = stuck
pop_front again (some (some t)) s =
    let s' = rq_dequeue t s in
    let next = again s' in
    if is_ready (s'.task t).state then popped (some t) (set_state t running s') else next

-- ready_pop
unfoldable pub ready_pop : ℕ → Sched → Popped
ready_pop zero s = stuck
ready_pop (suc fuel) s =
    let s' = swap_arrays s in pop_front (ready_pop fuel) (front (s'.array s'.active)) s'

unfoldable pub sched_set_blocked : ℕ → Sched → Sched
sched_set_blocked t s = set_state t blocked (rq_dequeue t s)

unfoldable pub sched_set_running : ℕ → Sched → Sched
sched_set_running t s =
    let st = (s.task t).state in if is_blocked st || is_ready st then set_state t running s else s

-- The end of sched_wake_task and sched_continue_task: the task is READY, and queued unless it is still on
-- a processor.
unfoldable pub made_ready : ℕ → Sched → Sched
made_ready t s =
    let s' = set_state t ready s in
    if not (s.task t).on_cpu then kick_idle_cpu (rq_enqueue t s') else s'

-- prio_bonus += PRIO_WAKE_BONUS, up to PRIO_BONUS_MAX
abbrev pub capped : ℤ → ℤ
capped (pos n) = if ltb prio_bonus_max n then pos prio_bonus_max else pos n
capped (negsuc n) = negsuc n

unfoldable pub sched_wake_task : Option ℕ → Sched → Sched
sched_wake_task none s = s
sched_wake_task (some t) s =
    let x = s.task t in
    if is_blocked x.state
    then made_ready t (record s {
      task = put t (record x { prio_bonus = capped (increment (increment x.prio_bonus)) }) s.task;
    })
    else s

unfoldable pub sched_continue_task : Option ℕ → Sched → Sched
sched_continue_task none s = s
sched_continue_task (some t) s = if is_stopped (s.task t).state then made_ready t s else s
