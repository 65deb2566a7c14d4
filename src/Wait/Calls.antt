-- ===== src/Wait/Calls.antt =====
-- kernel/src/sched/sched_wait.c. The lock makes each call one step; a task and a wait entry are numbers, and
-- a wait queue is the list of its entries. `now` is a reading of the HPET counter, and `per_ms` how many of
-- its ticks are a millisecond.
use bleed_kernel.Common.{
  put, erase_first, ℕ, zero, suc, ◌-◌, ◌*◌, ◌/◌, ◌%◌, ◌^◌, Bool, true, false, not, ◌&&◌, Option,
  none, some, List, [], ◌∷◌, if◌then◌else◌, ltb, leb, ◌==◌, add64, sub64,
}
use bleed_kernel.Sched.Queue.{Sched}
use bleed_kernel.Sched.Calls.{sched_wake_task, sched_set_blocked, sched_set_running}

-- The wait queues with their entries, `deadline_head` as the list from there on, the fields of `task_t` that
-- waiting keeps, and the run queues.
pub record Waits : Type 0 where
  pub queue : ℕ → List ℕ
  pub entry_task : ℕ → ℕ
  pub entry_queue : ℕ → Option ℕ
  pub wait_entries : ℕ → List ℕ
  pub event_deadline : ℕ → ℕ
  pub deadline_queued : ℕ → Bool
  pub deadlines : List ℕ
  pub event_check_tick : ℕ
  pub sched : Sched

-- UINT64_MAX: nobody waits for a deadline.
abbrev pub never : ℕ
never = 2 ^ 64 - 1

unfoldable pub event_ticks_for : ℕ → ℕ → ℕ
event_ticks_for per_ms left = let ms = left / per_ms in if ms / 2 == 0 then 1 else ms / 2

-- The walk of deadline_insert: behind every task that is due no later.
unfoldable pub insert_by : (ℕ → ℕ) → ℕ → List ℕ → List ℕ
insert_by due t [] = t ∷ []
insert_by due t (x ∷ xs) =
    let rest = insert_by due t xs in if leb (due x) (due t) then x ∷ rest else t ∷ x ∷ xs

abbrev pub deadline_insert : ℕ → Waits → Waits
deadline_insert t w = record w {
  deadlines = insert_by w.event_deadline t w.deadlines;
  deadline_queued = put t true w.deadline_queued;
}

abbrev pub deadline_remove : ℕ → Waits → Waits
deadline_remove t w =
    if w.deadline_queued t
    then record w {
      deadlines = erase_first t w.deadlines;
      deadline_queued = put t false w.deadline_queued;
    }
    else w

-- wait_entry_add, on an entry for the queue.
abbrev pub wait_entry_add : ℕ → ℕ → ℕ → Waits → Waits
wait_entry_add e q t w = record w {
  entry_task = put e t w.entry_task;
  entry_queue = put e (some q) w.entry_queue;
  queue = put q (e ∷ w.queue q) w.queue;
}

abbrev pub leave_queue : ℕ → Option ℕ → Waits → Waits
leave_queue e none w = w
leave_queue e (some q) w = record w {
  queue = put q (erase_first e (w.queue q)) w.queue;
  entry_queue = put e none w.entry_queue;
}

unfoldable pub wait_entry_remove : ℕ → Waits → Waits
wait_entry_remove e w = leave_queue e (w.entry_queue e) w

unfoldable pub remove_all : List ℕ → Waits → Waits
remove_all [] w = w
remove_all (e ∷ es) w = remove_all es (wait_entry_remove e w)

-- sched_wait_cleanup
unfoldable pub sched_wait_cleanup : ℕ → Waits → Waits
sched_wait_cleanup t w =
    let w' = remove_all (w.wait_entries t) w in
    deadline_remove t (record w' {
      wait_entries = put t [] w'.wait_entries;
      event_deadline = put t 0 w'.event_deadline;
    })

-- sched_deadline_ms and sched_deadline_passed; without an HPET its period is 0.
unfoldable pub sched_deadline_ms : ℕ → ℕ → ℕ → ℕ → ℕ
sched_deadline_ms period per_ms now ms =
    if period == 0 then 1 else add64 now ((ms * per_ms) % 2 ^ 64)

abbrev pub sched_deadline_passed : ℕ → ℕ → Bool
sched_deadline_passed now deadline = leb deadline now

unfoldable pub add_all : List (ℕ × ℕ) → ℕ → Waits → Waits
add_all [] t w = w
add_all ((e, q) ∷ es) t w = add_all es t (wait_entry_add e q t w)

abbrev pub entries_of : List (ℕ × ℕ) → List ℕ
entries_of [] = []
entries_of ((e, q) ∷ es) = e ∷ entries_of es

-- The deadline of sched_prepare_wait.
unfoldable pub set_deadline : ℕ → ℕ → ℕ → ℕ → Waits → Waits
set_deadline per_ms now deadline t w =
    let w' = deadline_insert t (record w { event_deadline = put t deadline w.event_deadline }) in
    let tick =
      add64 w.sched.timer_ticks
        (event_ticks_for per_ms (if ltb now deadline then deadline - now else 0)) in
    if ltb tick w.event_check_tick then record w' { event_check_tick = tick } else w'

-- sched_prepare_wait by the task `t`, with its entries and their queues.
unfoldable pub sched_prepare_wait : ℕ → ℕ → ℕ → List (ℕ × ℕ) → ℕ → ℕ → Waits → Waits
sched_prepare_wait period per_ms now entries deadline t w =
    let w1 = add_all entries t w in
    let w2 = record w1 { wait_entries = put t (entries_of entries) w1.wait_entries } in
    let w3 =
      if not (deadline == 0) && not (period == 0)
      then set_deadline per_ms now deadline t w2
      else w2 in
    record w3 { sched = sched_set_blocked t w3.sched }

-- sched_finish_wait
unfoldable pub sched_finish_wait : ℕ → Waits → Waits
sched_finish_wait t w =
    let w' = sched_wait_cleanup t w in record w' { sched = sched_set_running t w'.sched }

abbrev pub wake_task : ℕ → Waits → Waits
wake_task t w = record w { sched = sched_wake_task (some t) w.sched }

-- sched_wake_queue, over the entries; `none` is NULL.
unfoldable pub wake_entries : List ℕ → Waits → Waits
wake_entries [] w = w
wake_entries (e ∷ es) w = wake_entries es (wake_task (w.entry_task e) w)

unfoldable pub sched_wake_queue : Option ℕ → Waits → Waits
sched_wake_queue none w = w
sched_wake_queue (some q) w = wake_entries (w.queue q) w

-- sched_wait_queue_destroy: the loop runs until the queue is empty.
unfoldable pub destroy_loop : ℕ → ℕ → List ℕ → Waits → Waits
destroy_loop zero q es w = w
destroy_loop (suc fuel) q [] w = w
destroy_loop (suc fuel) q (e ∷ es) w =
    let w' = wait_entry_remove e (wake_task (w.entry_task e) w) in
    destroy_loop fuel q (w'.queue q) w'

unfoldable pub sched_wait_queue_destroy : ℕ → Option ℕ → Waits → Waits
sched_wait_queue_destroy fuel none w = w
sched_wait_queue_destroy fuel (some q) w = destroy_loop fuel q (w.queue q) w

-- The loop of sched_event_tick, with the list of deadlines.
unfoldable pub deadline_loop : ℕ → ℕ → List ℕ → Waits → Waits
deadline_loop zero now line w = w
deadline_loop (suc fuel) now [] w = w
deadline_loop (suc fuel) now (t ∷ ts) w =
    let w' = wake_task t (deadline_remove t w) in
    let rest = deadline_loop fuel now w'.deadlines w' in
    if leb (w.event_deadline t) now then rest else w

-- When the tick looks again.
abbrev pub next_check : ℕ → ℕ → List ℕ → Waits → ℕ
next_check per_ms now [] w = never
next_check per_ms now (t ∷ ts) w =
    add64 w.sched.timer_ticks (event_ticks_for per_ms (sub64 (w.event_deadline t) now))

-- sched_event_tick
unfoldable pub sched_event_tick : ℕ → ℕ → ℕ → Waits → Waits
sched_event_tick fuel per_ms now w =
    let w' = deadline_loop fuel now w.deadlines w in
    if ltb w.sched.timer_ticks w.event_check_tick
    then w
    else record w' { event_check_tick = next_check per_ms now w'.deadlines w' }
