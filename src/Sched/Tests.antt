-- ===== src/Sched/Tests.antt =====
-- A kernel task, an idle task and sleeping tasks: runs of the scheduler, and its theorems at them.
use bleed_kernel.Common.{
  if_either, put, count_nil, pos, ℕ, ◌+◌, ◌<◌, ◌≡◌, refl, sym, ap, ◌∙◌, true, false, Option, none,
  some, [], ◌∷◌, if◌then◌else◌, ◌==◌, arith,
}
use bleed_kernel.Sched.Queue.{
  running, blocked, Task, PrioArray, Sched, quantum, first_set, task_prio, kick_idle_cpu,
  enqueue_in, rq_enqueue, rq_dequeue,
}
use bleed_kernel.Sched.Calls.{pop_front, ready_pop, made_ready, sched_wake_task}
use bleed_kernel.Sched.Switch.{
  sched_switch_task, go_on, back_in_line, sched_next_context, Next, resumes, spins, stopped_short,
  spin, locked_choice,
}
use bleed_kernel.Sched.Moves.{IsSound, is_lost}
use bleed_kernel.Sched.Sound.{is_at}
use bleed_kernel.Sched.Front.{queued_tasks, sum_levels}
use bleed_kernel.Sched.Pop.{Pops, ready_pop-Pops}
use bleed_kernel.Sched.Woken.{IsWoken, sched_wake_task-IsWoken}
use bleed_kernel.Sched.Resume.{Resumed, sched_next_context-Resumes}
use bleed_kernel.Sched.Reach.{SchedReach, here, next, wakes, reach-IsSound}

-- Task 0 runs, task 1 is the idle task, and all others sleep.
abbrev asleep : Task
asleep = record {
  state = blocked;
  quantum_remaining = quantum;
  cpu_time = 0;
  run_tsc = 0;
  on_cpu = false;
  idle = false;
  prio_base = 16;
  prio_bonus = pos 0;
  ready_prio = 0;
  ready_array = none;
}

abbrev task_at : ℕ → Task
task_at t =
    if t == 0
    then record asleep { state = running; on_cpu = true }
    else if t == 1
    then record asleep { state = running; idle = true; prio_base = 31 }
    else asleep

abbrev nobody : PrioArray
nobody = record { bitmap = λ p. false; queue = λ p. [] }

abbrev quiet : Sched
quiet = record {
  task = task_at;
  array = λ a. nobody;
  active = 0;
  expired_since = 0;
  timer_ticks = 5;
  idle_mask = λ i. false;
  cpu = record {
    id = 0;
    current = some 0;
    need_resched = false;
    prev_task = none;
    idle_task = some 1;
    busy_tsc = 0;
    idle_tsc = 0;
    switch_tsc = 0;
  };
  sent = [];
}

task_at_out : (t : ℕ) → (task_at t).ready_array ≡ none
task_at_out t =
    if_either (λ (x : Task). x.ready_array ≡ none) (t == 0) _ _ (λ e. refl)
      (λ e. if_either (λ (x : Task). x.ready_array ≡ none) (t == 1) _ _ (λ e. refl) (λ e. refl))

task_at_served : (t : ℕ) → is_lost (task_at t) ≡ false
task_at_served t =
    if_either (λ (x : Task). is_lost x ≡ false) (t == 0) _ _ (λ e. refl)
      (λ e. if_either (λ (x : Task). is_lost x ≡ false) (t == 1) _ _ (λ e. refl) (λ e. refl))

quiet-IsSound : IsSound quiet
quiet-IsSound = record {
  queued = record {
    listed = λ a p t.
        count_nil t
        ∙ sym (
            ap
              (λ (o : Option ℕ).
                if is_at a p
                  (record asleep { ready_array = o; ready_prio = (task_at t).ready_prio })
                then 1
                else 0)
              (task_at_out t));
    bits = λ a p. refl;
    placed = λ t a e. let out = task_at_out t in cc;
    two = omega arith;
    idle = λ t e. task_at_out t;
  };
  served = task_at_served;
}

-- Two tasks are woken, the second one with a better base.
abbrev woken_up : Sched
woken_up = sched_wake_task (some 3) (sched_wake_task (some 2) quiet)

woken_up-SchedReach : SchedReach quiet woken_up
woken_up-SchedReach =
    next (sched_wake_task (some 2) quiet) woken_up (next quiet _ here (wakes (some 2) quiet))
      (wakes (some 3) (sched_wake_task (some 2) quiet))

reach-IsSound_example : IsSound woken_up
reach-IsSound_example = reach-IsSound quiet woken_up quiet-IsSound woken_up-SchedReach

woken_up_queue : (woken_up.array 0).queue 14 ≡ 2 ∷ 3 ∷ []
unfolding sched_wake_task made_ready kick_idle_cpu rq_enqueue enqueue_in task_prio first_set
woken_up_queue = refl

woken_up_few : queued_tasks woken_up.array < 5
unfolding sched_wake_task made_ready kick_idle_cpu rq_enqueue enqueue_in task_prio first_set
    queued_tasks sum_levels
woken_up_few = omega arith

ready_pop-Pops_example : Pops woken_up.task woken_up.cpu (ready_pop 5 woken_up)
ready_pop-Pops_example = ready_pop-Pops 5 woken_up reach-IsSound_example woken_up_few

sched_wake_task-IsWoken_example : IsWoken 2 false (sched_wake_task (some 2) quiet)
sched_wake_task-IsWoken_example = sched_wake_task-IsWoken 2 quiet quiet-IsSound refl refl

woken_up_current : woken_up.cpu.current ≡ some 0
unfolding sched_wake_task made_ready kick_idle_cpu rq_enqueue enqueue_in task_prio first_set
woken_up_current = refl

woken_up_room : queued_tasks woken_up.array + 1 < 6
unfolding sched_wake_task made_ready kick_idle_cpu rq_enqueue enqueue_in task_prio first_set
    queued_tasks sum_levels
woken_up_room = omega arith

sched_next_context-Resumes_example : Resumed 6 40 [] 0 woken_up
sched_next_context-Resumes_example =
    sched_next_context-Resumes 6 40 [] 0 woken_up tt reach-IsSound_example woken_up_current
      woken_up_room

abbrev current_of : Next → Option ℕ
current_of (resumes s) = s.cpu.current
current_of (spins t s) = none
current_of stopped_short = none

-- The one that was woken first goes before the one that ran.
woken_up_next : current_of (sched_next_context 6 40 [] 0 woken_up) ≡ some 2
unfolding sched_wake_task made_ready kick_idle_cpu rq_enqueue enqueue_in task_prio first_set
    sched_next_context locked_choice back_in_line ready_pop pop_front rq_dequeue go_on spin
    sched_switch_task
woken_up_next = refl

-- The task that is chosen is still on another processor, and leaves it after the first look.
abbrev held : Sched
held = record quiet { task = put 2 (record asleep { on_cpu = true }) task_at }

abbrev lets_go : Sched → Sched
lets_go s = record s { task = put 2 (record (s.task 2) { on_cpu = false }) s.task }

spins_once : current_of (spin 40 0 2 (lets_go ∷ []) held) ≡ some 2
unfolding spin sched_switch_task
spins_once = refl

spins_on : spin 40 0 2 [] held ≡ spins 2 held
unfolding spin
spins_on = refl
