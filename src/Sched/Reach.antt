-- ===== src/Sched/Reach.antt =====
-- Any sequence of calls on any processors.
use bleed_kernel.Common.{
  if_either, put, put_all, put_self, count, ℕ, ◌+◌, ◌<◌, ◌≡◌, refl, sym, ap, ◌∙◌, true, false,
  Option, none, some, List, All, if◌then◌else◌, arith,
}
use mathlib.Core.Path.{subst}
use bleed_kernel.Sched.Queue.{TaskState, is_ready, Task, Cpu, Sched, prio_levels, set_state}
use bleed_kernel.Sched.Calls.{
  ready_enqueue, ready_dequeue, sched_set_blocked, sched_set_running, sched_wake_task,
  sched_continue_task,
}
use bleed_kernel.Sched.Switch.{
  Next, resumes, spins, stopped_short, sched_return, sched_tick, sched_resched_handle, sched_yield,
  sched_block, sched_idle,
}
use bleed_kernel.Sched.Sound.{is_at, not_at}
use bleed_kernel.Sched.Moves.{IsSound, IsServedBut, is_lost, rq_dequeue-IsQueued, rq_dequeue_all}
use bleed_kernel.Sched.Wake.{
  put-IsServed, found-IsServed, IsSound-but, enqueued_and_kicked, sched_wake_task-IsSound,
  sched_continue_task-IsSound, sched_set_blocked-IsSound, sched_set_running-IsSound,
}
use bleed_kernel.Sched.Woken.{sched_return-IsSound}
use bleed_kernel.Sched.Front.{queued_tasks}
use bleed_kernel.Sched.Outcomes.{KeepsSound}
use bleed_kernel.Sched.Interrupts.{
  reached, Survives, sched_tick-Survives, sched_resched_handle-Survives, sched_yield-Survives,
  sched_block-Survives, sched_idle-Survives,
}

-- A task that is in no queue becomes another that is in none.
fresh-IsServedBut :
    (t : ℕ) (x : Task) (s : Sched)
    → IsSound s
    → (s.task t).ready_array ≡ none
    → x.ready_array ≡ none
    → IsServedBut t (put t x s.task) s.array s.active
fresh-IsServedBut t x s v out new = record {
  queued = record {
    listed = λ a q.
        put_all (λ u y. count u ((s.array a).queue q) ≡ (if is_at a q y then 1 else 0)) t x s.task
          (v.queued.listed a q t
            ∙ ap (λ b. if b then 1 else 0) (not_at a q (s.task t) out ∙ sym (not_at a q x new)))
          (λ u ne. v.queued.listed a q u);
    bits = v.queued.bits;
    placed =
        put_all (λ u y. (a : ℕ) → y.ready_array ≡ some a → (a < 2) × (y.ready_prio < prio_levels)) t
          x s.task (λ a at. cc) (λ u ne. v.queued.placed u);
    two = v.queued.two;
    idle =
        put_all (λ u y. y.idle ≡ true → y.ready_array ≡ none) t x s.task (λ idle. new)
          (λ u ne. v.queued.idle u);
  };
  served = λ u ne. rw ne (v.served u);
}

-- A task of which the record is new; sched_queue_task_locked queues it if it is ready.
abbrev pub appear : ℕ → Task → Sched → Sched
appear t x s =
    let s' = record s { task = put t x s.task } in
    if is_ready x.state then ready_enqueue (some t) s' else s'

appear-IsSound :
    (t : ℕ) (x : Task) (s : Sched)
    → IsSound s
    → (s.task t).ready_array ≡ none
    → x.ready_array ≡ none
    → IsSound (appear t x s)
appear-IsSound t x s v out new =
    let s' : Sched = record s { task = put t x s.task } in
    let but : IsServedBut t s'.task s'.array s'.active = fresh-IsServedBut t x s v out new in
    let own : put t x s.task t ≡ x = put_self t x s.task in
    if_either IsSound (is_ready x.state) _ _ (λ e. enqueued_and_kicked t s' but)
      (λ other. found-IsServed t s' but (rw own (ground (arith, other))))

-- A task that is not ready leaves its queue.
ready_dequeue-IsSound :
    (t : ℕ) (s : Sched)
    → IsSound s
    → is_ready (s.task t).state ≡ false
    → IsSound (ready_dequeue (some t) s)
ready_dequeue-IsSound t s v other = record {
  queued = rq_dequeue-IsQueued t s v.queued;
  served =
      rq_dequeue_all (λ u y. is_lost y ≡ false) t s (λ u ne. v.served u) (ground (arith, other));
}

-- A call by the processor that `cpu` describes, a step of the clock, or a task whose state is changed, that is
-- new, or that goes. The calls that switch are reached at their end, or while they wait for a task that is on
-- another processor, whatever that does in between that keeps the queues sound. Tasks are dequeued by
-- sched_mark_task_dead and sched_unlink_task_locked when they are dead.
pub data SchedStep : Sched → Sched → Type 0 where
  wakes : (t : Option ℕ) (s : Sched) → SchedStep s (sched_wake_task t s)
  continue : (t : Option ℕ) (s : Sched) → SchedStep s (sched_continue_task t s)
  block : (t : ℕ) (s : Sched) → SchedStep s (sched_set_blocked t s)
  run : (t : ℕ) (s : Sched) → SchedStep s (sched_set_running t s)
  leave : (s : Sched) → SchedStep s (sched_return s)
  tick :
      (fuel tsc : ℕ) (waits : List (Sched → Sched)) (s r : Sched)
      → All KeepsSound waits
      → queued_tasks s.array + 1 < fuel
      → reached (sched_tick fuel tsc waits s) ≡ some r
      → SchedStep s r
  resched :
      (fuel tsc : ℕ) (waits : List (Sched → Sched)) (s r : Sched)
      → All KeepsSound waits
      → queued_tasks s.array + 1 < fuel
      → reached (sched_resched_handle fuel tsc waits s) ≡ some r
      → SchedStep s r
  yield :
      (fuel tsc t : ℕ) (waits : List (Sched → Sched)) (s r : Sched)
      → All KeepsSound waits
      → queued_tasks s.array + 1 < fuel
      → s.cpu.current ≡ some t
      → reached (sched_yield fuel tsc waits (some t) s) ≡ some r
      → SchedStep s r
  blocks :
      (fuel tsc t : ℕ) (waits : List (Sched → Sched)) (s r : Sched)
      → All KeepsSound waits
      → queued_tasks (sched_set_blocked t s).array + 1 < fuel
      → reached (sched_block fuel tsc waits t s) ≡ some r
      → SchedStep s r
  idles :
      (fuel tsc t : ℕ) (waits : List (Sched → Sched)) (s r : Sched)
      → All KeepsSound waits
      → queued_tasks s.array + 1 < fuel
      → s.cpu.current ≡ some t
      → reached (sched_idle fuel tsc waits s) ≡ some r
      → SchedStep s r
  enqueues : (t : Option ℕ) (s : Sched) → SchedStep s (ready_enqueue t s)
  dequeues :
      (t : ℕ) (s : Sched)
      → is_ready (s.task t).state ≡ false
      → SchedStep s (ready_dequeue (some t) s)
  appears :
      (t : ℕ) (x : Task) (s : Sched)
      → (s.task t).ready_array ≡ none
      → x.ready_array ≡ none
      → SchedStep s (appear t x s)
  elapse :
      (cpu : Cpu) (ticks : ℕ) (s : Sched)
      → SchedStep s (record s { cpu = cpu; timer_ticks = ticks })
  stop : (t : ℕ) (st : TaskState) (s : Sched) → is_ready st ≡ false → SchedStep s (set_state t st s)

pub data SchedReach (s : Sched) : Sched → Type 0 where
  here : SchedReach s s
  next : (r u : Sched) → SchedReach s r → SchedStep r u → SchedReach s u

survived : (x : Next) (r : Sched) → reached x ≡ some r → Survives x → IsSound r
survived (resumes q) r e w = let same : q ≡ r = cc in subst IsSound same w
survived (spins t q) r e w = let same : q ≡ r = cc in subst IsSound same w
survived stopped_short r e w = absurd w

step-IsSound : (s r : Sched) → IsSound s → SchedStep s r → IsSound r
step-IsSound w x v (wakes t s) = sched_wake_task-IsSound t s v
step-IsSound w x v (continue t s) = sched_continue_task-IsSound t s v
step-IsSound w x v (block t s) = sched_set_blocked-IsSound t s v
step-IsSound w x v (run t s) = sched_set_running-IsSound t s v
step-IsSound w x v (leave s) = sched_return-IsSound s v
step-IsSound w x v (tick fuel tsc waits s r k enough e) =
    survived (sched_tick fuel tsc waits s) r e (sched_tick-Survives fuel tsc waits s k v enough)
step-IsSound w x v (resched fuel tsc waits s r k enough e) =
    survived (sched_resched_handle fuel tsc waits s) r e
      (sched_resched_handle-Survives fuel tsc waits s k v enough)
step-IsSound w x v (yield fuel tsc t waits s r k enough cur e) =
    survived (sched_yield fuel tsc waits (some t) s) r e
      (sched_yield-Survives fuel tsc waits s k v enough t cur)
step-IsSound w x v (blocks fuel tsc t waits s r k enough e) =
    survived (sched_block fuel tsc waits t s) r e
      (sched_block-Survives fuel tsc waits t s k v enough)
step-IsSound w x v (idles fuel tsc t waits s r k enough cur e) =
    survived (sched_idle fuel tsc waits s) r e
      (sched_idle-Survives fuel tsc waits t s k v cur enough)
step-IsSound w x v (enqueues none s) = v
step-IsSound w x v (enqueues (some t) s) = enqueued_and_kicked t s (IsSound-but t s v)
step-IsSound w x v (dequeues t s other) = ready_dequeue-IsSound t s v other
step-IsSound w x v (appears t y s out new) = appear-IsSound t y s v out new
step-IsSound w x v (elapse cpu ticks s) = v
step-IsSound w x v (stop t st s other) = put-IsServed s t _ v refl refl refl (ground (arith, other))

-- From sound queues from which no task is lost, whatever sequence of calls of scheduler.c the processors make,
-- with new tasks, changed states and dead tasks in between, those that switch with more fuel than there are
-- tasks in the queues and one: the queues stay sound, and every task that is
-- ready is in a queue, on a processor, or an idle task.
pub reach-IsSound : (s r : Sched) → IsSound s → SchedReach s r → IsSound r
reach-IsSound s w v here = v
reach-IsSound s w v (next r u before step) = step-IsSound r u (reach-IsSound s r v before) step
