-- ===== src/Sched/Wake.antt =====
-- Every call keeps the queues sound and loses no task.
use bleed_kernel.Common.{
  if_either, put, put_all, ℕ, ◌≡◌, refl, sym, inl, inr, true, false, not, ◌||◌, Option, none, some,
  ◌==◌, Bool-cases, arith, ==→eq,
}
use mathlib.Core.Path.{subst}
use bleed_kernel.Sched.Queue.{
  ready, is_ready, is_blocked, is_stopped, Task, Sched, kick_idle_cpu, rq_enqueue, rq_dequeue,
  set_state,
}
use bleed_kernel.Sched.Calls.{
  sched_set_blocked, sched_set_running, made_ready, sched_wake_task, sched_continue_task,
}
use bleed_kernel.Sched.Kept.{put-IsQueued}
use bleed_kernel.Sched.Moves.{
  IsServed, IsSound, IsServedBut, is_lost, kicked, rq_enqueue-IsServed, rq_dequeue-IsQueued,
  rq_dequeue_all,
}

-- A store that leaves the place of a task alone.
pub put-IsServed :
    (s : Sched) (t : ℕ) (x : Task)
    → IsSound s
    → x.ready_array ≡ (s.task t).ready_array
    → x.ready_prio ≡ (s.task t).ready_prio
    → x.idle ≡ (s.task t).idle
    → is_lost x ≡ false
    → IsServed (put t x s.task) s.array s.active
put-IsServed s t x v array level idle kept = record {
  queued = put-IsQueued s.task s.array s.active v.queued t x array level idle;
  served = put_all (λ u y. is_lost y ≡ false) t x s.task kept (λ u ne. v.served u);
}

pub put-IsServedBut :
    (s : Sched) (t : ℕ) (x : Task)
    → IsSound s
    → x.ready_array ≡ (s.task t).ready_array
    → x.ready_prio ≡ (s.task t).ready_prio
    → x.idle ≡ (s.task t).idle
    → IsServedBut t (put t x s.task) s.array s.active
put-IsServedBut s t x v array level idle = record {
  queued = put-IsQueued s.task s.array s.active v.queued t x array level idle;
  served = λ u ne. rw ne (v.served u);
}

-- A task that might have been lost is not.
pub found-IsServed :
    (t : ℕ) (s : Sched)
    → IsServedBut t s.task s.array s.active
    → is_lost (s.task t) ≡ false
    → IsSound s
found-IsServed t s v kept = record {
  queued = v.queued;
  served = λ u. elim (Bool-cases (u == t)) [
    | inr ne ↦ v.served u ne
    | inl e ↦ subst (λ k. is_lost (s.task k) ≡ false) (sym (==→eq u t e)) kept
  ];
}

pub IsSound-but : (t : ℕ) (s : Sched) → IsSound s → IsServedBut t s.task s.array s.active
IsSound-but t s v = record { queued = v.queued; served = λ u ne. v.served u }

pub enqueued_and_kicked :
    (t : ℕ) (s : Sched)
    → IsServedBut t s.task s.array s.active
    → IsSound (kick_idle_cpu (rq_enqueue t s))
enqueued_and_kicked t s v = kicked IsServed (rq_enqueue t s) (rq_enqueue-IsServed t s v)

pub made_ready-IsSound : (t : ℕ) (s : Sched) → IsSound s → IsSound (made_ready t s)
unfolding made_ready
made_ready-IsSound t s v =
    if_either IsSound (not (s.task t).on_cpu) _ _
      (λ away. enqueued_and_kicked t (set_state t ready s) (put-IsServedBut s t _ v refl refl refl))
      (λ there.
        let still : (s.task t).on_cpu ≡ true = ground (arith, there) in
        put-IsServed s t _ v refl refl refl (ground (arith, still)))

-- sched_wake_task keeps sound queues sound, and no task is lost by it.
pub sched_wake_task-IsSound : (t : Option ℕ) (s : Sched) → IsSound s → IsSound (sched_wake_task t s)
unfolding sched_wake_task
sched_wake_task-IsSound none s v = v
sched_wake_task-IsSound (some t) s v = elim (Bool-cases (is_blocked (s.task t).state)) [
  | inr other ↦ rw other v
  | inl sleeps ↦
      rw sleeps (made_ready-IsSound t _ (put-IsServed s t _ v refl refl refl (v.served t)))
]

pub sched_continue_task-IsSound :
    (t : Option ℕ) (s : Sched) → IsSound s → IsSound (sched_continue_task t s)
unfolding sched_continue_task
sched_continue_task-IsSound none s v = v
sched_continue_task-IsSound (some t) s v = elim (Bool-cases (is_stopped (s.task t).state)) [
  | inr other ↦ rw other v
  | inl sleeps ↦ rw sleeps (made_ready-IsSound t s v)
]

pub sched_set_blocked-IsSound : (t : ℕ) (s : Sched) → IsSound s → IsSound (sched_set_blocked t s)
unfolding sched_set_blocked
sched_set_blocked-IsSound t s v =
    let r : Sched = rq_dequeue t s in
    record {
      queued =
          put-IsQueued r.task r.array r.active (rq_dequeue-IsQueued t s v.queued) t _ refl refl
            refl;
      served =
          put_all (λ u y. is_lost y ≡ false) t _ r.task refl
            (λ u ne.
              rq_dequeue_all (λ u y. (u == t) ≡ false → is_lost y ≡ false) t s
                (λ u ne e. v.served u) (λ e. absurd (ground (arith, e))) u ne);
    }

pub sched_set_running-IsSound : (t : ℕ) (s : Sched) → IsSound s → IsSound (sched_set_running t s)
unfolding sched_set_running
sched_set_running-IsSound t s v =
    elim (Bool-cases (is_blocked (s.task t).state || is_ready (s.task t).state)) [
      | inr other ↦ rw other v
      | inl could ↦ rw could (put-IsServed s t _ v refl refl refl refl)
    ]
