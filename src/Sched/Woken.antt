-- ===== src/Sched/Woken.antt =====
-- What becomes of a woken task, and sched_return.
use bleed_kernel.Common.{
  if_either, put, put_self, count, increment, ℕ, ◌<◌, ◌≡◌, refl, ap, ◌∙◌, inl, inr, true, false,
  Bool, not, ◌&&◌, Option, none, some, Option-cases, arith, if◌then◌else◌,
}
use bleed_kernel.Sched.Queue.{
  ready, blocked, is_ready, is_blocked, Task, Cpu, Sched, is_none, kick_idle_cpu, rq_enqueue,
  set_state,
}
use bleed_kernel.Sched.Calls.{made_ready, sched_wake_task, capped}
use bleed_kernel.Sched.Switch.{let_go, sched_return}
use bleed_kernel.Sched.Sound.{is_at_own}
use bleed_kernel.Sched.Moves.{IsSound, IsServedBut, kicked, rq_enqueue_all}
use bleed_kernel.Sched.Wake.{put-IsServed, put-IsServedBut, enqueued_and_kicked, found-IsServed}

let_go-IsSound : (prev : Option ℕ) (s : Sched) → IsSound s → IsSound (let_go prev s)
let_go-IsSound none s v = v
let_go-IsSound (some prev) s v =
    let s1 : Sched = record s {
      task = put prev (record (s.task prev) { on_cpu = false }) s.task;
      cpu = record s.cpu { prev_task = none };
    } in
    let but : IsServedBut prev s1.task s1.array s1.active =
      put-IsServedBut s prev _ v refl refl refl in
    if_either IsSound (is_ready (s1.task prev).state && is_none (s1.task prev).ready_array) _ _
      (λ e. enqueued_and_kicked prev s1 but)
      (λ other. found-IsServed prev s1 but (ground (arith, other)))

-- sched_return keeps sound queues sound and loses no task: one that was woken while it was switched away
-- from comes into a queue now.
pub sched_return-IsSound : (s : Sched) → IsSound s → IsSound (sched_return s)
unfolding sched_return
sched_return-IsSound s v = let_go-IsSound s.cpu.prev_task s v

-- The task is in one of the two arrays, once in the queue of its level.
abbrev pub InLine : ℕ → Sched → Type 0
InLine t r =
    (a : ℕ) × ((r.task t).ready_array ≡ some a)
    × (a < 2)
    × (count t ((r.array a).queue (r.task t).ready_prio) ≡ 1)

-- The task is ready and off every processor, and no idle task.
record IsWaiting (t : ℕ) (x : Task) : Type 0 where
  state : x.state ≡ ready
  away : x.on_cpu ≡ false
  busy : x.idle ≡ false

IsWaiting-InLine : (t : ℕ) (r : Sched) → IsSound r → IsWaiting t (r.task t) → InLine t r
IsWaiting-InLine t r v w = elim (Option-cases (r.task t).ready_array) [
  | inl out ↦
      let lost = v.served t in
      let can : is_ready (r.task t).state ≡ true = ap is_ready w.state in
      let nowhere : is_none (r.task t).ready_array ≡ true = ap is_none out in
      absurd (ground (arith, lost, can, nowhere, w.away, w.busy))
  | inr (a, inside) ↦ (
    a,
    inside,
    (v.queued.placed t a inside).0,
    v.queued.listed a (r.task t).ready_prio t
        ∙ ap (λ b. if b then 1 else 0) (is_at_own a (r.task t).ready_prio (r.task t) inside refl),
  )
]

-- A task keeps what rq_enqueue does not touch.
placed-IsWaiting :
    (t : ℕ) (s : Sched)
    → IsWaiting t (s.task t)
    → IsWaiting t ((kick_idle_cpu (rq_enqueue t s)).task t)
placed-IsWaiting t s w =
    kicked (λ task array active. IsWaiting t (task t)) (rq_enqueue t s)
      (rq_enqueue_all (λ u y. (u ≡ t) → IsWaiting t y) t s
        (λ u ne e. absurd (ground (arith, ne, e)))
        (λ y p e. record {
          state = p.state ∙ w.state;
          away = p.on_cpu ∙ w.away;
          busy = p.idle ∙ w.busy;
        })
        t refl)

-- A task that is ready when its processor lets go of it comes into a queue.
sched_return-InLine :
    (t : ℕ) (s : Sched)
    → IsSound s
    → (s.task t).state ≡ ready
    → (s.task t).idle ≡ false
    → s.cpu.prev_task ≡ some t
    → InLine t (sched_return s)
unfolding sched_return
sched_return-InLine t s v can busy was =
    let x : Task = record (s.task t) { on_cpu = false } in
    let s1 : Sched = record s { task = put t x s.task; cpu = record s.cpu { prev_task = none } } in
    let own : put t x s.task t ≡ x = put_self t x s.task in
    let gone : IsWaiting t (s1.task t) = record {
      state = ap (λ (y : Task). y.state) own ∙ can;
      away = ap (λ (y : Task). y.on_cpu) own;
      busy = ap (λ (y : Task). y.idle) own ∙ busy;
    } in
    rw was (
      IsWaiting-InLine t (let_go (some t) s) (let_go-IsSound (some t) s v) (
        if_either (λ (r : Sched). IsWaiting t (r.task t))
          (is_ready (s1.task t).state && is_none (s1.task t).ready_array) _ _
          (λ e. placed-IsWaiting t s1 gone) (λ e. gone)))

-- A wake-up is not lost: the task is ready; off every processor it is in line, and on one it will be.
abbrev pub IsWoken : ℕ → Bool → Sched → Type 0
IsWoken t false r = ((r.task t).state ≡ ready) × InLine t r
IsWoken t true r =
    ((r.task t).state ≡ ready)
    × ((c : Cpu) → c.prev_task ≡ some t → InLine t (sched_return (record r { cpu = c })))

module _ (t : ℕ) (s : Sched) (v : IsSound s) (busy : (s.task t).idle ≡ false) where
  now : Sched
  now = set_state t ready s

  now_task : now.task t ≡ record (s.task t) { state = ready }
  unfolding now
  now_task = put_self t (record (s.task t) { state = ready }) s.task

  made_ready-IsWoken : (b : Bool) → (s.task t).on_cpu ≡ b → IsWoken t b (made_ready t s)
  unfolding made_ready now
  made_ready-IsWoken false away =
      let there : IsWaiting t ((kick_idle_cpu (rq_enqueue t now)).task t) =
        placed-IsWaiting t now (record {
          state = ap (λ (y : Task). y.state) now_task;
          away = ap (λ (y : Task). y.on_cpu) now_task ∙ away;
          busy = ap (λ (y : Task). y.idle) now_task ∙ busy;
        }) in
      let sound : IsSound (kick_idle_cpu (rq_enqueue t now)) =
        enqueued_and_kicked t now (put-IsServedBut s t _ v refl refl refl) in
      if_either (IsWoken t false) (not (s.task t).on_cpu) _ _
        (λ e. (there.state, IsWaiting-InLine t (kick_idle_cpu (rq_enqueue t now)) sound there))
        (λ still. absurd (ground (arith, away, still)))
  made_ready-IsWoken true there =
      let sound : IsSound now = put-IsServed s t _ v refl refl refl (ground (arith, there)) in
      if_either (IsWoken t true) (not (s.task t).on_cpu) _ _
        (λ gone. absurd (ground (arith, there, gone)))
        (λ e. (
          ap (λ (y : Task). y.state) now_task,
          λ c was.
              sched_return-InLine t (record now { cpu = c })
                (record { queued = sound.queued; served = sound.served })
                (ap (λ (y : Task). y.state) now_task) (ap (λ (y : Task). y.idle) now_task ∙ busy)
                was,
        ))

-- A wake-up of a blocked task that is no idle task is never lost, on sound queues: the task is ready. If it is
-- on no processor it is then in one of the arrays, once in the queue of its level. If it still is on one, it
-- is so as soon as the processor that switched away from it lets go of it in sched_return.
pub sched_wake_task-IsWoken :
    (t : ℕ) (s : Sched)
    → IsSound s
    → (s.task t).state ≡ blocked
    → (s.task t).idle ≡ false
    → IsWoken t (s.task t).on_cpu (sched_wake_task (some t) s)
unfolding sched_wake_task
sched_wake_task-IsWoken t s v sleeps busy =
    let x : Task = record (s.task t) {
      prio_bonus = capped (increment (increment (s.task t).prio_bonus));
    } in
    let own : put t x s.task t ≡ x = put_self t x s.task in
    let s1 : Sched = record s { task = put t x s.task } in
    let sound : IsSound s1 = put-IsServed s t x v refl refl refl (v.served t) in
    rw (ap is_blocked sleeps) (
      made_ready-IsWoken t s1 sound (ap (λ (z : Task). z.idle) own ∙ busy) (s.task t).on_cpu
        (ap (λ (z : Task). z.on_cpu) own))
