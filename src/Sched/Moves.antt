-- ===== src/Sched/Moves.antt =====
-- No task is lost: a task that could run is in a queue, on a processor, or idle.
use bleed_kernel.Common.{
  put_all, ℕ, ◌<◌, ◌≡◌, refl, sym, ap, ◌⊎◌, inl, inr, Bool, true, false, not, ◌&&◌, ◌||◌, Option,
  none, some, ◌==◌, Bool-cases, Option-cases, arith, ==→eq,
}
use mathlib.Core.Path.{subst}
use bleed_kernel.Sched.Queue.{
  is_ready, Task, PrioArray, Sched, quantum, prio_levels, expired, first_set, is_none, is_empty,
  task_prio, kick_idle_cpu, enqueue_in, rq_enqueue, rq_dequeue,
}
use bleed_kernel.Sched.Sound.{IsQueued}
use bleed_kernel.Sched.Kept.{enqueued-IsQueued, dequeued-IsQueued}

-- A task that is ready, but that nobody will ever take.
abbrev pub is_lost : Task → Bool
is_lost x = is_ready x.state && (not x.on_cpu && (not x.idle && is_none x.ready_array))

pub record IsServed (task : ℕ → Task) (array : ℕ → PrioArray) (active : ℕ) : Type 0 where
  pub queued : IsQueued task array active
  pub served : (t : ℕ) → is_lost (task t) ≡ false

-- The queues are sound and no task is lost.
abbrev pub IsSound : Sched → Type 0
IsSound s = IsServed s.task s.array s.active

-- The same, but for one task that may be lost.
pub record IsServedBut (t : ℕ) (task : ℕ → Task) (array : ℕ → PrioArray) (active : ℕ) : Type 0 where
  pub queued : IsQueued task array active
  pub served : (u : ℕ) → (u == t) ≡ false → is_lost (task u) ≡ false

pub task_prio-lt : (x : Task) → task_prio x < prio_levels
unfolding task_prio
task_prio-lt x = ground arith

pub expired-lt : (s : Sched) → s.active < 2 → expired s < 2
expired-lt s lt = omega arith

-- kick_idle_cpu leaves the tasks and the queues as they are.
pub kicked :
    (P : (ℕ → Task) → (ℕ → PrioArray) → ℕ → Type 0) (s : Sched)
    → P s.task s.array s.active
    → (let r = kick_idle_cpu s in P r.task r.array r.active)
unfolding kick_idle_cpu
kicked P s p = elim (Option-cases (first_set (λ i. s.idle_mask i && not (i == s.cpu.id)) 64 0)) [
  | inl nobody ↦ rw (nobody, kick_idle_cpu) p
  | inr (id, found) ↦ rw (found, kick_idle_cpu) p
]

unqueued_and_busy :
    (o : Option ℕ) (b : Bool) → (not (is_none o) || b) ≡ false → (o ≡ none) × (b ≡ false)
unqueued_and_busy none b e = (refl, e)
unqueued_and_busy (some a) b e = cc

queued_or_idle :
    (o : Option ℕ) (b : Bool) → (not (is_none o) || b) ≡ true → (b ≡ true) ⊎ (is_none o ≡ false)
queued_or_idle none b e = inl e
queued_or_idle (some a) b e = inr refl

-- What rq_enqueue makes of a task: it is in a queue, or idle, and is as it was otherwise.
pub record IsPlaced (x y : Task) : Type 0 where
  pub state : y.state ≡ x.state
  pub on_cpu : y.on_cpu ≡ x.on_cpu
  pub idle : y.idle ≡ x.idle
  pub inside : (y.idle ≡ true) ⊎ (is_none y.ready_array ≡ false)

enqueue_in-IsQueued :
    (t id left : ℕ) (s : Sched)
    → IsQueued s.task s.array s.active
    → (s.task t).ready_array ≡ none
    → (s.task t).idle ≡ false
    → id < 2
    → (let r = enqueue_in t id left s in IsQueued r.task r.array r.active)
unfolding enqueue_in
enqueue_in-IsQueued t id left s v out busy small =
    enqueued-IsQueued s.task s.array s.active v t id (task_prio (s.task t)) _ out refl refl busy
      small (task_prio-lt (s.task t))

enqueue_in_all :
    (P : ℕ → Task → Type 0) (t id left : ℕ) (s : Sched)
    → ((u : ℕ) → (u == t) ≡ false → P u (s.task u))
    → ((y : Task) → IsPlaced (s.task t) y → P t y)
    → (u : ℕ) → P u ((enqueue_in t id left s).task u)
unfolding enqueue_in
enqueue_in_all P t id left s away here =
    put_all P t _ s.task
      (here _ (record { state = refl; on_cpu = refl; idle = refl; inside = inr refl })) away

pub rq_enqueue-IsQueued :
    (t : ℕ) (s : Sched)
    → IsQueued s.task s.array s.active
    → (let r = rq_enqueue t s in IsQueued r.task r.array r.active)
unfolding rq_enqueue
rq_enqueue-IsQueued t s v =
    elim (Bool-cases (not (is_none (s.task t).ready_array) || (s.task t).idle)) [
      | inl there ↦ rw there v
      | inr away ↦
          let (out, busy) = unqueued_and_busy (s.task t).ready_array (s.task t).idle away in
          rw away (elim (Bool-cases ((s.task t).quantum_remaining == 0)) [
            | inr left ↦
                rw left
                  (enqueue_in-IsQueued t s.active (s.task t).quantum_remaining s v out busy v.two)
            | inl used ↦ rw used (elim (Bool-cases (is_empty (s.array (expired s)))) [
              | inl first ↦ rw first (
                  enqueue_in-IsQueued t (expired s) quantum
                    (record s { expired_since = s.timer_ticks }) v out busy (expired-lt s v.two))
              | inr more ↦
                  rw more
                    (enqueue_in-IsQueued t (expired s) quantum s v out busy (expired-lt s v.two))
            ])
          ])
    ]

-- rq_enqueue touches no other task, and places its own.
pub rq_enqueue_all :
    (P : ℕ → Task → Type 0) (t : ℕ) (s : Sched)
    → ((u : ℕ) → (u == t) ≡ false → P u (s.task u))
    → ((y : Task) → IsPlaced (s.task t) y → P t y)
    → (u : ℕ) → P u ((rq_enqueue t s).task u)
unfolding rq_enqueue
rq_enqueue_all P t s away here u =
    elim (Bool-cases (not (is_none (s.task t).ready_array) || (s.task t).idle)) [
      | inl there ↦ rw there (elim (Bool-cases (u == t)) [
        | inr ne ↦ away u ne
        | inl e ↦
            subst (λ k. P k (s.task k)) (sym (==→eq u t e))
              (here (s.task t) (record {
                state = refl;
                on_cpu = refl;
                idle = refl;
                inside = queued_or_idle (s.task t).ready_array (s.task t).idle there;
              }))
      ])
      | inr free_to ↦ rw free_to (elim (Bool-cases ((s.task t).quantum_remaining == 0)) [
        | inr left ↦
            rw left (enqueue_in_all P t s.active (s.task t).quantum_remaining s away here u)
        | inl used ↦ rw used (elim (Bool-cases (is_empty (s.array (expired s)))) [
          | inl first ↦ rw first (
              enqueue_in_all P t (expired s) quantum (record s { expired_since = s.timer_ticks })
                away here u)
          | inr more ↦ rw more (enqueue_in_all P t (expired s) quantum s away here u)
        ])
      ])
    ]

IsPlaced-is_lost : (x y : Task) → IsPlaced x y → is_lost y ≡ false
IsPlaced-is_lost x y p = elim p.inside [
  | inl idle ↦ ground (arith, idle)
  | inr inside ↦ ground (arith, inside)
]

-- rq_enqueue serves a task that may have been lost.
pub rq_enqueue-IsServed :
    (t : ℕ) (s : Sched) → IsServedBut t s.task s.array s.active → IsSound (rq_enqueue t s)
rq_enqueue-IsServed t s v = record {
  queued = rq_enqueue-IsQueued t s v.queued;
  served =
      rq_enqueue_all (λ u y. is_lost y ≡ false) t s v.served
        (λ y p. IsPlaced-is_lost (s.task t) y p);
}

-- rq_dequeue takes the task out, whether it was in a queue or not.
pub rq_dequeue-IsQueued :
    (t : ℕ) (s : Sched)
    → IsQueued s.task s.array s.active
    → (let r = rq_dequeue t s in IsQueued r.task r.array r.active)
unfolding rq_dequeue
rq_dequeue-IsQueued t s v = elim (Option-cases (s.task t).ready_array) [
  | inl out ↦ rw out v
  | inr (a, inside) ↦ rw inside (dequeued-IsQueued s.task s.array s.active v t a _ inside refl)
]

pub rq_dequeue_all :
    (P : ℕ → Task → Type 0) (t : ℕ) (s : Sched)
    → ((u : ℕ) → (u == t) ≡ false → P u (s.task u))
    → P t (record (s.task t) { ready_array = none })
    → (u : ℕ) → P u ((rq_dequeue t s).task u)
unfolding rq_dequeue
rq_dequeue_all P t s away here u = elim (Option-cases (s.task t).ready_array) [
  | inl out ↦ rw out (elim (Bool-cases (u == t)) [
    | inr ne ↦ away u ne
    | inl e ↦
        let same : record (s.task t) { ready_array = none } ≡ s.task t =
          sym (ap (λ o. record (s.task t) { ready_array = o }) out) in
        subst (λ k. P k (s.task k)) (sym (==→eq u t e)) (subst (P t) same here)
  ])
  | inr (a, inside) ↦ rw inside (put_all P t _ s.task here away u)
]
