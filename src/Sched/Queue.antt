-- ===== src/Sched/Queue.antt =====
-- kernel/src/sched/scheduler.c: tasks, the two arrays of run queues, and moves between them. The lock of
-- the run queues makes each call one step. A task is its number, and `array` 0 and 1 are prio_arrays.
use bleed_kernel.Common.{
  put, erase_first, pos, negsuc, ℕ, zero, suc, ◌+◌, ◌-◌, Bool, true, false, not, ◌&&◌, ◌||◌, Option,
  none, some, List, [], ◌∷◌, ◌++◌, if◌then◌else◌, ltb, leb, ◌==◌, ℤ,
}

-- `task_state_t`
pub data TaskState : Type 0 where
  free : TaskState
  ready : TaskState
  running : TaskState
  blocked : TaskState
  stopped : TaskState
  zombie : TaskState
  dead : TaskState

abbrev pub is_ready : TaskState → Bool
is_ready ready = true
is_ready free = false
is_ready running = false
is_ready blocked = false
is_ready stopped = false
is_ready zombie = false
is_ready dead = false

abbrev pub is_running : TaskState → Bool
is_running running = true
is_running free = false
is_running ready = false
is_running blocked = false
is_running stopped = false
is_running zombie = false
is_running dead = false

abbrev pub is_blocked : TaskState → Bool
is_blocked blocked = true
is_blocked free = false
is_blocked ready = false
is_blocked running = false
is_blocked stopped = false
is_blocked zombie = false
is_blocked dead = false

abbrev pub is_stopped : TaskState → Bool
is_stopped stopped = true
is_stopped free = false
is_stopped ready = false
is_stopped running = false
is_stopped blocked = false
is_stopped zombie = false
is_stopped dead = false

-- The fields of `task_t` that the scheduler keeps; `ready_array` is `none` for a task that is in no queue.
pub record Task : Type 0 where
  pub state : TaskState
  pub quantum_remaining : ℕ
  pub cpu_time : ℕ
  pub run_tsc : ℕ
  pub on_cpu : Bool
  pub idle : Bool
  pub prio_base : ℕ
  pub prio_bonus : ℤ
  pub ready_prio : ℕ
  pub ready_array : Option ℕ

-- `prio_array_t`: the bits of `bitmap`, and the queue of each level from `head` to `tail`.
pub record PrioArray : Type 0 where
  pub bitmap : ℕ → Bool
  pub queue : ℕ → List ℕ

-- The fields of `cpu_t`.
pub record Cpu : Type 0 where
  pub id : ℕ
  pub current : Option ℕ
  pub need_resched : Bool
  pub prev_task : Option ℕ
  pub idle_task : Option ℕ
  pub busy_tsc : ℕ
  pub idle_tsc : ℕ
  pub switch_tsc : ℕ

-- The scheduler, with the processor that runs the call; `sent` are the processors that it has sent the
-- reschedule interrupt to.
pub record Sched : Type 0 where
  pub task : ℕ → Task
  pub array : ℕ → PrioArray
  pub active : ℕ
  pub expired_since : ℕ
  pub timer_ticks : ℕ
  pub idle_mask : ℕ → Bool
  pub cpu : Cpu
  pub sent : List ℕ

abbrev pub quantum : ℕ
quantum = 10

abbrev pub starve_ticks : ℕ
starve_ticks = 20

abbrev pub prio_levels : ℕ
prio_levels = 32

abbrev pub prio_bonus_max : ℕ
prio_bonus_max = 4

-- `expired`: the other one of the two arrays.
abbrev pub expired : Sched → ℕ
expired s = 1 - s.active

-- `__builtin_ctz`: the lowest of `n` bits from `i` on that is set.
unfoldable pub first_set : (ℕ → Bool) → ℕ → ℕ → Option ℕ
first_set bits zero i = none
first_set bits (suc n) i = let rest = first_set bits n (i + 1) in if bits i then some i else rest

-- A word with no bit set.
abbrev pub is_none {ℓ} : {A : Type ℓ} → Option A → Bool
is_none none = true
is_none (some a) = false

abbrev pub is_empty : PrioArray → Bool
is_empty a = is_none (first_set a.bitmap prio_levels 0)

-- prio_base - prio_bonus, kept in 0 … PRIO_LEVELS - 1.
abbrev pub prio_of : ℕ → ℤ → ℕ
prio_of base (pos n) = base - n
prio_of base (negsuc n) = base + n + 1

unfoldable pub task_prio : Task → ℕ
task_prio t =
    let prio = prio_of t.prio_base t.prio_bonus in
    if leb prio_levels prio then prio_levels - 1 else prio

-- kick_idle_cpu
unfoldable pub kick_idle_cpu : Sched → Sched
kick_idle_cpu s = elim (first_set (λ i. s.idle_mask i && not (i == s.cpu.id)) 64 0) [
  | none ↦ s
  | some id ↦ record s { idle_mask = put id false s.idle_mask; sent = id ∷ s.sent }
]

-- Whether the processor has to look again: the task at level `prio` of the array goes before its current.
abbrev pub outranks : ℕ → ℕ → Option ℕ → Sched → Bool
outranks id prio none s = false
outranks id prio (some c) s = id == s.active && ((s.task c).idle || ltb prio (task_prio (s.task c)))

-- The end of a queue gets the task.
abbrev pub appended : ℕ → ℕ → PrioArray → PrioArray
appended t prio a = record {
  bitmap = put prio true a.bitmap;
  queue = put prio (a.queue prio ++ (t ∷ [])) a.queue;
}

unfoldable pub enqueue_in : ℕ → ℕ → ℕ → Sched → Sched
enqueue_in t id left s =
    let x = s.task t in
    let prio = task_prio x in
    record s {
      task =
          put t (record x { quantum_remaining = left; ready_array = some id; ready_prio = prio })
            s.task;
      array = put id (appended t prio (s.array id)) s.array;
      cpu = record s.cpu { need_resched = s.cpu.need_resched || outranks id prio s.cpu.current s };
    }

-- rq_enqueue
unfoldable pub rq_enqueue : ℕ → Sched → Sched
rq_enqueue t s =
    let x = s.task t in
    if not (is_none x.ready_array) || x.idle
    then s
    else if x.quantum_remaining == 0
    then enqueue_in t (expired s) quantum
        (if is_empty (s.array (expired s)) then record s { expired_since = s.timer_ticks } else s)
    else enqueue_in t s.active x.quantum_remaining s

abbrev pub is_nil : List ℕ → Bool
is_nil [] = true
is_nil (x ∷ xs) = false

-- The task leaves its queue, and the bit of an empty one is cleared.
abbrev pub without : ℕ → ℕ → PrioArray → PrioArray
without t prio a =
    let rest = erase_first t (a.queue prio) in
    record {
      bitmap = if is_nil rest then put prio false a.bitmap else a.bitmap;
      queue = put prio rest a.queue;
    }

abbrev pub dequeue_from : ℕ → Option ℕ → Sched → Sched
dequeue_from t none s = s
dequeue_from t (some id) s =
    let x = s.task t in
    record s {
      task = put t (record x { ready_array = none }) s.task;
      array = put id (without t x.ready_prio (s.array id)) s.array;
    }

-- rq_dequeue
unfoldable pub rq_dequeue : ℕ → Sched → Sched
rq_dequeue t s = dequeue_from t (s.task t).ready_array s

-- A store to the state of a task.
abbrev pub set_state : ℕ → TaskState → Sched → Sched
set_state t st s = record s { task = put t (record (s.task t) { state = st }) s.task }
