-- ===== src/Sched/Outcomes.antt =====
-- The choice under the lock, and how a processor goes on with the chosen task.
use bleed_kernel.Common.{
  if_either, not, ◌&&◌, put, ℕ, ◌≡◌, refl, sym, ap, ◌∙◌, ◌⊎◌, inl, inr, true, false, none, some,
  ◌==◌, Bool-cases, Option-cases, List, [], ◌∷◌, All, put_self, if◌then◌else◌, arith, add64, sub64,
  ==→eq,
}
use mathlib.Core.Bool.{false≢true}
use bleed_kernel.Sched.Queue.{ready, running, is_ready, Task, Cpu, Sched, is_none, set_state}
use bleed_kernel.Sched.Switch.{sched_switch_task, fallback, go_on, Next, resumes, spins, spin}
use bleed_kernel.Sched.Moves.{IsSound}
use bleed_kernel.Sched.Wake.{put-IsServed}
use bleed_kernel.Sched.Pop.{Took}

switch-IsSound :
    (tsc prev next : ℕ) (s : Sched) → IsSound s → IsSound (sched_switch_task tsc prev next s)
unfolding sched_switch_task
switch-IsSound tsc prev next s v =
    let ran : ℕ = sub64 tsc (s.task prev).run_tsc in
    let s1 : Sched = record s {
      task = put prev (record (s.task prev) { cpu_time = add64 (s.task prev).cpu_time ran }) s.task;
    } in
    let first : IsSound s1 = put-IsServed s prev _ v refl refl refl (v.served prev) in
    put-IsServed s1 next _ first refl refl refl refl

switch_runs :
    (tsc prev next : ℕ) (s : Sched)
    → ((sched_switch_task tsc prev next s).task next).state ≡ running
unfolding sched_switch_task
switch_runs tsc prev next s = let same : (next == next) ≡ true = ground arith in rw same refl

switch_current :
    (tsc prev next : ℕ) (s : Sched) → (sched_switch_task tsc prev next s).cpu.current ≡ some next
unfolding sched_switch_task
switch_current tsc prev next s = refl

abbrev pub NoneQueued : Sched → Type 0
NoneQueued r = (t : ℕ) → (r.task t).ready_array ≡ none

-- Every task that is ready is on a processor or idle.
abbrev pub NobodyWaits : Sched → Type 0
NobodyWaits r =
    (t : ℕ) → (r.task t).state ≡ ready → ((r.task t).on_cpu ≡ true) ⊎ ((r.task t).idle ≡ true)

pub NoneQueued-NobodyWaits : (r : Sched) → IsSound r → NoneQueued r → NobodyWaits r
NoneQueued-NobodyWaits r v empty t waits = elim (Bool-cases (r.task t).on_cpu) [
  | inl there ↦ inl there
  | inr away ↦ elim (Bool-cases (r.task t).idle) [
    | inl idle ↦ inr idle
    | inr busy ↦
        let out : is_none (r.task t).ready_array ≡ true = ap is_none (empty t) in
        let can : is_ready (r.task t).state ≡ true = ap is_ready waits in
        let lost = v.served t in absurd (ground (arith, lost, out, can, away, busy))
  ]
]

-- What is chosen under the lock: a task that was ready and in a queue, with no better one left in the active
-- array; or, when every ready task is on a processor or idle, the current task or the idle one.
abbrev pub Chosen : (ℕ → Task) → Cpu → ℕ → ℕ → Sched → Type 0
Chosen before cpu prev t r =
    Took before cpu t r ⊎ (NobodyWaits r × ((t ≡ prev) ⊎ (r.cpu.idle_task ≡ some t)))

-- How the processor goes on with the chosen task `t`: it stays with its current one, which then is running, or
-- there is no idle task to go to, or it is the idle task; or it switches to `t`, which is not on a processor
-- then; or it still waits since `t` is on one.
pub data Outcome (tsc prev t : ℕ) : Next → Type 0 where
  stays :
      (r : Sched)
      → IsSound r
      → t ≡ prev
      → r.cpu.current ≡ some prev
      → ((r.task prev).state ≡ running) ⊎ ((r.cpu.idle_task ≡ none) ⊎ (r.cpu.idle_task ≡ some prev))
      → Outcome tsc prev t (resumes r)
  switches :
      (q r : Sched)
      → IsSound q
      → (q.task t).on_cpu ≡ false
      → r ≡ sched_switch_task tsc prev t q
      → IsSound r
      → r.cpu.current ≡ some t
      → (r.task t).state ≡ running
      → Outcome tsc prev t (resumes r)
  still_there : (q : Sched) → IsSound q → (q.task t).on_cpu ≡ true → Outcome tsc prev t (spins t q)

-- What other processors do between two looks keeps the queues sound.
abbrev pub KeepsSound : (Sched → Sched) → Type 0
KeepsSound w = (s : Sched) → IsSound s → IsSound (w s)

switched-Outcome :
    (tsc prev t : ℕ) (s : Sched)
    → IsSound s
    → (s.task t).on_cpu ≡ false
    → Outcome tsc prev t (resumes (sched_switch_task tsc prev t s))
switched-Outcome tsc prev t s v away =
    switches s _ v away refl (switch-IsSound tsc prev t s v) (switch_current tsc prev t s)
      (switch_runs tsc prev t s)

spin-Outcome :
    (tsc prev t : ℕ) (waits : List (Sched → Sched)) (s : Sched)
    → All KeepsSound waits
    → IsSound s
    → Outcome tsc prev t (spin tsc prev t waits s)
unfolding spin
spin-Outcome tsc prev t [] s k v = elim (Bool-cases (s.task t).on_cpu) [
  | inl there ↦ rw there (still_there s v there)
  | inr away ↦ rw away (switched-Outcome tsc prev t s v away)
]
spin-Outcome tsc prev t (w ∷ ws) s k v = elim (Bool-cases (s.task t).on_cpu) [
  | inl there ↦ rw there (spin-Outcome tsc prev t ws (w s) k.1 (k.0 s v))
  | inr away ↦ rw away (switched-Outcome tsc prev t s v away)
]

-- The current task may go on.
abbrev pub MayStay : ℕ → Sched → Type 0
MayStay prev r =
    (is_ready (r.task prev).state ≡ true)
    ⊎ (((r.task prev).state ≡ running) ⊎ ((r.cpu.idle_task ≡ none) ⊎ (r.cpu.idle_task ≡ some prev)))

stays-Outcome :
    (tsc prev t : ℕ) (s : Sched)
    → IsSound s
    → t ≡ prev
    → s.cpu.current ≡ some prev
    → MayStay prev s
    → Outcome tsc prev t
        (resumes (if is_ready (s.task prev).state then set_state prev running s else s))
stays-Outcome tsc prev t s v same cur may = elim (Bool-cases (is_ready (s.task prev).state)) [
  | inl can ↦
      let own = put_self prev (record (s.task prev) { state = running }) s.task in
      rw can (
        stays (set_state prev running s) (put-IsServed s prev _ v refl refl refl refl) same cur
          (inl (ap (λ (x : Task). x.state) own)))
  | inr other ↦ elim may [
    | inl can ↦ absurd (false≢true (sym other ∙ can))
    | inr rest ↦ rw other (stays s v same cur rest)
  ]
]

pub go_on-Outcome :
    (tsc : ℕ) (waits : List (Sched → Sched)) (prev t : ℕ) (s : Sched)
    → All KeepsSound waits
    → IsSound s
    → s.cpu.current ≡ some prev
    → (t ≡ prev → MayStay prev s)
    → Outcome tsc prev t (go_on tsc waits prev t s)
unfolding go_on
go_on-Outcome tsc waits prev t s k v cur may = elim (Bool-cases (t == prev)) [
  | inl e ↦
      let same : t ≡ prev = ==→eq t prev e in
      rw e (stays-Outcome tsc prev t s v same cur (may same))
  | inr ne ↦ rw ne (spin-Outcome tsc prev t waits s k v)
]

-- The current task goes on in place of one from a queue only if it may.
pub fallback-MayStay : (prev : ℕ) (s : Sched) → fallback prev s ≡ prev → MayStay prev s
fallback-MayStay prev s same = elim (Option-cases s.cpu.idle_task) [
  | inl nobody ↦ inr (inr (inl nobody))
  | inr (i, idle) ↦ elim (Bool-cases (is_ready (s.task prev).state)) [
    | inl can ↦ inl can
    | inr cannot ↦ elim (Bool-cases (prev == i)) [
      | inl e ↦ inr (inr (inr (idle ∙ ap some (sym (==→eq prev i e)))))
      | inr ne ↦
          let is : i ≡ prev = rw (idle, cannot, ne) at same in
          let back : (prev == i) ≡ true = ground (arith, is) in absurd (false≢true (sym ne ∙ back))
    ]
  ]
]

-- With nothing in the queues the current task or the idle one is chosen.
pub fallback_cases :
    (prev : ℕ) (s : Sched) → (fallback prev s ≡ prev) ⊎ (s.cpu.idle_task ≡ some (fallback prev s))
fallback_cases prev s = elim (Option-cases s.cpu.idle_task) [
  | inl nobody ↦ inl (rw nobody refl)
  | inr (i, idle) ↦ rw idle (
      if_either (λ k. (k ≡ prev) ⊎ (some i ≡ some k))
        (not (is_ready (s.task prev).state) && not (prev == i)) i prev (λ e. inr refl)
        (λ e. inl refl))
]
