-- ===== src/Sched/Interrupts.antt =====
-- The interrupts, and the calls that give a processor up, on sound queues.
use bleed_kernel.Common.{
  if_either, put, ℕ, ◌+◌, ◌<◌, ◌≡◌, refl, sym, ap, inl, inr, true, not, ◌&&◌, ◌||◌, Option, none,
  some, List, All, ◌==◌, Option-cases,
}
use mathlib.Core.Path.{subst}
use bleed_kernel.Sched.Queue.{ready, is_running, Task, Cpu, Sched, is_none}
use bleed_kernel.Sched.Calls.{sched_has_ready, sched_set_blocked}
use bleed_kernel.Sched.Switch.{
  Next, resumes, spins, stopped_short, locked_choice, sched_next_context, ticked, tick_current,
  sched_tick, sched_resched_handle, sched_yield_handle, gives_up, sched_yield, sched_block,
  sched_idle,
}
use bleed_kernel.Sched.Moves.{IsSound, IsServedBut}
use bleed_kernel.Sched.Wake.{put-IsServed, put-IsServedBut, IsSound-but, sched_set_blocked-IsSound}
use bleed_kernel.Sched.Front.{queued_tasks}
use bleed_kernel.Sched.Outcomes.{Outcome, stays, switches, still_there, KeepsSound}
use bleed_kernel.Sched.Resume.{Resumes, Resumed-from}

-- The state in which a call leaves the scheduler, or waits.
abbrev pub reached : Next → Option Sched
reached (resumes r) = some r
reached (spins t r) = some r
reached stopped_short = none

-- A call that is not stuck, on sound queues.
abbrev pub Survives : Next → Type 0
Survives (resumes r) = IsSound r
Survives (spins t r) = IsSound r
Survives stopped_short = ⊥

outcome-Survives : (tsc prev t : ℕ) (x : Next) → Outcome tsc prev t x → Survives x
outcome-Survives tsc prev t x (stays r sound same cur why) = sound
outcome-Survives tsc prev t x (switches q r before away eq sound cur runs) = sound
outcome-Survives tsc prev t x (still_there q sound there) = sound

survives :
    (before : ℕ → Task) (cpu : Cpu) (tsc prev : ℕ) (o : Option (ℕ × Sched)) (x : Next)
    → Resumes before cpu tsc prev o x
    → Survives x
survives before cpu tsc prev none x w = absurd w
survives before cpu tsc prev (some (t, r)) x w = outcome-Survives tsc prev t x w.2

Survives-from :
    (fuel tsc : ℕ) (waits : List (Sched → Sched)) (prev : ℕ) (s : Sched)
    → All KeepsSound waits
    → IsServedBut prev s.task s.array s.active
    → s.cpu.current ≡ some prev
    → queued_tasks s.array + 1 < fuel
    → Survives (sched_next_context fuel tsc waits prev s)
Survives-from fuel tsc waits prev s k v cur enough =
    survives _ _ tsc prev (locked_choice fuel prev s) _
      (Resumed-from fuel tsc waits prev s k v cur enough)

module _ (fuel tsc : ℕ) (waits : List (Sched → Sched)) (s : Sched) (k : All KeepsSound waits)
    (v : IsSound s) (enough : queued_tasks s.array + 1 < fuel) where
  next-Survives :
      (t : ℕ) → s.cpu.current ≡ some t → Survives (sched_next_context fuel tsc waits t s)
  next-Survives t cur = Survives-from fuel tsc waits t s k (IsSound-but t s v) cur enough

  tick_current-Survives :
      (t : ℕ) → s.cpu.current ≡ some t → Survives (tick_current fuel tsc waits t s)
  tick_current-Survives t cur =
      let s' : Sched = record s { task = put t (ticked (s.task t)) s.task } in
      let sound : IsSound s' = put-IsServed s t _ v refl refl refl (v.served t) in
      if_either Survives (s.task t).idle _ _
        (λ e. if_either Survives (sched_has_ready s) _ _ (λ e. next-Survives t cur) (λ e. v))
        (λ e.
          if_either Survives (is_running (s.task t).state) _ _
            (λ e.
              if_either Survives ((ticked (s.task t)).quantum_remaining == 0 || s.cpu.need_resched)
                _ _ (λ e. Survives-from fuel tsc waits t s' k (IsSound-but t s' sound) cur enough)
                (λ e. sound))
            (λ e. next-Survives t cur))

  -- A timer tick, the reschedule interrupt and the yield interrupt.
  pub sched_tick-Survives : Survives (sched_tick fuel tsc waits s)
  unfolding sched_tick
  sched_tick-Survives = elim (Option-cases s.cpu.current) [
    | inl nobody ↦ rw (nobody, sched_tick) v
    | inr (t, cur) ↦ rw (cur, sched_tick) (tick_current-Survives t cur)
  ]

  pub sched_yield_handle-Survives : Survives (sched_yield_handle fuel tsc waits s)
  unfolding sched_yield_handle
  sched_yield_handle-Survives = elim (Option-cases s.cpu.current) [
    | inl nobody ↦ rw (nobody, sched_yield_handle) v
    | inr (t, cur) ↦ rw (cur, sched_yield_handle) (next-Survives t cur)
  ]

  pub sched_resched_handle-Survives : Survives (sched_resched_handle fuel tsc waits s)
  unfolding sched_resched_handle
  sched_resched_handle-Survives = elim (Option-cases s.cpu.current) [
    | inl nobody ↦ rw (nobody, sched_resched_handle) v
    | inr (t, cur) ↦
        rw (cur, sched_resched_handle)
          (if_either Survives
            (((s.task t).idle && not (sched_has_ready s))
              || (not (s.task t).idle && not s.cpu.need_resched))
            _ _ (λ e. v) (λ e. next-Survives t cur))
  ]

  -- The current task gives the processor up.
  pub sched_yield-Survives :
      (t : ℕ) → s.cpu.current ≡ some t → Survives (sched_yield fuel tsc waits (some t) s)
  unfolding sched_yield sched_yield_handle
  sched_yield-Survives t cur =
      let Gives : Sched → Type 0 = λ r. Survives (sched_yield_handle fuel tsc waits r) in
      let given : Gives (gives_up (some t) s) =
        if_either Gives (is_running (s.task t).state) _ _
          (λ e.
            let r : Sched = record s {
              task = put t (record (s.task t) { quantum_remaining = 0; state = ready }) s.task;
            } in
            rw (cur, sched_yield_handle)
              (Survives-from fuel tsc waits t r k (put-IsServedBut s t _ v refl refl refl) cur
                enough))
          (λ e. sched_yield_handle-Survives) in
      rw (ap is_none cur) given

pub sched_block-Survives :
    (fuel tsc : ℕ) (waits : List (Sched → Sched)) (t : ℕ) (s : Sched)
    → All KeepsSound waits
    → IsSound s
    → queued_tasks (sched_set_blocked t s).array + 1 < fuel
    → Survives (sched_block fuel tsc waits t s)
unfolding sched_block
sched_block-Survives fuel tsc waits t s k v enough =
    if_either Survives (is_none s.cpu.current) _ _ (λ e. v)
      (λ e.
        sched_yield_handle-Survives fuel tsc waits (sched_set_blocked t s) k
          (sched_set_blocked-IsSound t s v) enough)

pub sched_idle-Survives :
    (fuel tsc : ℕ) (waits : List (Sched → Sched)) (t : ℕ) (s : Sched)
    → All KeepsSound waits
    → IsSound s
    → s.cpu.current ≡ some t
    → queued_tasks s.array + 1 < fuel
    → Survives (sched_idle fuel tsc waits s)
unfolding sched_idle
sched_idle-Survives fuel tsc waits t s k v cur enough =
    let s' : Sched = record s { idle_mask = put s.cpu.id true s.idle_mask } in
    let sound : IsSound s' = record { queued = v.queued; served = v.served } in
    if_either Survives (sched_has_ready s') _ _
      (λ e.
        subst (λ o. Survives (sched_yield fuel tsc waits o s')) (sym cur)
          (sched_yield-Survives fuel tsc waits s' k sound enough t cur))
      (λ e. sound)
