-- ===== src/Sched/Resume.antt =====
-- sched_next_context as a whole.
use bleed_kernel.Common.{ℕ, ◌+◌, ◌<◌, ◌≡◌, ap, ◌∙◌, inl, inr, Option, none, some, List, All, arith}
use mathlib.Core.Path.{subst}
use bleed_kernel.Sched.Queue.{running, Task, Cpu, Sched}
use bleed_kernel.Sched.Calls.{Popped, popped, stuck, ready_pop}
use bleed_kernel.Sched.Switch.{
  fallback, back_in_line, sched_next_context, Next, chosen, locked_choice, after_choice,
}
use bleed_kernel.Sched.Moves.{IsSound, IsServedBut}
use bleed_kernel.Sched.Wake.{IsSound-but}
use bleed_kernel.Sched.Front.{queued_tasks}
use bleed_kernel.Sched.Pop.{Pops, ready_pop-Pops}
use bleed_kernel.Sched.Line.{back_in_line-IsSound, back_in_line_current, back_in_line_size}
use bleed_kernel.Sched.Outcomes.{
  NoneQueued-NobodyWaits, Chosen, Outcome, KeepsSound, go_on-Outcome, fallback-MayStay,
  fallback_cases,
}

-- What sched_next_context leaves, with the choice that it makes.
abbrev pub Resumes : (ℕ → Task) → Cpu → ℕ → ℕ → Option (ℕ × Sched) → Next → Type 0
Resumes before cpu tsc prev none x = ⊥
Resumes before cpu tsc prev (some (t, r)) x =
    IsSound r × Chosen before cpu prev t r × Outcome tsc prev t x

chosen-Resumes :
    (tsc : ℕ) (waits : List (Sched → Sched)) (prev : ℕ) (before : ℕ → Task) (cpu : Cpu)
    (res : Popped)
    → All KeepsSound waits
    → cpu.current ≡ some prev
    → Pops before cpu res
    → Resumes before cpu tsc prev (chosen prev res) (after_choice tsc waits prev (chosen prev res))
chosen-Resumes tsc waits prev before cpu (popped (some t) r) k cur w = (
  w.sound,
  inl w,
  go_on-Outcome tsc waits prev t r k w.sound (ap (λ c. c.current) w.same_cpu ∙ cur)
      (λ same. inr (inl (subst (λ u. (r.task u).state ≡ running) same w.runs))),
)
chosen-Resumes tsc waits prev before cpu (popped none r) k cur w = (
  w.sound,
  inr (NoneQueued-NobodyWaits r w.sound w.empty, fallback_cases prev r),
  go_on-Outcome tsc waits prev (fallback prev r) r k w.sound (ap (λ c. c.current) w.same_cpu ∙ cur)
      (fallback-MayStay prev r),
)
chosen-Resumes tsc waits prev before cpu stuck k cur w = w

-- The task and the processor when the choice is made: the current task is back in line.
abbrev pub Resumed : ℕ → ℕ → List (Sched → Sched) → ℕ → Sched → Type 0
Resumed fuel tsc waits prev s =
    Resumes (back_in_line prev s).task (back_in_line prev s).cpu tsc prev
      (locked_choice fuel prev s) (sched_next_context fuel tsc waits prev s)

pub Resumed-from :
    (fuel tsc : ℕ) (waits : List (Sched → Sched)) (prev : ℕ) (s : Sched)
    → All KeepsSound waits
    → IsServedBut prev s.task s.array s.active
    → s.cpu.current ≡ some prev
    → queued_tasks s.array + 1 < fuel
    → Resumed fuel tsc waits prev s
unfolding sched_next_context locked_choice
Resumed-from fuel tsc waits prev s k v cur enough =
    let r : Sched = back_in_line prev s in
    chosen-Resumes tsc waits prev r.task r.cpu (ready_pop fuel r) k
      (back_in_line_current prev s ∙ cur)
      (ready_pop-Pops fuel r (back_in_line-IsSound prev s v)
        (omega (arith, enough, back_in_line_size prev s v.queued)))

-- sched_next_context on sound queues from which no task is lost, with more fuel than there are tasks in them
-- and one, whatever other processors do that keeps the queues sound. It chooses a task that was ready and in
-- a queue, none better being left in the active array; or every ready task is on a processor or idle, and it
-- chooses its current task or the idle one. Then it switches to the task at a look that finds it on no
-- processor, and the task runs; or, if that look does not come, it waits still; or it stays with its current
-- task, which then is running, or is the idle task, or no idle task is there. The queues are sound all along.
pub sched_next_context-Resumes :
    (fuel tsc : ℕ) (waits : List (Sched → Sched)) (prev : ℕ) (s : Sched)
    → All KeepsSound waits
    → IsSound s
    → s.cpu.current ≡ some prev
    → queued_tasks s.array + 1 < fuel
    → Resumed fuel tsc waits prev s
sched_next_context-Resumes fuel tsc waits prev s k v cur enough =
    Resumed-from fuel tsc waits prev s k (IsSound-but prev s v) cur enough
