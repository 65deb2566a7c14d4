-- ===== src/Sched/Line.antt =====
-- The current task goes back in line.
use bleed_kernel.Common.{
  if_either, put, ℕ, ◌+◌, ◌≤◌, ◌<◌, ◌≡◌, refl, sym, ap, ◌∙◌, false, not, ◌||◌, [], ◌∷◌,
  if◌then◌else◌, ◌==◌, arith, length, length-append,
}
use bleed_kernel.Sched.Queue.{
  ready, is_ready, is_running, Task, PrioArray, Sched, quantum, prio_levels, expired, is_none,
  is_empty, task_prio, appended, enqueue_in, rq_enqueue, set_state,
}
use bleed_kernel.Sched.Switch.{back_in_line}
use bleed_kernel.Sched.Sound.{IsQueued, Moved, appended-Moved}
use bleed_kernel.Sched.Kept.{put-IsQueued}
use bleed_kernel.Sched.Moves.{IsSound, IsServedBut, task_prio-lt, expired-lt, rq_enqueue-IsServed}
use bleed_kernel.Sched.Wake.{found-IsServed}
use bleed_kernel.Sched.Front.{queued_tasks, queued_tasks-less}

-- rq_enqueue leaves the current task of the processor alone.
rq_enqueue_current : (t : ℕ) (s : Sched) → (rq_enqueue t s).cpu.current ≡ s.cpu.current
unfolding rq_enqueue enqueue_in
rq_enqueue_current t s =
    let Same : Sched → Type 0 = λ r. r.cpu.current ≡ s.cpu.current in
    if_either Same (not (is_none (s.task t).ready_array) || (s.task t).idle) _ _ (λ e. refl)
      (λ e.
        if_either Same ((s.task t).quantum_remaining == 0) _ _
          (λ used.
            if_either (λ (x : Sched). Same (enqueue_in t (expired s) quantum x))
              (is_empty (s.array (expired s))) _ _ (λ e. refl) (λ e. refl))
          (λ left. refl))

-- The current task goes back in line, even if it is ready and in no queue.
pub back_in_line-IsSound :
    (prev : ℕ) (s : Sched)
    → IsServedBut prev s.task s.array s.active
    → IsSound (back_in_line prev s)
unfolding back_in_line
back_in_line-IsSound prev s v =
    let s1 : Sched = record s { cpu = record s.cpu { need_resched = false } } in
    let s2 : Sched = if is_running (s1.task prev).state then set_state prev ready s1 else s1 in
    let but : IsServedBut prev s2.task s2.array s2.active =
      if_either (λ (x : Sched). IsServedBut prev x.task x.array x.active)
        (is_running (s1.task prev).state) _ _
        (λ e. record {
          queued = put-IsQueued s.task s.array s.active v.queued prev _ refl refl refl;
          served = λ u ne. rw ne (v.served u ne);
        })
        (λ e. v) in
    if_either IsSound (is_ready (s2.task prev).state) _ _ (λ e. rq_enqueue-IsServed prev s2 but)
      (λ other. found-IsServed prev s2 but (ground (arith, other)))

pub back_in_line_current :
    (prev : ℕ) (s : Sched) → (back_in_line prev s).cpu.current ≡ s.cpu.current
unfolding back_in_line
back_in_line_current prev s =
    let s1 : Sched = record s { cpu = record s.cpu { need_resched = false } } in
    let s2 : Sched = if is_running (s1.task prev).state then set_state prev ready s1 else s1 in
    let same : s2.cpu.current ≡ s.cpu.current =
      if_either (λ (x : Sched). x.cpu.current ≡ s.cpu.current) (is_running (s1.task prev).state) _ _
        (λ e. refl) (λ e. refl) in
    if_either (λ (x : Sched). x.cpu.current ≡ s.cpu.current) (is_ready (s2.task prev).state) _ _
      (λ e. rq_enqueue_current prev s2 ∙ same) (λ e. same)

-- A task that comes into a queue makes one more.
queued_tasks-more :
    (t a p : ℕ) (task : ℕ → Task) (array : ℕ → PrioArray) (active : ℕ)
    → IsQueued task array active
    → a < 2
    → p < prio_levels
    → queued_tasks array + 1 ≡ queued_tasks (put a (appended t p (array a)) array)
queued_tasks-more t a p task array active v small low =
    let m = appended-Moved t a p array in
    let back : Moved a p ((array a).queue p) (put a (appended t p (array a)) array) array = record {
      here = refl;
      bit = v.bits a p;
      away = λ b q ne. (sym (m.away b q ne).0, sym (m.away b q ne).1);
    } in
    queued_tasks-less a p ((array a).queue p) _ array small low back
      (sym (ap length m.here ∙ length-append ((array a).queue p) (t ∷ []) ∙ refl))

rq_enqueue_size :
    (t : ℕ) (s : Sched)
    → IsQueued s.task s.array s.active
    → queued_tasks (rq_enqueue t s).array ≤ queued_tasks s.array + 1
unfolding rq_enqueue enqueue_in
rq_enqueue_size t s v =
    let Few : Sched → Type 0 = λ r. queued_tasks r.array ≤ queued_tasks s.array + 1 in
    let one = λ (a : ℕ) (small : a < 2).
      queued_tasks-more t a (task_prio (s.task t)) s.task s.array s.active v small
        (task_prio-lt (s.task t)) in
    if_either Few (not (is_none (s.task t).ready_array) || (s.task t).idle) _ _ (λ e. omega arith)
      (λ e.
        if_either Few ((s.task t).quantum_remaining == 0) _ _
          (λ used.
            if_either (λ (x : Sched). Few (enqueue_in t (expired s) quantum x))
              (is_empty (s.array (expired s))) _ _
              (λ e. omega (arith, one (expired s) (expired-lt s v.two)))
              (λ e. omega (arith, one (expired s) (expired-lt s v.two))))
          (λ left. omega (arith, one s.active v.two)))

pub back_in_line_size :
    (prev : ℕ) (s : Sched)
    → IsQueued s.task s.array s.active
    → queued_tasks (back_in_line prev s).array ≤ queued_tasks s.array + 1
unfolding back_in_line
back_in_line_size prev s v =
    let s1 : Sched = record s { cpu = record s.cpu { need_resched = false } } in
    let Few : Sched → Type 0 = λ r. queued_tasks r.array ≤ queued_tasks s.array + 1 in
    if_either (λ (x : Sched). Few (if is_ready (x.task prev).state then rq_enqueue prev x else x))
      (is_running (s1.task prev).state) _ _
      (λ e.
        let s2 : Sched = set_state prev ready s1 in
        if_either Few (is_ready (s2.task prev).state) _ _
          (λ r.
            rq_enqueue_size prev s2 (put-IsQueued s.task s.array s.active v prev _ refl refl refl))
          (λ r. omega arith))
      (λ e.
        if_either Few (is_ready (s1.task prev).state) _ _ (λ r. rq_enqueue_size prev s1 v)
          (λ r. omega arith))
