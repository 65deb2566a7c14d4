-- ===== src/Sched/Pop.antt =====
-- What ready_pop does, and that it ends.
use bleed_kernel.Common.{
  put_all, put_self, count, ℕ, zero, suc, ◌+◌, ◌≤◌, ◌<◌, ◌≡◌, refl, sym, ap, ◌∙◌, inl, inr, true,
  false, Option, none, some, [], ◌==◌, Bool-cases, Option-cases, arith,
}
use native.Mathlib.Decide.{dec_lt}
use bleed_kernel.Sched.Queue.{running, is_ready, Task, Cpu, Sched, rq_dequeue, set_state}
use bleed_kernel.Sched.Calls.{front, swap_arrays, Popped, popped, stuck, pop_front, ready_pop}
use bleed_kernel.Sched.Sound.{IsQueued, without-Moved}
use bleed_kernel.Sched.Kept.{put-IsQueued}
use bleed_kernel.Sched.Moves.{IsSound, is_lost, rq_dequeue-IsQueued, rq_dequeue_all}
use bleed_kernel.Sched.Front.{
  FrontOf, front-FrontOf, queued_tasks, queued_tasks-less, length-erase_first,
}
use bleed_kernel.Sched.Swap.{
  counted_at, nonempty, nobody_left, swap_arrays-IsSound, swap_arrays-same,
}

-- ready_pop gives a task: it was ready and queued, it is running now, and no task that is left in the
-- active array has a better level than it had.
pub record Took (before : ℕ → Task) (cpu : Cpu) (t : ℕ) (r : Sched) : Type 0 where
  pub sound : IsSound r
  pub was_ready : is_ready (before t).state ≡ true
  pub runs : (r.task t).state ≡ running
  pub inside : (before t).ready_array ≡ some r.active
  pub best :
      (u : ℕ)
      → (r.task u).ready_array ≡ some r.active
      → (before t).ready_prio ≤ (r.task u).ready_prio
  pub same_cpu : r.cpu ≡ cpu

-- It gives none: no task is in a queue.
pub record FoundNone (before : ℕ → Task) (cpu : Cpu) (r : Sched) : Type 0 where
  pub sound : IsSound r
  pub empty : (t : ℕ) → (r.task t).ready_array ≡ none
  pub states : (t : ℕ) → (r.task t).state ≡ (before t).state
  pub same_cpu : r.cpu ≡ cpu

abbrev pub Pops : (ℕ → Task) → Cpu → Popped → Type 0
Pops before cpu (popped (some t) r) = Took before cpu t r
Pops before cpu (popped none r) = FoundNone before cpu r
Pops before cpu stuck = ⊥

-- The end of a round that took the front `t` off its queue.
module _ (s : Sched) (t : ℕ) (v : IsSound s) where
  taken : Sched
  taken = rq_dequeue t s

  taken_active : taken.active ≡ s.active
  unfolding taken rq_dequeue
  taken_active = elim (Option-cases (s.task t).ready_array) [
    | inl out ↦ rw out refl
    | inr (a, there) ↦ rw there refl
  ]

  taken_cpu : taken.cpu ≡ s.cpu
  unfolding taken rq_dequeue
  taken_cpu = elim (Option-cases (s.task t).ready_array) [
    | inl out ↦ rw out refl
    | inr (a, there) ↦ rw there refl
  ]

  taken-IsQueued : IsQueued taken.task taken.array taken.active
  unfolding taken
  taken-IsQueued = rq_dequeue-IsQueued t s v.queued

  -- What a task is, and what it was.
  record IsAsBefore (u : ℕ) (y : Task) : Type 0 where
    state : y.state ≡ (s.task u).state
    level : y.ready_prio ≡ (s.task u).ready_prio
    inside : (a : ℕ) → y.ready_array ≡ some a → (s.task u).ready_array ≡ some a

  IsAsBefore-taken : (u : ℕ) → IsAsBefore u (taken.task u)
  unfolding taken
  IsAsBefore-taken =
      rq_dequeue_all IsAsBefore t s
        (λ u ne. record { state = refl; level = refl; inside = λ a e. e })
        (record { state = refl; level = refl; inside = λ a e. cc })

  taken-IsServed : is_ready (s.task t).state ≡ false → IsSound taken
  unfolding taken
  taken-IsServed idle = record {
    queued = rq_dequeue-IsQueued t s v.queued;
    served =
        rq_dequeue_all (λ u y. is_lost y ≡ false) t s (λ u ne. v.served u) (ground (arith, idle));
  }

  running_now : Sched
  unfolding taken
  running_now = set_state t running taken

  running-IsSound : IsSound running_now
  unfolding taken running_now
  running-IsSound = record {
    queued = put-IsQueued taken.task taken.array taken.active taken-IsQueued t _ refl refl refl;
    served =
        put_all (λ u y. is_lost y ≡ false) t _ taken.task refl
          (λ u ne.
            rq_dequeue_all (λ u y. (u == t) ≡ false → is_lost y ≡ false) t s (λ u ne e. v.served u)
              (λ e. absurd (ground (arith, e))) u ne);
  }

  -- Nobody in the active array has a better level than the front.
  better :
      (p : ℕ)
      → (s.task t).ready_prio ≡ p
      → ((q : ℕ) → q < p → (s.array s.active).queue q ≡ [])
      → (u : ℕ) → (s.task u).ready_array ≡ some s.active
      → (s.task t).ready_prio ≤ (taken.task u).ready_prio
  better p level before u inside = elim (dec_lt (s.task u).ready_prio p) [
    | no worse ↦ omega (arith, worse, level, (IsAsBefore-taken u).level)
    | yes below ↦ absurd (
        nonempty s v.queued s.active (s.task u).ready_prio u inside refl
          (before (s.task u).ready_prio below))
  ]

  took :
      (p : ℕ)
      → (s.task t).ready_array ≡ some s.active
      → (s.task t).ready_prio ≡ p
      → ((q : ℕ) → q < p → (s.array s.active).queue q ≡ [])
      → is_ready (s.task t).state ≡ true
      → Took s.task s.cpu t running_now
  unfolding taken running_now
  took p inside level before was = record {
    sound = running-IsSound;
    was_ready = was;
    runs = ap (λ x. x.state) (put_self t _ taken.task);
    inside = inside ∙ ap some (sym taken_active);
    best =
        put_all (λ u y. y.ready_array ≡ some taken.active → (s.task t).ready_prio ≤ y.ready_prio) t
          _ taken.task (λ e. omega (arith, (IsAsBefore-taken t).level))
          (λ u ne e.
            better p level before u
              ((IsAsBefore-taken u).inside taken.active e ∙ ap some taken_active));
    same_cpu = taken_cpu;
  }

  Pops-taken : (res : Popped) → Pops taken.task taken.cpu res → Pops s.task s.cpu res
  Pops-taken (popped (some u) r) w = record {
    sound = w.sound;
    was_ready = rw (IsAsBefore-taken u).state at w.was_ready;
    runs = w.runs;
    inside = (IsAsBefore-taken u).inside r.active w.inside;
    best = λ x e. omega (arith, w.best x e, (IsAsBefore-taken u).level);
    same_cpu = w.same_cpu ∙ taken_cpu;
  }
  Pops-taken (popped none r) w = record {
    sound = w.sound;
    empty = w.empty;
    states = λ u. w.states u ∙ (IsAsBefore-taken u).state;
    same_cpu = w.same_cpu ∙ taken_cpu;
  }
  Pops-taken stuck w = w

  fewer :
      (p : ℕ)
      → (s.task t).ready_array ≡ some s.active
      → (s.task t).ready_prio ≡ p
      → 0 < count t ((s.array s.active).queue p)
      → queued_tasks taken.array + 1 ≡ queued_tasks s.array
  unfolding taken rq_dequeue
  fewer p inside level there =
      let (small, low) = v.queued.placed t s.active inside in
      rw (inside, level)
        (queued_tasks-less s.active p _ s.array _ small (omega (arith, low, level))
          (without-Moved s.task s.array s.active v.queued t s.active p)
          (length-erase_first t ((s.array s.active).queue p) there))

front-Pops :
    (fuel : ℕ) (s : Sched) (o : Option (Option ℕ))
    → IsSound s
    → FrontOf (s.array s.active) o
    → (o ≡ none → (t : ℕ) → (s.task t).ready_array ≡ none)
    → queued_tasks s.array < suc fuel
    → ((r : Sched) → IsSound r → queued_tasks r.array < fuel → Pops r.task r.cpu (ready_pop fuel r))
    → Pops s.task s.cpu (pop_front (ready_pop fuel) o s)
unfolding pop_front taken running_now
front-Pops fuel s none v at out enough again = record {
  sound = v;
  empty = out refl;
  states = λ t. refl;
  same_cpu = refl;
}
front-Pops fuel s (some none) v at out enough again = at
front-Pops fuel s (some (some t)) v (p, low, there, first, before) out enough again =
    let (inside, level) = counted_at s v.queued s.active p t there in
    let same : ((rq_dequeue t s).task t).state ≡ (s.task t).state =
      (IsAsBefore-taken s t v t).state in
    elim (Bool-cases (is_ready (s.task t).state)) [
      | inl yes_ready ↦ rw (same, yes_ready) (took s t v p inside level before yes_ready)
      | inr idle ↦
          rw (same, idle)
            (Pops-taken s t v (ready_pop fuel (rq_dequeue t s)) (
              again (rq_dequeue t s) (taken-IsServed s t v idle)
                (omega (arith, enough, fewer s t v p inside level there))))
    ]

-- ready_pop on sound queues from which no task is lost, with more fuel than there are tasks in them: it
-- does not get stuck. A task that it gives was ready and in the array that is active then, runs now, and
-- had a level as good as that of every task left there; it gives none only if no task is left in any
-- queue, and leaves every state as it was then. The queues stay sound and no task is lost.
pub ready_pop-Pops :
    (fuel : ℕ) (s : Sched)
    → IsSound s
    → queued_tasks s.array < fuel
    → Pops s.task s.cpu (ready_pop fuel s)
unfolding ready_pop
ready_pop-Pops zero s v enough = absurd (omega arith)
ready_pop-Pops (suc fuel) s v enough =
    let r : Sched = swap_arrays s in
    let sound : IsSound r = swap_arrays-IsSound s v in
    let same : queued_tasks r.array ≡ queued_tasks s.array =
      swap_arrays-same (λ task array cpu. queued_tasks array ≡ queued_tasks s.array) s refl in
    swap_arrays-same
      (λ task array cpu.
        Pops task cpu (pop_front (ready_pop fuel) (front (r.array r.active)) r)
        → Pops s.task s.cpu (pop_front (ready_pop fuel) (front (r.array r.active)) r))
      s (λ w. w)
      (front-Pops fuel r (front (r.array r.active)) sound
        (front-FrontOf (r.array r.active) (sound.queued.bits r.active)) (nobody_left s v.queued)
        (omega (arith, enough, same)) (λ x xs less. ready_pop-Pops fuel x xs less))
