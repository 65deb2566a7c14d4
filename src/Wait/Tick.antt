-- ===== src/Wait/Tick.antt =====
-- The tick, and when it looks again.
use bleed_kernel.Common.{
  if_either, put, put_all, put_self, put_ne, count, count_nil, count-here, count-there, ℕ, ◌-◌, ◌*◌,
  ◌/◌, ◌^◌, ◌≤◌, ◌<◌, ◌≡◌, refl, sym, ap, ◌∙◌, ◌⊎◌, inl, inr, true, false, List, [], ◌∷◌,
  if◌then◌else◌, ltb, ◌==◌, Bool-cases, arith, length, All, add64, sub64, ==→eq,
}
use mathlib.Core.Path.{subst}
use native.Mathlib.Nat.{div-mul-le_self, mul-le-mul_right}
use bleed_kernel.Wait.Calls.{
  Waits, event_ticks_for, insert_by, set_deadline, deadline_loop, next_check, sched_event_tick,
}
use bleed_kernel.Wait.Deadlines.{
  IsSorted, IsLine, IsTimed, left_on, wake_in_turn, due_first, Expired, deadline_loop-Expired,
  insert_by-IsSorted, count-insert_by, IsSorted-put,
}

-- Half of what is left of a wait, or a tick.
abbrev pub IsEarly : ℕ → ℕ → ℕ → Type 0
IsEarly per_ms ticks left = (ticks ≤ 1) ⊎ (ticks * 2 * per_ms ≤ left)

event_ticks_for-IsEarly : (per_ms left : ℕ) → IsEarly per_ms (event_ticks_for per_ms left) left
unfolding event_ticks_for
event_ticks_for-IsEarly per_ms left =
    let ms : ℕ = left / per_ms in
    if_either (λ n. IsEarly per_ms n left) (ms / 2 == 0) _ _ (λ e. inl (omega arith))
      (λ e.
        let half : ms / 2 * 2 ≤ ms = omega arith in
        let low : ms / 2 * 2 * per_ms ≤ ms * per_ms = mul-le-mul_right per_ms half in
        let whole : ms * per_ms ≤ left = div-mul-le_self left per_ms in
        inr (omega (arith, low, whole)))

-- What a tick leaves that looks at the deadlines at `now`.
pub record Ticked (per_ms now : ℕ) (w r : Waits) : Type 0 where
  pub timed : IsTimed r
  pub left : (u : ℕ) → count u r.deadlines ≡ left_on w.event_deadline now w.deadlines u
  pub woken : r.sched ≡ wake_in_turn (due_first w.event_deadline now w.deadlines) w.sched
  pub check :
      (u : ℕ)
      → 0 < count u r.deadlines
      → IsEarly per_ms (r.event_check_tick - r.sched.timer_ticks) (w.event_deadline u - now)

All-counted : (P : ℕ → Type 0) (u : ℕ) (xs : List ℕ) → All P xs → 0 < count u xs → P u
All-counted P u [] all there = absurd (omega (arith, there, count_nil u))
All-counted P u (x ∷ xs) all there = elim (Bool-cases (u == x)) [
  | inl e ↦ subst P (sym (==→eq u x e)) all.0
  | inr ne ↦ All-counted P u xs all.1 (omega (arith, there, count-there u x xs ne))
]

first_soonest :
    (due : ℕ → ℕ) (t : ℕ) (ts : List ℕ) (u : ℕ)
    → All (λ y. due t ≤ due y) ts
    → 0 < count u (t ∷ ts)
    → due t ≤ due u
first_soonest due t ts u all there =
    All-counted (λ y. due t ≤ due y) u (t ∷ ts) (omega arith, all) there

IsEarly-le :
    (per_ms a b left more : ℕ) → a ≤ b → left ≤ more → IsEarly per_ms b left → IsEarly per_ms a more
IsEarly-le per_ms a b left more le le' early = elim early [
  | inl few ↦ inl (omega (arith, le, few))
  | inr half ↦
      let low : a * 2 * per_ms ≤ b * 2 * per_ms = mul-le-mul_right per_ms (omega (arith, le)) in
      inr (omega (arith, low, half, le'))
]

next_check-IsEarly :
    (per_ms now : ℕ) (line : List ℕ) (r : Waits) (u : ℕ)
    → IsSorted r.event_deadline line
    → ((t : ℕ) → r.event_deadline t < 2 ^ 64)
    → All (λ y. now < r.event_deadline y) line
    → 0 < count u line
    → IsEarly per_ms (next_check per_ms now line r - r.sched.timer_ticks) (r.event_deadline u - now)
next_check-IsEarly per_ms now [] r u sorted small ahead there =
    absurd (omega (arith, there, count_nil u))
next_check-IsEarly per_ms now (t ∷ ts) r u sorted small ahead there =
    let soonest = first_soonest r.event_deadline t ts u sorted.0 there in
    let exact : sub64 (r.event_deadline t) now ≡ r.event_deadline t - now =
      omega (arith, small t, ahead.0) in
    let ticks : ℕ = event_ticks_for per_ms (sub64 (r.event_deadline t) now) in
    let few : add64 r.sched.timer_ticks ticks - r.sched.timer_ticks ≤ ticks = omega arith in
    IsEarly-le per_ms _ ticks (sub64 (r.event_deadline t) now) _ few (omega (arith, exact, soonest))
      (event_ticks_for-IsEarly per_ms (sub64 (r.event_deadline t) now))

-- A tick that looks at deadlines that are in order, with more fuel than there are: exactly the tasks whose
-- deadline has come leave the list, and are woken in its order, the rest stays in order, and the tick looks
-- again in a tick, or before half of what is left of any wait has gone by.
pub sched_event_tick-Ticked :
    (fuel per_ms now : ℕ) (w : Waits)
    → IsTimed w
    → w.event_check_tick ≤ w.sched.timer_ticks
    → length w.deadlines < fuel
    → Ticked per_ms now w (sched_event_tick fuel per_ms now w)
unfolding sched_event_tick
sched_event_tick-Ticked fuel per_ms now w v late enough =
    let r : Waits = deadline_loop fuel now w.deadlines w in
    let x : Expired now w r = deadline_loop-Expired fuel now w.deadlines w v refl enough in
    let looks : ltb w.sched.timer_ticks w.event_check_tick ≡ false = ground (arith, late) in
    let checks = λ (u : ℕ) (there : 0 < count u r.deadlines).
      next_check-IsEarly per_ms now r.deadlines r u x.timed.sorted x.timed.small
        (subst (λ f. All (λ y. now < f y) r.deadlines) (sym x.same) x.ahead) there in
    rw looks (record {
      timed = x.timed;
      left = x.left;
      woken = x.woken;
      check = λ u there.
          subst
            (λ f.
              IsEarly per_ms (next_check per_ms now r.deadlines r - r.sched.timer_ticks)
                (f u - now))
            x.same (checks u there);
    })

-- What a wait until `deadline` leaves: the task is on the list once, with its deadline, the others as they
-- were, the list in order, and the tick looks no later than it did and no later than at `tick`.
pub record Queued (tick deadline t : ℕ) (w r : Waits) : Type 0 where
  pub timed : IsTimed r
  pub queued : r.deadline_queued t ≡ true
  pub listed : count t r.deadlines ≡ 1
  pub due : r.event_deadline t ≡ deadline
  pub others :
      (u : ℕ)
      → (u == t) ≡ false
      → (count u r.deadlines ≡ count u w.deadlines)
        × (r.event_deadline u ≡ w.event_deadline u)
        × (r.deadline_queued u ≡ w.deadline_queued u)
  pub check : (r.event_check_tick ≤ w.event_check_tick) × (r.event_check_tick ≤ tick)

-- A new deadline below 2 ^ 64 of a task that is not on the list of deadlines, while the list is in order: the task is then on it once and
-- with that deadline, the others are on it as before, the list stays in order, and the tick's next look is
-- no later than before and no later than half of the wait from now, or a tick if that is less.
pub set_deadline-Queued :
    (per_ms now deadline t : ℕ) (w : Waits)
    → IsTimed w
    → w.deadline_queued t ≡ false
    → deadline < 2 ^ 64
    → Queued
        (add64 w.sched.timer_ticks (event_ticks_for per_ms (deadline - now)))
        deadline
        t
        w
        (set_deadline per_ms now deadline t w)
unfolding set_deadline
set_deadline-Queued per_ms now deadline t w v out small =
    let due : ℕ → ℕ = put t deadline w.event_deadline in
    let absent : count t w.deadlines ≡ 0 = v.once t ∙ ap (λ b. if b then 1 else 0) out in
    let line : IsLine due (put t true w.deadline_queued) (insert_by due t w.deadlines) = record {
      sorted =
          insert_by-IsSorted due t w.deadlines
            (IsSorted-put w.event_deadline t deadline w.deadlines absent v.sorted);
      once = λ u.
          count-insert_by u due t w.deadlines
          ∙ put_all (λ u b. count u (t ∷ w.deadlines) ≡ (if b then 1 else 0)) t true
              w.deadline_queued (omega (arith, count-here t w.deadlines, absent))
              (λ u ne. count-there u t w.deadlines ne ∙ v.once u) u;
      small = put_all (λ u d. d < 2 ^ 64) t deadline w.event_deadline small (λ u ne. v.small u);
    } in
    let here : count t (insert_by due t w.deadlines) ≡ 1 =
      omega (arith, count-insert_by t due t w.deadlines, count-here t w.deadlines, absent) in
    let rest : (u : ℕ)
        → (u == t) ≡ false
        → (count u (insert_by due t w.deadlines) ≡ count u w.deadlines)
          × (due u ≡ w.event_deadline u)
          × (put t true w.deadline_queued u ≡ w.deadline_queued u) =
      λ u ne. (
        count-insert_by u due t w.deadlines ∙ count-there u t w.deadlines ne,
        put_ne t u deadline w.event_deadline ne,
        put_ne t u true w.deadline_queued ne,
      ) in
    let left : (if ltb now deadline then deadline - now else 0) ≡ deadline - now = ground arith in
    let tick : ℕ = add64 w.sched.timer_ticks (event_ticks_for per_ms (deadline - now)) in
    rw left (
      if_either (Queued tick deadline t w) (ltb tick w.event_check_tick) _ _
        (λ e. record {
          timed = line;
          queued = put_self t true w.deadline_queued;
          listed = here;
          due = put_self t deadline w.event_deadline;
          others = rest;
          check = (ground arith, omega arith);
        })
        (λ e. record {
          timed = line;
          queued = put_self t true w.deadline_queued;
          listed = here;
          due = put_self t deadline w.event_deadline;
          others = rest;
          check = (omega arith, ground arith);
        }))
