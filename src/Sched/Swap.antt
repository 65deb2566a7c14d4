-- ===== src/Sched/Swap.antt =====
-- The swap of the two arrays, and what an empty front means.
use bleed_kernel.Common.{
  count, count_nil, ℕ, ◌<◌, ◌≡◌, ◌≢◌, refl, sym, ap, ◌∙◌, inl, inr, true, false, not, ◌&&◌, none,
  some, [], if◌then◌else◌, leb, ◌==◌, Bool-cases, Option-cases, arith, sub64,
}
use native.Mathlib.Decide.{ℕ_discrete}
use mathlib.Core.Bool.{false≢true}
use bleed_kernel.Sched.Queue.{
  Task, PrioArray, Cpu, Sched, starve_ticks, prio_levels, expired, first_set, is_nil, is_empty,
}
use bleed_kernel.Sched.Calls.{front_of, front, swap_arrays}
use bleed_kernel.Sched.Sound.{is_at, IsQueued, is_at_own}
use bleed_kernel.Sched.Moves.{IsSound, expired-lt}
use bleed_kernel.Sched.Front.{front-FrontOf}

-- A task in a queue says so.
at_inv : (a p : ℕ) (x : Task) → is_at a p x ≡ true → (x.ready_array ≡ some a) × (x.ready_prio ≡ p)
at_inv a p x there = elim (Option-cases x.ready_array) [
  | inl out ↦ absurd (false≢true (rw out at there))
  | inr (b, inside) ↦
      let both : ((b == a) && (x.ready_prio == p)) ≡ true = rw inside at there in
      let same : b ≡ a = ground arith in (inside ∙ ap some same, ground arith)
]

module _ (s : Sched) (v : IsQueued s.task s.array s.active) where
  pub counted_at :
      (a p t : ℕ)
      → 0 < count t ((s.array a).queue p)
      → ((s.task t).ready_array ≡ some a) × ((s.task t).ready_prio ≡ p)
  counted_at a p t there = elim (Bool-cases (is_at a p (s.task t))) [
    | inl at ↦ at_inv a p (s.task t) at
    | inr out ↦ absurd (omega (arith, there, v.listed a p t ∙ ap (λ c. if c then 1 else 0) out))
  ]

  -- A task that says that it is in a queue is on it, so that the queue is not empty.
  pub nonempty :
      (a p t : ℕ)
      → (s.task t).ready_array ≡ some a
      → (s.task t).ready_prio ≡ p
      → ¬ ((s.array a).queue p ≡ [])
  nonempty a p t inside level empty = omega (
    arith,
    count_nil t,
    ap (count t) empty,
    v.listed a p t ∙ ap (λ c. if c then 1 else 0) (is_at_own a p (s.task t) inside level),
  )

  all_out :
      ((a p : ℕ) → a < 2 → p < prio_levels → (s.array a).queue p ≡ [])
      → (t : ℕ) → (s.task t).ready_array ≡ none
  all_out empty t = elim (Option-cases (s.task t).ready_array) [
    | inl out ↦ out
    | inr (a, inside) ↦
        let (small, low) = v.placed t a inside in
        absurd
          (nonempty a (s.task t).ready_prio t inside refl (empty a (s.task t).ready_prio small low))
  ]

pub front-empty : (a : PrioArray) → is_empty a ≡ true → front a ≡ none
front-empty a e = elim (Option-cases (first_set a.bitmap prio_levels 0)) [
  | inl nobody ↦ rw nobody refl
  | inr (p, found) ↦ absurd (false≢true (rw found at e))
]

front-nonempty : (a : PrioArray) → is_empty a ≡ false → front a ≢ none
front-nonempty a e nobody = elim (Option-cases (first_set a.bitmap prio_levels 0)) [
  | inl off ↦ absurd (false≢true (sym (rw off at e)))
  | inr (p, found) ↦ let h : front_of a (some p) ≡ none = rw found at nobody in cc
]

abbrev swapped : Sched → Sched
swapped s = record s { active = expired s; expired_since = s.timer_ticks }

-- The arrays swap if the active one is empty; and only if that one is, or the other is not.
swap_cases :
    (P : Sched → Type 0) (s : Sched)
    → (is_empty (s.array s.active) ≡ true → P (swapped s))
    → (is_empty (s.array (expired s)) ≡ false → P (swapped s))
    → (is_empty (s.array s.active) ≡ false → P s)
    → P (swap_arrays s)
swap_cases P s dry starving stay = elim (Bool-cases (is_empty (s.array s.active))) [
  | inl e ↦ rw e (dry e)
  | inr full ↦ elim (Bool-cases (is_empty (s.array (expired s)))) [
    | inl none_waits ↦ rw (full, none_waits) (stay full)
    | inr waits ↦ elim (Bool-cases (leb starve_ticks (sub64 s.timer_ticks s.expired_since))) [
      | inl long ↦ rw (full, waits, long) (starving waits)
      | inr short ↦ rw (full, waits, short) (stay full)
    ]
  ]
]

pub queues_empty :
    (a : PrioArray)
    → ((p : ℕ) → a.bitmap p ≡ not (is_nil (a.queue p)))
    → front a ≡ none
    → (p : ℕ) → p < prio_levels
    → a.queue p ≡ []
queues_empty a bits nobody = rw nobody at (front-FrontOf a bits)

-- If the front of the active array is empty after the swap, no task is in a queue.
pub nobody_left :
    (s : Sched)
    → IsQueued s.task s.array s.active
    → (let r = swap_arrays s in
        front (r.array r.active) ≡ none → (t : ℕ) → (r.task t).ready_array ≡ none)
nobody_left s v =
    swap_cases (λ r. front (r.array r.active) ≡ none → (t : ℕ) → (r.task t).ready_array ≡ none) s
      (λ dry nobody. all_out s v (λ a p small low. elim (ℕ_discrete a s.active) [
        | yes e ↦ rw e (
            queues_empty (s.array s.active) (v.bits s.active) (front-empty (s.array s.active) dry) p
              low)
        | no ne ↦
            let other : a ≡ expired s = omega (arith, small, v.two, ne) in
            rw other (queues_empty (s.array (expired s)) (v.bits (expired s)) nobody p low)
      ]))
      (λ waits nobody. absurd (front-nonempty (s.array (expired s)) waits nobody))
      (λ full nobody. absurd (front-nonempty (s.array s.active) full nobody))

pub swap_arrays-IsSound : (s : Sched) → IsSound s → IsSound (swap_arrays s)
swap_arrays-IsSound s v =
    let other : IsSound (swapped s) = record {
      queued = record {
        listed = v.queued.listed;
        bits = v.queued.bits;
        placed = v.queued.placed;
        two = expired-lt s v.queued.two;
        idle = v.queued.idle;
      };
      served = v.served;
    } in
    swap_cases IsSound s (λ e. other) (λ e. other) (λ e. v)

pub swap_arrays-same :
    (P : (ℕ → Task) → (ℕ → PrioArray) → Cpu → Type 0) (s : Sched)
    → P s.task s.array s.cpu
    → P (swap_arrays s).task (swap_arrays s).array (swap_arrays s).cpu
swap_arrays-same P s p = swap_cases (λ r. P r.task r.array r.cpu) s (λ e. p) (λ e. p) (λ e. p)
