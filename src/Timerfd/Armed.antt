-- ===== src/Timerfd/Armed.antt =====
-- The list of armed timers: every operation keeps it right, and a tick serves each timer on it.
use bleed_kernel.Common.{
  count, erase_first, count_nil, count-here, count-there, count-erase_first_self,
  count-erase_first_ne, ℕ, ◌+◌, ◌≤◌, ◌<◌, ◌≡◌, refl, sym, ap, ◌∙◌, ◌*◌, ◌⊎◌, inl, inr, Bool, true,
  false, List, [], ◌∷◌, if◌then◌else◌, ◌==◌, Bool-cases, arith, ==→eq,
}
use bleed_kernel.Timerfd.Calls.{Timer, Timers, update, tfd_update, wake_timer, tick_loop, tfd_tick}
use bleed_kernel.Timerfd.Expiry.{AreDue, Roomy, Updated, idle, periodic, once, tfd_update-Updated}

-- Every armed timer stands in the list once, and no other does.
abbrev pub IsSound : Timers → Type 0
IsSound s = (id : ℕ) → count id s.armed_list ≡ (if (s.timer id).armed then 1 else 0)

-- What a tick at `now` does to one timer: nothing, or it counts what is due and wakes the readers.
pub data Served (now : ℕ) (t t' : Timer) : Type 0 where
  left_alone : t' ≡ t → (t.armed ≡ false) ⊎ (now < t.expire) → Served now t t'
  repeats :
      (n : ℕ)
      → t.armed ≡ true
      → t.expire ≤ now
      → 0 < t.interval
      → AreDue now t.expire t.interval n
      → t'.ticks ≡ t.ticks + n
      → t'.armed ≡ true
      → t'.expire ≡ t.expire + n * t.interval
      → now < t'.expire
      → t'.interval ≡ t.interval
      → t'.wakes ≡ t.wakes + 1
      → Served now t t'
  ends :
      t.armed ≡ true
      → t.expire ≤ now
      → t.interval ≡ 0
      → t'.ticks ≡ t.ticks + 1
      → t'.armed ≡ false
      → t'.wakes ≡ t.wakes + 1
      → Served now t t'

-- What a step of the tick leaves: the timer served, the others as they were, and a sound list sound.
pub record Stepped (now id : ℕ) (s s' : Timers) : Type 0 where
  pub served : Served now (s.timer id) (s'.timer id)
  pub others : (j : ℕ) → (j == id) ≡ false → s'.timer j ≡ s.timer j
  pub sound : IsSound s → IsSound s'

abbrev pub after : ℕ → Bool × Timers → Timers
after id (happened, s) = if happened then wake_timer id s else s

pub update_self : (id : ℕ) (t : Timer) (heap : ℕ → Timer) → update id t heap id ≡ t
update_self id t heap = let same : (id == id) ≡ true = ground arith in rw same refl

pub update_ne :
    (id j : ℕ) (t : Timer) (heap : ℕ → Timer) → (j == id) ≡ false → update id t heap j ≡ heap j
update_ne id j t heap ne = rw ne refl

same_armed-IsSound :
    (id : ℕ) (t : Timer) (s : Timers)
    → t.armed ≡ (s.timer id).armed
    → IsSound s
    → IsSound (record s { timer = update id t s.timer })
same_armed-IsSound id t s same sound j = elim (Bool-cases (j == id)) [
  | inl e ↦ let eq : j ≡ id = ==→eq j id e in rw e (sound j ∙ rw (eq, same) refl)
  | inr ne ↦ rw ne (sound j)
]

pub count-erase_first_sound :
    (id : ℕ) (s : Timers) → IsSound s → count id (erase_first id s.armed_list) ≡ 0
count-erase_first_sound id s sound =
    let before : count id s.armed_list ≡ (if (s.timer id).armed then 1 else 0) = sound id in
    let one : count id s.armed_list ≤ 1 = rw before (ground arith) in
    omega (arith, one, count-erase_first_self id s.armed_list)

pub unlinked-IsSound :
    (id : ℕ) (t : Timer) (s : Timers)
    → t.armed ≡ false
    → IsSound s
    → IsSound (record { timer = update id t s.timer; armed_list = erase_first id s.armed_list })
unlinked-IsSound id t s off sound j = elim (Bool-cases (j == id)) [
  | inl e ↦ let eq : j ≡ id = ==→eq j id e in rw (e, eq, off) (count-erase_first_sound id s sound)
  | inr ne ↦
      let differs : (id == j) ≡ false = ground arith in
      rw ne (count-erase_first_ne id j s.armed_list differs ∙ sound j)
]

after-Stepped :
    (now id : ℕ) (s : Timers) (r : Bool × Timers)
    → Updated now id s r
    → Stepped now id s (after id r)
after-Stepped now id s r (idle _ eq why) =
    rw eq (record { served = left_alone refl why; others = λ j ne. refl; sound = λ h. h })
after-Stepped now id s r (periodic n t _ many eq counts ticks next later on was due same silent) =
    let s' : Timers = record s { timer = update id t s.timer } in
    let t' : Timer = s'.timer id in
    let here : t' ≡ t = update_self id t s.timer in
    let woken : Timer = record t' { wakes = t'.wakes + 1 } in
    let there : (wake_timer id s').timer id ≡ woken = update_self id woken s'.timer in
    rw eq (record {
      served = rw there (
          rw here
            (repeats n was due many counts ticks on next later same (ap (λ n. n + 1) silent)));
      others = λ j ne. update_ne id j woken s'.timer ne ∙ update_ne id j t s.timer ne;
      sound = λ h. same_armed-IsSound id woken s' refl (same_armed-IsSound id t s (on ∙ sym was) h);
    })
after-Stepped now id s r (once t _ single eq was due ticks off silent) =
    let s' : Timers = record {
      timer = update id t s.timer;
      armed_list = erase_first id s.armed_list;
    } in
    let t' : Timer = s'.timer id in
    let here : t' ≡ t = update_self id t s.timer in
    let woken : Timer = record t' { wakes = t'.wakes + 1 } in
    let there : (wake_timer id s').timer id ≡ woken = update_self id woken s'.timer in
    rw eq (record {
      served = rw there (rw here (ends was due single ticks off (ap (λ n. n + 1) silent)));
      others = λ j ne. update_ne id j woken s'.timer ne ∙ update_ne id j t s.timer ne;
      sound = λ h. same_armed-IsSound id woken s' refl (unlinked-IsSound id t s off h);
    })

-- What a tick at `now` leaves: each timer on the list served, the others as they were.
abbrev pub Ticked : (ℕ → ℕ) → List ℕ → Timers → Timers → Type 0
Ticked now xs s s' =
    ((id : ℕ) → 0 < count id xs → Served (now id) (s.timer id) (s'.timer id))
    × ((id : ℕ) → count id xs ≡ 0 → s'.timer id ≡ s.timer id)
    × (IsSound s → IsSound s')

tick_loop-Ticked :
    (now : ℕ → ℕ) (xs : List ℕ) (s : Timers)
    → ((id : ℕ) → count id xs ≤ 1)
    → ((id : ℕ) → 0 < count id xs → Roomy (now id) (s.timer id))
    → Ticked now xs s (tick_loop now xs s)
unfolding tick_loop
tick_loop-Ticked now [] s once_each roomy =
    (λ id p. absurd (omega (arith, count_nil id)), λ id p. refl, λ h. h)
tick_loop-Ticked now (x ∷ xs) s once_each roomy =
    let r : Bool × Timers = tfd_update (now x) x s in
    let here : count x (x ∷ xs) ≡ 1 + count x xs = count-here x xs in
    let no_more : count x xs ≡ 0 = omega (arith, here, once_each x) in
    let elsewhere : (id : ℕ) → 0 < count id xs → (id == x) ≡ false = λ id p.
      elim (Bool-cases (id == x)) [
        | inl e ↦ absurd (omega (arith, p, no_more, ap (λ i. count i xs) (==→eq id x e)))
        | inr ne ↦ ne
      ] in
    let one : Stepped (now x) x s (after x r) =
      after-Stepped (now x) x s r
        (tfd_update-Updated (now x) x s (roomy x (omega (arith, here)))) in
    let rest : Ticked now xs (after x r) (tick_loop now xs (after x r)) =
      tick_loop-Ticked now xs (after x r)
        (λ id. elim (Bool-cases (id == x)) [
          | inl e ↦ rw (==→eq id x e) (omega (arith, no_more))
          | inr ne ↦ omega (arith, count-there id x xs ne, once_each id)
        ])
        (λ id p.
          rw (one.others id (elsewhere id p))
            (roomy id (omega (arith, count-there id x xs (elsewhere id p), p)))) in
    (
      λ id p. elim (Bool-cases (id == x)) [
        | inl e ↦ rw (==→eq id x e, rest.1 x no_more) one.served
        | inr ne ↦ rw (one.others id ne) at (rest.0 id (omega (arith, count-there id x xs ne, p)))
      ],
      λ id p. elim (Bool-cases (id == x)) [
        | inl e ↦ absurd (omega (arith, here, p, ap (λ i. count i (x ∷ xs)) (==→eq id x e)))
        | inr ne ↦ rest.1 id (omega (arith, count-there id x xs ne, p)) ∙ one.others id ne
      ],
      λ h. rest.2 (one.sound h),
    )

-- A tick over a sound list that reads the counter anew for each timer, for times and counts that stay
-- below 2 ^ 64: every armed timer that is due counts exactly what is due and wakes its readers; with an
-- interval it stays armed, and its next expiration, that many intervals on, lies after the reading;
-- without one it is disarmed. Every other timer is left as it is, and the list stays sound.
pub tfd_tick-Served :
    (now : ℕ → ℕ) (s : Timers)
    → IsSound s
    → ((id : ℕ) → Roomy (now id) (s.timer id))
    → ((id : ℕ) → Served (now id) (s.timer id) ((tfd_tick now s).timer id))
      × IsSound (tfd_tick now s)
unfolding tfd_tick
tfd_tick-Served now s sound roomy =
    let all : Ticked now s.armed_list s (tick_loop now s.armed_list s) =
      tick_loop-Ticked now s.armed_list s (λ id. rw (sound id) (ground arith)) (λ id p. roomy id) in
    (
      λ id. elim (Bool-cases (s.timer id).armed) [
        | inl on ↦ all.0 id (rw (sound id) (rw on (omega arith)))
        | inr off ↦ left_alone (all.1 id (sound id ∙ ap (λ b. if b then 1 else 0) off)) (inl off)
      ],
      all.2 sound,
    )
