-- ===== src/Timerfd/Expiry.antt =====
-- The expirations of one timer: how many tfd_update counts, and when the next one is.
use bleed_kernel.Common.{
  erase_first, ℕ, ◌+◌, ◌-◌, ◌*◌, ◌/◌, ◌≤◌, ◌<◌, ◌≡◌, refl, ◌⊎◌, ◌↔◌, inl, inr, Bool, true, false,
  not, if◌then◌else◌, ltb, ◌==◌, Bool-cases, arith, ==→eq, add64, u64_mod,
}
use native.Mathlib.Decide.{dec_lt, dec_le}
use native.Mathlib.Nat.{
  mod-eq_of_lt, add-mul, div-mul-le_self, mul-le-mul_right, lt-div-mul-add, div-le_self,
}
use bleed_kernel.Timerfd.Calls.{Timer, Timers, update, tfd_unlink, tfd_update}

-- The number of expirations that are due at `now`, the first at `expire`, one each `interval`: the
-- instants `expire + k * interval` up to `now` are those with `k < n`.
abbrev pub AreDue : ℕ → ℕ → ℕ → ℕ → Type 0
AreDue now expire interval n = (k : ℕ) → (k < n) ↔ (expire + k * interval ≤ now)

div-AreDue :
    (now expire interval : ℕ)
    → 0 < interval
    → expire ≤ now
    → AreDue now expire interval ((now - expire) / interval + 1)
div-AreDue now expire interval p le k =
    let q : ℕ = (now - expire) / interval in
    let low : q * interval ≤ now - expire = div-mul-le_self (now - expire) interval in
    let high : now - expire < q * interval + interval = lt-div-mul-add p in
    (
      λ lt.
          let step : k * interval ≤ q * interval = mul-le-mul_right interval (omega arith) in
          omega (arith, step, low),
      λ before. elim (dec_lt k (q + 1)) [
        | yes inside ↦ inside
        | no beyond ↦
            let step : (q + 1) * interval ≤ k * interval =
              mul-le-mul_right interval (omega (arith, beyond)) in
            absurd (omega (arith, step, high, add-mul))
      ],
    )

-- What tfd_update does to a timer and to the list, on every branch.
pub data Updated (now id : ℕ) (s : Timers) : Bool × Timers → Type 0 where
  idle :
      (r : Bool × Timers)
      → r ≡ (false, s)
      → ((s.timer id).armed ≡ false) ⊎ (now < (s.timer id).expire)
      → Updated now id s r
  periodic :
      (n : ℕ) (t : Timer) (r : Bool × Timers)
      → 0 < (s.timer id).interval
      → r ≡ (true, record s { timer = update id t s.timer })
      → AreDue now (s.timer id).expire (s.timer id).interval n
      → t.ticks ≡ (s.timer id).ticks + n
      → t.expire ≡ (s.timer id).expire + n * (s.timer id).interval
      → now < t.expire
      → t.armed ≡ true
      → (s.timer id).armed ≡ true
      → (s.timer id).expire ≤ now
      → t.interval ≡ (s.timer id).interval
      → t.wakes ≡ (s.timer id).wakes
      → Updated now id s r
  once :
      (t : Timer) (r : Bool × Timers)
      → (s.timer id).interval ≡ 0
      → r ≡ (true, record { timer = update id t s.timer; armed_list = erase_first id s.armed_list })
      → (s.timer id).armed ≡ true
      → (s.timer id).expire ≤ now
      → t.ticks ≡ (s.timer id).ticks + 1
      → t.armed ≡ false
      → t.wakes ≡ (s.timer id).wakes
      → Updated now id s r

-- No count, of ticks or of time, leaves 64 bits at `now`.
pub record Roomy (now : ℕ) (t : Timer) : Type 0 where
  pub time : now + t.interval < u64_mod
  pub count : t.ticks + now + 1 < u64_mod

-- The branches of the nest of tests in tfd_update.
module _ {ℓ} {A : Type ℓ} (a b c : Bool) (x y z w : A) where
  abbrev nest : A
  nest = if not a then x else if b then y else if not c then z else w

  nest_third : a ≡ true → b ≡ false → c ≡ false → nest ≡ z
  nest_third on due many = rw (on, due, many) refl

  nest_fourth : a ≡ true → b ≡ false → c ≡ true → nest ≡ w
  nest_fourth on due one = rw (on, due, one) refl

periodic-Updated :
    (now id : ℕ) (s : Timers)
    → Roomy now (s.timer id)
    → (s.timer id).armed ≡ true
    → (s.timer id).expire ≤ now
    → 0 < (s.timer id).interval
    → Updated now id s (tfd_update now id s)
unfolding tfd_update
periodic-Updated now id s roomy on due p =
    let t : Timer = s.timer id in
    let q : ℕ = (now - t.expire) / t.interval in
    let low : q * t.interval ≤ now - t.expire = div-mul-le_self (now - t.expire) t.interval in
    let high : now - t.expire < q * t.interval + t.interval = lt-div-mul-add p in
    let fewer : q ≤ now - t.expire = div-le_self (now - t.expire) t.interval in
    let split : (q + 1) * t.interval ≡ q * t.interval + t.interval = grind arith in
    let n_eq : add64 q 1 ≡ q + 1 = mod-eq_of_lt (omega (arith, fewer, roomy.count)) in
    let e_eq : add64 t.expire ((q + 1) * t.interval) ≡ t.expire + (q + 1) * t.interval =
      mod-eq_of_lt (omega (arith, low, split, roomy.time)) in
    let later : now < t.expire + (q + 1) * t.interval = omega (arith, high, split) in
    let due_now : ltb now t.expire ≡ false = ground arith in
    let many : (t.interval == 0) ≡ false = ground arith in
    periodic (q + 1)
      (record t {
        ticks = add64 t.ticks (add64 q 1);
        expire = add64 t.expire (add64 q 1 * t.interval);
      })
      _ p (nest_third _ _ _ _ _ _ _ on due_now many) (div-AreDue now t.expire t.interval p due)
      (rw n_eq (mod-eq_of_lt (omega (arith, fewer, roomy.count)))) (rw n_eq e_eq)
      (rw (n_eq, e_eq) later) on on due refl refl

-- On every branch of tfd_update, for times and counts that stay below 2 ^ 64: a timer that is not armed
-- or not due is left as it is; one with an interval counts exactly the expirations that are due, and its next
-- one lies after `now`; one without an interval counts one, is disarmed and leaves the list.
pub tfd_update-Updated :
    (now id : ℕ) (s : Timers) → Roomy now (s.timer id) → Updated now id s (tfd_update now id s)
unfolding tfd_update tfd_unlink
tfd_update-Updated now id s roomy = elim (Bool-cases (s.timer id).armed) [
  | inr off ↦ idle _ (rw off refl) (inl off)
  | inl on ↦ elim (dec_le (s.timer id).expire now) [
    | no early ↦ idle _ (ground (arith, early)) (inr (omega (arith, early)))
    | yes due ↦ elim (dec_lt 0 (s.timer id).interval) [
      | yes p ↦ periodic-Updated now id s roomy on due p
      | no single ↦
          let due_now : ltb now (s.timer id).expire ≡ false = ground arith in
          let one_shot : ((s.timer id).interval == 0) ≡ true = ground (arith, single) in
          once (record (s.timer id) { ticks = add64 (s.timer id).ticks 1; armed = false }) _
            (==→eq (s.timer id).interval 0 one_shot) (nest_fourth _ _ _ _ _ _ _ on due_now one_shot)
            on due (mod-eq_of_lt (omega (arith, roomy.count))) refl refl
    ]
  ]
]
