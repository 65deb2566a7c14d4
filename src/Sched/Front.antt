-- ===== src/Sched/Front.antt =====
-- What ready_pop looks at: the lowest bit, and how many tasks are queued.
use bleed_kernel.Common.{
  count, count-here, count-there, erase_first, ℕ, zero, suc, ◌+◌, ◌≤◌, ◌<◌, ◌≡◌, ◌≢◌, refl, sym, ap,
  ◌∙◌, inl, inr, Bool, true, false, not, Option, none, some, List, [], ◌∷◌, ◌==◌, Bool-cases, arith,
  length, ==→eq,
}
use native.Mathlib.Decide.{ℕ_discrete}
use mathlib.Core.Path.{subst}
use bleed_kernel.Sched.Queue.{PrioArray, prio_levels, first_set, is_nil}
use bleed_kernel.Sched.Calls.{head, front_of, front}
use bleed_kernel.Sched.Sound.{Moved}

-- The lowest set bit of those looked at, or that none is set.
abbrev IsLowest : (ℕ → Bool) → ℕ → ℕ → Option ℕ → Type 0
IsLowest bits n i none = (j : ℕ) → i ≤ j → j < i + n → bits j ≡ false
IsLowest bits n i (some p) =
    (i ≤ p) × (p < i + n) × (bits p ≡ true) × ((j : ℕ) → i ≤ j → j < p → bits j ≡ false)

IsLowest-step :
    (bits : ℕ → Bool) (n i : ℕ) (o : Option ℕ)
    → bits i ≡ false
    → IsLowest bits n (i + 1) o
    → IsLowest bits (suc n) i o
IsLowest-step bits n i none off low = λ j ge lt. elim (ℕ_discrete j i) [
  | yes e ↦ rw e off
  | no ne ↦ low j (omega (arith, ge, ne)) (omega (arith, lt))
]
IsLowest-step bits n i (some p) off (ge, lt, on, low) = (
  omega (arith, ge),
  omega (arith, lt),
  on,
  λ j from below. elim (ℕ_discrete j i) [
    | yes e ↦ rw e off
    | no ne ↦ low j (omega (arith, from, ne)) below
  ],
)

first_set-IsLowest : (bits : ℕ → Bool) (n i : ℕ) → IsLowest bits n i (first_set bits n i)
unfolding first_set
first_set-IsLowest bits zero i = λ j ge lt. absurd (omega arith)
first_set-IsLowest bits (suc n) i = elim (Bool-cases (bits i)) [
  | inl on ↦ rw on (omega arith, omega arith, on, λ j ge lt. absurd (omega arith))
  | inr off ↦
      rw off
        (IsLowest-step bits n i (first_set bits n (i + 1)) off (first_set-IsLowest bits n (i + 1)))
]

-- What the front of an array is: nobody, if all of its queues are empty; or the first task of the queue of
-- the best level that has one.
abbrev pub FrontOf : PrioArray → Option (Option ℕ) → Type 0
FrontOf a none = (p : ℕ) → p < prio_levels → a.queue p ≡ []
FrontOf a (some none) = ⊥
FrontOf a (some (some t)) =
    (p : ℕ) × (p < prio_levels)
    × (0 < count t (a.queue p))
    × (head (a.queue p) ≡ some t)
    × ((q : ℕ) → q < p → a.queue q ≡ [])

nil_of : (xs : List ℕ) → not (is_nil xs) ≡ false → xs ≡ []
nil_of [] e = refl
nil_of (x ∷ xs) e = cc

head_of : (xs : List ℕ) → not (is_nil xs) ≡ true → (t : ℕ) × (head xs ≡ some t) × (0 < count t xs)
head_of [] e = cc
head_of (x ∷ xs) e = (x, refl, omega (arith, count-here x xs))

front_of-FrontOf :
    (a : PrioArray) (o : Option ℕ)
    → ((p : ℕ) → a.bitmap p ≡ not (is_nil (a.queue p)))
    → IsLowest a.bitmap prio_levels 0 o
    → FrontOf a (front_of a o)
front_of-FrontOf a none bits low =
    λ p lt. nil_of (a.queue p) (sym (bits p) ∙ low p (omega arith) (omega (arith, lt)))
front_of-FrontOf a (some p) bits (ge, lt, on, before) =
    let (t, first, there) = head_of (a.queue p) (sym (bits p) ∙ on) in
    rw first (
      p,
      omega (arith, lt),
      there,
      first,
      λ q below. nil_of (a.queue q) (sym (bits q) ∙ before q (omega arith) below),
    )

pub front-FrontOf :
    (a : PrioArray) → ((p : ℕ) → a.bitmap p ≡ not (is_nil (a.queue p))) → FrontOf a (front a)
front-FrontOf a bits =
    front_of-FrontOf a (first_set a.bitmap prio_levels 0) bits
      (first_set-IsLowest a.bitmap prio_levels 0)

-- The number of tasks in the queues of an array, and of both.
unfoldable pub sum_levels : (ℕ → List ℕ) → ℕ → ℕ
sum_levels queue zero = 0
sum_levels queue (suc n) = length (queue n) + sum_levels queue n

unfoldable pub queued_tasks : (ℕ → PrioArray) → ℕ
queued_tasks array = sum_levels (array 0).queue prio_levels + sum_levels (array 1).queue prio_levels

sum_levels-same :
    (f g : ℕ → List ℕ) (n : ℕ) → ((q : ℕ) → q < n → g q ≡ f q) → sum_levels g n ≡ sum_levels f n
unfolding sum_levels
sum_levels-same f g zero same = refl
sum_levels-same f g (suc n) same = omega (
  arith,
  ap length (same n (omega arith)),
  sum_levels-same f g n (λ q lt. same q (omega (arith, lt))),
)

sum_levels-less :
    (f g : ℕ → List ℕ) (n p : ℕ)
    → p < n
    → length (g p) + 1 ≡ length (f p)
    → ((q : ℕ) → (q == p) ≡ false → g q ≡ f q)
    → sum_levels g n + 1 ≡ sum_levels f n
unfolding sum_levels
sum_levels-less f g zero p lt less same = absurd (omega arith)
sum_levels-less f g (suc n) p lt less same = elim (Bool-cases (n == p)) [
  | inl e ↦
      let np : n ≡ p = ==→eq n p e in
      let rest = sum_levels-same f g n (λ q below. same q (ground arith)) in
      omega (arith, rest, subst (λ k. length (g k) + 1 ≡ length (f k)) (sym np) less)
  | inr ne ↦ omega (
    arith,
    ap length (same n ne),
    sum_levels-less f g n p (let differ : n ≢ p = ground arith in omega (arith, lt, differ)) less
        same,
  )
]

pub length-erase_first :
    (t : ℕ) (xs : List ℕ) → 0 < count t xs → length (erase_first t xs) + 1 ≡ length xs
unfolding erase_first count
length-erase_first t [] there = absurd (omega arith)
length-erase_first t (x ∷ xs) there = elim (Bool-cases (x == t)) [
  | inl e ↦ rw e (omega arith)
  | inr ne ↦ rw ne (
      omega
        (arith, length-erase_first t xs (omega (arith, there, count-there t x xs (ground arith)))))
]

pub queued_tasks-less :
    (a p : ℕ) (rest : List ℕ) (before after : ℕ → PrioArray)
    → a < 2
    → p < prio_levels
    → Moved a p rest before after
    → length rest + 1 ≡ length ((before a).queue p)
    → queued_tasks after + 1 ≡ queued_tasks before
unfolding queued_tasks
queued_tasks-less zero p rest before after small low m less =
    let first =
      sum_levels-less (before 0).queue (after 0).queue prio_levels p low
        (omega (arith, ap length m.here, less)) (λ q ne. (m.away 0 q (ground arith)).0) in
    let second =
      sum_levels-same (before 1).queue (after 1).queue prio_levels (λ q lt. (m.away 1 q refl).0) in
    omega (arith, first, second)
queued_tasks-less (suc zero) p rest before after small low m less =
    let first =
      sum_levels-same (before 0).queue (after 0).queue prio_levels (λ q lt. (m.away 0 q refl).0) in
    let second =
      sum_levels-less (before 1).queue (after 1).queue prio_levels p low
        (omega (arith, ap length m.here, less)) (λ q ne. (m.away 1 q (ground arith)).0) in
    omega (arith, first, second)
queued_tasks-less (suc (suc a)) p rest before after small low m less = absurd (omega arith)
