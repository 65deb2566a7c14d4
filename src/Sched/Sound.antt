-- ===== src/Sched/Sound.antt =====
-- When the run queues are sound, and why they stay so when a task comes into a queue or leaves it.
use bleed_kernel.Common.{
  put, put_self, put_ne, count, erase_first, ℕ, ◌<◌, ◌≡◌, refl, sym, ap, ◌∙◌, inl, inr, Bool, true,
  false, not, ◌&&◌, Option, none, some, List, [], ◌∷◌, ◌++◌, if◌then◌else◌, ◌==◌, Bool-cases, arith,
  ==→eq,
}
use bleed_kernel.Sched.Queue.{Task, PrioArray, prio_levels, is_nil, appended, without}

-- The task is in the array, at the level.
abbrev pub in_array : Option ℕ → ℕ → Bool
in_array none a = false
in_array (some b) a = b == a

abbrev pub is_at : ℕ → ℕ → Task → Bool
is_at a p x = in_array x.ready_array a && x.ready_prio == p

-- A task is in the queue that it says it is in, once, and in no other; a bit is set while its queue holds
-- someone; an idle task is in no queue.
pub record IsQueued (task : ℕ → Task) (array : ℕ → PrioArray) (active : ℕ) : Type 0 where
  pub listed : (a p t : ℕ) → count t ((array a).queue p) ≡ (if is_at a p (task t) then 1 else 0)
  pub bits : (a p : ℕ) → (array a).bitmap p ≡ not (is_nil ((array a).queue p))
  pub placed :
      (t a : ℕ) → (task t).ready_array ≡ some a → (a < 2) × ((task t).ready_prio < prio_levels)
  pub two : active < 2
  pub idle : (t : ℕ) → (task t).idle ≡ true → (task t).ready_array ≡ none

pub count_append : (u t : ℕ) (xs : List ℕ) → count u (xs ++ (t ∷ [])) ≡ count u (t ∷ xs)
unfolding count
count_append u t [] = refl
count_append u t (x ∷ xs) = omega (arith, count_append u t xs)

nil_append : (t : ℕ) (xs : List ℕ) → is_nil (xs ++ (t ∷ [])) ≡ false
nil_append t [] = refl
nil_append t (x ∷ xs) = refl

nil_erase : (t : ℕ) (xs : List ℕ) → is_nil (erase_first t xs) ≡ false → is_nil xs ≡ false
unfolding erase_first
nil_erase t [] ne = ne
nil_erase t (x ∷ xs) ne = refl

pub not_at : (a p : ℕ) (x : Task) → x.ready_array ≡ none → is_at a p x ≡ false
not_at a p x out = rw out refl

pub is_at_own :
    (a p : ℕ) (x : Task) → x.ready_array ≡ some a → x.ready_prio ≡ p → is_at a p x ≡ true
is_at_own a p x array prio = rw array (ground arith)

pub at_other :
    (a p b q : ℕ) (x : Task)
    → x.ready_array ≡ some a
    → x.ready_prio ≡ p
    → ((b == a) && (q == p)) ≡ false
    → is_at b q x ≡ false
at_other a p b q x array prio other = rw array (ground arith)

-- A change of one queue, of one array.
pub record Moved (a p : ℕ) (rest : List ℕ) (before after : ℕ → PrioArray) : Type 0 where
  pub here : (after a).queue p ≡ rest
  pub bit : (after a).bitmap p ≡ not (is_nil rest)
  pub away :
      (b q : ℕ)
      → ((b == a) && (q == p)) ≡ false
      → ((after b).queue q ≡ (before b).queue q) × ((after b).bitmap q ≡ (before b).bitmap q)

-- A store of an array with another queue at one level.
moved :
    (a p : ℕ) (rest : List ℕ) (bitmap : ℕ → Bool) (array : ℕ → PrioArray)
    → bitmap p ≡ not (is_nil rest)
    → ((q : ℕ) → (q == p) ≡ false → bitmap q ≡ (array a).bitmap q)
    → Moved a p rest array
        (put a (record { bitmap = bitmap; queue = put p rest (array a).queue }) array)
moved a p rest bitmap array bit bits =
    let x : PrioArray = record { bitmap = bitmap; queue = put p rest (array a).queue } in
    let stored : put a x array a ≡ x = put_self a x array in
    record {
      here = rw stored (put_self p rest (array a).queue);
      bit = rw stored bit;
      away = λ b q ne. elim (Bool-cases (b == a)) [
        | inr other ↦
            let same = put_ne a b x array other in
            (ap (λ y. y.queue q) same, ap (λ y. y.bitmap q) same)
        | inl e ↦
            let level : (q == p) ≡ false = ground arith in
            rw (==→eq b a e, stored) (put_ne p q rest (array a).queue level, bits q level)
      ];
    }

pub appended-Moved :
    (t a p : ℕ) (array : ℕ → PrioArray)
    → Moved a p ((array a).queue p ++ (t ∷ [])) array (put a (appended t p (array a)) array)
appended-Moved t a p array =
    moved a p ((array a).queue p ++ (t ∷ [])) (put p true (array a).bitmap) array
      (put_self p true (array a).bitmap ∙ sym (ap not (nil_append t ((array a).queue p))))
      (λ q ne. put_ne p q true (array a).bitmap ne)

module _ (task : ℕ → Task) (array : ℕ → PrioArray) (active : ℕ)
    (v : IsQueued task array active) where
  pub without-Moved :
      (t a p : ℕ)
      → Moved a p (erase_first t ((array a).queue p)) array (put a (without t p (array a)) array)
  without-Moved t a p =
      let rest : List ℕ = erase_first t ((array a).queue p) in
      moved a p rest (if is_nil rest then put p false (array a).bitmap else (array a).bitmap) array
        (elim (Bool-cases (is_nil rest)) [
          | inl none_left ↦ rw none_left (put_self p false (array a).bitmap)
          | inr some_left ↦
              rw some_left (v.bits a p ∙ ap not (nil_erase t ((array a).queue p) some_left))
        ])
        (λ q ne. elim (Bool-cases (is_nil rest)) [
          | inl none_left ↦ rw none_left (put_ne p q false (array a).bitmap ne)
          | inr some_left ↦ rw some_left refl
        ])

  pub Moved-bits :
      (a p : ℕ) (rest : List ℕ) (after : ℕ → PrioArray)
      → Moved a p rest array after
      → (b q : ℕ) → (after b).bitmap q ≡ not (is_nil ((after b).queue q))
  Moved-bits a p rest after m b q = elim (Bool-cases ((b == a) && (q == p))) [
    | inl here ↦
        let ba : b ≡ a = ground arith in let qp : q ≡ p = ground arith in rw (ba, qp, m.here) m.bit
    | inr ne ↦ (m.away b q ne).1 ∙ v.bits b q ∙ sym (ap (λ xs. not (is_nil xs)) (m.away b q ne).0)
  ]

  -- The count of every task in every queue, from that of the queue that changed.
  pub Moved-listed :
      (a p t : ℕ) (rest : List ℕ) (after : ℕ → PrioArray) (x : Task)
      → Moved a p rest array after
      → ((u : ℕ) → count u rest ≡ (if is_at a p (put t x task u) then 1 else 0))
      → ((b q : ℕ) → ((b == a) && (q == p)) ≡ false → is_at b q x ≡ is_at b q (task t))
      → (b q u : ℕ) → count u ((after b).queue q) ≡ (if is_at b q (put t x task u) then 1 else 0)
  Moved-listed a p t rest after x m counts same b q u = elim (Bool-cases ((b == a) && (q == p))) [
    | inl here ↦
        let ba : b ≡ a = ground arith in
        let qp : q ≡ p = ground arith in rw (ba, qp, m.here) (counts u)
    | inr ne ↦ rw (m.away b q ne).0 (elim (Bool-cases (u == t)) [
      | inr other ↦ rw other (v.listed b q u)
      | inl e ↦
          rw e
            (v.listed b q u ∙ rw (==→eq u t e) (ap (λ c. if c then 1 else 0) (sym (same b q ne))))
    ])
  ]
