-- ===== src/Futex/Selection.antt =====
-- Which waiters a loop over a bucket takes, and what it leaves.
use bleed_kernel.Common.{
  ℕ, ◌+◌, ◌-◌, ◌≡◌, refl, ◌∙◌, inl, inr, Bool, true, false, List, [], ◌∷◌, if◌then◌else◌, ltb, ◌==◌,
  Bool-cases, arith, length, All, min, ltb→lt, ltb_false→le, ==→eq,
}
use bleed_kernel.Futex.Waiters.{
  Key, Waiter, Futexes, bucket_of, put_waiter, take_loop, wake_all, wake_key, matches,
}

-- The waiters that `p` holds of.
abbrev pub count_of : (ℕ → Bool) → List ℕ → ℕ
count_of p [] = 0
count_of p (x ∷ xs) = (if p x then 1 else 0) + count_of p xs

-- `xs` is `stay` and `taken`, merged in order.
pub data Merged : List ℕ → List ℕ → List ℕ → Type 0 where
  done : (xs : List ℕ) → Merged xs [] xs
  stays : (x : ℕ) (stay taken xs : List ℕ) → Merged stay taken xs → Merged (x ∷ stay) taken (x ∷ xs)
  goes : (x : ℕ) (stay taken xs : List ℕ) → Merged stay taken xs → Merged stay (x ∷ taken) (x ∷ xs)

abbrev pub Holds : (ℕ → Bool) → ℕ → Type 0
Holds p x = p x ≡ true

-- A loop with room for `limit - n` more takes the first ones that `p` holds of, in order, as many as
-- there are and there is room for, and leaves the others in order.
abbrev pub Takes : (ℕ → Bool) → ℕ → List ℕ → List ℕ × List ℕ → Type 0
Takes p room xs (stay, taken) =
    Merged stay taken xs
    × All (Holds p) taken
    × (length taken ≡ min room (count_of p xs))
    × (count_of p stay ≡ count_of p xs - room)

pub take_loop-Takes :
    (p : ℕ → Bool) (limit n : ℕ) (xs : List ℕ) → Takes p (limit - n) xs (take_loop p limit n xs)
unfolding take_loop
take_loop-Takes p limit n [] = (done [], tt, omega arith, omega arith)
take_loop-Takes p limit n (x ∷ xs) =
    let taken = take_loop-Takes p limit (n + 1) xs in
    let passed = take_loop-Takes p limit n xs in
    elim (Bool-cases (ltb n limit)) [
      | inr full ↦ rw full (
        done _,
        tt,
        omega (arith, ltb_false→le n limit full),
        omega (arith, ltb_false→le n limit full),
      )
      | inl room ↦ elim (Bool-cases (p x)) [
        | inl here ↦
            rw (room, here)
              (
                goes x _ _ _ taken.0,
                (here, taken.1),
                omega (arith, ltb→lt n limit room, taken.2),
                omega (arith, ltb→lt n limit room, taken.3),
              )
        | inr other ↦
            rw (room, other)
              (
                stays x _ _ _ passed.0,
                passed.1,
                omega (arith, passed.2),
                rw other (omega (arith, passed.3, ltb→lt n limit room)),
              )
      ]
    ]

pub wake_all_keeps :
    (xs : List ℕ) (heap : ℕ → Waiter) (id : ℕ)
    → (heap id).woken ≡ true
    → (wake_all xs heap id).woken ≡ true
wake_all_keeps [] heap id on = on
wake_all_keeps (x ∷ xs) heap id on =
    wake_all_keeps xs (put_waiter x (record (heap x) { woken = true }) heap) id
      (elim (Bool-cases (id == x)) [ inl e ↦ rw e refl | inr ne ↦ rw ne on ])

wake_all_key :
    (xs : List ℕ) (heap : ℕ → Waiter) (id : ℕ)
    → ((wake_all xs heap id).key ≡ (heap id).key)
      × ((wake_all xs heap id).bitset ≡ (heap id).bitset)
wake_all_key [] heap id = (refl, refl)
wake_all_key (x ∷ xs) heap id =
    let next : ℕ → Waiter = put_waiter x (record (heap x) { woken = true }) heap in
    let same : ((next id).key ≡ (heap id).key) × ((next id).bitset ≡ (heap id).bitset) =
      elim (Bool-cases (id == x)) [
        | inl e ↦ let eq : id ≡ x = ==→eq id x e in rw (e, eq) (refl, refl)
        | inr ne ↦ rw ne (refl, refl)
      ] in
    let rest = wake_all_key xs next id in (rest.0 ∙ same.0, rest.1 ∙ same.1)

wake_all_woken :
    (xs : List ℕ) (heap : ℕ → Waiter) → All (λ id. (wake_all xs heap id).woken ≡ true) xs
wake_all_woken [] heap = tt
wake_all_woken (x ∷ xs) heap =
    let next : ℕ → Waiter = put_waiter x (record (heap x) { woken = true }) heap in
    let same : (x == x) ≡ true = ground arith in
    (wake_all_keeps xs next x (rw same refl), wake_all_woken xs next)

wake_all_others :
    (xs : List ℕ) (heap : ℕ → Waiter) (id : ℕ)
    → count_of (λ x. x == id) xs ≡ 0
    → wake_all xs heap id ≡ heap id
wake_all_others [] heap id absent = refl
wake_all_others (x ∷ xs) heap id absent = elim (Bool-cases (x == id)) [
  | inl e ↦ absurd (omega (arith, rw e at absent))
  | inr ne ↦
      let differs : (id == x) ≡ false = ground arith in
      wake_all_others xs (put_waiter x (record (heap x) { woken = true }) heap) id
        (omega (arith, rw ne at absent))
      ∙ rw differs refl
]

-- What wake_key does: `taken` are the waiters that it wakes.
pub record Wakes (key : Key) (count bitset : ℕ) (s : Futexes) (n : ℕ) (s' : Futexes) : Type 0 where
  pub taken : List ℕ
  pub number : n ≡ length taken
  pub enough :
      n ≡ min count (count_of (λ id. matches key bitset (s.waiter id)) (s.buckets (bucket_of key)))
  pub matching : All (Holds (λ id. matches key bitset (s.waiter id))) taken
  pub woken : All (λ id. (s'.waiter id).woken ≡ true) taken
  pub bucket : Merged (s'.buckets (bucket_of key)) taken (s.buckets (bucket_of key))
  pub other_buckets : (b : ℕ) → (b == bucket_of key) ≡ false → s'.buckets b ≡ s.buckets b
  pub other_waiters : (id : ℕ) → count_of (λ x. x == id) taken ≡ 0 → s'.waiter id ≡ s.waiter id

-- wake_key wakes as many waiters with the key and a common bit as there are, and `count` at most; it
-- takes them and no others out of their bucket, keeps the order of those that stay, and touches no
-- other bucket and no other waiter. It returns their number.
pub wake_key-Wakes :
    (key : Key) (count bitset : ℕ) (s : Futexes)
    → Wakes key count bitset s (wake_key key count bitset s).0 (wake_key key count bitset s).1
unfolding wake_key
wake_key-Wakes key count bitset s =
    let b : ℕ = bucket_of key in
    let p : ℕ → Bool = λ id. matches key bitset (s.waiter id) in
    let r : List ℕ × List ℕ = take_loop p count 0 (s.buckets b) in
    let all : Takes p (count - 0) (s.buckets b) r = take_loop-Takes p count 0 (s.buckets b) in
    let same : (b == b) ≡ true = ground arith in
    record {
      taken = r.1;
      number = refl;
      enough = omega (arith, all.2);
      matching = all.1;
      woken = wake_all_woken r.1 s.waiter;
      bucket = rw same all.0;
      other_buckets = λ c ne. rw ne refl;
      other_waiters = λ id absent. wake_all_others r.1 s.waiter id absent;
    }
