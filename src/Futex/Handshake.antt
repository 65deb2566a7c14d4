-- ===== src/Futex/Handshake.antt =====
-- Waiting and waking: a waiter that is on its list cannot miss the wake that comes for it.
use bleed_kernel.Common.{
  erase_first, ◌+◌, List, [], ◌∷◌, ◌++◌, ℕ, ◌<◌, ◌≡◌, refl, sym, ap, inl, inr, Bool, true, false,
  not, ◌&&◌, some, if◌then◌else◌, ltb, ◌==◌, Bool-cases, arith, ok, err, eintr, etimedout, lt→ltb,
  ==→eq,
}
use Prim.Native.Nat.{bit_and}
use bleed_kernel.Futex.Waiters.{
  Key, Waiter, Futexes, wake_all, bucket_of, put_waiter, take_loop, wake_key, matches, key_eq,
  waiter_link, waiter_unlink,
}
use bleed_kernel.Futex.Calls.{Space, futex_key, futex_wait}
use bleed_kernel.Futex.Selection.{count_of, wake_all_keeps}

-- The state in which a call of futex_wait goes to sleep.
abbrev pub entered : ℕ → Key → ℕ → Futexes → Futexes
entered id key bitset s = record s {
  waiter = put_waiter id (record { key = key; bitset = bitset; woken = false }) s.waiter;
}

-- The test of a waiter: it has the key, and a bit in common with the wake.
abbrev pub answers : Key → ℕ → Waiter → Bool
answers key bits w = key_eq w.key key && not (bit_and w.bitset bits == 0)

-- A wake of `count` waiters with the key and a common bit gets to the waiter: it is in the bucket, and so few
-- of those before it match that it is one of the first `count`.
pub record IsReached (key : Key) (count bits id : ℕ) (t : Futexes) : Type 0 where
  pub ahead : List ℕ
  pub behind : List ℕ
  pub bucket : t.buckets (bucket_of key) ≡ ahead ++ (id ∷ behind)
  pub few : count_of (λ x. answers key bits (t.waiter x)) ahead < count
  pub match : answers key bits (t.waiter id) ≡ true

take_loop_takes :
    (p : ℕ → Bool) (limit n id : ℕ) (ahead behind : List ℕ)
    → n + count_of p ahead < limit
    → p id ≡ true
    → 0 < count_of (λ x. x == id) (take_loop p limit n (ahead ++ (id ∷ behind))).1
unfolding take_loop
take_loop_takes p limit n id [] behind few yes_p =
    let room : ltb n limit ≡ true = lt→ltb n limit (omega (arith, few)) in
    let here : (id == id) ≡ true = ground arith in rw (room, yes_p, here) (omega arith)
take_loop_takes p limit n id (x ∷ xs) behind few yes_p =
    let room : ltb n limit ≡ true = lt→ltb n limit (omega (arith, few)) in
    elim (Bool-cases (p x)) [
      | inl on ↦
          let more : n + 1 + count_of p xs < limit = omega (arith, rw on at few) in
          rw (room, on) (omega (arith, take_loop_takes p limit (n + 1) id xs behind more yes_p))
      | inr off ↦
          let more : n + count_of p xs < limit = omega (arith, rw off at few) in
          rw (room, off) (take_loop_takes p limit n id xs behind more yes_p)
    ]

wake_all_member :
    (xs : List ℕ) (heap : ℕ → Waiter) (id : ℕ)
    → 0 < count_of (λ x. x == id) xs
    → (wake_all xs heap id).woken ≡ true
wake_all_member [] heap id there = absurd (omega (arith, there))
wake_all_member (x ∷ xs) heap id there =
    let next : ℕ → Waiter = put_waiter x (record (heap x) { woken = true }) heap in
    elim (Bool-cases (x == id)) [
      | inl e ↦
          let back : (id == x) ≡ true = ground arith in wake_all_keeps xs next id (rw back refl)
      | inr ne ↦ wake_all_member xs next id (omega (arith, rw ne at there))
    ]

IsReached-woken :
    (key : Key) (count bits id : ℕ) (t : Futexes)
    → IsReached key count bits id t
    → ((wake_key key count bits t).1.waiter id).woken ≡ true
unfolding wake_key matches
IsReached-woken key count bits id t r =
    let p : ℕ → Bool = λ x. matches key bits (t.waiter x) in
    wake_all_member (take_loop p count 0 (t.buckets (bucket_of key))).1 t.waiter id
      (rw r.bucket (take_loop_takes p count 0 id r.ahead r.behind (omega (arith, r.few)) r.match))

key_eq_refl : (key : Key) → key_eq key key ≡ true
unfolding key_eq
key_eq_refl key = ground arith

linked-IsReached :
    (id count bitset bits : ℕ) (key : Key) (s : Futexes)
    → 0 < count
    → (bit_and bitset bits == 0) ≡ false
    → IsReached key count bits id (waiter_link id (entered id key bitset s))
unfolding waiter_link
linked-IsReached id count bitset bits key s some_count common =
    let here : (id == id) ≡ true = ground arith in
    let there : (bucket_of key == bucket_of key) ≡ true = ground arith in
    record {
      ahead = [];
      behind = s.buckets (bucket_of key);
      bucket = rw (here, there) refl;
      few = some_count;
      match = rw (here, key_eq_refl key, common) refl;
    }

-- A wait that finds the value it expects, at a good address, goes to sleep where a wake of its address with a
-- common bit, for one waiter at least, gets to it. Others may link and act before the wake comes: if it still
-- gets to the waiter, which is in the bucket with fewer matching waiters before it than the wake's count, then
-- the wait returns 0, whatever happens after the wake and before the waiter runs, as long as it leaves the
-- waiter woken.
pub futex_wait-wake_key :
    (m : Space) (id uaddr val bitset count bits : ℕ) (priv : Bool) (key : Key)
    (before later : Futexes → Futexes) (timed passed : Bool) (s : Futexes)
    → (bitset == 0) ≡ false
    → futex_key m uaddr priv ≡ some key
    → 0 < count
    → (bit_and bitset bits == 0) ≡ false
    → IsReached key count bits id (before (waiter_link id (entered id key bitset s)))
    → ((t : Futexes) → (t.waiter id).woken ≡ true → ((later t).waiter id).woken ≡ true)
    → IsReached key count bits id (waiter_link id (entered id key bitset s))
      × ((futex_wait m id uaddr
            (some val)
            val
            bitset
            priv
            (record {
              meanwhile = λ t. later (wake_key key count bits (before t)).1;
              timed = timed;
              passed = passed;
            })
            s).0
          ≡ ok 0)
unfolding futex_wait
futex_wait-wake_key m id uaddr val bitset count bits priv key before later timed passed s bits_there
      known some_count common reached keeps =
    let same : (val == val) ≡ true = ground arith in
    let asleep : Futexes = before (waiter_link id (entered id key bitset s)) in
    (
      linked-IsReached id count bitset bits key s some_count common,
      rw
          (
            bits_there,
            known,
            same,
            keeps (wake_key key count bits asleep).1
                (IsReached-woken key count bits id asleep reached),
          )
          refl,
    )

-- A wait that nobody wakes gives -ETIMEDOUT or -EINTR, and leaves every list as it was.
pub futex_wait_alone :
    (m : Space) (id uaddr val bitset : ℕ) (priv : Bool) (key : Key) (timed passed : Bool)
    (s : Futexes)
    → (bitset == 0) ≡ false
    → futex_key m uaddr priv ≡ some key
    → ((futex_wait m id uaddr
          (some val)
          val
          bitset
          priv
          (record { meanwhile = λ t. t; timed = timed; passed = passed })
          s).0
        ≡ (if timed && passed then err etimedout else err eintr))
      × ((b : ℕ)
          → (futex_wait m id uaddr
                (some val)
                val
                bitset
                priv
                (record { meanwhile = λ t. t; timed = timed; passed = passed })
                s).1.buckets
              b
            ≡ s.buckets b)
unfolding futex_wait waiter_link waiter_unlink erase_first
futex_wait_alone m id uaddr val bitset priv key timed passed s bits_there known =
    let same : (val == val) ≡ true = ground arith in
    let here : (id == id) ≡ true = ground arith in
    let there : (bucket_of key == bucket_of key) ≡ true = ground arith in
    rw (bits_there, known, same, here, there, here)
      (
        refl,
        λ b. elim (Bool-cases (b == bucket_of key)) [
          | inl e ↦ rw e (ap s.buckets (sym (==→eq b (bucket_of key) e)))
          | inr ne ↦ rw ne refl
        ],
      )
