-- ===== src/Futex/Tests.antt =====
-- Concrete waiters: runs of the calls, and the theorems at them.
use bleed_kernel.Common.{
  ◌≡◌, refl, true, false, none, some, [], ◌∷◌, if◌then◌else◌, ◌==◌, arith, ok, pos,
}
use bleed_kernel.Futex.Waiters.{
  Key, Futexes, bucket_of, take_loop, wake_key, key_eq, matches, waiter_link,
}
use bleed_kernel.Futex.Calls.{Space, futex_key, futex_wait, futex_wake, futex_requeue, move_key}
use bleed_kernel.Futex.Selection.{Wakes, wake_key-Wakes}
use bleed_kernel.Futex.Handshake.{IsReached, entered, futex_wait-wake_key}

-- Every address is good, and no page is shared.
abbrev own : Space
own = record { ptr_valid = λ a. true; page_map = 8192; pte = λ a. none }

abbrev key_a : Key
key_a = record { space = 8192; addr = 64 }

-- Three waiters at one address.
abbrev three : Futexes
three = record {
  waiter = λ id. record { key = key_a; bitset = 3; woken = false };
  buckets = λ b. if b == 18 then 1 ∷ 2 ∷ 3 ∷ [] else [];
}

bucket_of_a : bucket_of key_a ≡ 18
unfolding bucket_of
bucket_of_a = refl

futex_wake_two : (futex_wake own 64 (pos 2) 1 true three).0 ≡ ok 2
unfolding futex_wake futex_key wake_key take_loop matches key_eq bucket_of
futex_wake_two = refl

futex_wake_none : (futex_wake own 64 (pos 2) 4 true three).0 ≡ ok 0
unfolding futex_wake futex_key wake_key take_loop matches key_eq bucket_of
futex_wake_none = refl

futex_requeue_all : (futex_requeue own 64 128 (pos 1) (pos 5) true (some 7) 7 true three).0 ≡ ok 3
unfolding futex_requeue futex_key wake_key take_loop matches key_eq bucket_of move_key
futex_requeue_all = refl

wake_key-Wakes_example :
    Wakes key_a 2 1 three (wake_key key_a 2 1 three).0 (wake_key key_a 2 1 three).1
wake_key-Wakes_example = wake_key-Wakes key_a 2 1 three

abbrev woken_late : Futexes → Futexes
woken_late t = t

own_key : futex_key own 64 true ≡ some key_a
unfolding futex_key
own_key = refl

-- Another waiter comes to the same address, and is the first in line.
abbrev second : Futexes → Futexes
second t = waiter_link 7 (entered 7 key_a 3 t)

nine-IsReached : IsReached key_a 2 2 9 (second (waiter_link 9 (entered 9 key_a 3 three)))
unfolding waiter_link bucket_of matches key_eq
nine-IsReached = record {
  ahead = 7 ∷ [];
  behind = 1 ∷ 2 ∷ 3 ∷ [];
  bucket = refl;
  few = omega arith;
  match = refl;
}

futex_wait-wake_key_example :
    IsReached key_a 2 2 9 (waiter_link 9 (entered 9 key_a 3 three))
    × ((futex_wait own 9 64
          (some 5)
          5
          3
          true
          (record {
            meanwhile = λ t. woken_late (wake_key key_a 2 2 (second t)).1;
            timed = true;
            passed = true;
          })
          three).0
        ≡ ok 0)
futex_wait-wake_key_example =
    futex_wait-wake_key own 9 64 5 3 2 2 true key_a second woken_late true true three refl own_key
      (omega arith) refl nine-IsReached (λ t on. on)
