-- ===== src/Futex/Waiters.antt =====
-- kernel/src/sched/futex.c: keys, waiters, and the lists of waiters.
use bleed_kernel.Common.{
  erase_first, ℕ, ◌+◌, ◌/◌, ◌%◌, Bool, true, not, ◌&&◌, List, [], ◌∷◌, if◌then◌else◌, ltb, ◌==◌,
  length,
}
use Prim.Native.Nat.{bit_and, bit_xor}

-- FUTEX_BUCKETS
abbrev pub futex_buckets : ℕ
futex_buckets = 64

-- `futex_key_t`
pub record Key : Type 0 where
  pub space : ℕ
  pub addr : ℕ

-- `futex_waiter_t`; `prev` and `next` are in the lists below.
pub record Waiter : Type 0 where
  pub key : Key
  pub bitset : ℕ
  pub woken : Bool

-- The waiters by their address, on the stacks of the calls that wait, and `buckets`.
pub record Futexes : Type 0 where
  pub waiter : ℕ → Waiter
  pub buckets : ℕ → List ℕ

-- A store to a waiter, and to a bucket.
abbrev pub put_waiter : ℕ → Waiter → (ℕ → Waiter) → ℕ → Waiter
put_waiter id w heap at = if at == id then w else heap at

abbrev pub put_bucket : ℕ → List ℕ → (ℕ → List ℕ) → ℕ → List ℕ
put_bucket b ids buckets at = if at == b then ids else buckets at

-- bucket_of: the index of a key's bucket.
unfoldable pub bucket_of : Key → ℕ
bucket_of k =
    let h = bit_xor (k.addr / 4) (k.space / 4096) in bit_xor h (h / 131072) % futex_buckets

-- key_eq
unfoldable pub key_eq : Key → Key → Bool
key_eq a b = a.space == b.space && a.addr == b.addr

-- waiter_link: at the head of the bucket of its key.
unfoldable pub waiter_link : ℕ → Futexes → Futexes
waiter_link id s =
    let b = bucket_of (s.waiter id).key in
    record s { buckets = put_bucket b (id ∷ s.buckets b) s.buckets }

-- waiter_unlink
unfoldable pub waiter_unlink : ℕ → Futexes → Futexes
waiter_unlink id s =
    let b = bucket_of (s.waiter id).key in
    record s { buckets = put_bucket b (erase_first id (s.buckets b)) s.buckets }

-- Whether wake_key takes a waiter: its key, and a bit in common.
unfoldable pub matches : Key → ℕ → Waiter → Bool
matches key bitset w = key_eq w.key key && not (bit_and w.bitset bitset == 0)

-- A loop over a bucket that takes out those waiters that `p` holds of, `limit` of them at most: the list
-- that stays, and those taken, in order. `next` is read before a waiter is taken out.
unfoldable pub take_loop : (ℕ → Bool) → ℕ → ℕ → List ℕ → List ℕ × List ℕ
take_loop p limit taken [] = ([], [])
take_loop p limit taken (x ∷ xs) =
    let with_x = take_loop p limit (taken + 1) xs in
    let without_x = take_loop p limit taken xs in
    if not (ltb taken limit)
    then (x ∷ xs, [])
    else if p x
    then (with_x.0, x ∷ with_x.1)
    else (x ∷ without_x.0, without_x.1)

abbrev pub wake_all : List ℕ → (ℕ → Waiter) → ℕ → Waiter
wake_all [] heap = heap
wake_all (x ∷ xs) heap = wake_all xs (put_waiter x (record (heap x) { woken = true }) heap)

-- wake_key: what a taken waiter loses is its place in the list, and its call is woken.
unfoldable pub wake_key : Key → ℕ → ℕ → Futexes → ℕ × Futexes
wake_key key count bitset s =
    let b = bucket_of key in
    let (stay, taken) = take_loop (λ id. matches key bitset (s.waiter id)) count 0 (s.buckets b) in
    (
      length taken,
      record { waiter = wake_all taken s.waiter; buckets = put_bucket b stay s.buckets },
    )
