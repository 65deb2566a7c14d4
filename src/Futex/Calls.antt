-- ===== src/Futex/Calls.antt =====
-- kernel/src/sched/futex.c: the calls that wait, wake and move waiters.
use bleed_kernel.Common.{
  ℕ, ◌+◌, ◌-◌, ◌%◌, Bool, true, false, not, ◌&&◌, ◌||◌, Option, none, some, List, [], ◌∷◌,
  if◌then◌else◌, ◌==◌, length, Errno, Result, ok, err, eintr, eagain, efault, einval, etimedout, ℤ,
  pos, negsuc,
}
use Prim.Native.Nat.{bit_and, bit_or}
use bleed_kernel.Futex.Waiters.{
  Key, Waiter, Futexes, bucket_of, put_bucket, put_waiter, key_eq, take_loop, wake_key, waiter_link,
  waiter_unlink,
}

-- PADDR_ENTRY_MASK
abbrev pub paddr_mask : ℕ
paddr_mask = 4503599627366400

-- What futex_key asks of the rest of the kernel: user_ptr_valid, the task's page map, and the entry
-- that paging_get_page finds for a page (`none` if there is none), with PTE_PRESENT and PTE_SHARED.
pub record Space : Type 0 where
  pub ptr_valid : ℕ → Bool
  pub page_map : ℕ
  pub pte : ℕ → Option (ℕ × Bool × Bool)

-- futex_key
unfoldable pub futex_key : Space → ℕ → Bool → Option Key
futex_key m uaddr priv =
    let own : Key = record { space = bit_and m.page_map paddr_mask; addr = uaddr } in
    if not (uaddr % 4 == 0) || (not (m.ptr_valid uaddr) || not (m.ptr_valid (uaddr + 3)))
    then none
    else if priv
    then some own
    else elim (m.pte (uaddr - uaddr % 4096)) [
      | none ↦ some own
      | some entry ↦ some (
          if entry.1 && entry.2
          then record { space = 0; addr = bit_or (bit_and entry.0 paddr_mask) (uaddr % 4096) }
          else own)
    ]

-- What others do while the call of futex_wait sleeps, and whether the deadline has passed then.
pub record Sleep : Type 0 where
  pub meanwhile : Futexes → Futexes
  pub timed : Bool
  pub passed : Bool

-- futex_wait: `id` is the address of its waiter, `cur` the value that copy_from_user finds at uaddr.
unfoldable pub futex_wait :
    Space → ℕ → ℕ → Option ℕ → ℕ → ℕ → Bool → Sleep → Futexes → Result ℕ × Futexes
futex_wait m id uaddr cur val bitset priv sleep s =
    if bitset == 0 then (err einval, s) else elim (futex_key m uaddr priv) [
      | none ↦ (err einval, s)
      | some key ↦ elim cur [
        | none ↦ (err efault, s)
        | some now ↦
            if not (now == val)
            then (err eagain, s)
            else (let w : Waiter = record { key = key; bitset = bitset; woken = false } in
                let entered : Futexes = record s { waiter = put_waiter id w s.waiter } in
                let after = sleep.meanwhile (waiter_link id entered) in
                if (after.waiter id).woken then (ok 0, after) else (
                  if sleep.timed && sleep.passed then err etimedout else err eintr,
                  waiter_unlink id after,
                ))
      ]
    ]

-- futex_wake; `count` is an `int`.
unfoldable pub futex_wake : Space → ℕ → ℤ → ℕ → Bool → Futexes → Result ℕ × Futexes
futex_wake m uaddr (negsuc n) bitset priv s = if bitset == 0 then (err einval, s) else (ok 0, s)
futex_wake m uaddr (pos count) bitset priv s =
    if bitset == 0
    then (err einval, s)
    else if count == 0
    then (ok 0, s)
    else elim (futex_key m uaddr priv) [
      | none ↦ (err einval, s)
      | some key ↦ let (woken, s') = wake_key key count bitset s in (ok woken, s')
    ]

-- FUTEX_BITSET_MATCH_ANY
abbrev pub match_any : ℕ
match_any = 4294967295

-- The second loop of futex_requeue. `next` is read before a waiter goes to the head of its new bucket,
-- so that one that moves within the same bucket is not met again: the loop takes waiters out, and links
-- them with their new key.
unfoldable pub link_all : Key → List ℕ → Futexes → Futexes
link_all key [] s = s
link_all key (x ∷ xs) s =
    let rekeyed : Futexes = record s {
      waiter = put_waiter x (record (s.waiter x) { key = key }) s.waiter;
    } in
    link_all key xs (waiter_link x rekeyed)

unfoldable pub move_key : Key → Key → ℕ → Futexes → ℕ × Futexes
move_key key key2 requeue s =
    let b = bucket_of key in
    let (stay, moved) = take_loop (λ id. key_eq (s.waiter id).key key) requeue 0 (s.buckets b) in
    (length moved, link_all key2 moved (record s { buckets = put_bucket b stay s.buckets }))

-- The comparison of futex_requeue, where `cmp` asks for it.
abbrev pub compared : Bool → Option ℕ → ℕ → Option Errno
compared false cur val3 = none
compared true none val3 = some efault
compared true (some now) val3 = if now == val3 then none else some eagain

-- futex_requeue
unfoldable pub futex_requeue :
    Space → ℕ → ℕ → ℤ → ℤ → Bool → Option ℕ → ℕ → Bool → Futexes → Result ℕ × Futexes
futex_requeue m uaddr uaddr2 (negsuc n) requeue cmp cur val3 priv s = (err einval, s)
futex_requeue m uaddr uaddr2 (pos count) (negsuc n) cmp cur val3 priv s = (err einval, s)
futex_requeue m uaddr uaddr2 (pos count) (pos requeue) cmp cur val3 priv s =
    elim (futex_key m uaddr priv) [
      | none ↦ (err einval, s)
      | some key ↦ elim (futex_key m uaddr2 priv) [
        | none ↦ (err einval, s)
        | some key2 ↦ elim (compared cmp cur val3) [
          | some eno ↦ (err eno, s)
          | none ↦
              let (done, s') = wake_key key count match_any s in
              let (moved, s'') = move_key key key2 requeue s' in (ok (done + moved), s'')
        ]
      ]
    ]
