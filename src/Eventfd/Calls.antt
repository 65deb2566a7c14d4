-- ===== src/Eventfd/Calls.antt =====
-- kernel/src/fs/eventfd.c: `evfd_t` and the calls on it.
use bleed_kernel.Common.{
  ℕ, ◌+◌, Bool, not, Option, none, some, List, [], ◌∷◌, if◌then◌else◌, ltb, leb, ◌==◌, add64, sub64,
  Result, ok, err, eagain, enomem, efault, einval, enotty, Turn, returns, again, waits, Blocking,
  block_on,
}
use Prim.Native.Nat.{bit_and, bit_or}
use bleed_kernel.Pipe.Control.{Request, fionbio, set_flags, get_flags, other, UserArg, tty_nonblock}

-- COUNT_MAX
abbrev pub count_max : ℕ
count_max = 18446744073709551614

-- `evfd_t`. `wakes` counts the calls of sched_wake_queue on its wait queue.
pub record EvFd : Type 0 where
  pub count : ℕ
  pub semaphore : Bool
  pub nonblock : Bool
  pub wakes : ℕ

-- ev_readable and ev_writable
unfoldable pub ev_readable : EvFd → Bool
ev_readable e = ltb 0 e.count

unfoldable pub ev_writable : EvFd → Bool
ev_writable e = ltb e.count count_max

-- What a read returns: its result, the value it copies out, and the counter.
abbrev pub EvReply : Type 0
EvReply = Result ℕ × Option ℕ × EvFd

-- A round of ev_read.
unfoldable pub ev_read_round : EvFd → Turn EvFd EvReply
ev_read_round e =
    if not (e.count == 0)
    then (let v = if e.semaphore then 1 else e.count in
        returns (ok 8, some v, record e { count = sub64 e.count v; wakes = e.wakes + 1 }))
    else if e.nonblock
    then returns (err eagain, none, e)
    else waits e

-- The rounds of ev_read; `none` where the pauses run out.
unfoldable pub ev_read_loop : List (Blocking EvFd) → EvFd → Option EvReply
ev_read_loop [] e = elim (ev_read_round e) [
  | returns r ↦ some r
  | again e' ↦ none
  | waits e' ↦ none
]
ev_read_loop (b ∷ rest) e = elim (ev_read_round e) [
  | returns r ↦ some r
  | again e' ↦ none
  | waits e' ↦ elim (block_on (λ x. (ev_readable x, x)) b e') [
    | err eno ↦ some (err eno, none, e')
    | ok next ↦ ev_read_loop rest next
  ]
]

-- ev_read; a `uint64_t` has eight bytes.
unfoldable pub ev_read : List (Blocking EvFd) → ℕ → EvFd → Option EvReply
ev_read pauses size e = if ltb size 8 then some (err einval, none, e) else ev_read_loop pauses e

-- A round of ev_write.
unfoldable pub ev_write_round : ℕ → EvFd → Turn EvFd (Result ℕ × EvFd)
ev_write_round v e =
    if leb v (sub64 count_max e.count)
    then (let e' = record e { count = add64 e.count v } in
        returns (ok 8, if not (v == 0) then record e' { wakes = e'.wakes + 1 } else e'))
    else if e.nonblock
    then returns (err eagain, e)
    else waits e

unfoldable pub ev_write_loop : List (Blocking EvFd) → ℕ → EvFd → Option (Result ℕ × EvFd)
ev_write_loop [] v e = elim (ev_write_round v e) [
  | returns r ↦ some r
  | again e' ↦ none
  | waits e' ↦ none
]
ev_write_loop (b ∷ rest) v e = elim (ev_write_round v e) [
  | returns r ↦ some r
  | again e' ↦ none
  | waits e' ↦ elim (block_on (λ x. (ev_writable x, x)) b e') [
    | err eno ↦ some (err eno, e')
    | ok next ↦ ev_write_loop rest v next
  ]
]

-- ev_write of the value `v` that is read from the user's `size` bytes.
unfoldable pub ev_write : List (Blocking EvFd) → ℕ → ℕ → EvFd → Option (Result ℕ × EvFd)
ev_write pauses size v e =
    if ltb size 8
    then some (err einval, e)
    else if v == 18446744073709551615
    then some (err einval, e)
    else ev_write_loop pauses v e

-- ev_poll, with POLLIN and POLLOUT written out.
unfoldable pub ev_poll : EvFd → ℕ
ev_poll e = bit_or (if not (e.count == 0) then 1 else 0) (if ltb e.count count_max then 4 else 0)

-- EFD_SEMAPHORE, EFD_NONBLOCK, EFD_CLOEXEC
abbrev pub efd_semaphore : ℕ
efd_semaphore = 1

abbrev pub efd_nonblock : ℕ
efd_nonblock = 2048

abbrev pub efd_cloexec : ℕ
efd_cloexec = 524288

abbrev pub efd_flags : ℕ
efd_flags = 526337

-- install: the new descriptor carries `contents` and the flag; `memory` tells whether the two allocations
-- succeed, and `install_fd` is what vfs_install returns.
unfoldable pub install {ℓ} : {A : Type ℓ} → Bool → Result ℕ → A → Bool → Result (ℕ × A × Bool)
install memory install_fd contents cloexec =
    if not memory
    then err enomem
    else elim install_fd [ ok fd ↦ ok (fd, contents, cloexec) | err eno ↦ err eno ]

-- eventfd_create; `room` tells whether its kmalloc succeeds. `flags & ~mask` is zero exactly where
-- `flags & mask` is `flags`.
unfoldable pub eventfd_create : Bool → Bool → Result ℕ → ℕ → ℕ → Result (ℕ × EvFd × Bool)
eventfd_create room memory install_fd initval flags =
    if not (bit_and flags efd_flags == flags)
    then err einval
    else if not room
    then err enomem
    else (let e : EvFd = record {
      count = initval;
      semaphore = not (bit_and flags efd_semaphore == 0);
      nonblock = not (bit_and flags efd_nonblock == 0);
      wakes = 0;
    } in
        install memory install_fd e (not (bit_and flags efd_cloexec == 0)))

-- nonblock_ioctl on the flag of a descriptor: the result, what goes to the user, and the flag.
unfoldable pub nonblock_ioctl : Request → UserArg → Bool → Result ℕ × Option ℕ × Bool
nonblock_ioctl request arg nonblock =
    if not arg.present then (err einval, none, nonblock) else elim request [
      | fionbio ↦ elim arg.value [
        | none ↦ (err efault, none, nonblock)
        | some on ↦ (ok 0, none, not (on == 0))
      ]
      | set_flags ↦ elim arg.value [
        | none ↦ (err efault, none, nonblock)
        | some flags ↦ (ok 0, none, not (bit_and flags tty_nonblock == 0))
      ]
      | get_flags ↦
          if arg.writable
          then (ok 0, some (if nonblock then tty_nonblock else 0), nonblock)
          else (err efault, none, nonblock)
      | other ↦ (err enotty, none, nonblock)
    ]

-- ev_ioctl
unfoldable pub ev_ioctl : Request → UserArg → EvFd → Result ℕ × Option ℕ × EvFd
ev_ioctl request arg e =
    let (r, out, on) = nonblock_ioctl request arg e.nonblock in (r, out, record e { nonblock = on })
