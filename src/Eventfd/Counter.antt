-- ===== src/Eventfd/Counter.antt =====
-- What goes into a counter comes out of it, and when reads and writes wait.
use bleed_kernel.Common.{
  ℕ, zero, suc, ◌+◌, ◌-◌, ◌≤◌, ◌<◌, ◌≡◌, ◌≢◌, refl, ◌∙◌, ◌↔◌, Bool, true, false, not, none, some,
  List, [], ◌∷◌, if◌then◌else◌, ◌==◌, arith, replicate, All, Result, ok, err, eagain, lt→ltb, Turn,
  returns, again, waits, Blocking, block_on,
}
use Prim.Native.Nat.{bit_and}
use bleed_kernel.Eventfd.Calls.{
  count_max, EvFd, ev_writable, EvReply, ev_read_round, ev_write_round, ev_write_loop, ev_poll,
  efd_flags, efd_semaphore, efd_nonblock, install, eventfd_create,
}

-- The counter never passes COUNT_MAX.
abbrev pub Bounded : EvFd → Type 0
Bounded e = e.count ≤ count_max

-- A round of a read, or of a write of a value.
pub data EvEvent : Type 0 where
  takes : EvEvent
  puts : ℕ → EvEvent

-- What a round has taken or put in by its own account, and the counter behind it.
abbrev pub ev_taken : Turn EvFd EvReply → ℕ × EvFd
ev_taken (returns (r, some v, e)) = (v, e)
ev_taken (returns (r, none, e)) = (0, e)
ev_taken (again e) = (0, e)
ev_taken (waits e) = (0, e)

abbrev pub ev_given : ℕ → Turn EvFd (Result ℕ × EvFd) → ℕ × EvFd
ev_given v (returns (ok n, e)) = (v, e)
ev_given v (returns (err eno, e)) = (0, e)
ev_given v (again e) = (0, e)
ev_given v (waits e) = (0, e)

unfoldable pub ev_step : EvEvent → EvFd → ℕ × ℕ × EvFd
ev_step takes e = let (n, e') = ev_taken (ev_read_round e) in (n, 0, e')
ev_step (puts v) e = let (n, e') = ev_given v (ev_write_round v e) in (0, n, e')

unfoldable pub ev_run : List EvEvent → EvFd → ℕ × ℕ × EvFd
ev_run [] e = (0, 0, e)
ev_run (x ∷ xs) e =
    let (taken, given, e') = ev_step x e in
    let (taken', given', e'') = ev_run xs e' in (taken + taken', given + given', e'')

abbrev pub EvConserves : EvFd → ℕ × ℕ × EvFd → Type 0
EvConserves e (taken, given, e') =
    (e.count + given ≡ taken + e'.count) × Bounded e' × (e'.semaphore ≡ e.semaphore)

ev_step-EvConserves : (x : EvEvent) (e : EvFd) → Bounded e → EvConserves e (ev_step x e)
unfolding ev_step ev_read_round ev_write_round
ev_step-EvConserves takes e b = ground (arith)
ev_step-EvConserves (puts v) e b = ground (arith)

-- Whatever order the rounds of any number of reads and writes are made in, the count at the start and
-- what was written is what was read and the count at the end, and the count never passes COUNT_MAX.
pub ev_run-EvConserves : (xs : List EvEvent) (e : EvFd) → Bounded e → EvConserves e (ev_run xs e)
unfolding ev_run
ev_run-EvConserves [] e b = (omega arith, b, refl)
ev_run-EvConserves (x ∷ xs) e b =
    let first = ev_step-EvConserves x e b in
    let rest = ev_run-EvConserves xs ((ev_step x e).2) first.1 in
    (omega (arith, first.0, rest.0), rest.1, rest.2 ∙ first.2)

abbrev pub TakesOne : EvFd → ℕ × ℕ × EvFd → Type 0
TakesOne e (taken, given, e') = (taken ≡ 1) × (e'.count ≡ e.count - 1) × (e'.semaphore ≡ true)

ev_step-TakesOne :
    (e : EvFd) → Bounded e → e.semaphore ≡ true → 0 < e.count → TakesOne e (ev_step takes e)
unfolding ev_step ev_read_round
ev_step-TakesOne e b s some_there = ground arith

-- A semaphore with `n` or more in it gives 1 to each of `n` reads, and loses exactly as much.
pub ev_run_semaphore :
    (n : ℕ) (e : EvFd)
    → Bounded e
    → e.semaphore ≡ true
    → n ≤ e.count
    → ((ev_run (replicate n takes) e).0 ≡ n)
      × ((ev_run (replicate n takes) e).2.count ≡ e.count - n)
unfolding ev_run
ev_run_semaphore zero e b s le = (refl, omega arith)
ev_run_semaphore (suc n) e b s le =
    let one = ev_step-TakesOne e b s (omega arith) in
    let rest =
      ev_run_semaphore n (ev_step takes e).2 (omega (arith, one.1)) one.2 (omega (arith, one.1)) in
    (omega (arith, one.0, rest.0), omega (arith, one.1, rest.1))

-- A pause that nobody uses before the counter is asked about: block_on runs with interrupts off, and
-- the others run only if the call sleeps.
abbrev pub Alone : Blocking EvFd → Type 0
Alone b = (b.interrupted ≡ false) × ((e : EvFd) → b.meanwhile e ≡ e)

ev_write_round_full :
    (v : ℕ) (e : EvFd)
    → e.nonblock ≡ false
    → e.count < count_max
    → count_max < e.count + v
    → ev_write_round v e ≡ waits e
unfolding ev_write_round
ev_write_round_full v e nb below big = ground arith

block_on-Alone :
    (b : Blocking EvFd) (e : EvFd)
    → Alone b
    → e.count < count_max
    → block_on (λ x. (ev_writable x, x)) b e ≡ ok e
unfolding block_on ev_writable
block_on-Alone b e alone below = rw (alone.0, alone.1 e, lt→ltb e.count count_max below) refl

-- A blocking write of a value that does not fit into a counter below COUNT_MAX never sleeps: it goes
-- round and round, whatever the others would do if it slept, however often.
pub ev_write_loop_spins :
    (pauses : List (Blocking EvFd)) (v : ℕ) (e : EvFd)
    → All Alone pauses
    → e.nonblock ≡ false
    → e.count < count_max
    → count_max < e.count + v
    → ev_write_loop pauses v e ≡ none
unfolding ev_write_loop
ev_write_loop_spins [] v e alone nb below big =
    rw (ev_write_loop, ev_write_round_full v e nb below big) refl
ev_write_loop_spins (b ∷ rest) v e alone nb below big =
    rw (ev_write_loop, ev_write_round_full v e nb below big, block_on-Alone b e alone.0 below)
      (ev_write_loop_spins rest v e alone.1 nb below big)

-- Whether a round waits, or fails with -EAGAIN.
abbrev pub IsAgain : Result ℕ → Type 0
IsAgain (ok n) = ⊥
IsAgain (err eno) = eno ≡ eagain

abbrev pub EvWaits : {A : Type 0} → (A → Result ℕ) → Turn EvFd A → Type 0
EvWaits result (returns a) = IsAgain (result a)
EvWaits result (again e) = ⊥
EvWaits result (waits e) = Unit

-- ev_poll reports POLLIN exactly if a read would not have to wait, and POLLOUT exactly if a write of 1
-- would not; a counter that is bounded is always ready for one of them.
pub ev_poll_ready :
    (e : EvFd)
    → Bounded e
    → ((bit_and (ev_poll e) 1 ≡ 0) ↔ EvWaits (λ r. r.0) (ev_read_round e))
      × ((bit_and (ev_poll e) 4 ≡ 0) ↔ EvWaits (λ r. r.0) (ev_write_round 1 e))
      × (ev_poll e ≢ 0)
unfolding ev_poll ev_read_round ev_write_round
ev_poll_ready e b = ground arith

-- What a new counter holds: `fd` and the flags as asked for, and the start value, which the first read
-- gives back, as 1 if it is a semaphore.
abbrev pub IsNew : ℕ → ℕ → ℕ → Result (ℕ × EvFd × Bool) → Type 0
IsNew fd initval flags (ok (fd', e, cloexec)) =
    let (got, e') = ev_taken (ev_read_round e) in
    (fd' ≡ fd)
    × Bounded e
    × (got ≡ (if e.semaphore then 1 else initval))
    × (e'.count ≡ initval - got)
    × (e.semaphore ≡ not (bit_and flags efd_semaphore == 0))
    × (e.nonblock ≡ not (bit_and flags efd_nonblock == 0))
IsNew fd initval flags (err eno) = ⊥

-- A call of eventfd_create with known flags and a start from 1 to COUNT_MAX, in which memory and
-- descriptor are there, gives a counter whose first read gives the start back, or 1 of it if it is a
-- semaphore.
pub eventfd_create-IsNew :
    (fd initval flags : ℕ)
    → bit_and flags efd_flags ≡ flags
    → 0 < initval
    → initval ≤ count_max
    → IsNew fd initval flags (eventfd_create true true (ok fd) initval flags)
unfolding eventfd_create install ev_read_round
eventfd_create-IsNew fd initval flags known some_there le =
    let fits : (bit_and flags efd_flags == flags) ≡ true = ground (arith, known) in
    rw (fits, IsNew) (ground arith)
