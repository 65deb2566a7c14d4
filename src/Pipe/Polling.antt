-- ===== src/Pipe/Polling.antt =====
-- poll, ioctl and the life of a pipe: what they promise about the calls that follow.
use bleed_kernel.Common.{
  ℕ, zero, suc, ◌+◌, ◌<◌, ◌≡◌, ◌≢◌, refl, sym, ◌∙◌, inl, inr, Bool, true, false, not, none, some,
  List, [], if◌then◌else◌, ◌==◌, arith, length, take, length-replicate, min, Result, ok, err,
  eagain, epipe, is_zero, pos,
}
use mathlib.Core.Bool.{false≢true}
use Prim.Native.Nat.{bit_and}
use bleed_kernel.Pipe.State.{PipeState, Turn, returns, again, waits, buffer_size, wake}
use bleed_kernel.Pipe.Ring.{ring, contents, IsValid}
use bleed_kernel.Pipe.Read.{Reply, read_turn}
use bleed_kernel.Pipe.Write.{Writing, write_turn, copied_or}
use bleed_kernel.Pipe.Turns.{
  ReadTurn, got, hung_up, would_block, blocks, read_turn-ReadTurn, broken, finished, filled,
  write_turn-WriteTurn,
}
use bleed_kernel.Pipe.Control.{
  read_poll, write_poll, pollout, pollerr, tty_nonblock, set_flags, get_flags, UserArg, flags_ioctl,
  nonblock_of, Mode, rdonly, wronly, PipeFile, fresh, create_file_pair, Memory, kept, freed,
  file_release,
}

-- Whether a round of a read would have to wait: it sleeps, or fails with -EAGAIN.
abbrev pub ReadWaits : Turn PipeState Reply → Type 0
ReadWaits (returns (ok n, out, p)) = ⊥
ReadWaits (returns (err e, out, p)) = e ≡ eagain
ReadWaits (again p) = ⊥
ReadWaits (waits p) = Unit

abbrev pub ReadReturns : Turn PipeState Reply → Type 0
ReadReturns (returns (ok n, out, p)) = Unit
ReadReturns (returns (err e, out, p)) = ⊥
ReadReturns (again p) = ⊥
ReadReturns (waits p) = ⊥

-- pipe_read_poll reports nothing exactly when a read would wait: where it reports something a read
-- of a valid pipe returns bytes or the end of the stream at once, and where it does not the read
-- waits or gets -EAGAIN.
pub read_poll_ready :
    (size : ℕ) (p : PipeState)
    → 0 < size
    → IsValid p
    → (read_poll (some p) ≢ 0 → ReadReturns (read_turn size p))
      × (read_poll (some p) ≡ 0 → ReadWaits (read_turn size p))
unfolding read_poll
read_poll_ready size p nz v = elim (read_turn-ReadTurn size p nz v) [
  | got p' eq have rest v' frame ↦ rw eq (λ ready. tt, λ quiet. ground arith)
  | hung_up eq e gone ↦ rw eq (λ ready. tt, λ quiet. ground arith)
  | would_block eq e attached nb ↦ rw eq (λ ready. ground arith, λ quiet. refl)
  | blocks eq e attached b ↦ rw eq (λ ready. ground arith, λ quiet. tt)
]

-- Whether a round of a write from the start puts a byte in at least.
abbrev pub WriteMoves : Turn Writing (Result ℕ × PipeState) → Type 0
WriteMoves (returns (ok n, p)) = 0 < n
WriteMoves (returns (err e, p)) = ⊥
WriteMoves (again w) = ⊥
WriteMoves (waits w) = 0 < w.copied

-- Whether it puts nothing in, and waits or fails with -EAGAIN.
abbrev pub WriteWaits : Turn Writing (Result ℕ × PipeState) → Type 0
WriteWaits (returns (ok n, p)) = ⊥
WriteWaits (returns (err e, p)) = e ≡ eagain
WriteWaits (again w) = ⊥
WriteWaits (waits w) = w.copied ≡ 0

abbrev first_round : PipeState → Writing
first_round p = record { state = p; copied = 0 }

eagain_moves : (n : ℕ) (p : PipeState) → 0 < n → WriteMoves (returns (copied_or n eagain, p))
eagain_moves zero p nz = absurd (omega arith)
eagain_moves (suc n) p nz = let some_bytes : (suc n == 0) ≡ false = ground arith in rw some_bytes nz

eagain_waits : (n : ℕ) (p : PipeState) → n ≡ 0 → WriteWaits (returns (copied_or n eagain, p))
eagain_waits zero p e = refl
eagain_waits (suc n) p e = absurd (omega arith)

-- pipe_write_poll tells what a write of a valid pipe will do: at POLLOUT it puts a byte in at least,
-- at 0 it puts nothing in and waits or gets -EAGAIN, and at POLLERR it fails with -EPIPE.
pub write_poll_ready :
    (src : List ℕ) (p : PipeState)
    → 0 < length src
    → IsValid p
    → (write_poll (some p) ≡ pollout → WriteMoves (write_turn (length src) src (first_round p)))
      × (write_poll (some p) ≡ 0 → WriteWaits (write_turn (length src) src (first_round p)))
      × (write_poll (some p) ≡ pollerr
          → write_turn (length src) src (first_round p) ≡ returns (err epipe, p))
unfolding write_poll
write_poll_ready src p nz v = elim (write_turn-WriteTurn src (first_round p) v nz) [
  | broken eq gone ↦
      rw (eq, gone) (λ ready. absurd (omega arith), λ quiet. absurd (omega arith), λ e. refl)
  | finished p' eq c v' live fits ↦
      rw (eq, live) (λ ready. nz, λ quiet. absurd (ground arith), λ e. absurd (ground arith))
  | filled p' n less en (inl (eq, nb)) full c v' live frame ↦
      rw (eq, live)
        (
          λ ready. eagain_moves n p' (ground (arith, en)),
          λ quiet. eagain_waits n p' (ground (arith, en, v.room)),
          λ e. absurd (ground arith),
        )
  | filled p' n less en (inr (eq, b)) full c v' live frame ↦
      rw (eq, live)
        (
          λ ready. ground (arith, en),
          λ quiet. ground (arith, en, v.room),
          λ e. absurd (ground arith),
        )
]

-- Setting an end's flags by ioctl and asking for them gives the O_NONBLOCK bit back, and nothing else
-- of the pipe changes: neither the other end's flag nor the bytes.
pub set_flags-get_flags :
    (write_end : Bool) (flags : ℕ) (arg : UserArg) (p : PipeState)
    → arg.present ≡ true
    → arg.value ≡ some flags
    → (q : PipeState) × (flags_ioctl write_end set_flags arg (some p) ≡ (ok 0, none, some q))
      × ((arg' : UserArg)
          → arg'.present ≡ true
          → arg'.writable ≡ true
          → flags_ioctl write_end get_flags arg' (some q)
            ≡ (ok 0, some (if bit_and flags tty_nonblock == 0 then 0 else tty_nonblock), some q))
      × (nonblock_of (not write_end) q ≡ nonblock_of (not write_end) p)
      × (contents q ≡ contents p)
unfolding flags_ioctl
set_flags-get_flags true flags arg p here value = (
  record p { write_nonblock = not (bit_and flags tty_nonblock == 0) },
  ground arith,
  λ arg' here' there. ground arith,
  refl,
  refl,
)
set_flags-get_flags false flags arg p here value = (
  record p { nonblock = not (bit_and flags tty_nonblock == 0) },
  ground arith,
  λ arg' here' there. ground arith,
  refl,
  refl,
)

-- An open end of a pipe of each mode.
abbrev pub pipe_end : Mode → PipeFile
pipe_end m = record { is_pipe = true; has_inode = true; mode = m }

-- Closing the last read end of a pipe with a writer left keeps the bytes, wakes the waiters, and
-- makes every write fail with -EPIPE.
pub release_last_reader :
    (p : PipeState) (n : ℕ) (src : List ℕ)
    → p.readers ≡ pos 1
    → p.writers ≡ pos (suc n)
    → (q : PipeState) × (file_release (some (pipe_end rdonly)) (some p) ≡ kept q)
      × (contents q ≡ contents p)
      × (q.wakes ≡ p.wakes + 1)
      × (write_turn (length src) src (first_round q) ≡ returns (err epipe, q))
unfolding file_release write_turn
release_last_reader p n src r w =
    (record p { readers = pos 0; wakes = p.wakes + 1 }, ground arith, refl, refl, refl)

-- A read of a pipe without writers returns what is there, or 0.
drains :
    (size : ℕ) (q : PipeState)
    → is_zero q.writers ≡ true
    → ReadTurn size q (read_turn size q)
    → (q' : PipeState) × (read_turn size q
        ≡ returns (ok (min size q.count), take (min size q.count) (contents q), q'))
drains size q gone (got q' eq have rest v frame) = (wake q', eq)
drains size q gone (hung_up eq e _) =
    let nothing : min size q.count ≡ 0 = omega arith in (q, rw nothing eq)
drains size q gone (would_block eq e attached nb) = absurd (false≢true (sym attached ∙ gone))
drains size q gone (blocks eq e attached b) = absurd (false≢true (sym attached ∙ gone))

-- Closing the last write end of a pipe with a reader left keeps the bytes, and from then on a read
-- never waits: it returns the oldest of the bytes that are left, and 0 when none are.
pub release_last_writer :
    (p : PipeState) (n size : ℕ)
    → 0 < size
    → IsValid p
    → p.writers ≡ pos 1
    → p.readers ≡ pos (suc n)
    → (q : PipeState) × (file_release (some (pipe_end wronly)) (some p) ≡ kept q)
      × (q' : PipeState) × (read_turn size q
          ≡ returns (ok (min size p.count), take (min size p.count) (contents p), q'))
unfolding file_release
release_last_writer p n size nz v w r =
    let q : PipeState = record p { writers = pos 0; wakes = p.wakes + 1 } in
    let v' : IsValid q = record { size = v.size; start = v.start; room = v.room; end = v.end } in
    let (q', eq) = drains size q refl (read_turn-ReadTurn size q nz v') in (q, ground arith, q', eq)

created :
    (m : Memory) (p : PipeState) (r w : PipeFile)
    → create_file_pair true m ≡ ok (p, r, w)
    → (p ≡ fresh) × (r ≡ pipe_end rdonly) × (w ≡ pipe_end wronly)
unfolding create_file_pair
created m p r w e = (ground arith, ground arith, ground arith)

fresh-IsValid : IsValid fresh
unfolding fresh
fresh-IsValid = record {
  size = length-replicate {A = ℕ} buffer_size 0;
  start = omega arith;
  room = omega arith;
  end = omega arith;
}

contents-fresh : contents fresh ≡ []
unfolding fresh ring
contents-fresh = refl

-- A new pipe is valid and empty, with one end of each kind; its state is freed by the second of two
-- releases, in either order, and by no single one.
pub create-release :
    (m : Memory) (p : PipeState) (r w : PipeFile)
    → create_file_pair true m ≡ ok (p, r, w)
    → IsValid p
      × (contents p ≡ [])
      × (q : PipeState) × (file_release (some r) (some p) ≡ kept q)
      × (file_release (some w) (some q) ≡ freed)
      × (q' : PipeState) × (file_release (some w) (some p) ≡ kept q')
      × (file_release (some r) (some q') ≡ freed)
unfolding file_release fresh
create-release m p r w e =
    let (ep, er, ew) = created m p r w e in
    rw (ep, er, ew)
      (
        fresh-IsValid,
        contents-fresh,
        record fresh { readers = pos 0; wakes = 1 },
        refl,
        refl,
        record fresh { writers = pos 0; wakes = 1 },
        refl,
        refl,
      )
