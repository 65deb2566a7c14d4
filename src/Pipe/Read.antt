-- ===== src/Pipe/Read.antt =====
-- kernel/src/fs/pipe.c: pipe_read_inode.
pub mod Fifo
use bleed_kernel.Common.{
  ℕ, zero, suc, ◌+◌, ◌-◌, ◌%◌, Bool, not, ◌&&◌, ◌||◌, Option, none, some, List, [], ◌∷◌, ◌++◌,
  if◌then◌else◌, ltb, ◌==◌, min, Result, ok, err, eintr, eio, eagain, is_zero,
}
use bleed_kernel.Pipe.State.{
  PipeState, Pause, Turn, returns, again, waits, after_pause, buffer_size, wake, copy_out,
}

-- The locals of pipe_read_inode beside the pipe: `out` is what `dst` holds up to `copied`.
pub record Reading : Type 0 where
  pub state : PipeState
  pub copied : ℕ
  pub out : List ℕ

-- memcpy(dst + copied, state->buffer + state->read_pos, n) and the counts that follow it. The
-- position wraps after the first part of a read only.
abbrev pub take_bytes : (ℕ → ℕ) → ℕ → Reading → Reading
take_bytes wrap n r = record {
  state = record (r.state) { read_pos = wrap (r.state.read_pos + n); count = r.state.count - n };
  copied = r.copied + n;
  out = r.out ++ copy_out r.state.buffer r.state.read_pos n;
}

-- The body of `while (copied < size && state->count > 0)`.
unfoldable pub read_part : ℕ → Reading → Reading
read_part size r =
    let bytes = min (size - r.copied) r.state.count in
    let first = min bytes (buffer_size - r.state.read_pos) in
    let r' = take_bytes (λ i. i % buffer_size) first r in
    let remaining = bytes - first in
    if ltb 0 remaining then take_bytes (λ i. i) remaining r' else r'

unfoldable pub read_while : ℕ → ℕ → Reading → Reading
read_while zero size r = r
read_while (suc fuel) size r =
    let next = read_while fuel size (read_part size r) in
    if ltb r.copied size && ltb 0 r.state.count then next else r

-- The inner loop ends after one round; `size` rounds and one more are enough.
unfoldable pub read_locked : ℕ → PipeState → Reading
unfolding read_while read_part
read_locked size p = read_while (suc size) size (record { state = p; copied = 0; out = [] })

-- What a call gives back: its result, the bytes in the caller's buffer and the pipe.
abbrev pub Reply : Type 0
Reply = Result ℕ × List ℕ × PipeState

-- One round of the `for (;;)` up to the wait.
unfoldable pub read_turn : ℕ → PipeState → Turn PipeState Reply
read_turn size p =
    let r = read_locked size p in
    if ltb 0 r.copied
    then returns (ok r.copied, r.out, wake r.state)
    else if is_zero r.state.writers
    then returns (ok 0, r.out, r.state)
    else if r.state.nonblock
    then returns (err eagain, r.out, r.state)
    else waits r.state

-- `!state->count && state->writers`
abbrev pub read_blocked : PipeState → Bool
read_blocked p = (p.count == 0) && not (is_zero p.writers)

-- The `for (;;)` of pipe_read_inode, with a pause for each round that waits. `none` is a call that
-- still waits when they are used up.
unfoldable pub read_loop : List Pause → ℕ → PipeState → Option Reply
read_loop [] size p = elim (read_turn size p) [
  | returns reply ↦ some reply
  | again p' ↦ none
  | waits p' ↦ none
]
read_loop (e ∷ rest) size p = elim (read_turn size p) [
  | returns reply ↦ some reply
  | again p' ↦ read_loop rest size p'
  | waits p' ↦
      if e.interrupted
      then some (err eintr, [], p')
      else read_loop rest size (after_pause read_blocked e p')
]

-- pipe_read_inode. `pointers` is `inode && out_buffer`; the state is `none` where it is NULL.
unfoldable pub read :
    List Pause → Bool → ℕ → Option PipeState → Option (Result ℕ × List ℕ × Option PipeState)
read pauses pointers size state =
    if not pointers || (size == 0) then some (ok 0, [], state) else elim state [
      | none ↦ some (err eio, [], none)
      | some p ↦ elim (read_loop pauses size p) [
        | none ↦ none
        | some (result, out, p') ↦ some (result, out, some p')
      ]
    ]
