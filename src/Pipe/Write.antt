-- ===== src/Pipe/Write.antt =====
-- kernel/src/fs/pipe.c: pipe_write_inode.
pub mod Fifo
use bleed_kernel.Common.{
  ℕ, zero, suc, ◌+◌, ◌-◌, ◌%◌, Bool, not, ◌&&◌, ◌||◌, Option, none, some, List, [], ◌∷◌,
  if◌then◌else◌, ltb, ◌==◌, take, drop, min, Errno, Result, ok, err, eintr, eio, eagain, epipe,
  is_zero,
}
use bleed_kernel.Pipe.State.{
  PipeState, Pause, Turn, returns, again, waits, after_pause, buffer_size, wake, copy_in,
}

-- The locals of pipe_write_inode beside the pipe.
pub record Writing : Type 0 where
  pub state : PipeState
  pub copied : ℕ

-- memcpy(state->buffer + state->write_pos, src + copied, n) and the counts that follow it.
abbrev pub put_bytes : (ℕ → ℕ) → ℕ → List ℕ → Writing → Writing
put_bytes wrap n src w = record {
  state = record (w.state) {
    write_pos = wrap (w.state.write_pos + n);
    count = w.state.count + n;
    buffer = copy_in w.state.buffer w.state.write_pos (take n (drop w.copied src));
  };
  copied = w.copied + n;
}

-- The body of `while (copied < size && state->count < PIPE_BUFFER_SIZE)`.
unfoldable pub write_part : ℕ → List ℕ → Writing → Writing
write_part size src w =
    let space = buffer_size - w.state.count in
    let bytes = min (size - w.copied) space in
    let first = min bytes (buffer_size - w.state.write_pos) in
    let w' = put_bytes (λ i. i % buffer_size) first src w in
    let remaining = bytes - first in
    if ltb 0 remaining then put_bytes (λ i. i) remaining src w' else w'

unfoldable pub write_while : ℕ → ℕ → List ℕ → Writing → Writing
write_while zero size src w = w
write_while (suc fuel) size src w =
    let next = write_while fuel size src (write_part size src w) in
    if ltb w.copied size && ltb w.state.count buffer_size then next else w

unfoldable pub write_locked : ℕ → List ℕ → Writing → Writing
unfolding write_while write_part
write_locked size src w = write_while (suc size) size src w

-- `copied ? (long)copied : e`
abbrev pub copied_or : ℕ → Errno → Result ℕ
copied_or copied e = if copied == 0 then err e else ok copied

-- `if (copied > 0) sched_wake_queue(&state->wait)`
unfoldable pub woken : Writing → PipeState
woken w = if ltb 0 w.copied then wake w.state else w.state

-- One round of the `for (;;)` up to the wait, with `copied` bytes written in the rounds before.
unfoldable pub write_turn : ℕ → List ℕ → Writing → Turn Writing (Result ℕ × PipeState)
write_turn size src w =
    if is_zero w.state.readers
    then returns (copied_or w.copied epipe, w.state)
    else let w' = write_locked size src w in
      let full = w'.state.count == buffer_size in
      let p = woken w' in
      if w'.copied == size
      then returns (ok w'.copied, p)
      else if not full
      then again (record w' { state = p })
      else if p.write_nonblock
      then returns (copied_or w'.copied eagain, p)
      else waits (record w' { state = p })

-- `state->count == PIPE_BUFFER_SIZE && state->readers`
abbrev pub write_blocked : PipeState → Bool
write_blocked p = (p.count == buffer_size) && not (is_zero p.readers)

-- The `for (;;)` of pipe_write_inode, with a pause for each round that does not return. `none` is a
-- call that still waits when they are used up.
unfoldable pub write_loop : List Pause → ℕ → List ℕ → Writing → Option (Result ℕ × PipeState)
write_loop [] size src w = elim (write_turn size src w) [
  | returns reply ↦ some reply
  | again w' ↦ none
  | waits w' ↦ none
]
write_loop (e ∷ rest) size src w = elim (write_turn size src w) [
  | returns reply ↦ some reply
  | again w' ↦ write_loop rest size src w'
  | waits w' ↦
      if e.interrupted
      then some (copied_or w'.copied eintr, w'.state)
      else write_loop rest size src (record w' { state = after_pause write_blocked e w'.state })
]

-- pipe_write_inode. `pointers` is `inode && in_buffer`, and `src` the caller's `size` bytes.
unfoldable pub write :
    List Pause → Bool → ℕ → List ℕ → Option PipeState → Option (Result ℕ × Option PipeState)
write pauses pointers size src state =
    if not pointers || (size == 0) then some (ok 0, state) else elim state [
      | none ↦ some (err eio, none)
      | some p ↦ elim (write_loop pauses size src (record { state = p; copied = 0 })) [
        | none ↦ none
        | some (result, p') ↦ some (result, some p')
      ]
    ]
