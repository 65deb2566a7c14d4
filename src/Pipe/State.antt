-- ===== src/Pipe/State.antt =====
-- kernel/src/fs/pipe.c: `pipe_state_t`, and the bytes that a call moves.
use bleed_kernel.Common.{
  ℕ, zero, suc, ◌+◌, Bool, not, ◌&&◌, List, [], ◌∷◌, if◌then◌else◌, get_or, set, ℤ,
}
pub use bleed_kernel.Common.{Turn, returns, again, waits}

-- PIPE_BUFFER_SIZE
abbrev pub buffer_size : ℕ
buffer_size = 4096

-- `pipe_state_t`. `wakes` counts the calls of sched_wake_queue on its wait queue; the spinlock makes
-- what is done under it one step.
pub record PipeState : Type 0 where
  pub read_pos : ℕ
  pub write_pos : ℕ
  pub count : ℕ
  pub readers : ℤ
  pub writers : ℤ
  pub nonblock : Bool
  pub write_nonblock : Bool
  pub wakes : ℕ
  pub buffer : List ℕ

-- sched_wake_queue(&state->wait)
abbrev pub wake : PipeState → PipeState
wake p = record p { wakes = p.wakes + 1 }

-- memcpy out of the buffer: the `n` bytes from `i` on.
unfoldable pub copy_out : List ℕ → ℕ → ℕ → List ℕ
copy_out buf i zero = []
copy_out buf i (suc n) = get_or buf i 0 ∷ copy_out buf (i + 1) n

-- memcpy into the buffer, from `i` on.
unfoldable pub copy_in : List ℕ → ℕ → List ℕ → List ℕ
copy_in buf i [] = buf
copy_in buf i (x ∷ xs) = copy_in (set buf i x) (i + 1) xs

-- What the rest of the system does in a round of a call that cannot go on: whether
-- signal_should_interrupt holds, what other tasks do to the pipe before it is looked at again,
-- whether a signal came in that time, and what they do while the call sleeps.
pub record Pause : Type 0 where
  pub interrupted : Bool
  pub meanwhile : PipeState → PipeState
  pub signalled : Bool
  pub asleep : PipeState → PipeState

-- The pipe that the next round finds after a wait. `blocked` is the test that is made with interrupts
-- off, and the call sleeps only where it holds and no signal came.
unfoldable pub after_pause : (PipeState → Bool) → Pause → PipeState → PipeState
after_pause blocked e p =
    let seen = e.meanwhile p in if blocked seen && not e.signalled then e.asleep seen else seen
