-- ===== src/Common/Rounds.antt =====
-- Calls that may block: the rounds of their `for (;;)`, and what happens between two rounds.
use mathlib.Core.Bool.{Bool, not, ◌&&◌}
use bleed_kernel.Common.Errors.{Result, ok, err, eintr}
use bleed_kernel.Common.Tests.{if◌then◌else◌}

-- How a round ends: the call returns, goes round again at once, or waits.
pub data Turn {ℓ} (S A : Type ℓ) : Type ℓ where
  returns : A → Turn S A
  again : S → Turn S A
  waits : S → Turn S A

-- What the rest of the system does in one call of block_on (kernel/src/fs/eventfd.c): whether
-- signal_should_interrupt holds, what other tasks do before `ready` is asked with interrupts off,
-- whether a signal came in that time, and what they do while the call sleeps.
pub record Blocking {ℓ} (S : Type ℓ) : Type ℓ where
  pub interrupted : Bool
  pub meanwhile : S → S
  pub signalled : Bool
  pub asleep : S → S

-- block_on: -EINTR, or the state that the next round finds. `ready` may change the state.
unfoldable pub block_on {ℓ} : {S : Type ℓ} → (S → Bool × S) → Blocking S → S → Result S
block_on ready e s =
    if e.interrupted
    then err eintr
    else (let (now, s') = ready (e.meanwhile s) in
        ok (if not now && not e.signalled then e.asleep s' else s'))
