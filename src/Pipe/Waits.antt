-- ===== src/Pipe/Waits.antt =====
-- The loops of pipe_read_inode and pipe_write_inode over the rounds that wait.
use bleed_kernel.Common.{
  ℕ, zero, suc, ◌+◌, ◌-◌, ◌≤◌, ◌<◌, ◌≡◌, refl, sym, ◌∙◌, inl, inr, Bool, true, false, not, ◌&&◌,
  Option, none, some, List, [], ◌∷◌, ◌==◌, Bool-cases, arith, length, All, Errno, Result, ok, err,
  eintr, eagain, epipe, is_zero, if◌then◌else◌, min,
}
use mathlib.Core.Bool.{false≢true}
use mathlib.Core.Path.{subst}
use bleed_kernel.Pipe.State.{PipeState, Pause, returns, again, waits, after_pause, buffer_size}
use bleed_kernel.Pipe.Ring.{IsValid}
use bleed_kernel.Pipe.Write.{Writing, write_turn, write_loop, write_blocked, copied_or}
use bleed_kernel.Pipe.Turns.{broken, finished, filled, write_turn-WriteTurn}

-- What other tasks do during a pause keeps the pipe valid.
abbrev pub Keeps : Pause → Type 0
Keeps e = (p : PipeState) → IsValid p → IsValid (e.meanwhile p) × IsValid (e.asleep p)

after_pause-IsValid :
    (blocked : PipeState → Bool) (e : Pause) (p : PipeState)
    → Keeps e
    → IsValid p
    → IsValid (after_pause blocked e p)
unfolding after_pause
after_pause-IsValid blocked e p k v =
    elim (Bool-cases (blocked (e.meanwhile p) && not e.signalled)) [
      | inl sleeps ↦ rw sleeps (k (e.meanwhile p) (k p v).0).1
      | inr stays ↦ rw stays (k p v).0
    ]

-- The bytes written when a round ends: all that are left, or as many as there is room for; none are without
-- readers.
unfoldable pub after_round : List ℕ → Writing → ℕ
after_round src w =
    if is_zero w.state.readers
    then w.copied
    else w.copied + min (length src - w.copied) (buffer_size - w.state.count)

-- The bytes that a write has written when it ends, added up over its rounds.
unfoldable pub written : List Pause → List ℕ → Writing → ℕ
written [] src w = after_round src w
written (e ∷ rest) src w = elim (write_turn (length src) src w) [
  | returns reply ↦ after_round src w
  | again w' ↦ written rest src (record w' { copied = after_round src w })
  | waits w' ↦
      if e.interrupted
      then after_round src w
      else written rest src
          (record { state = after_pause write_blocked e w'.state; copied = after_round src w })
]

-- The result of a write tells the truth: the number of bytes written, or an error if that is none.
abbrev pub IsHonest : ℕ → ℕ → ℕ → Result ℕ → Type 0
IsHonest from size n (ok m) = (m ≡ n) × (from ≤ m) × (m ≤ size)
IsHonest from size n (err e) = (n ≡ 0) × (from ≡ 0)

abbrev pub IsHonestReply : ℕ → ℕ → ℕ → Option (Result ℕ × PipeState) → Type 0
IsHonestReply from size n none = Unit
IsHonestReply from size n (some (r, p)) = IsHonest from size n r × IsValid p

copied_or-IsHonest :
    (from m n size : ℕ) (e : Errno)
    → m ≡ n
    → from ≤ m
    → m ≤ size
    → IsHonest from size n (copied_or m e)
copied_or-IsHonest from zero n size e same le inside = (sym same, omega (arith, le))
copied_or-IsHonest from (suc m) n size e same le inside =
    let some_bytes : (suc m == 0) ≡ false = ground arith in rw some_bytes (same, le, inside)

IsHonestReply-mono :
    (from mid size n : ℕ) (r : Option (Result ℕ × PipeState))
    → from ≤ mid
    → IsHonestReply mid size n r
    → IsHonestReply from size n r
IsHonestReply-mono from mid size n none le h = tt
IsHonestReply-mono from mid size n (some (ok m, p)) le h =
    ((h.0.0, omega (arith, h.0.1), h.0.2), h.1)
IsHonestReply-mono from mid size n (some (err e, p)) le h = ((h.0.0, omega (arith, h.0.1)), h.1)

module _ (src : List ℕ) (w : Writing) where
  round_broken : is_zero w.state.readers ≡ true → w.copied ≡ after_round src w
  unfolding after_round
  round_broken gone = rw gone refl

  round_finished :
      is_zero w.state.readers ≡ false
      → w.copied < length src
      → w.state.count + (length src - w.copied) ≤ buffer_size
      → length src ≡ after_round src w
  unfolding after_round
  round_finished live lt fits = rw live (omega (arith, lt, fits))

  round_filled :
      (n : ℕ)
      → is_zero w.state.readers ≡ false
      → n < length src
      → n ≡ w.copied + (buffer_size - w.state.count)
      → n ≡ after_round src w
  unfolding after_round
  round_filled n live less en = rw live (omega (arith, less, en))

written_waits :
    (e : Pause) (rest : List Pause) (src : List ℕ) (w : Writing) (p' : PipeState) (n : ℕ)
    → write_turn (length src) src w ≡ waits (record { state = p'; copied = n })
    → n ≡ after_round src w
    → written (e ∷ rest) src w ≡ (
        if e.interrupted
        then n
        else written rest src (record { state = after_pause write_blocked e p'; copied = n }))
unfolding written
written_waits e rest src w p' n eq same =
    let total : after_round src w ≡ n = sym same in rw (written, eq, total) refl

-- Whatever happens in its pauses, a write of a valid pipe that returns a number returns that of the bytes
-- written in all its rounds, which is at least that from before and at most the caller's; it returns an
-- error only if none was written; and it leaves the pipe valid.
pub write_loop-IsHonest :
    (pauses : List Pause) (src : List ℕ) (w : Writing)
    → All Keeps pauses
    → IsValid w.state
    → w.copied < length src
    → IsHonestReply w.copied
        (length src)
        (written pauses src w)
        (write_loop pauses (length src) src w)
unfolding write_loop after_pause written
write_loop-IsHonest [] src w k v lt = elim (write_turn-WriteTurn src w v lt) [
  | broken eq gone ↦
      rw (eq, IsHonestReply)
        (
          copied_or-IsHonest w.copied w.copied _ _ epipe (round_broken src w gone) (omega arith)
              (omega arith),
          v,
        )
  | finished p' eq c v' on fits ↦
      rw (eq, IsHonestReply) ((round_finished src w on lt fits, omega arith, omega arith), v')
  | filled p' n less en (inl (eq, nb)) full c v' on frame ↦
      rw (eq, IsHonestReply)
        (
          copied_or-IsHonest w.copied n _ _ eagain (round_filled src w n on less en) (omega arith)
              (omega arith),
          v',
        )
  | filled p' n less en (inr (eq, b)) full c v' on frame ↦ rw (eq, IsHonestReply) tt
]
write_loop-IsHonest (e ∷ rest) src w k v lt = elim (write_turn-WriteTurn src w v lt) [
  | broken eq gone ↦
      rw (eq, IsHonestReply, written, eq)
        (
          copied_or-IsHonest w.copied w.copied _ _ epipe (round_broken src w gone) (omega arith)
              (omega arith),
          v,
        )
  | finished p' eq c v' on fits ↦
      rw (eq, IsHonestReply, written, eq)
        ((round_finished src w on lt fits, omega arith, omega arith), v')
  | filled p' n less en (inl (eq, nb)) full c v' on frame ↦
      rw (eq, IsHonestReply, written, eq)
        (
          copied_or-IsHonest w.copied n _ _ eagain (round_filled src w n on less en) (omega arith)
              (omega arith),
          v',
        )
  | filled p' n less en (inr (eq, b)) full c v' on frame ↦
      let sum = written_waits e rest src w p' n eq (round_filled src w n on less en) in
      let Honest : ℕ → Type 0 =
        λ k. IsHonestReply w.copied (length src) k (write_loop (e ∷ rest) (length src) src w) in
      let next : Writing = record { state = after_pause write_blocked e p'; copied = n } in
      elim (Bool-cases e.interrupted) [
        | inl stop ↦
            let all : written (e ∷ rest) src w ≡ n = sum ∙ rw stop refl in
            subst Honest (sym all) (
              rw (eq, stop, IsHonestReply)
                (copied_or-IsHonest w.copied n n _ eintr refl (omega arith) (omega arith), v'))
        | inr calm ↦
            let all : written (e ∷ rest) src w ≡ written rest src next = sum ∙ rw calm refl in
            subst Honest (sym all) (
              rw (eq, IsHonestReply, calm)
                (IsHonestReply-mono w.copied n (length src) (written rest src next) _ (omega arith)
                  (write_loop-IsHonest rest src next k.1
                    (after_pause-IsValid write_blocked e p' k.0 v') less)))
      ]
]

-- What a blocked write needs of the pipe that it finds after a pause.
pub record MadeRoom (q : PipeState) : Type 0 where
  pub valid : IsValid q
  pub room : q.count < buffer_size
  pub live : is_zero q.readers ≡ false
  pub blocking : q.write_nonblock ≡ false

-- A pause of a write without a signal, in which a reader takes some bytes out of the full pipe.
pub record Drains (e : Pause) : Type 0 where
  pub calm : e.interrupted ≡ false
  pub made :
      (p : PipeState)
      → IsValid p
      → p.count ≡ buffer_size
      → is_zero p.readers ≡ false
      → p.write_nonblock ≡ false
      → MadeRoom (after_pause write_blocked e p)

abbrev pub Delivers : ℕ → Option (Result ℕ × PipeState) → Type 0
Delivers size none = ⊥
Delivers size (some (r, p)) = (r ≡ ok size) × IsValid p

-- A blocking write of a valid pipe with readers ends, and writes everything: if in each of its pauses no
-- signal comes and a reader takes bytes out of the full pipe, keeping readers and flag, then as many pauses
-- as there are bytes left beyond the room at the start are enough.
pub write_loop-Delivers :
    (pauses : List Pause) (src : List ℕ) (w : Writing)
    → All Drains pauses
    → IsValid w.state
    → is_zero w.state.readers ≡ false
    → w.state.write_nonblock ≡ false
    → w.copied < length src
    → length src - w.copied ≤ length pauses + (buffer_size - w.state.count)
    → Delivers (length src) (write_loop pauses (length src) src w)
unfolding write_loop after_pause
write_loop-Delivers [] src w d v live b lt enough = elim (write_turn-WriteTurn src w v lt) [
  | broken eq gone ↦ absurd (false≢true (sym live ∙ gone))
  | finished p' eq c v' on fits ↦ rw (eq, Delivers) (refl, v')
  | filled p' n less en h full c v' on frame ↦ absurd (omega (arith, v.room))
]
write_loop-Delivers (e ∷ rest) src w d v live b lt enough = elim (write_turn-WriteTurn src w v lt) [
  | broken eq gone ↦ absurd (false≢true (sym live ∙ gone))
  | finished p' eq c v' on fits ↦ rw (eq, Delivers) (refl, v')
  | filled p' n less en (inl (eq, nb)) full c v' on frame ↦ absurd (false≢true (sym b ∙ nb))
  | filled p' n less en (inr (eq, _)) full c v' on frame ↦
      let m : MadeRoom (after_pause write_blocked e p') =
        d.0.made p' v' full (rw frame.0 live) (frame.1 ∙ b) in
      rw (eq, Delivers, d.0.calm)
        (write_loop-Delivers rest src
          (record { state = after_pause write_blocked e p'; copied = n }) d.1 m.valid m.live
          m.blocking less (omega (arith, m.room)))
]
