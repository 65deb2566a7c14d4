-- ===== src/Pipe/Trace.antt =====
-- Rounds of reads and writes of a pipe, interleaved in any order: bytes come out in the order in
-- which they went in, none lost and none twice.
use bleed_kernel.Common.{
  ℕ, zero, suc, ◌-◌, ◌≤◌, ◌<◌, ◌≡◌, refl, sym, ap, ◌∙◌, inl, inr, false, List, [], ◌∷◌, ◌++◌, ◌==◌,
  arith, length, take, drop, length-drop, take-append-drop, take-length, All, min, Errno, Result,
  ok, err, eagain, epipe,
}
use mathlib.Core.List.{append_assoc, append-nil}
use bleed_kernel.Pipe.State.{PipeState, Turn, returns, again, waits}
use bleed_kernel.Pipe.Ring.{contents, length-ring, IsValid}
use bleed_kernel.Pipe.Read.{Reply, read_turn}
use bleed_kernel.Pipe.Write.{Writing, write_turn, copied_or}
use bleed_kernel.Pipe.Turns.{
  ReadTurn, got, hung_up, would_block, blocks, read_turn-ReadTurn, WriteTurn, broken, finished,
  filled, write_turn-WriteTurn,
}

-- A round of some call: a read of `size` bytes, or a write of `src` with `from` bytes written in the
-- rounds before.
pub data Event : Type 0 where
  reads : ℕ → Event
  writes : ℕ → List ℕ → Event

-- The first `n` bytes of a buffer that holds the given ones, and zeros behind them.
abbrev pub padded : ℕ → List ℕ → List ℕ
padded zero xs = []
padded (suc n) [] = 0 ∷ padded n []
padded (suc n) (x ∷ xs) = x ∷ padded n xs

padded-take : (n m : ℕ) (xs : List ℕ) → n ≤ m → n ≤ length xs → padded n (take m xs) ≡ take n xs
padded-take zero m xs le inside = refl
padded-take (suc n) m [] le inside = absurd (omega (arith, inside))
padded-take (suc n) zero (x ∷ xs) le inside = absurd (omega (arith, le))
padded-take (suc n) (suc m) (x ∷ xs) le inside =
    ap (◌∷◌ x) (padded-take n m xs (omega (arith, le)) (omega (arith, inside)))

padded-inside : (n : ℕ) (xs : List ℕ) → n ≤ length xs → padded n xs ≡ take n xs
padded-inside zero xs inside = refl
padded-inside (suc n) [] inside = absurd (omega (arith, inside))
padded-inside (suc n) (x ∷ xs) inside = ap (◌∷◌ x) (padded-inside n xs (omega (arith, inside)))

-- What a round has taken out of the pipe for its caller, who takes as many bytes from the buffer as the call
-- returns, and none with an error; and the pipe behind it.
abbrev pub read_effect : Turn PipeState Reply → List ℕ × PipeState
read_effect (returns (ok n, out, p)) = (padded n out, p)
read_effect (returns (err e, out, p)) = ([], p)
read_effect (again p) = ([], p)
read_effect (waits p) = ([], p)

-- What a round has put in by its own account: the bytes from `from` up to the number that it returns
-- or goes on with, zeros where that is beyond the caller's.
abbrev pub write_effect : ℕ → List ℕ → Turn Writing (Result ℕ × PipeState) → List ℕ × PipeState
write_effect from src (returns (ok n, p)) = (padded (n - from) (drop from src), p)
write_effect from src (returns (err e, p)) = ([], p)
write_effect from src (again w) = (padded (w.copied - from) (drop from src), w.state)
write_effect from src (waits w) = (padded (w.copied - from) (drop from src), w.state)

-- The bytes taken, the bytes given and the pipe after a sequence of rounds.
abbrev pub Log : Type 0
Log = List ℕ × List ℕ × PipeState

unfoldable pub step : Event → PipeState → Log
step (reads size) p = let (out, p') = read_effect (read_turn size p) in (out, [], p')
step (writes from src) p =
    let (bytes, p') =
      write_effect from src (write_turn (length src) src (record { state = p; copied = from })) in
    ([], bytes, p')

unfoldable pub run : List Event → PipeState → Log
run [] p = ([], [], p)
run (e ∷ es) p =
    let (taken, given, p') = step e p in
    let (taken', given', p'') = run es p' in (taken ++ taken', given ++ given', p'')

-- A read asks for a byte at least, and a write has one left.
abbrev pub IsCall : Event → Type 0
IsCall (reads size) = 0 < size
IsCall (writes from src) = from < length src

-- What the pipe held and was given is what was taken and what it holds.
abbrev pub Conserves : PipeState → Log → Type 0
Conserves p (taken, given, p') = (contents p ++ given ≡ taken ++ contents p') × IsValid p'

take-drop : (n : ℕ) (xs : List ℕ) → xs ++ [] ≡ take n xs ++ drop n xs
take-drop n xs = append-nil xs ∙ sym (take-append-drop n xs)

read-Conserves :
    (size : ℕ) (p : PipeState)
    → IsValid p
    → ReadTurn size p (read_turn size p)
    → Conserves p (step (reads size) p)
unfolding step
read-Conserves size p v (got p' eq have rest v' frame) = rw eq (
  take-drop (min size p.count) (contents p)
      ∙ ap (◌++◌ (take (min size p.count) (contents p))) (sym rest)
      ∙ ap (λ xs. xs ++ contents p')
          (sym (
            padded-take (min size p.count) (min size p.count) (contents p) (omega arith)
              (omega (arith, length-ring p.buffer p.read_pos p.count)))),
  record { size = v'.size; start = v'.start; room = v'.room; end = v'.end },
)
read-Conserves size p v (hung_up eq e gone) = rw eq (append-nil _, v)
read-Conserves size p v (would_block eq e attached nb) = rw eq (append-nil _, v)
read-Conserves size p v (blocks eq e attached b) = rw eq (append-nil _, v)

nothing_given : (k : ℕ) (src : List ℕ) → padded (k - k) src ≡ []
nothing_given k src = let none_yet : k - k ≡ 0 = omega arith in rw none_yet

given_or_error :
    (p p' : PipeState) (from n : ℕ) (src : List ℕ) (e : Errno)
    → contents p' ≡ contents p ++ padded (n - from) (drop from src)
    → IsValid p'
    → from ≤ n
    → let (bytes, q) = write_effect from src (returns (copied_or n e, p')) in
      Conserves p ([], bytes, q)
given_or_error p p' from zero src e c v le =
    let none_yet : zero - from ≡ 0 = omega arith in
    (sym (c ∙ ap (λ k. contents p ++ padded k (drop from src)) none_yet), v)
given_or_error p p' from (suc n) src e c v le =
    let some_bytes : (suc n == 0) ≡ false = ground arith in rw some_bytes (sym c, v)

counted :
    (from n : ℕ) (src : List ℕ) (p : PipeState)
    → n < length src
    → contents p ++ take (n - from) (drop from src)
      ≡ contents p ++ padded (n - from) (drop from src)
counted from n src p less =
    ap (◌++◌ (contents p))
      (sym (padded-inside (n - from) (drop from src) (omega (arith, less, length-drop from src))))

write-Conserves :
    (from : ℕ) (src : List ℕ) (p : PipeState)
    → IsValid p
    → from < length src
    → WriteTurn src
        (record { state = p; copied = from })
        (write_turn (length src) src (record { state = p; copied = from }))
    → Conserves p (step (writes from src) p)
unfolding step
write-Conserves from src p v lt (broken eq gone) = rw eq (
    given_or_error p p from from src epipe
      (sym (ap (◌++◌ (contents p)) (nothing_given from (drop from src)) ∙ append-nil _)) v
      (omega arith))
write-Conserves from src p v lt (finished p' eq c v' live fits) = rw eq (
  ap (◌++◌ (contents p)) (
        padded-inside (length src - from) (drop from src) (omega (arith, length-drop from src))
        ∙ take-length _ _ (omega (arith, length-drop from src)))
      ∙ sym c,
  v',
)
write-Conserves from src p v lt (filled p' n less en (inl (eq, nb)) full c v' live frame) =
    rw eq (given_or_error p p' from n src eagain (c ∙ counted from n src p less) v' (omega arith))
write-Conserves from src p v lt (filled p' n less en (inr (eq, b)) full c v' live frame) =
    rw eq (sym (c ∙ counted from n src p less), v')

step-Conserves : (e : Event) (p : PipeState) → IsCall e → IsValid p → Conserves p (step e p)
step-Conserves (reads size) p c v = read-Conserves size p v (read_turn-ReadTurn size p c v)
step-Conserves (writes from src) p c v =
    write-Conserves from src p v c (write_turn-WriteTurn src _ v c)

-- Whatever order the rounds of any number of reads and writes of a valid pipe are made in, the pipe stays
-- valid, and the bytes taken out, followed by those still in the pipe, are the bytes that it held followed
-- by those put in; where a read has taken as many of its buffer as it returns, and none with an error, and a
-- write has put in as many as it returns or goes on with.
pub run-Conserves :
    (es : List Event) (p : PipeState) → All IsCall es → IsValid p → Conserves p (run es p)
unfolding run
run-Conserves [] p c v = (append-nil _, v)
run-Conserves (e ∷ es) p c v =
    let (taken, given, p') = step e p in
    let (taken', given', p'') = run es p' in
    let first = step-Conserves e p c.0 v in
    let rest = run-Conserves es p' c.1 first.1 in
    (
      sym (append_assoc (contents p) given given')
          ∙ ap (λ xs. xs ++ given') first.0
          ∙ append_assoc taken (contents p') given'
          ∙ ap (◌++◌ taken) rest.0
          ∙ sym (append_assoc taken taken' (contents p'')),
      rest.1,
    )
