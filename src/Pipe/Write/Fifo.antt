-- ===== src/Pipe/Write/Fifo.antt =====
-- pipe_write_inode against a queue of bytes: what a round puts in.
use bleed_kernel.Common.{
  ℕ, zero, suc, ◌+◌, ◌-◌, ◌%◌, ◌≤◌, ◌<◌, ◌≡◌, refl, sym, ap, ◌∙◌, inl, inr, Bool, true, false, ◌&&◌,
  List, ◌++◌, ltb, Bool-cases, arith, length, take, drop, length-take, length-drop, take-add,
  drop-drop, min, ltb→lt, ltb_false→le,
}
use mathlib.Core.List.{append_assoc, append-nil}
use bleed_kernel.Pipe.State.{PipeState, buffer_size, copy_in}
use bleed_kernel.Pipe.Ring.{ring, contents, IsValid, length-copy_in, ring-copy_in}
use bleed_kernel.Pipe.Write.{Writing, put_bytes, write_part, write_while, write_locked}

-- The state of a round that began at the pipe `p` with `from` bytes of `src` written: the bytes since
-- then stand behind those that the pipe held; nothing but the write position, the count and the
-- buffer has changed.
pub record Put (p : PipeState) (src : List ℕ) (from : ℕ) (w : Writing) : Type 0 where
  pub valid : IsValid w.state
  pub started : from ≤ w.copied
  pub inside : w.copied ≤ length src
  pub added : contents w.state ≡ contents p ++ take (w.copied - from) (drop from src)
  pub counted : w.state.count + from ≡ p.count + w.copied
  pub frame :
      w.state
      ≡ record p { write_pos = w.state.write_pos; count = w.state.count; buffer = w.state.buffer }

-- Bytes taken in two steps are those taken in one.
take-steps :
    (src : List ℕ) (from copied n k : ℕ)
    → from ≤ copied
    → copied + n - from ≡ k
    → take (copied - from) (drop from src) ++ take n (drop copied src) ≡ take k (drop from src)
take-steps src from copied n k le e =
    let at : from + (copied - from) ≡ copied = omega arith in
    let sum : copied - from + n ≡ k = omega arith in
    sym (
      ap (λ j. take j (drop from src)) (sym sum)
      ∙ take-add (copied - from) n (drop from src)
      ∙ ap (λ ys. take (copied - from) (drop from src) ++ take n ys)
          (drop-drop from (copied - from) src ∙ ap (λ j. drop j src) at))

put_bytes-Put :
    {p : PipeState} {src : List ℕ} {from : ℕ} {w : Writing} (wrap : ℕ → ℕ) (n : ℕ)
    → Put p src from w
    → n + w.state.count ≤ buffer_size
    → w.copied + n ≤ length src
    → w.state.write_pos + n ≤ buffer_size
    → wrap (w.state.write_pos + n) ≡ (w.state.write_pos + n) % buffer_size
    → Put p src from (put_bytes wrap n src w)
put_bytes-Put {p} {src} {from} {w} wrap n t room have fits e = record {
  valid = record {
    size = length-copy_in buf pos piece ∙ t.valid.size;
    start = t.valid.start;
    room = omega arith;
    end = omega (arith, t.valid.end, e);
  };
  started = omega (arith, t.started);
  inside = have;
  added =
      ap (λ k. ring (copy_in buf pos piece) w.state.read_pos (count + k)) (sym piece-length)
      ∙ ring-copy_in buf w.state.read_pos count pos piece t.valid.size (omega (arith, t.valid.end))
          (omega (arith, piece-length)) (omega (arith, piece-length))
      ∙ ap (λ ys. ys ++ piece) t.added
      ∙ append_assoc (contents p) (take (w.copied - from) (drop from src)) piece
      ∙ ap (◌++◌ (contents p)) (take-steps src from w.copied n _ t.started refl);
  counted = omega (arith, t.counted);
  frame = ap moved t.frame;
}
  where
    buf : List ℕ
    buf = w.state.buffer

    pos : ℕ
    pos = w.state.write_pos

    count : ℕ
    count = w.state.count

    piece : List ℕ
    piece = take n (drop w.copied src)

    piece-length : length piece ≡ n
    piece-length = omega (arith, length-take n (drop w.copied src), length-drop w.copied src)

    moved : PipeState → PipeState
    moved s = record s {
      write_pos = wrap (pos + n);
      count = count + n;
      buffer = copy_in buf pos piece;
    }

-- One pass puts in all that is left and fits, in one part or two.
write_part-Put :
    {p : PipeState} {src : List ℕ} {from : ℕ} {w : Writing}
    → Put p src from w
    → w.copied < length src
    → w.state.count < buffer_size
    → Put p src from (write_part (length src) src w)
      × ((write_part (length src) src w).copied
          ≡ w.copied + min (length src - w.copied) (buffer_size - w.state.count))
unfolding write_part
write_part-Put {p} {src} {from} {w} t want have = elim (Bool-cases (ltb 0 remaining)) [
  | inl more ↦ rw more (
    put_bytes-Put {w = put_bytes (λ i. i % buffer_size) first src w} (λ i. i) remaining first-Put
        (omega arith) (omega arith) (omega (arith, end_in, t.valid.room))
        (omega (arith, end_in, t.valid.room, ltb→lt _ _ more)),
    omega arith,
  )
  | inr whole ↦ rw whole (first-Put, omega (arith, ltb_false→le _ _ whole))
]
  where
    bytes : ℕ
    bytes = min (length src - w.copied) (buffer_size - w.state.count)

    first : ℕ
    first = min bytes (buffer_size - w.state.write_pos)

    remaining : ℕ
    remaining = bytes - first

    end_in : w.state.write_pos < buffer_size
    end_in = omega (arith, t.valid.end)

    first-Put : Put p src from (put_bytes (λ i. i % buffer_size) first src w)
    first-Put =
        put_bytes-Put {w = w} (λ i. i % buffer_size) first t (omega arith) (omega arith)
          (omega (arith, end_in)) refl

-- The test of the inner loop.
abbrev goes_on : ℕ → Writing → Bool
goes_on size w = ltb w.copied size && ltb w.state.count buffer_size

write_while_stop :
    (fuel size : ℕ) (src : List ℕ) (w : Writing)
    → goes_on size w ≡ false
    → write_while fuel size src w ≡ w
unfolding write_while
write_while_stop zero size src w e = refl
write_while_stop (suc fuel) size src w e = rw e

write_while_round :
    (fuel size : ℕ) (src : List ℕ) (w : Writing)
    → goes_on size w ≡ true
    → write_while (suc fuel) size src w ≡ write_while fuel size src (write_part size src w)
unfolding write_while
write_while_round fuel size src w e = rw e

-- Under the lock pipe_write_inode appends the next bytes of the caller to a valid pipe, as many as
-- are left and fit; nothing but the write position, the count and the buffer changes.
pub write_locked-Put :
    {src : List ℕ} (w : Writing)
    → IsValid w.state
    → w.copied ≤ length src
    → Put w.state src w.copied (write_locked (length src) src w)
      × ((write_locked (length src) src w).copied
          ≡ w.copied + min (length src - w.copied) (buffer_size - w.state.count))
unfolding write_locked
write_locked-Put {src} w v le = elim (Bool-cases (goes_on size w)) [
  | inr stop ↦ rw (write_while_stop (suc size) size src w stop) (started, ground arith)
  | inl more ↦
      let (t, e) = write_part-Put {w = w} started (ground arith) (ground arith) in
      let stop : goes_on size (write_part size src w) ≡ false = ground (arith, t.counted) in
      rw
        (
          write_while_round size size src w more,
          write_while_stop size size src (write_part size src w) stop,
        )
        (t, e)
]
  where
    size : ℕ
    size = length src

    started : Put w.state src w.copied w
    started = record {
      valid = v;
      started = omega arith;
      inside = le;
      added = let none_yet : w.copied - w.copied ≡ 0 = omega arith in rw (none_yet, append-nil);
      counted = omega arith;
      frame = refl;
    }
