-- ===== src/Pipe/Read/Fifo.antt =====
-- pipe_read_inode against a queue of bytes: what a round takes out.
use bleed_kernel.Common.{
  ℕ, zero, suc, ◌+◌, ◌-◌, ◌%◌, ◌≤◌, ◌<◌, ◌≡◌, refl, sym, ap, ◌∙◌, inl, inr, Bool, true, false, ◌&&◌,
  List, [], ◌++◌, ltb, Bool-cases, arith, length, length-append, min, ltb→lt, ltb_false→le,
}
use mathlib.Core.List.{append_assoc}
use bleed_kernel.Pipe.State.{PipeState, buffer_size, copy_out}
use bleed_kernel.Pipe.Ring.{ring, contents, IsValid, ring_cong, ring-add, copy_out-ring}
use bleed_kernel.Pipe.Read.{Reading, take_bytes, read_part, read_while, read_locked}

-- The state of a read that began at the pipe `p`: what it has taken out, before what is left, is what
-- the pipe held; nothing but the read position and the count has changed.
pub record Took (p : PipeState) (r : Reading) : Type 0 where
  pub valid : IsValid r.state
  pub kept : r.out ++ contents r.state ≡ contents p
  pub counted : r.copied + r.state.count ≡ p.count
  pub filled : length r.out ≡ r.copied
  pub frame : r.state ≡ record p { read_pos = r.state.read_pos; count = r.state.count }

length-copy_out : (buf : List ℕ) (i n : ℕ) → length (copy_out buf i n) ≡ n
unfolding copy_out
length-copy_out buf i zero = refl
length-copy_out buf i (suc n) = ap suc (length-copy_out buf (i + 1) n)

take_bytes-Took :
    {p : PipeState} {r : Reading} (wrap : ℕ → ℕ) (n : ℕ)
    → Took p r
    → n ≤ r.state.count
    → r.state.read_pos + n ≤ buffer_size
    → wrap (r.state.read_pos + n) ≡ (r.state.read_pos + n) % buffer_size
    → Took p (take_bytes wrap n r)
take_bytes-Took {p} {r} wrap n t le fits e = record {
  valid = record {
    size = t.valid.size;
    start = omega (arith, e);
    room = omega (arith, t.valid.room);
    end = omega (arith, t.valid.end, e);
  };
  kept =
      rw (append_assoc, copy_out-ring buf pos n fits)
        (ap (◌++◌ r.out) (
            ap (◌++◌ (ring buf pos n)) (ring_cong buf _ (pos + n) (count - n) (omega (arith, e)))
            ∙ sym (ring-add buf pos (pos + n) n (count - n) refl)
            ∙ ap (ring buf pos) (omega arith))
          ∙ t.kept);
  counted = omega (arith, t.counted);
  filled =
      omega (arith, length-append r.out (copy_out buf pos n), length-copy_out buf pos n, t.filled);
  frame = ap moved t.frame;
}
  where
    buf : List ℕ
    buf = r.state.buffer

    pos : ℕ
    pos = r.state.read_pos

    count : ℕ
    count = r.state.count

    moved : PipeState → PipeState
    moved s = record s { read_pos = wrap (pos + n); count = count - n }

-- One pass takes all that is wanted and there, in one part or two.
read_part-Took :
    {p : PipeState} {r : Reading} (size : ℕ)
    → Took p r
    → r.copied < size
    → 0 < r.state.count
    → Took p (read_part size r)
      × ((read_part size r).copied ≡ r.copied + min (size - r.copied) r.state.count)
unfolding read_part
read_part-Took {p} {r} size t want have = elim (Bool-cases (ltb 0 remaining)) [
  | inl more ↦ rw more (
    take_bytes-Took {r = take_bytes (λ i. i % buffer_size) first r} (λ i. i) remaining first-Took
        (omega arith) (omega (arith, t.valid.start, t.valid.room))
        (omega (arith, t.valid.start, t.valid.room, ltb→lt _ _ more)),
    omega arith,
  )
  | inr whole ↦ rw whole (first-Took, omega (arith, ltb_false→le _ _ whole))
]
  where
    bytes : ℕ
    bytes = min (size - r.copied) r.state.count

    first : ℕ
    first = min bytes (buffer_size - r.state.read_pos)

    remaining : ℕ
    remaining = bytes - first

    first-Took : Took p (take_bytes (λ i. i % buffer_size) first r)
    first-Took =
        take_bytes-Took {r = r} (λ i. i % buffer_size) first t (omega arith)
          (omega (arith, t.valid.start)) refl

-- The test of the inner loop.
abbrev goes_on : ℕ → Reading → Bool
goes_on size r = ltb r.copied size && ltb 0 r.state.count

read_while_stop :
    (fuel size : ℕ) (r : Reading) → goes_on size r ≡ false → read_while fuel size r ≡ r
unfolding read_while
read_while_stop zero size r e = refl
read_while_stop (suc fuel) size r e = rw e

read_while_round :
    (fuel size : ℕ) (r : Reading)
    → goes_on size r ≡ true
    → read_while (suc fuel) size r ≡ read_while fuel size (read_part size r)
unfolding read_while
read_while_round fuel size r e = rw e

-- The loop ends within one pass: all that is wanted has been taken, or nothing is left.
read_while-Took :
    {p : PipeState} (fuel size : ℕ) (r : Reading)
    → Took p r
    → r.copied ≤ size
    → Took p (read_while (suc fuel) size r)
      × ((read_while (suc fuel) size r).copied ≡ r.copied + min (size - r.copied) r.state.count)
read_while-Took {p} fuel size r t le = elim (Bool-cases (goes_on size r)) [
  | inr stop ↦ rw (read_while_stop (suc fuel) size r stop) (t, ground arith)
  | inl more ↦
      let (t', e) = read_part-Took {r = r} size t (ground arith) (ground arith) in
      let stop : goes_on size (read_part size r) ≡ false = ground (arith, t'.counted, t.counted) in
      rw (read_while_round fuel size r more, read_while_stop fuel size (read_part size r) stop)
        (t', e)
]

-- Under the lock pipe_read_inode takes the oldest bytes of a valid pipe, as many as are wanted and
-- there, and leaves the others in order; nothing but the read position and the count changes.
pub read_locked-Took :
    (size : ℕ) (p : PipeState)
    → IsValid p
    → Took p (read_locked size p) × ((read_locked size p).copied ≡ min size p.count)
unfolding read_locked
read_locked-Took size p v =
    let (t, e) = read_while-Took size size start started (omega arith) in (t, omega (arith, e))
  where
    start : Reading
    start = record { state = p; copied = 0; out = [] }

    started : Took p start
    started = record { valid = v; kept = refl; counted = omega arith; filled = refl; frame = refl }

-- A round that finds nothing leaves the pipe as it was.
pub read_locked_idle :
    (size : ℕ) (p : PipeState)
    → p.count ≡ 0
    → read_locked size p ≡ record { state = p; copied = 0; out = [] }
unfolding read_locked
read_locked_idle size p e = read_while_stop (suc size) size _ (ground arith)
