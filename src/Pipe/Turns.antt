-- ===== src/Pipe/Turns.antt =====
-- What a round of a read or a write of a pipe does, on every branch, and what any interleaving of
-- such rounds does to the bytes.
use bleed_kernel.Common.{
  ℕ, ◌+◌, ◌-◌, ◌≤◌, ◌<◌, ◌≡◌, refl, sym, ap, ap₂, ◌∙◌, ◌⊎◌, inl, inr, true, false, List, [], ◌++◌,
  ltb, ◌==◌, Bool-cases, arith, length, take, drop, length-drop, take-length, take-append,
  drop-append, min, Result, ok, err, eagain, epipe, is_zero, ==→eq,
}
use native.Mathlib.Decide.{ℕ_discrete}
use bleed_kernel.Pipe.State.{PipeState, Turn, returns, waits, buffer_size, wake}
use bleed_kernel.Pipe.Ring.{contents, IsValid}
use bleed_kernel.Pipe.Read.{Reading, Reply, read_locked, read_turn}
use bleed_kernel.Pipe.Read.Fifo.{Took, read_locked-Took, read_locked_idle}
use bleed_kernel.Pipe.Write.{Writing, write_locked, write_turn, woken, copied_or}
use bleed_kernel.Pipe.Write.Fifo.{Put, write_locked-Put}

-- The outcomes of a round of pipe_read_inode.
pub data ReadTurn (size : ℕ) (p : PipeState) (t : Turn PipeState Reply) : Type 0 where
  got :
      (p' : PipeState)
      → t ≡ returns (ok (min size p.count), take (min size p.count) (contents p), wake p')
      → 0 < p.count
      → contents p' ≡ drop (min size p.count) (contents p)
      → IsValid p'
      → p' ≡ record p { read_pos = p'.read_pos; count = p'.count }
      → ReadTurn size p t
  hung_up : t ≡ returns (ok 0, [], p) → p.count ≡ 0 → is_zero p.writers ≡ true → ReadTurn size p t
  would_block :
      t ≡ returns (err eagain, [], p)
      → p.count ≡ 0
      → is_zero p.writers ≡ false
      → p.nonblock ≡ true
      → ReadTurn size p t
  blocks :
      t ≡ waits p → p.count ≡ 0 → is_zero p.writers ≡ false → p.nonblock ≡ false → ReadTurn size p t

nothing_there : (size : ℕ) (p : PipeState) → p.count ≡ 0 → ReadTurn size p (read_turn size p)
unfolding read_turn
nothing_there size p e = elim (Bool-cases (is_zero p.writers)) [
  | inl gone ↦ hung_up (rw (read_locked_idle size p e) (ground arith)) e gone
  | inr attached ↦ elim (Bool-cases p.nonblock) [
    | inl nb ↦ would_block (rw (read_locked_idle size p e) (ground arith)) e attached nb
    | inr b ↦ blocks (rw (read_locked_idle size p e) (ground arith)) e attached b
  ]
]

something_there :
    (size n : ℕ) (p : PipeState) (r : Reading)
    → n ≡ min size p.count
    → 0 < n
    → 0 < p.count
    → read_locked size p ≡ r
    → Took p r
    → r.copied ≡ n
    → ReadTurn size p (read_turn size p)
unfolding read_turn
something_there size n p r en nz have eq t e =
    let some_bytes : ltb 0 r.copied ≡ true = ground arith in
    let out_length : length r.out ≡ n = t.filled ∙ e in
    let wanted : r.copied ≡ min size p.count = e ∙ en in
    let out_eq : r.out ≡ take (min size p.count) (contents p) =
      sym (ap (take (min size p.count)) (sym t.kept) ∙ take-append _ r.out _ (out_length ∙ en)) in
    let rest_eq : contents r.state ≡ drop (min size p.count) (contents p) =
      sym (ap (drop (min size p.count)) (sym t.kept) ∙ drop-append _ r.out _ (out_length ∙ en)) in
    rw (eq, some_bytes)
      (got r.state
        (ap₂ (λ (k : ℕ) (bytes : List ℕ). returns (ok k, bytes, wake r.state)) wanted out_eq) have
        rest_eq t.valid t.frame)

-- On every branch of a round of pipe_read_inode, for every valid pipe and non-zero size: with bytes
-- there it returns the oldest ones, as many as are wanted and there, leaves the rest in order and
-- wakes the waiters; with none it changes nothing, and returns 0 if the writers are gone, -EAGAIN if
-- the end does not block, and waits otherwise.
pub read_turn-ReadTurn :
    (size : ℕ) (p : PipeState) → 0 < size → IsValid p → ReadTurn size p (read_turn size p)
read_turn-ReadTurn size p nz v = elim (ℕ_discrete p.count 0) [
  | yes e ↦ nothing_there size p e
  | no ne ↦
      something_there size (min size p.count) p (read_locked size p) refl (omega arith)
        (omega arith) refl (read_locked-Took size p v).0 (read_locked-Took size p v).1
]

-- The outcomes of a round of pipe_write_inode with `w.copied` bytes of `src` written before.
pub data WriteTurn (src : List ℕ) (w : Writing) (t : Turn Writing (Result ℕ × PipeState))
    : Type 0 where
  broken :
      t ≡ returns (copied_or w.copied epipe, w.state)
      → is_zero w.state.readers ≡ true
      → WriteTurn src w t
  finished :
      (p' : PipeState)
      → t ≡ returns (ok (length src), p')
      → contents p' ≡ contents w.state ++ drop w.copied src
      → IsValid p'
      → is_zero w.state.readers ≡ false
      → w.state.count + (length src - w.copied) ≤ buffer_size
      → WriteTurn src w t
  filled :
      (p' : PipeState) (n : ℕ)
      → n < length src
      → n ≡ w.copied + (buffer_size - w.state.count)
      → ((t ≡ returns (copied_or n eagain, p')) × (w.state.write_nonblock ≡ true))
        ⊎ ((t ≡ waits (record { state = p'; copied = n })) × (w.state.write_nonblock ≡ false))
      → p'.count ≡ buffer_size
      → contents p' ≡ contents w.state ++ take (n - w.copied) (drop w.copied src)
      → IsValid p'
      → is_zero w.state.readers ≡ false
      → (p'.readers ≡ w.state.readers) × (p'.write_nonblock ≡ w.state.write_nonblock)
      → WriteTurn src w t

-- Waking the other side leaves the bytes alone.
record KeepsBytes (w : Writing) : Type 0 where
  valid : IsValid w.state → IsValid (woken w)
  same_contents : contents (woken w) ≡ contents w.state
  same_count : (woken w).count ≡ w.state.count
  same_nonblock : (woken w).write_nonblock ≡ w.state.write_nonblock
  same_readers : (woken w).readers ≡ w.state.readers

woken-KeepsBytes : (w : Writing) → KeepsBytes w
unfolding woken
woken-KeepsBytes w = elim (Bool-cases (ltb 0 w.copied)) [
  | inl some_bytes ↦ record {
    valid =
        λ v. rw some_bytes (record { size = v.size; start = v.start; room = v.room; end = v.end });
    same_contents = rw some_bytes;
    same_count = rw some_bytes;
    same_nonblock = rw some_bytes;
    same_readers = rw some_bytes;
  }
  | inr nothing ↦ record {
    valid = λ v. rw nothing v;
    same_contents = rw nothing;
    same_count = rw nothing;
    same_nonblock = rw nothing;
    same_readers = rw nothing;
  }
]

write_live :
    (src : List ℕ) (w w' : Writing)
    → is_zero w.state.readers ≡ false
    → IsValid w.state
    → w.copied < length src
    → write_locked (length src) src w ≡ w'
    → Put w.state src w.copied w'
    → w'.copied ≡ w.copied + min (length src - w.copied) (buffer_size - w.state.count)
    → WriteTurn src w (write_turn (length src) src w)
unfolding write_turn
write_live src w w' live v lt eq t e =
    let k = woken-KeepsBytes w' in
    let flag : (woken w').write_nonblock ≡ w.state.write_nonblock =
      k.same_nonblock ∙ ap (λ (p : PipeState). p.write_nonblock) t.frame in
    elim (Bool-cases (w'.copied == length src)) [
      | inl all ↦
          let done : w'.copied ≡ length src = ==→eq _ _ all in
          finished (woken w') (rw (live, eq, all, done))
            (k.same_contents
              ∙ t.added
              ∙ ap (◌++◌ (contents w.state))
                  (take-length _ _ (omega (arith, length-drop w.copied src))))
            (k.valid t.valid) live (omega (arith, t.counted, t.valid.room))
      | inr part ↦
          let less : w'.copied < length src = ground (arith, t.inside) in
          let full : (w'.state.count == buffer_size) ≡ true = ground (arith, t.counted, v.room) in
          filled (woken w') w'.copied less (omega arith)
            (elim (Bool-cases (woken w').write_nonblock) [
              | inl nb ↦ inl (rw (live, eq, part, full, nb), sym flag ∙ nb)
              | inr b ↦ inr (rw (live, eq, part, full, b), sym flag ∙ b)
            ])
            (k.same_count ∙ ==→eq _ _ full) (k.same_contents ∙ t.added) (k.valid t.valid) live
            (k.same_readers ∙ ap (λ (p : PipeState). p.readers) t.frame, flag)
    ]

-- On every branch of a round of pipe_write_inode, for a valid pipe and bytes left to write: without
-- readers it gives up with what was written before, or -EPIPE; else it appends all that is left and
-- returns the whole size, or fills the pipe with the next bytes and then returns their number, or
-- -EAGAIN, or waits. It never goes round again without waiting.
pub write_turn-WriteTurn :
    (src : List ℕ) (w : Writing)
    → IsValid w.state
    → w.copied < length src
    → WriteTurn src w (write_turn (length src) src w)
unfolding write_turn
write_turn-WriteTurn src w v lt = elim (Bool-cases (is_zero w.state.readers)) [
  | inl gone ↦ broken (rw gone) gone
  | inr live ↦
      write_live src w (write_locked (length src) src w) live v lt refl
        (write_locked-Put {src = src} w v (omega arith)).0
        (write_locked-Put {src = src} w v (omega arith)).1
]
