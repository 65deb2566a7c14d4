-- ===== src/Pipe/Tests.antt =====
-- Concrete pipes: runs of the calls, and the theorems at them.
use bleed_kernel.Common.{
  ℕ, ◌+◌, ◌-◌, ◌≡◌, ◌≢◌, refl, true, false, some, List, [], ◌∷◌, arith, take, replicate,
  length-replicate, min, ok, err, epipe, pos, sym, ap, ◌∙◌, length, drop, length-drop, is_zero, not,
  ◌&&◌, ◌==◌,
}
use bleed_kernel.Pipe.State.{PipeState, Pause, returns, after_pause}
use bleed_kernel.Pipe.Ring.{contents, length-ring, IsValid}
use bleed_kernel.Pipe.Read.{read_turn, read_locked}
use bleed_kernel.Pipe.Read.Fifo.{Took, read_locked-Took}
use bleed_kernel.Pipe.Write.{Writing, write_turn, write_loop, write_locked}
use bleed_kernel.Pipe.Write.Fifo.{Put, write_locked-Put}
use bleed_kernel.Pipe.Turns.{
  ReadTurn, got, hung_up, would_block, blocks, read_turn-ReadTurn, WriteTurn, write_turn-WriteTurn,
}
use bleed_kernel.Pipe.Trace.{Event, reads, writes, read_effect, run, Conserves, run-Conserves}
use bleed_kernel.Pipe.Waits.{
  Keeps, MadeRoom, written, Drains, Delivers, IsHonestReply, write_loop-IsHonest,
  write_loop-Delivers,
}
use bleed_kernel.Pipe.Control.{
  read_poll, write_poll, pollout, pollerr, UserArg, rdonly, wronly, Memory, kept, file_release,
}
use bleed_kernel.Pipe.Polling.{
  ReadWaits, ReadReturns, WriteMoves, WriteWaits, read_poll_ready, write_poll_ready, pipe_end,
  release_last_reader, release_last_writer,
}

-- Two bytes, on both sides of the end of the buffer.
abbrev loaded : PipeState
loaded = record {
  read_pos = 4095;
  write_pos = 1;
  count = 2;
  readers = pos 1;
  writers = pos 1;
  nonblock = false;
  write_nonblock = false;
  wakes = 0;
  buffer = replicate 4096 7;
}

-- A pipe that is full.
abbrev full : PipeState
full = record loaded { write_pos = 4095; count = 4096 }

loaded-IsValid : IsValid loaded
loaded-IsValid = record {
  size = length-replicate {A = ℕ} 4096 7;
  start = omega arith;
  room = omega arith;
  end = omega arith;
}

full-IsValid : IsValid full
full-IsValid = record {
  size = length-replicate {A = ℕ} 4096 7;
  start = omega arith;
  room = omega arith;
  end = omega arith;
}

abbrev message : List ℕ
message = 1 ∷ 2 ∷ 3 ∷ []

abbrev first : Writing
first = record { state = loaded; copied = 0 }

abbrev full_first : Writing
full_first = record { state = full; copied = 0 }

read_locked-Took_example :
    Took loaded (read_locked 5 loaded) × ((read_locked 5 loaded).copied ≡ min 5 2)
read_locked-Took_example = read_locked-Took 5 loaded loaded-IsValid

write_locked-Put_example :
    Put loaded message 0 (write_locked 3 message first)
    × ((write_locked 3 message first).copied ≡ 0 + min 3 (4096 - 2))
write_locked-Put_example = write_locked-Put {src = message} first loaded-IsValid (omega arith)

read_turn-ReadTurn_example : ReadTurn 5 loaded (read_turn 5 loaded)
read_turn-ReadTurn_example = read_turn-ReadTurn 5 loaded (omega arith) loaded-IsValid

write_turn-WriteTurn_example : WriteTurn message full_first (write_turn 3 message full_first)
write_turn-WriteTurn_example = write_turn-WriteTurn message full_first full-IsValid (omega arith)

abbrev events : List Event
events = writes 0 message ∷ reads 4 ∷ writes 1 message ∷ reads 2 ∷ []

run-Conserves_example : Conserves loaded (run events loaded)
run-Conserves_example =
    run-Conserves events loaded (omega arith, (omega arith, (omega arith, (omega arith, tt))))
      loaded-IsValid

-- A reader takes two bytes while the writer sleeps.
abbrev emptied : PipeState → PipeState
emptied p = (read_effect (read_turn 2 p)).1

abbrev drained : Pause
drained = record { interrupted = false; meanwhile = λ p. p; signalled = false; asleep = emptied }

emptied-IsValid : (p : PipeState) → IsValid p → IsValid (emptied p)
emptied-IsValid p v = elim (read_turn-ReadTurn 2 p (omega arith) v) [
  | got p' eq have rest v' frame ↦
      rw (emptied, eq) (record { size = v'.size; start = v'.start; room = v'.room; end = v'.end })
  | hung_up eq e gone ↦ rw (emptied, eq) v
  | would_block eq e attached nb ↦ rw (emptied, eq) v
  | blocks eq e attached b ↦ rw (emptied, eq) v
]

drained-Keeps : Keeps drained
drained-Keeps p v = (v, emptied-IsValid p v)

emptied-MadeRoom :
    (p : PipeState)
    → IsValid p
    → p.count ≡ 4096
    → is_zero p.readers ≡ false
    → p.write_nonblock ≡ false
    → MadeRoom (emptied p)
emptied-MadeRoom p v filled live b = elim (read_turn-ReadTurn 2 p (omega arith) v) [
  | got p' eq have rest v' frame ↦
      let left : p'.count ≡ length (drop (min 2 p.count) (contents p)) =
        sym (length-ring p'.buffer p'.read_pos p'.count) ∙ ap length rest in
      let all : length (contents p) ≡ p.count = length-ring p.buffer p.read_pos p.count in
      rw (emptied, eq)
        (record {
          valid = record { size = v'.size; start = v'.start; room = v'.room; end = v'.end };
          room = omega (arith, left, all, length-drop (min 2 p.count) (contents p), filled);
          live = ap (λ (q : PipeState). is_zero q.readers) frame ∙ live;
          blocking = ap (λ (q : PipeState). q.write_nonblock) frame ∙ b;
        })
  | hung_up eq e gone ↦ absurd (omega (arith, e, filled))
  | would_block eq e attached nb ↦ absurd (omega (arith, e, filled))
  | blocks eq e attached b ↦ absurd (omega (arith, e, filled))
]

drained-Drains : Drains drained
unfolding after_pause
drained-Drains = record {
  calm = refl;
  made = λ p v full live b.
      let stuck : ((p.count == 4096) && not (is_zero p.readers)) ≡ true =
        ground (arith, full, live) in
      rw stuck (emptied-MadeRoom p v full live b);
}

write_loop-IsHonest_example :
    IsHonestReply 0 3
      (written (drained ∷ []) message full_first)
      (write_loop (drained ∷ []) 3 message full_first)
write_loop-IsHonest_example =
    write_loop-IsHonest (drained ∷ []) message full_first (drained-Keeps, tt) full-IsValid
      (omega arith)

write_loop-Delivers_example :
    Delivers 3 (write_loop (drained ∷ drained ∷ drained ∷ []) 3 message full_first)
write_loop-Delivers_example =
    write_loop-Delivers (drained ∷ drained ∷ drained ∷ []) message full_first
      (drained-Drains, (drained-Drains, (drained-Drains, tt))) full-IsValid refl refl (omega arith)
      (omega arith)

read_poll_ready_example :
    (read_poll (some loaded) ≢ 0 → ReadReturns (read_turn 5 loaded))
    × (read_poll (some loaded) ≡ 0 → ReadWaits (read_turn 5 loaded))
read_poll_ready_example = read_poll_ready 5 loaded (omega arith) loaded-IsValid

write_poll_ready_example :
    (write_poll (some full) ≡ pollout → WriteMoves (write_turn 3 message full_first))
    × (write_poll (some full) ≡ 0 → WriteWaits (write_turn 3 message full_first))
    × (write_poll (some full) ≡ pollerr
        → write_turn 3 message full_first ≡ returns (err epipe, full))
write_poll_ready_example = write_poll_ready message full (omega arith) full-IsValid

abbrev nonblocking : UserArg
nonblocking = record { present = true; value = some 16; writable = true }

release_last_reader_example :
    (q : PipeState) × (file_release (some (pipe_end rdonly)) (some loaded) ≡ kept q)
    × (contents q ≡ contents loaded)
    × (q.wakes ≡ 1)
    × (write_turn 3 message (record { state = q; copied = 0 }) ≡ returns (err epipe, q))
release_last_reader_example = release_last_reader loaded 0 message refl refl

release_last_writer_example :
    (q : PipeState) × (file_release (some (pipe_end wronly)) (some loaded) ≡ kept q)
    × (q' : PipeState) × (read_turn 5 q
        ≡ returns (ok (min 5 2), take (min 5 2) (contents loaded), q'))
release_last_writer_example = release_last_writer loaded 0 5 (omega arith) loaded-IsValid refl refl

abbrev plenty : Memory
plenty = record {
  state = true;
  read_inode = true;
  write_inode = true;
  read_file = true;
  write_file = true;
}
