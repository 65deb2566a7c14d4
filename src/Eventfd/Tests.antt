-- ===== src/Eventfd/Tests.antt =====
-- Concrete counters: runs of the calls, and the theorems at them.
use bleed_kernel.Common.{
  ◌≡◌, ◌≢◌, refl, ◌↔◌, true, false, none, some, [], ◌∷◌, arith, ok, err, einval, Blocking,
}
use Prim.Native.Nat.{bit_and}
use bleed_kernel.Eventfd.Calls.{
  EvFd, ev_read, ev_read_loop, ev_read_round, ev_write, ev_write_round, ev_write_loop, ev_poll,
}
use bleed_kernel.Eventfd.Counter.{
  takes, puts, ev_run, EvConserves, ev_run-EvConserves, ev_write_loop_spins, EvWaits, ev_poll_ready,
}

abbrev five : EvFd
five = record { count = 5; semaphore = false; nonblock = false; wakes = 0 }

abbrev permits : EvFd
permits = record five { semaphore = true }

-- A task that sleeps would be helped: the counter is emptied while it does.
abbrev drained : Blocking EvFd
drained = record {
  interrupted = false;
  meanwhile = λ e. e;
  signalled = false;
  asleep = λ e. record e { count = 0 };
}

ev_read-five : ev_read [] 8 five ≡ some (ok 8, some 5, record five { count = 0; wakes = 1 })
unfolding ev_read ev_read_loop ev_read_round
ev_read-five = refl

ev_write_short : ev_write [] 4 1 five ≡ some (err einval, five)
unfolding ev_write
ev_write_short = refl

ev_run-EvConserves_example :
    EvConserves five (ev_run (takes ∷ puts 3 ∷ takes ∷ takes ∷ puts 18446744073709551615 ∷ []) five)
ev_run-EvConserves_example =
    ev_run-EvConserves (takes ∷ puts 3 ∷ takes ∷ takes ∷ puts 18446744073709551615 ∷ []) five
      (omega arith)

ev_write_loop_spins_example :
    ev_write_loop (drained ∷ drained ∷ []) 18446744073709551612 five ≡ none
ev_write_loop_spins_example =
    ev_write_loop_spins (drained ∷ drained ∷ []) 18446744073709551612 five
      ((refl, λ e. refl), ((refl, λ e. refl), tt)) refl (omega arith) (omega arith)

ev_poll_ready_example :
    ((bit_and (ev_poll five) 1 ≡ 0) ↔ EvWaits (λ r. r.0) (ev_read_round five))
    × ((bit_and (ev_poll five) 4 ≡ 0) ↔ EvWaits (λ r. r.0) (ev_write_round 1 five))
    × (ev_poll five ≢ 0)
ev_poll_ready_example = ev_poll_ready five (omega arith)
