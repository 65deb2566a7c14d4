-- ===== src/Reassembly/Tests.antt =====
-- Concrete fragments: runs of the calls, and the theorem at them.
use bleed_kernel.Common.{ℕ, ◌≡◌, refl, some, List, [], ◌∷◌, replicate}
use bleed_kernel.Reassembly.Slots.{
  Header, Frag, start, mark_blocks, add_fragment, slot_loop, open_slot, frag_slot, ipv4_reassemble,
  expire_loop, ipv4_frag_tick,
}
use bleed_kernel.Reassembly.Gap.{at_16, last_at_8, idle, Leaks, reassemble_gap}

abbrev packet : Header
packet = record { src = 1; dst = 2; id = 3; proto = 17; frag = 0 }

-- What the allocated memory holds.
abbrev stale : ℕ → ℕ
stale i = 238

abbrev blank : Frag
blank = start packet 0 stale

abbrev payload : List ℕ
payload = replicate 8 5

-- A single fragment that is also the last one comes back at once.
whole_at_once : (ipv4_reassemble packet 9 (some stale) blank payload (idle blank)).1.dropped ≡ 0
unfolding ipv4_reassemble frag_slot slot_loop open_slot add_fragment mark_blocks
whole_at_once = refl

-- After five seconds a half built packet is given up.
given_up : (ipv4_frag_tick 5000 (record { slots = blank ∷ []; dropped = 7 })).dropped ≡ 8
unfolding ipv4_frag_tick expire_loop
given_up = refl

reassemble_gap_example :
    Leaks stale
      (ipv4_reassemble
        (last_at_8 packet)
        10
        (some stale)
        blank
        payload
        (ipv4_reassemble (at_16 packet) 9 (some stale) blank payload (idle blank)).1).0
reassemble_gap_example = reassemble_gap packet 9 10 stale blank payload payload refl refl
