-- ===== src/Reassembly/Gap.antt =====
-- Completeness is judged by the number of blocks alone: what a packet handed up can be missing.
use bleed_kernel.Common.{
  ℕ, ◌<◌, ◌≡◌, refl, sym, ◌∙◌, true, false, Option, none, some, List, ◌∷◌, if◌then◌else◌, leb, ◌==◌,
  arith, length, replicate,
}
use mathlib.Core.Path.{subst}
use bleed_kernel.Reassembly.Slots.{
  Header, Frag, Frags, frag_free, start, put_payload, mark_blocks, add_fragment, slot_loop,
  open_slot, frag_slot, ipv4_reassemble,
}

-- Two fragments of one packet: eight bytes at 16 with more to come, and the last eight at 8.
abbrev pub at_16 : Header → Header
at_16 h = record h { frag = 8194 }

abbrev pub last_at_8 : Header → Header
last_at_8 h = record h { frag = 1 }

-- No packet is under way.
abbrev pub idle : Frag → Frags
idle blank = record { slots = replicate 4 (frag_free blank); dropped = 0 }

-- A packet of 16 bytes of which the first eight are what the memory held before.
abbrev pub Leaks : (ℕ → ℕ) → Option ((ℕ → ℕ) × ℕ) → Type 0
Leaks heap none = ⊥
Leaks heap (some (bytes, len)) = (len ≡ 16) × ((i : ℕ) → i < 8 → bytes i ≡ heap i)

-- The slot after the first of the two fragments.
abbrev half : Header → ℕ → (ℕ → ℕ) → List ℕ → Frag
half h now heap p = record (start h now heap) {
  blocks = 1;
  bytes = put_payload 16 p heap;
  have = λ j. if j == 2 then true else false;
}

untouched :
    (offset : ℕ) (payload : List ℕ) (bytes : ℕ → ℕ) (i : ℕ)
    → i < offset
    → put_payload offset payload bytes i ≡ bytes i
untouched offset payload bytes i lt =
    let before : leb offset i ≡ false = ground arith in rw before refl

first_kept :
    (h : Header) (now : ℕ) (heap : ℕ → ℕ) (blank : Frag) (p : List ℕ)
    → length p ≡ 8
    → ipv4_reassemble (at_16 h) now (some heap) blank p (idle blank)
      ≡ (none, record { slots = half h now heap p ∷ replicate 3 (frag_free blank); dropped = 0 })
unfolding ipv4_reassemble frag_slot slot_loop open_slot add_fragment mark_blocks
first_kept h now heap blank p eight = rw eight refl

handed_up :
    (h : Header) (now now' : ℕ) (heap : ℕ → ℕ) (blank : Frag) (p q : List ℕ) (rest : List Frag)
    → length q ≡ 8
    → Leaks heap
        (ipv4_reassemble
          (last_at_8 h)
          now'
          (some heap)
          blank
          q
          (record { slots = half h now heap p ∷ rest; dropped = 0 })).0
unfolding ipv4_reassemble frag_slot slot_loop add_fragment mark_blocks
handed_up h now now' heap blank p q rest eight =
    let a : (h.src == h.src) ≡ true = ground arith in
    let b : (h.dst == h.dst) ≡ true = ground arith in
    let c : (h.id == h.id) ≡ true = ground arith in
    let d : (h.proto == h.proto) ≡ true = ground arith in
    rw (eight, a, b, c, d, eight)
      (
        refl,
        λ i lt.
            untouched 8 q (put_payload 16 p heap) i (omega (arith, lt))
            ∙ untouched 16 p heap i (omega (arith, lt)),
      )

-- For every packet and every two payloads of eight bytes, a fragment at 16 and then the last fragment
-- at 8 are handed up as a complete packet of 16 bytes, though nothing came for its first eight: they
-- are what the allocated memory held before.
pub reassemble_gap :
    (h : Header) (now now' : ℕ) (heap : ℕ → ℕ) (blank : Frag) (p q : List ℕ)
    → length p ≡ 8
    → length q ≡ 8
    → Leaks heap
        (ipv4_reassemble
          (last_at_8 h)
          now'
          (some heap)
          blank
          q
          (ipv4_reassemble (at_16 h) now (some heap) blank p (idle blank)).1).0
reassemble_gap h now now' heap blank p q eight eight' =
    subst (λ x. Leaks heap (ipv4_reassemble (last_at_8 h) now' (some heap) blank q x.1).0)
      (sym (first_kept h now heap blank p eight))
      (handed_up h now now' heap blank p q (replicate 3 (frag_free blank)) eight')
