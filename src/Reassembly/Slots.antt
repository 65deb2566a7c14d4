-- ===== src/Reassembly/Slots.antt =====
-- kernel/src/net/ipv4_frag.c: the slots of half built packets, and the calls on them.
use bleed_kernel.Common.{
  ℕ, zero, suc, ◌+◌, ◌-◌, ◌*◌, ◌/◌, ◌%◌, Bool, true, false, not, ◌&&◌, ◌||◌, Option, none, some,
  List, [], ◌∷◌, if◌then◌else◌, ltb, leb, ◌==◌, length, get_or, set, add64, sub64,
}

-- IP_MAX_PAYLOAD and IP_FRAG_TIMEOUT_MS
abbrev pub ip_max_payload : ℕ
ip_max_payload = 65515

abbrev pub ip_frag_timeout : ℕ
ip_frag_timeout = 5000

-- The fields of `ipv4_hdr_t` that are read; `frag` in host order.
pub record Header : Type 0 where
  pub src : ℕ
  pub dst : ℕ
  pub id : ℕ
  pub proto : ℕ
  pub frag : ℕ

-- `ip_frag_t`: `bytes` is what `data` points to, by offset, and `have` the bitmap of blocks.
pub record Frag : Type 0 where
  pub used : Bool
  pub src : ℕ
  pub dst : ℕ
  pub id : ℕ
  pub proto : ℕ
  pub started : ℕ
  pub total : ℕ
  pub blocks : ℕ
  pub bytes : ℕ → ℕ
  pub have : ℕ → Bool

-- `frags` and `frags_dropped`
pub record Frags : Type 0 where
  pub slots : List Frag
  pub dropped : ℕ

-- frag_free
abbrev pub frag_free : Frag → Frag
frag_free f = record f { used = false }

-- What the loop of frag_slot finds: the packet's own slot, or the first free one and the oldest, with
-- the time when that was started.
pub data Slot : Type 0 where
  own : ℕ → Slot
  others : Option ℕ → Option (ℕ × ℕ) → Slot

abbrev pub same_packet : Header → Frag → Bool
same_packet h f = f.src == h.src && (f.dst == h.dst && (f.id == h.id && f.proto == h.proto))

abbrev pub first_free : Option ℕ → ℕ → Option ℕ
first_free none i = some i
first_free (some j) i = some j

abbrev pub older : Option (ℕ × ℕ) → ℕ → ℕ → Option (ℕ × ℕ)
older none i started = some (i, started)
older (some (j, t)) i started = if ltb started t then some (i, started) else some (j, t)

unfoldable pub slot_loop : Header → ℕ → List Frag → Option ℕ → Option (ℕ × ℕ) → Slot
slot_loop h i [] free oldest = others free oldest
slot_loop h i (f ∷ fs) free oldest =
    let unused = slot_loop h (i + 1) fs (first_free free i) oldest in
    let taken = slot_loop h (i + 1) fs free (older oldest i f.started) in
    if not f.used then unused else if same_packet h f then own i else taken

-- A slot for a new packet; `heap` is what the new memory holds, `none` where kmalloc fails.
abbrev pub start : Header → ℕ → (ℕ → ℕ) → Frag
start h now heap = record {
  used = true;
  src = h.src;
  dst = h.dst;
  id = h.id;
  proto = h.proto;
  started = now;
  total = 0;
  blocks = 0;
  bytes = heap;
  have = λ b. false;
}

unfoldable pub open_slot :
    Header → ℕ → Option (ℕ → ℕ) → ℕ → Frag → Frags → Option (ℕ × Frag) × Frags
open_slot h now none i old s = (none, s)
open_slot h now (some heap) i old s =
    let f = start h now heap in (some (i, f), record s { slots = set s.slots i f })

-- frag_slot: the index and the contents of the slot. With a slot of no use the code would follow NULL,
-- which cannot be, since a slot is free or used.
unfoldable pub frag_slot : Header → ℕ → Option (ℕ → ℕ) → Frag → Frags → Option (ℕ × Frag) × Frags
frag_slot h now memory blank s = elim (slot_loop h 0 s.slots none none) [
  | own i ↦ (some (i, get_or s.slots i blank), s)
  | others free oldest ↦ elim free [
    | some i ↦ open_slot h now memory i blank s
    | none ↦ elim oldest [
      | none ↦ (none, s)
      | some o ↦ open_slot h now memory o.0 blank (record {
        slots = set s.slots o.0 (frag_free (get_or s.slots o.0 blank));
        dropped = add64 s.dropped 1;
      })
    ]
  ]
]

-- memcpy of the payload.
abbrev pub put_payload : ℕ → List ℕ → (ℕ → ℕ) → ℕ → ℕ
put_payload offset payload bytes i =
    if leb offset i && ltb i (offset + length payload)
    then get_or payload (i - offset) 0
    else bytes i

-- The loop over the blocks of a fragment; on the number of blocks that are left.
unfoldable pub mark_blocks : ℕ → ℕ → Frag → Frag
mark_blocks zero b f = f
mark_blocks (suc left) b f =
    let fresh = record f { have = λ j. if j == b then true else f.have j; blocks = f.blocks + 1 } in
    mark_blocks left (b + 1) (if not (f.have b) then fresh else f)

-- What ipv4_reassemble does with the fragment's slot.
unfoldable pub add_fragment : ℕ → Bool → List ℕ → Frag → Frag
add_fragment offset more payload f =
    let len = length payload in
    let filled = record f { bytes = put_payload offset payload f.bytes } in
    let marked = mark_blocks ((offset + len + 7) / 8 - offset / 8) (offset / 8) filled in
    if not more then record marked { total = offset + len } else marked

-- ipv4_reassemble: the packet, if it is complete, as its bytes and its length.
unfoldable pub ipv4_reassemble :
    Header → ℕ → Option (ℕ → ℕ) → Frag → List ℕ → Frags → Option ((ℕ → ℕ) × ℕ) × Frags
ipv4_reassemble h now memory blank payload s =
    let offset = h.frag % 8192 * 8 in
    let more = not (h.frag / 8192 % 2 == 0) in
    let len = length payload in
    if ltb ip_max_payload (offset + len) || (more && (not (len % 8 == 0) || len == 0))
    then (none, s)
    else (let (slot, s') = frag_slot h now memory blank s in
        elim slot [
          | none ↦ (none, s')
          | some at ↦
              let f = add_fragment offset more payload at.1 in
              if not (f.total == 0) && f.blocks == (f.total + 7) / 8
              then (some (f.bytes, f.total), record s' { slots = set s'.slots at.0 (frag_free f) })
              else (none, record s' { slots = set s'.slots at.0 f })
        ])

-- The loop of ipv4_frag_tick: the slots, and how many were given up.
unfoldable pub expire_loop : ℕ → List Frag → List Frag × ℕ
expire_loop now [] = ([], 0)
expire_loop now (f ∷ fs) =
    let (fs', expired) = expire_loop now fs in
    if f.used && leb ip_frag_timeout (sub64 now f.started)
    then (frag_free f ∷ fs', expired + 1)
    else (f ∷ fs', expired)

-- ipv4_frag_tick
unfoldable pub ipv4_frag_tick : ℕ → Frags → Frags
ipv4_frag_tick now s =
    let (slots, expired) = expire_loop now s.slots in
    record { slots = slots; dropped = add64 s.dropped expired }
