-- ===== src/Klibc/Move.antt =====
-- However the pieces of a copy are cut, memcpy and memmove move the bytes as they were.
use bleed_kernel.Common.{
  ℕ, zero, suc, ◌+◌, ◌-◌, ◌≤◌, ◌<◌, ◌≡◌, refl, sym, ap, ◌∙◌, ◌⊎◌, inl, inr, true, false, ltb, leb,
  arith,
}
use native.Mathlib.Decide.{dec_lt, dec_le}
use bleed_kernel.Klibc.Memory.{Mem, move_block, Copy, advance, forward_loop, copy_fwd_vec}

module _ (m : Mem) (dest src width i : ℕ) where
  pub block_inside :
      dest ≤ i → i < dest + width → move_block m dest src width i ≡ m (src + (i - dest))
  block_inside le lt =
      let low : leb dest i ≡ true = ground arith in
      let high : ltb i (dest + width) ≡ true = ground arith in rw (low, high) refl

  pub block_below : i < dest → move_block m dest src width i ≡ m i
  block_below lt = let low : leb dest i ≡ false = ground arith in rw low refl

  pub block_above : dest + width ≤ i → move_block m dest src width i ≡ m i
  block_above le =
      let low : leb dest i ≡ true = ground arith in
      let high : ltb i (dest + width) ≡ false = ground arith in rw (low, high) refl

-- A forward copy reads nothing that it has written.
abbrev pub Forward : ℕ → ℕ → ℕ → Type 0
Forward dest src n = (dest ≤ src) ⊎ (src + n ≤ dest)

-- Two pieces of a forward copy, one after the other, are one.
join-Forward :
    (m m' : Mem) (dest src a b : ℕ)
    → Forward dest src (a + b)
    → ((i : ℕ) → m' i ≡ move_block m dest src a i)
    → (i : ℕ) → move_block m' (dest + a) (src + a) b i ≡ move_block m dest src (a + b) i
join-Forward m m' dest src a b ahead first i = elim (dec_lt i dest) [
  | yes before ↦
      block_below m' (dest + a) (src + a) b i (omega (arith, before))
      ∙ first i
      ∙ block_below m dest src a i before
      ∙ sym (block_below m dest src (a + b) i before)
  | no from ↦ elim (dec_lt i (dest + a)) [
    | yes in_first ↦
        block_below m' (dest + a) (src + a) b i in_first
        ∙ first i
        ∙ block_inside m dest src a i (omega (arith, from)) in_first
        ∙ sym (block_inside m dest src (a + b) i (omega (arith, from)) (omega (arith, in_first)))
    | no past_first ↦ elim (dec_lt i (dest + a + b)) [
      | yes in_second ↦
          let at : ℕ = src + a + (i - (dest + a)) in
          let same : at ≡ src + (i - dest) = omega (arith, past_first) in
          let unwritten : move_block m dest src a at ≡ m at = elim ahead [
            | inl down ↦ block_above m dest src a at (omega (arith, down))
            | inr apart ↦ block_below m dest src a at (omega (arith, apart, past_first, in_second))
          ] in
          block_inside m' (dest + a) (src + a) b i (omega (arith, past_first)) in_second
          ∙ first at
          ∙ unwritten
          ∙ ap m same
          ∙ sym (block_inside m dest src (a + b) i (omega (arith, from)) (omega (arith, in_second)))
      | no beyond ↦
          block_above m' (dest + a) (src + a) b i (omega (arith, beyond))
          ∙ first i
          ∙ block_above m dest src a i (omega (arith, past_first))
          ∙ sym (block_above m dest src (a + b) i (omega (arith, beyond)))
    ]
  ]
]

-- What a loop that copies upwards has done: `k` bytes, and what is left.
pub record Moved (c r : Copy) : Type 0 where
  pub k : ℕ
  pub left : k + r.n ≡ c.n
  pub dest_on : r.dest ≡ c.dest + k
  pub src_on : r.src ≡ c.src + k
  pub bytes : (i : ℕ) → r.mem i ≡ move_block c.mem c.dest c.src k i

abbrev pub Safe : Copy → Type 0
Safe c = Forward c.dest c.src c.n

pub nothing_moved : (m : Mem) (dest src i : ℕ) → move_block m dest src 0 i ≡ m i
nothing_moved m dest src i = elim (dec_lt i dest) [
  | yes before ↦ block_below m dest src 0 i before
  | no from ↦ block_above m dest src 0 i (omega (arith, from))
]

pub Moved-refl : (c : Copy) → Moved c c
Moved-refl c = record {
  k = 0;
  left = omega arith;
  dest_on = omega arith;
  src_on = omega arith;
  bytes = λ i. sym (nothing_moved c.mem c.dest c.src i);
}

pub Moved-Safe : (c r : Copy) → Moved c r → Safe c → Safe r
Moved-Safe c r v (inl down) = inl (omega (arith, v.dest_on, v.src_on, down))
Moved-Safe c r v (inr apart) = inr (omega (arith, v.dest_on, v.src_on, v.left, apart))

pub shorter : (dest src n k : ℕ) → k ≤ n → Forward dest src n → Forward dest src k
shorter dest src n k le (inl down) = inl down
shorter dest src n k le (inr apart) = inr (omega (arith, apart))

pub Moved-trans : (c r t : Copy) → Safe c → Moved c r → Moved r t → Moved c t
Moved-trans c r t ahead v w = record {
  k = v.k + w.k;
  left = omega (arith, v.left, w.left);
  dest_on = omega (arith, v.dest_on, w.dest_on);
  src_on = omega (arith, v.src_on, w.src_on);
  bytes = λ i.
      w.bytes i
      ∙ rw (v.dest_on, v.src_on)
          (join-Forward c.mem r.mem c.dest c.src v.k w.k
            (shorter c.dest c.src c.n (v.k + w.k) (omega (arith, v.left, w.left)) ahead) v.bytes i);
}

pub advance-Moved : (width : ℕ) (c : Copy) → width ≤ c.n → Moved c (advance width c)
advance-Moved width c le = record {
  k = width;
  left = omega arith;
  dest_on = refl;
  src_on = refl;
  bytes = λ i. refl;
}

-- A loop of width `width` with fuel for its bytes leaves less than one more pass.
forward_loop-Moved :
    (width fuel : ℕ) (c : Copy)
    → 0 < width
    → Safe c
    → c.n ≤ fuel
    → Moved c (forward_loop width fuel c) × (forward_loop width fuel c).n < width
unfolding forward_loop
forward_loop-Moved width zero c p ahead fed = (Moved-refl c, omega arith)
forward_loop-Moved width (suc fuel) c p ahead fed = elim (dec_le width c.n) [
  | no short ↦
      let stop : leb width c.n ≡ false = ground (arith, short) in
      rw stop (Moved-refl c, omega (arith, short))
  | yes le ↦
      let go : leb width c.n ≡ true = ground arith in
      let one : Moved c (advance width c) = advance-Moved width c le in
      let rest =
        forward_loop-Moved width fuel (advance width c) p (Moved-Safe c _ one ahead)
          (omega arith) in
      rw go (Moved-trans c (advance width c) _ ahead one rest.0, rest.1)
]

pub copy_fwd_vec-Moved : (c : Copy) → Safe c → Moved c (copy_fwd_vec c) × ((copy_fwd_vec c).n ≡ 0)
unfolding copy_fwd_vec
copy_fwd_vec-Moved c ahead =
    let one = forward_loop-Moved 128 c.n c (omega arith) ahead (omega arith) in
    let c1 : Copy = forward_loop 128 c.n c in
    let two =
      forward_loop-Moved 16 c.n c1 (omega arith) (Moved-Safe c c1 one.0 ahead)
        (omega (arith, one.0.left)) in
    let c2 : Copy = forward_loop 16 c.n c1 in
    let both : Moved c c2 = Moved-trans c c1 c2 ahead one.0 two.0 in
    let three =
      forward_loop-Moved 1 c.n c2 (omega arith) (Moved-Safe c c2 both ahead)
        (omega (arith, both.left)) in
    (Moved-trans c c2 (forward_loop 1 c.n c2) ahead both three.0, omega (arith, three.1))
