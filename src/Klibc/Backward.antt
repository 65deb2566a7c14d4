-- ===== src/Klibc/Backward.antt =====
-- memmove: blocks that overlap with the destination above the source are copied downwards.
use bleed_kernel.Common.{
  ℕ, zero, suc, ◌+◌, ◌-◌, ◌≤◌, ◌<◌, ◌≡◌, refl, sym, ap, ap₂, ◌∙◌, inl, inr, true, false, ltb, leb,
  arith,
}
use native.Mathlib.Decide.{dec_lt, dec_le}
use bleed_kernel.Klibc.Memory.{
  Mem, move_block, Copy, chunk_of, backward_loop, copy_back_vec, move_back_simd, memmove,
}
use bleed_kernel.Klibc.Move.{block_inside, block_below, block_above, nothing_moved}
use bleed_kernel.Klibc.Overlap.{chunk_bounds, memcpy-move_block}

-- Two pieces of a copy downwards, the upper one first, are one.
join_backward :
    (m m' : Mem) (dest src a b : ℕ)
    → src ≤ dest
    → ((i : ℕ) → m' i ≡ move_block m (dest + a) (src + a) b i)
    → (i : ℕ) → move_block m' dest src a i ≡ move_block m dest src (a + b) i
join_backward m m' dest src a b down first i = elim (dec_lt i dest) [
  | yes before ↦
      block_below m' dest src a i before
      ∙ first i
      ∙ block_below m (dest + a) (src + a) b i (omega (arith, before))
      ∙ sym (block_below m dest src (a + b) i before)
  | no from ↦ elim (dec_lt i (dest + a)) [
    | yes in_lower ↦
        let at : ℕ = src + (i - dest) in
        block_inside m' dest src a i (omega (arith, from)) in_lower
        ∙ first at
        ∙ block_below m (dest + a) (src + a) b at (omega (arith, from, in_lower, down))
        ∙ sym (block_inside m dest src (a + b) i (omega (arith, from)) (omega (arith, in_lower)))
    | no past_lower ↦ elim (dec_lt i (dest + a + b)) [
      | yes in_upper ↦
          let same : src + a + (i - (dest + a)) ≡ src + (i - dest) = omega (arith, past_lower) in
          block_above m' dest src a i (omega (arith, past_lower))
          ∙ first i
          ∙ block_inside m (dest + a) (src + a) b i (omega (arith, past_lower)) in_upper
          ∙ ap m same
          ∙ sym (block_inside m dest src (a + b) i (omega (arith, from)) (omega (arith, in_upper)))
      | no beyond ↦
          block_above m' dest src a i (omega (arith, past_lower))
          ∙ first i
          ∙ block_above m (dest + a) (src + a) b i (omega (arith, beyond))
          ∙ sym (block_above m dest src (a + b) i (omega (arith, beyond)))
    ]
  ]
]

-- What a loop that copies downwards has done: the bytes from `r.n` on.
pub record MovedDown (c r : Copy) : Type 0 where
  pub left : r.n ≤ c.n
  pub dest_same : r.dest ≡ c.dest
  pub src_same : r.src ≡ c.src
  pub bytes : (i : ℕ) → r.mem i ≡ move_block c.mem (c.dest + r.n) (c.src + r.n) (c.n - r.n) i

MovedDown-refl : (c : Copy) → MovedDown c c
MovedDown-refl c = record {
  left = omega arith;
  dest_same = refl;
  src_same = refl;
  bytes = λ i.
      let none_moved : c.n - c.n ≡ 0 = omega arith in
      rw none_moved (sym (nothing_moved c.mem (c.dest + c.n) (c.src + c.n) i));
}

MovedDown-trans : (c r t : Copy) → c.src ≤ c.dest → MovedDown c r → MovedDown r t → MovedDown c t
MovedDown-trans c r t down v w = record {
  left = omega (arith, v.left, w.left);
  dest_same = w.dest_same ∙ v.dest_same;
  src_same = w.src_same ∙ v.src_same;
  bytes = λ i.
      let a : ℕ = r.n - t.n in
      let upper : c.dest + r.n ≡ c.dest + t.n + a = omega (arith, w.left) in
      let upper_src : c.src + r.n ≡ c.src + t.n + a = omega (arith, w.left) in
      let whole : a + (c.n - r.n) ≡ c.n - t.n = omega (arith, v.left, w.left) in
      w.bytes i
      ∙ ap₂ (λ d s. move_block r.mem (d + t.n) (s + t.n) a i) v.dest_same v.src_same
      ∙ join_backward c.mem r.mem (c.dest + t.n) (c.src + t.n) a (c.n - r.n) (omega (arith, down))
          (λ j. v.bytes j ∙ ap₂ (λ d s. move_block c.mem d s (c.n - r.n) j) upper upper_src) i
      ∙ ap (λ k. move_block c.mem (c.dest + t.n) (c.src + t.n) k i) whole;
}

backward_loop-MovedDown :
    (width fuel : ℕ) (c : Copy)
    → 0 < width
    → c.src ≤ c.dest
    → c.n ≤ fuel
    → MovedDown c (backward_loop width fuel c) × (backward_loop width fuel c).n < width
unfolding backward_loop
backward_loop-MovedDown width zero c p down fed = (MovedDown-refl c, omega arith)
backward_loop-MovedDown width (suc fuel) c p down fed = elim (dec_le width c.n) [
  | no short ↦
      let stop : leb width c.n ≡ false = ground (arith, short) in
      rw stop (MovedDown-refl c, omega (arith, short))
  | yes le ↦
      let go : leb width c.n ≡ true = ground arith in
      let next : Copy = record c {
        mem = move_block c.mem (c.dest + (c.n - width)) (c.src + (c.n - width)) width;
        n = c.n - width;
      } in
      let one : MovedDown c next = record {
        left = omega arith;
        dest_same = refl;
        src_same = refl;
        bytes = λ i.
            let piece : width ≡ c.n - (c.n - width) = omega arith in
            ap (λ k. move_block c.mem (c.dest + (c.n - width)) (c.src + (c.n - width)) k i) piece;
      } in
      let rest = backward_loop-MovedDown width fuel next p down (omega arith) in
      rw go (MovedDown-trans c next _ down one rest.0, rest.1)
]

copy_back_vec-MovedDown :
    (c : Copy) → c.src ≤ c.dest → MovedDown c (copy_back_vec c) × ((copy_back_vec c).n ≡ 0)
unfolding copy_back_vec
copy_back_vec-MovedDown c down =
    let one = backward_loop-MovedDown 16 c.n c (omega arith) down (omega arith) in
    let c1 : Copy = backward_loop 16 c.n c in
    let two =
      backward_loop-MovedDown 1 c.n c1 (omega arith)
        (omega (arith, one.0.dest_same, one.0.src_same, down)) (omega (arith, one.0.left)) in
    (MovedDown-trans c c1 (backward_loop 1 c.n c1) down one.0 two.0, omega (arith, two.1))

settle :
    (m : Mem) (dest src n z k i : ℕ)
    → z ≡ 0
    → n ≡ k
    → move_block m (dest + z) (src + z) (n - z) i ≡ move_block m dest src k i
settle m dest src n z k i nothing same =
    let d : dest + z ≡ dest = omega arith in
    let s : src + z ≡ src = omega arith in
    let w : n - z ≡ k = omega arith in
    ap₂ (λ x y. move_block m x y (n - z) i) d s ∙ ap (λ x. move_block m dest src x i) w

move_back_simd-MovedDown :
    (fuel : ℕ) (c : Copy)
    → c.src ≤ c.dest
    → c.n ≤ fuel
    → MovedDown c (move_back_simd fuel c) × ((move_back_simd fuel c).n ≡ 0)
unfolding move_back_simd
move_back_simd-MovedDown zero c down fed = (MovedDown-refl c, omega arith)
move_back_simd-MovedDown (suc fuel) c down fed = elim (dec_lt 0 c.n) [
  | no none_left ↦
      let stop : ltb 0 c.n ≡ false = ground (arith, none_left) in
      rw stop (MovedDown-refl c, omega (arith, none_left))
  | yes some_left ↦
      let go : ltb 0 c.n ≡ true = ground arith in
      let chunk : ℕ = chunk_of c.n in
      let left : ℕ = c.n - chunk in
      let bounds = chunk_bounds c.n in
      let piece : Copy = record {
        mem = c.mem;
        dest = c.dest + left;
        src = c.src + left;
        n = chunk;
      } in
      let vec = copy_back_vec-MovedDown piece (omega (arith, down)) in
      let next : Copy = record c { mem = (copy_back_vec piece).mem; n = left } in
      let one : MovedDown c next = record {
        left = omega arith;
        dest_same = refl;
        src_same = refl;
        bytes = λ i.
            vec.0.bytes i
            ∙ settle c.mem (c.dest + left) (c.src + left) chunk (copy_back_vec piece).n (c.n - left)
                i vec.1 (omega (arith, bounds.0));
      } in
      let rest = move_back_simd-MovedDown fuel next down (omega (arith, bounds.1 some_left)) in
      rw go (MovedDown-trans c next _ down one rest.0, rest.1)
]

-- memmove moves the bytes as they were, for every length and however the two blocks overlap.
pub memmove-move_block :
    (m : Mem) (dest src n i : ℕ) → memmove m dest src n i ≡ move_block m dest src n i
unfolding memmove
memmove-move_block m dest src n i =
    let c : Copy = record { mem = m; dest = dest; src = src; n = n } in
    elim (dec_le dest src) [
      | yes below ↦
          let low : leb dest src ≡ true = ground arith in
          rw low (memcpy-move_block m dest src n (inl below) i)
      | no above ↦ elim (dec_le (src + n) dest) [
        | yes apart ↦
            let high : leb dest src ≡ false = ground (arith, above) in
            let past : leb (src + n) dest ≡ true = ground arith in
            rw (high, past) (memcpy-move_block m dest src n (inr apart) i)
        | no overlap ↦
            let high : leb dest src ≡ false = ground (arith, above) in
            let within : leb (src + n) dest ≡ false = ground (arith, overlap) in
            let all = move_back_simd-MovedDown n c (omega (arith, above)) (omega arith) in
            rw (high, within)
              (all.0.bytes i ∙ settle m dest src n (move_back_simd n c).n n i all.1 refl)
      ]
    ]
