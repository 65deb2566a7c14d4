-- ===== src/Klibc/Overlap.antt =====
-- memcpy and memmove as a whole: for overlapping blocks too, the bytes arrive as they were.
use bleed_kernel.Common.{
  ℕ, zero, suc, ◌+◌, ◌-◌, ◌*◌, ◌/◌, ◌%◌, ◌≤◌, ◌<◌, ◌≡◌, refl, ap, ◌∙◌, inl, inr, true, false, ltb,
  leb, Bool-cases, arith,
}
use native.Mathlib.Decide.{dec_lt}
use bleed_kernel.Klibc.Memory.{
  Mem, move_block, Copy, advance, copy_fwd_vec, simd_min, chunk_of, copy_simd, rep_movs, memcpy,
}
use bleed_kernel.Klibc.Move.{
  Forward, Moved, Safe, Moved-refl, Moved-Safe, Moved-trans, shorter, advance-Moved,
  copy_fwd_vec-Moved,
}

pub chunk_bounds : (n : ℕ) → (chunk_of n ≤ n) × (0 < n → 0 < chunk_of n)
chunk_bounds n = (ground arith, λ p. ground arith)

copy_simd-Moved :
    (fuel : ℕ) (c : Copy)
    → Safe c
    → c.n ≤ fuel
    → Moved c (copy_simd fuel c) × ((copy_simd fuel c).n ≡ 0)
unfolding copy_simd
copy_simd-Moved zero c ahead fed = (Moved-refl c, omega arith)
copy_simd-Moved (suc fuel) c ahead fed = elim (dec_lt 0 c.n) [
  | no none_left ↦
      let stop : ltb 0 c.n ≡ false = ground (arith, none_left) in
      rw stop (Moved-refl c, omega (arith, none_left))
  | yes some_left ↦
      let go : ltb 0 c.n ≡ true = ground arith in
      let chunk : ℕ = chunk_of c.n in
      let bounds = chunk_bounds c.n in
      let piece : Copy = record c { n = chunk } in
      let vec = copy_fwd_vec-Moved piece (shorter c.dest c.src c.n chunk bounds.0 ahead) in
      let next : Copy = record {
        mem = (copy_fwd_vec piece).mem;
        dest = c.dest + chunk;
        src = c.src + chunk;
        n = c.n - chunk;
      } in
      let whole : vec.0.k ≡ chunk = omega (arith, vec.0.left, vec.1) in
      let one : Moved c next = record {
        k = chunk;
        left = omega (arith, bounds.0);
        dest_on = refl;
        src_on = refl;
        bytes = λ i. vec.0.bytes i ∙ ap (λ k. move_block c.mem c.dest c.src k i) whole;
      } in
      let rest =
        copy_simd-Moved fuel next (Moved-Safe c next one ahead)
          (omega (arith, bounds.1 some_left)) in
      rw go (Moved-trans c next _ ahead one rest.0, rest.1)
]

rep_movs-Moved :
    (width count : ℕ) (c : Copy)
    → Safe c
    → count * width ≤ c.n
    → Moved c (rep_movs width count c) × ((rep_movs width count c).n ≡ c.n - count * width)
unfolding rep_movs
rep_movs-Moved width zero c ahead fits = (Moved-refl c, grind arith)
rep_movs-Moved width (suc count) c ahead fits =
    let product : suc count * width ≡ width + count * width = grind arith in
    let one : Moved c (advance width c) = advance-Moved width c (omega (arith, product)) in
    let rest =
      rep_movs-Moved width count (advance width c) (Moved-Safe c _ one ahead)
        (omega (arith, product)) in
    (Moved-trans c (advance width c) _ ahead one rest.0, omega (arith, rest.1, product))

-- memcpy moves the bytes as they were, for every length, if the destination lies below the source or
-- apart from it.
pub memcpy-move_block :
    (m : Mem) (dest src n : ℕ)
    → Forward dest src n
    → (i : ℕ) → memcpy m dest src n i ≡ move_block m dest src n i
unfolding memcpy
memcpy-move_block m dest src n ahead i =
    let c : Copy = record { mem = m; dest = dest; src = src; n = n } in
    elim (Bool-cases (leb simd_min n)) [
      | inl large ↦
          let all = copy_simd-Moved n c ahead (omega arith) in
          let whole : all.0.k ≡ n = omega (arith, all.0.left, all.1) in
          rw large (rw whole at (all.0.bytes i))
      | inr small ↦
          let words = rep_movs-Moved 8 (n / 8) c ahead (omega arith) in
          let c1 : Copy = rep_movs 8 (n / 8) c in
          let bytes =
            rep_movs-Moved 1 (n % 8) c1 (Moved-Safe c c1 words.0 ahead) (omega (arith, words.1)) in
          let both = Moved-trans c c1 _ ahead words.0 bytes.0 in
          let whole : both.k ≡ n = omega (arith, both.left, words.1, bytes.1) in
          rw small (rw whole at (both.bytes i))
    ]
