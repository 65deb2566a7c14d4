-- ===== src/Klibc/Fill.antt =====
-- However the pieces of a fill are cut, memset sets every byte of the block and no other.
use bleed_kernel.Common.{
  ℕ, zero, suc, ◌+◌, ◌-◌, ◌*◌, ◌/◌, ◌%◌, ◌≤◌, ◌<◌, ◌≡◌, refl, ap, ◌∙◌, inl, inr, true, false, ltb,
  leb, Bool-cases, arith,
}
use native.Mathlib.Decide.{dec_lt, dec_le}
use bleed_kernel.Klibc.Memory.{
  Mem, fill_block, Copy, simd_min, chunk_of, fill_loop, fill_vec, fill_simd, rep_stos, memset,
}
use bleed_kernel.Klibc.Overlap.{chunk_bounds}

join_fill :
    (m m' : Mem) (dest c a b : ℕ)
    → ((i : ℕ) → m' i ≡ fill_block m dest c a i)
    → (i : ℕ) → fill_block m' (dest + a) c b i ≡ fill_block m dest c (a + b) i
join_fill m m' dest c a b first i = rw (first i) (ground arith)

-- What a loop that fills has done: `k` bytes, and what is left.
record Filled (c : ℕ) (f r : Copy) : Type 0 where
  k : ℕ
  left : k + r.n ≡ f.n
  dest_on : r.dest ≡ f.dest + k
  bytes : (i : ℕ) → r.mem i ≡ fill_block f.mem f.dest c k i

Filled-refl : (c : ℕ) (f : Copy) → Filled c f f
Filled-refl c f = record {
  k = 0;
  left = omega arith;
  dest_on = omega arith;
  bytes = λ i. ground arith;
}

Filled-trans : (c : ℕ) (f r t : Copy) → Filled c f r → Filled c r t → Filled c f t
Filled-trans c f r t v w = record {
  k = v.k + w.k;
  left = omega (arith, v.left, w.left);
  dest_on = omega (arith, v.dest_on, w.dest_on);
  bytes = λ i.
      w.bytes i
      ∙ ap (λ d. fill_block r.mem d c w.k i) v.dest_on
      ∙ join_fill f.mem r.mem f.dest c v.k w.k v.bytes i;
}

-- A pass of a filling loop.
abbrev further : ℕ → ℕ → Copy → Copy
further c width f = record f {
  mem = fill_block f.mem f.dest c width;
  dest = f.dest + width;
  n = f.n - width;
}

further-Filled : (c width : ℕ) (f : Copy) → width ≤ f.n → Filled c f (further c width f)
further-Filled c width f le = record {
  k = width;
  left = omega arith;
  dest_on = refl;
  bytes = λ i. refl;
}

fill_loop-Filled :
    (c width fuel : ℕ) (f : Copy)
    → 0 < width
    → f.n ≤ fuel
    → Filled c f (fill_loop c width fuel f) × (fill_loop c width fuel f).n < width
unfolding fill_loop
fill_loop-Filled c width zero f p fed = (Filled-refl c f, omega arith)
fill_loop-Filled c width (suc fuel) f p fed = elim (dec_le width f.n) [
  | no short ↦
      let stop : leb width f.n ≡ false = ground (arith, short) in
      rw stop (Filled-refl c f, omega (arith, short))
  | yes le ↦
      let go : leb width f.n ≡ true = ground arith in
      let one = further-Filled c width f le in
      let rest = fill_loop-Filled c width fuel (further c width f) p (omega arith) in
      rw go (Filled-trans c f (further c width f) _ one rest.0, rest.1)
]

fill_vec-Filled : (c : ℕ) (f : Copy) → Filled c f (fill_vec c f) × ((fill_vec c f).n ≡ 0)
unfolding fill_vec
fill_vec-Filled c f =
    let one = fill_loop-Filled c 128 f.n f (omega arith) (omega arith) in
    let f1 : Copy = fill_loop c 128 f.n f in
    let two = fill_loop-Filled c 16 f.n f1 (omega arith) (omega (arith, one.0.left)) in
    let f2 : Copy = fill_loop c 16 f.n f1 in
    let both = Filled-trans c f f1 f2 one.0 two.0 in
    let three = fill_loop-Filled c 1 f.n f2 (omega arith) (omega (arith, both.left)) in
    (Filled-trans c f f2 (fill_loop c 1 f.n f2) both three.0, omega (arith, three.1))

fill_simd-Filled :
    (c fuel : ℕ) (f : Copy)
    → f.n ≤ fuel
    → Filled c f (fill_simd c fuel f) × ((fill_simd c fuel f).n ≡ 0)
unfolding fill_simd
fill_simd-Filled c zero f fed = (Filled-refl c f, omega arith)
fill_simd-Filled c (suc fuel) f fed = elim (dec_lt 0 f.n) [
  | no none_left ↦
      let stop : ltb 0 f.n ≡ false = ground (arith, none_left) in
      rw stop (Filled-refl c f, omega (arith, none_left))
  | yes some_left ↦
      let go : ltb 0 f.n ≡ true = ground arith in
      let chunk : ℕ = chunk_of f.n in
      let bounds = chunk_bounds f.n in
      let vec = fill_vec-Filled c (record f { n = chunk }) in
      let next : Copy = record f {
        mem = (fill_vec c (record f { n = chunk })).mem;
        dest = f.dest + chunk;
        n = f.n - chunk;
      } in
      let whole : vec.0.k ≡ chunk = omega (arith, vec.0.left, vec.1) in
      let one : Filled c f next = record {
        k = chunk;
        left = omega (arith, bounds.0);
        dest_on = refl;
        bytes = λ i. vec.0.bytes i ∙ ap (λ k. fill_block f.mem f.dest c k i) whole;
      } in
      let rest = fill_simd-Filled c fuel next (omega (arith, bounds.1 some_left)) in
      rw go (Filled-trans c f next _ one rest.0, rest.1)
]

rep_stos-Filled :
    (c width count : ℕ) (f : Copy)
    → count * width ≤ f.n
    → Filled c f (rep_stos c width count f) × ((rep_stos c width count f).n ≡ f.n - count * width)
unfolding rep_stos
rep_stos-Filled c width zero f fits = (Filled-refl c f, grind arith)
rep_stos-Filled c width (suc count) f fits =
    let product : suc count * width ≡ width + count * width = grind arith in
    let one = further-Filled c width f (omega (arith, product)) in
    let rest = rep_stos-Filled c width count (further c width f) (omega (arith, product)) in
    (Filled-trans c f (further c width f) _ one rest.0, omega (arith, rest.1, product))

-- memset sets every byte of the block to the low byte of the value, and no other, for every length.
pub memset-fill_block :
    (m : Mem) (dest value n i : ℕ) → memset m dest value n i ≡ fill_block m dest (value % 256) n i
unfolding memset
memset-fill_block m dest value n i =
    let c : ℕ = value % 256 in
    let f : Copy = record { mem = m; dest = dest; src = 0; n = n } in
    elim (Bool-cases (leb simd_min n)) [
      | inl large ↦
          let all = fill_simd-Filled c n f (omega arith) in
          let whole : all.0.k ≡ n = omega (arith, all.0.left, all.1) in
          rw large (all.0.bytes i ∙ ap (λ k. fill_block m dest c k i) whole)
      | inr small ↦
          let words = rep_stos-Filled c 8 (n / 8) f (omega arith) in
          let f1 : Copy = rep_stos c 8 (n / 8) f in
          let bytes = rep_stos-Filled c 1 (n % 8) f1 (omega (arith, words.1)) in
          let both = Filled-trans c f f1 _ words.0 bytes.0 in
          let whole : both.k ≡ n = omega (arith, both.left, words.1, bytes.1) in
          rw small (both.bytes i ∙ ap (λ k. fill_block m dest c k i) whole)
    ]
