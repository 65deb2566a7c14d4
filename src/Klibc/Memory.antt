-- ===== src/Klibc/Memory.antt =====
-- klibc/string.c: memcpy, memmove and memset, with the loops below them.
use bleed_kernel.Common.{ℕ, zero, suc, ◌+◌, ◌-◌, ◌/◌, ◌%◌, ◌&&◌, ◌||◌, if◌then◌else◌, ltb, leb}

-- Memory: the byte at each address.
abbrev pub Mem : Type 0
Mem = ℕ → ℕ

-- `width` bytes that are all read before the first is written: a vector, a block of vectors, a word or
-- a byte.
abbrev pub move_block : Mem → ℕ → ℕ → ℕ → Mem
move_block m dest src width i =
    if leb dest i && ltb i (dest + width) then m (src + (i - dest)) else m i

abbrev pub fill_block : Mem → ℕ → ℕ → ℕ → Mem
fill_block m dest c width i = if leb dest i && ltb i (dest + width) then c else m i

-- The variables of a copying loop.
pub record Copy : Type 0 where
  pub mem : Mem
  pub dest : ℕ
  pub src : ℕ
  pub n : ℕ

-- A pass of such a loop.
abbrev pub advance : ℕ → Copy → Copy
advance width c = record {
  mem = move_block c.mem c.dest c.src width;
  dest = c.dest + width;
  src = c.src + width;
  n = c.n - width;
}

-- `while (n >= width)`, and `while (n--)` for width 1.
unfoldable pub forward_loop : ℕ → ℕ → Copy → Copy
forward_loop width zero c = c
forward_loop width (suc fuel) c =
    let rest = forward_loop width fuel (advance width c) in if leb width c.n then rest else c

-- copy_fwd_vec
unfoldable pub copy_fwd_vec : Copy → Copy
copy_fwd_vec c = forward_loop 1 c.n (forward_loop 16 c.n (forward_loop 128 c.n c))

-- SIMD_CHUNK and SIMD_MIN
abbrev pub simd_chunk : ℕ
simd_chunk = 65536

abbrev pub simd_min : ℕ
simd_min = 1024

abbrev pub chunk_of : ℕ → ℕ
chunk_of n = if ltb n simd_chunk then n else simd_chunk

-- copy_simd, without the saving of registers.
unfoldable pub copy_simd : ℕ → Copy → Copy
copy_simd zero c = c
copy_simd (suc fuel) c =
    let chunk = chunk_of c.n in
    let copied = copy_fwd_vec (record c { n = chunk }) in
    let rest =
      copy_simd fuel (record {
        mem = copied.mem;
        dest = c.dest + chunk;
        src = c.src + chunk;
        n = c.n - chunk;
      }) in
    if ltb 0 c.n then rest else c

-- `rep movsq` and `rep movsb`: `count` passes of `width` bytes.
unfoldable pub rep_movs : ℕ → ℕ → Copy → Copy
rep_movs width zero c = c
rep_movs width (suc count) c = rep_movs width count (advance width c)

-- memcpy
unfoldable pub memcpy : Mem → ℕ → ℕ → ℕ → Mem
memcpy m dest src n =
    let c : Copy = record { mem = m; dest = dest; src = src; n = n } in
    if leb simd_min n then (copy_simd n c).mem else (rep_movs 1 (n % 8) (rep_movs 8 (n / 8) c)).mem

-- A loop of copy_back_vec: `n` goes down by `width`, then the bytes from there on are moved.
unfoldable pub backward_loop : ℕ → ℕ → Copy → Copy
backward_loop width zero c = c
backward_loop width (suc fuel) c =
    let left = c.n - width in
    let rest =
      backward_loop width fuel
        (record c { mem = move_block c.mem (c.dest + left) (c.src + left) width; n = left }) in
    if leb width c.n then rest else c

-- copy_back_vec
unfoldable pub copy_back_vec : Copy → Copy
copy_back_vec c = backward_loop 1 c.n (backward_loop 16 c.n c)

-- move_back_simd, without the saving of registers.
unfoldable pub move_back_simd : ℕ → Copy → Copy
move_back_simd zero c = c
move_back_simd (suc fuel) c =
    let chunk = chunk_of c.n in
    let left = c.n - chunk in
    let copied =
      copy_back_vec (record { mem = c.mem; dest = c.dest + left; src = c.src + left; n = chunk }) in
    let rest = move_back_simd fuel (record c { mem = copied.mem; n = left }) in
    if ltb 0 c.n then rest else c

-- memmove
unfoldable pub memmove : Mem → ℕ → ℕ → ℕ → Mem
memmove m dest src n =
    if leb dest src || leb (src + n) dest
    then memcpy m dest src n
    else (move_back_simd n (record { mem = m; dest = dest; src = src; n = n })).mem

-- The loops of fill_vec.
unfoldable pub fill_loop : ℕ → ℕ → ℕ → Copy → Copy
fill_loop c width zero f = f
fill_loop c width (suc fuel) f =
    let rest = fill_loop c width fuel (record f {
      mem = fill_block f.mem f.dest c width;
      dest = f.dest + width;
      n = f.n - width;
    }) in
    if leb width f.n then rest else f

-- fill_vec
unfoldable pub fill_vec : ℕ → Copy → Copy
fill_vec c f = fill_loop c 1 f.n (fill_loop c 16 f.n (fill_loop c 128 f.n f))

-- fill_simd, without the saving of registers.
unfoldable pub fill_simd : ℕ → ℕ → Copy → Copy
fill_simd c zero f = f
fill_simd c (suc fuel) f =
    let chunk = chunk_of f.n in
    let filled = fill_vec c (record f { n = chunk }) in
    let rest =
      fill_simd c fuel (record f { mem = filled.mem; dest = f.dest + chunk; n = f.n - chunk }) in
    if ltb 0 f.n then rest else f

-- `rep stosq` and `rep stosb` with the byte `c` in every place.
unfoldable pub rep_stos : ℕ → ℕ → ℕ → Copy → Copy
rep_stos c width zero f = f
rep_stos c width (suc count) f =
    rep_stos c width count
      (record f { mem = fill_block f.mem f.dest c width; dest = f.dest + width; n = f.n - width })

-- memset; of the `int` only the low byte counts, and there is no source.
unfoldable pub memset : Mem → ℕ → ℕ → ℕ → Mem
memset m dest value n =
    let c = value % 256 in
    let f : Copy = record { mem = m; dest = dest; src = 0; n = n } in
    if leb simd_min n
    then (fill_simd c n f).mem
    else (rep_stos c 1 (n % 8) (rep_stos c 8 (n / 8) f)).mem
