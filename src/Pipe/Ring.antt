-- ===== src/Pipe/Ring.antt =====
-- The buffer of a pipe as a ring: the bytes that it holds, and what a copy in or out does to them.
use bleed_kernel.Common.{
  ℕ, zero, suc, ◌+◌, ◌%◌, ◌≤◌, ◌<◌, ◌≡◌, refl, ap, ap₂, ◌∙◌, List, [], ◌∷◌, ◌++◌, arith, length,
  get_or, set, length-set, get_or-set_self, get_or-set_ne,
}
use Prim.Native.Nat.add
use mathlib.Core.List.{append_assoc, append-nil}
use bleed_kernel.Pipe.State.{PipeState, buffer_size, copy_out, copy_in}

-- The `n` bytes from position `h` on; the position may lie past the end, and wraps.
unfoldable pub ring : List ℕ → ℕ → ℕ → List ℕ
ring buf h zero = []
ring buf h (suc n) = get_or buf (h % buffer_size) 0 ∷ ring buf (h + 1) n

-- The bytes in a pipe, oldest first.
abbrev pub contents : PipeState → List ℕ
contents p = ring p.buffer p.read_pos p.count

pub length-ring : (buf : List ℕ) (h n : ℕ) → length (ring buf h n) ≡ n
unfolding ring
length-ring buf h zero = refl
length-ring buf h (suc n) = ap suc (length-ring buf (h + 1) n)

pub ring_cong : (buf : List ℕ) (h k n : ℕ) → h % 4096 ≡ k % 4096 → ring buf h n ≡ ring buf k n
unfolding ring
ring_cong buf h k zero e = refl
ring_cong buf h k (suc n) e =
    ap₂ ◌∷◌ (ap (λ i. get_or buf i 0) e) (ring_cong buf (h + 1) (k + 1) n (omega arith))

pub ring-add :
    (buf : List ℕ) (h k a b : ℕ) → h + a ≡ k → ring buf h (a + b) ≡ ring buf h a ++ ring buf k b
unfolding ring
ring-add buf h k zero b e = let from : h ≡ k = omega arith in rw (add.zero b, from)
ring-add buf h k (suc a) b e =
    rw (add.suc a b)
      (ap (◌∷◌ (get_or buf (h % buffer_size) 0)) (ring-add buf (h + 1) k a b (omega arith)))

pub copy_out-ring : (buf : List ℕ) (i n : ℕ) → i + n ≤ buffer_size → copy_out buf i n ≡ ring buf i n
unfolding copy_out ring
copy_out-ring buf i zero h = refl
copy_out-ring buf i (suc n) h =
    let at : i ≡ i % buffer_size = omega arith in
    ap₂ ◌∷◌ (ap (λ j. get_or buf j 0) at) (copy_out-ring buf (i + 1) n (omega arith))

-- A byte written behind the window, less than once round, leaves the window alone.
ring-set :
    (buf : List ℕ) (h n q : ℕ) (x : ℕ)
    → h + n ≤ q
    → q < h + buffer_size
    → ring (set buf (q % buffer_size) x) h n ≡ ring buf h n
unfolding ring
ring-set buf h zero q x le lt = refl
ring-set buf h (suc n) q x le lt =
    ap₂ ◌∷◌ (get_or-set_ne buf (q % buffer_size) (h % buffer_size) x 0 (omega arith))
      (ring-set buf (h + 1) n q x (omega arith) (omega arith))

ring-set_end :
    (buf : List ℕ) (h n q : ℕ) (x : ℕ)
    → length buf ≡ buffer_size
    → h + n ≡ q
    → n < buffer_size
    → ring (set buf (q % buffer_size) x) h (n + 1) ≡ ring buf h n ++ (x ∷ [])
unfolding ring
ring-set_end buf h n q x len e lt =
    ring-add (set buf (q % buffer_size) x) h q n 1 e
    ∙ ap₂ ◌++◌ (ring-set buf h n q x (omega arith) (omega arith))
        (ap (λ b. b ∷ []) (get_or-set_self buf (q % buffer_size) x 0 (omega arith)))

pub length-copy_in : (buf : List ℕ) (i : ℕ) (src : List ℕ) → length (copy_in buf i src) ≡ length buf
unfolding copy_in
length-copy_in buf i [] = refl
length-copy_in buf i (x ∷ xs) = length-copy_in (set buf i x) (i + 1) xs ∙ length-set buf i x

-- Bytes copied in just behind the window are appended to it.
pub ring-copy_in :
    (buf : List ℕ) (h n i : ℕ) (src : List ℕ)
    → length buf ≡ buffer_size
    → i % 4096 ≡ (h + n) % 4096
    → i + length src ≤ buffer_size
    → n + length src ≤ buffer_size
    → ring (copy_in buf i src) h (n + length src) ≡ ring buf h n ++ src
unfolding copy_in
ring-copy_in buf h n i [] len e fits room =
    let same : n + 0 ≡ n = omega arith in rw (same, append-nil)
ring-copy_in buf h n i (x ∷ xs) len e fits room =
    let count : n + suc (length xs) ≡ n + 1 + length xs = omega arith in
    let at : i ≡ (h + n) % buffer_size = omega arith in
    rw count (
      ring-copy_in (set buf i x) h (n + 1) (i + 1) xs (length-set buf i x ∙ len) (omega arith)
        (omega arith) (omega arith)
      ∙ ap (λ ys. ys ++ xs)
          (ap (λ j. ring (set buf j x) h (n + 1)) at
            ∙ ring-set_end buf h n (h + n) x len refl (omega arith))
      ∙ append_assoc (ring buf h n) (x ∷ []) xs)

-- The representation invariant.
pub record IsValid (p : PipeState) : Type 0 where
  pub size : length p.buffer ≡ buffer_size
  pub start : p.read_pos < buffer_size
  pub room : p.count ≤ buffer_size
  pub end : p.write_pos ≡ (p.read_pos + p.count) % buffer_size
