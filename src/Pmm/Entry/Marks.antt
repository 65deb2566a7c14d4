-- ===== src/Pmm/Entry/Marks.antt =====
-- The bits of a region after frames are marked, and the count of free frames.
use bleed_kernel.Common.{
  ℕ, zero, suc, ◌+◌, ◌^◌, ◌≤◌, ◌<◌, ◌≡◌, ◌≢◌, refl, sym, ◌∙◌, ◌⊎◌, inl, inr, Bool, true, false,
  if◌then◌else◌, Bool-cases, arith, length, set, length-set, get_or-set_self, get_or-set_ne,
  get_or-ext, add64,
}
use native.Mathlib.Decide.{dec_lt, ℕ_discrete}
use bleed_kernel.Pmm.Bitmap.{Bitmap, bit_tst, bit_set, bit_clr, IsFree}
use bleed_kernel.Pmm.Entry.{set_bits, clear_bits}

-- The free frames among the first `n`.
unfoldable pub free_count : Bitmap → ℕ → ℕ
free_count bm zero = 0
free_count bm (suc n) = free_count bm n + (if bit_tst bm n then 0 else 1)

pub free_count-le : (bm : Bitmap) (n : ℕ) → free_count bm n ≤ n
unfolding free_count
free_count-le bm zero = omega arith
free_count-le bm (suc n) = ground (arith, free_count-le bm n)

free_count-set_above :
    (bm : Bitmap) (i : ℕ) (v : Bool) (n : ℕ) → n ≤ i → free_count (set bm i v) n ≡ free_count bm n
unfolding free_count
free_count-set_above bm i v zero h = refl
free_count-set_above bm i v (suc n) h =
    rw (get_or-set_ne bm i n v false (omega arith), free_count-set_above bm i v n (omega arith))

pub free_count-bit_set :
    (bm : Bitmap) (i n : ℕ)
    → i < n
    → i < length bm
    → bit_tst bm i ≡ false
    → free_count (bit_set bm i) n + 1 ≡ free_count bm n
unfolding free_count
free_count-bit_set bm i zero h l f = absurd (omega arith)
free_count-bit_set bm i (suc n) h l f = elim (ℕ_discrete i n) [
  | yes here ↦
      rw
        (
          ← here,
          get_or-set_self bm i true false l,
          free_count-set_above bm i true i (omega arith),
          f,
        )
        (omega arith)
  | no ne ↦
      rw (get_or-set_ne bm i n true false ne)
        (omega (arith, free_count-bit_set bm i n (omega arith) l f))
]

pub free_count-bit_clr :
    (bm : Bitmap) (i n : ℕ)
    → i < n
    → i < length bm
    → bit_tst bm i ≡ true
    → free_count (bit_clr bm i) n ≡ free_count bm n + 1
unfolding free_count
free_count-bit_clr bm i zero h l u = absurd (omega arith)
free_count-bit_clr bm i (suc n) h l u = elim (ℕ_discrete i n) [
  | yes here ↦
      rw
        (
          ← here,
          get_or-set_self bm i false false l,
          free_count-set_above bm i false i (omega arith),
          u,
        )
        (omega arith)
  | no ne ↦
      rw (get_or-set_ne bm i n false false ne)
        (omega (arith, free_count-bit_clr bm i n (omega arith) l u))
]

pub length-set_bits : (bm : Bitmap) (i n : ℕ) → length (set_bits bm i n) ≡ length bm
unfolding set_bits
length-set_bits bm i zero = refl
length-set_bits bm i (suc n) = length-set_bits (bit_set bm i) (i + 1) n ∙ length-set bm i true

-- A bit outside the marked run keeps its value.
pub set_bits_outside :
    (bm : Bitmap) (i n j : ℕ) → (j < i) ⊎ (i + n ≤ j) → bit_tst (set_bits bm i n) j ≡ bit_tst bm j
unfolding set_bits
set_bits_outside bm i zero j h = refl
set_bits_outside bm i (suc n) j h =
    set_bits_outside (bit_set bm i) (i + 1) n j (omega arith)
    ∙ get_or-set_ne bm i j true false (omega arith)

-- A bit of the run is set.
pub set_bits_inside :
    (bm : Bitmap) (i n j : ℕ)
    → i + n ≤ length bm
    → i ≤ j
    → j < i + n
    → bit_tst (set_bits bm i n) j ≡ true
unfolding set_bits
set_bits_inside bm i zero j l a b = absurd (omega arith)
set_bits_inside bm i (suc n) j l a b = elim (ℕ_discrete i j) [
  | yes here ↦ rw (← here) (
      set_bits_outside (bit_set bm i) (i + 1) n i (omega arith)
      ∙ get_or-set_self bm i true false (omega arith))
  | no ne ↦
      set_bits_inside (bit_set bm i) (i + 1) n j (omega (arith, length-set bm i true)) (omega arith)
        (omega arith)
]

bit_set-IsFree : (bm : Bitmap) (i n : ℕ) → IsFree bm i (suc n) → IsFree (bit_set bm i) (i + 1) n
bit_set-IsFree bm i n f j a b =
    get_or-set_ne bm i j true false (omega arith) ∙ f j (omega arith) (omega arith)

-- Marking `n` free frames takes `n` off the count.
pub free_count-set_bits :
    (bm : Bitmap) (i n size : ℕ)
    → i + n ≤ size
    → size ≤ length bm
    → IsFree bm i n
    → free_count (set_bits bm i n) size + n ≡ free_count bm size
unfolding set_bits
free_count-set_bits bm i zero size h l f = omega arith
free_count-set_bits bm i (suc n) size h l f = omega (
  arith,
  free_count-set_bits (bit_set bm i) (i + 1) n size (omega arith)
      (omega (arith, length-set bm i true)) (bit_set-IsFree bm i n f),
  free_count-bit_set bm i size (omega arith) (omega arith) (f i (omega arith) (omega arith)),
)

-- One round of paging_mark_entry_available.
abbrev pub clear_bit : Bitmap → ℕ → Bitmap
clear_bit bm i = if bit_tst bm i then bit_clr bm i else bm

length-clear_bit : (bm : Bitmap) (i : ℕ) → length (clear_bit bm i) ≡ length bm
length-clear_bit bm i = ground (arith, length-set bm i false)

clear_bit_self : (bm : Bitmap) (i : ℕ) → i < length bm → bit_tst (clear_bit bm i) i ≡ false
clear_bit_self bm i l = elim (Bool-cases (bit_tst bm i)) [
  | inl u ↦ rw u (get_or-set_self bm i false false l)
  | inr f ↦ rw f f
]

clear_bit_ne : (bm : Bitmap) (i j : ℕ) → i ≢ j → bit_tst (clear_bit bm i) j ≡ bit_tst bm j
clear_bit_ne bm i j ne = elim (Bool-cases (bit_tst bm i)) [
  | inl u ↦ rw u (get_or-set_ne bm i j false false ne)
  | inr f ↦ rw f
]

pub length-clear_bits : (bm : Bitmap) (a i n : ℕ) → length (clear_bits bm a i n).0 ≡ length bm
unfolding clear_bits
length-clear_bits bm a i zero = refl
length-clear_bits bm a i (suc n) =
    length-clear_bits (clear_bit bm i) _ (i + 1) n ∙ length-clear_bit bm i

pub clear_bits_outside :
    (bm : Bitmap) (a i n j : ℕ)
    → (j < i) ⊎ (i + n ≤ j)
    → bit_tst (clear_bits bm a i n).0 j ≡ bit_tst bm j
unfolding clear_bits
clear_bits_outside bm a i zero j h = refl
clear_bits_outside bm a i (suc n) j h =
    clear_bits_outside (clear_bit bm i) _ (i + 1) n j (omega arith)
    ∙ clear_bit_ne bm i j (omega arith)

pub clear_bits_inside :
    (bm : Bitmap) (a i n j : ℕ)
    → i + n ≤ length bm
    → i ≤ j
    → j < i + n
    → bit_tst (clear_bits bm a i n).0 j ≡ false
unfolding clear_bits
clear_bits_inside bm a i zero j l b c = absurd (omega arith)
clear_bits_inside bm a i (suc n) j l b c = elim (ℕ_discrete i j) [
  | yes here ↦ rw (← here) (
      clear_bits_outside (clear_bit bm i) _ (i + 1) n i (omega arith)
      ∙ clear_bit_self bm i (omega arith))
  | no ne ↦
      clear_bits_inside (clear_bit bm i) _ (i + 1) n j (omega (arith, length-clear_bit bm i))
        (omega arith) (omega arith)
]

clear_bit_count :
    (bm : Bitmap) (a i size : ℕ)
    → i < size
    → size ≤ length bm
    → size < 2 ^ 64
    → a ≡ free_count bm size
    → (if bit_tst bm i then add64 a 1 else a) ≡ free_count (clear_bit bm i) size
clear_bit_count bm a i size h l w e = elim (Bool-cases (bit_tst bm i)) [
  | inl u ↦ rw u (
      omega (
        arith,
        e,
        free_count-bit_clr bm i size h (omega arith) u,
        free_count-le (bit_clr bm i) size,
      ))
  | inr f ↦ rw f e
]

-- The count stays the number of free frames, also where some of the frames were free already.
pub clear_bits_count :
    (bm : Bitmap) (a i n size : ℕ)
    → i + n ≤ size
    → size ≤ length bm
    → size < 2 ^ 64
    → a ≡ free_count bm size
    → (clear_bits bm a i n).1 ≡ free_count (clear_bits bm a i n).0 size
unfolding clear_bits
clear_bits_count bm a i zero size h l w e = e
clear_bits_count bm a i (suc n) size h l w e =
    clear_bits_count (clear_bit bm i) _ (i + 1) n size (omega arith)
      (omega (arith, length-clear_bit bm i)) w (clear_bit_count bm a i size (omega arith) l w e)

-- Marking a free run and clearing it gives the bitmap back.
pub clear_bits-set_bits :
    (bm : Bitmap) (a i n : ℕ)
    → i + n ≤ length bm
    → IsFree bm i n
    → (clear_bits (set_bits bm i n) a i n).0 ≡ bm
clear_bits-set_bits bm a i n l f =
    get_or-ext (clear_bits (set_bits bm i n) a i n).0 bm false
      (length-clear_bits (set_bits bm i n) a i n ∙ length-set_bits bm i n) same
  where
    same :
        (j : ℕ)
        → j < length (clear_bits (set_bits bm i n) a i n).0
        → bit_tst (clear_bits (set_bits bm i n) a i n).0 j ≡ bit_tst bm j
    same j lt = elim (dec_lt j i) [
      | yes before ↦
          clear_bits_outside (set_bits bm i n) a i n j (inl before)
          ∙ set_bits_outside bm i n j (inl before)
      | no after ↦ elim (dec_lt j (i + n)) [
        | yes within ↦
            clear_bits_inside (set_bits bm i n) a i n j (omega (arith, length-set_bits bm i n))
              (omega arith) within
            ∙ sym (f j (omega arith) within)
        | no behind ↦
            clear_bits_outside (set_bits bm i n) a i n j (inr (omega arith))
            ∙ set_bits_outside bm i n j (inr (omega arith))
      ]
    ]
