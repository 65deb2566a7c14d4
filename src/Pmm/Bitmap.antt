-- ===== src/Pmm/Bitmap.antt =====
-- kernel/src/mm/pmm.c: the frame bitmap of a region. Bit `i` of the model is bit `i & 7` of byte
-- `i >> 3`, so bits `i .. i + 63` are the little-endian word that starts at byte `i >> 3`.
use bleed_kernel.Common.{
  ℕ, zero, suc, ◌+◌, ◌≤◌, ◌<◌, ◌≡◌, Bool, true, false, not, ◌&&◌, List, if◌then◌else◌, get_or, set,
}

abbrev pub Bitmap : Type 0
Bitmap = List Bool

-- BIT_TST, BIT_SET and BIT_CLR.
abbrev pub bit_tst : Bitmap → ℕ → Bool
bit_tst bm i = get_or bm i false

abbrev pub bit_set : Bitmap → ℕ → Bitmap
bit_set bm i = set bm i true

abbrev pub bit_clr : Bitmap → ℕ → Bitmap
bit_clr bm i = set bm i false

-- All of the `n` bits from `i` on are `v`: a word or byte compared with all ones or with 0.
unfoldable pub all_bits : Bitmap → ℕ → ℕ → Bool → Bool
all_bits bm i zero v = true
all_bits bm i (suc n) v =
    (if v then bit_tst bm i else not (bit_tst bm i)) && all_bits bm (i + 1) n v

-- The frames `s .. s + n` are free.
abbrev pub IsFree : Bitmap → ℕ → ℕ → Type 0
IsFree bm s n = (j : ℕ) → s ≤ j → j < s + n → bit_tst bm j ≡ false
