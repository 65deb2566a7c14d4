-- ===== src/Pmm/Frames/RoundTrip.antt =====
-- pmm_free_pages gives back what pmm_try_alloc_pages handed out.
use bleed_kernel.Common.{
  page_size, ℕ, ◌+◌, ◌-◌, ◌/◌, ◌≤◌, ◌<◌, ◌≡◌, sym, ap, ◌∙◌, ◌⊎◌, inl, inr, true, false, ◌||◌, List,
  [], ◌∷◌, map, ltb, leb, Bool-cases, arith, All, add64, sub64,
}
use bleed_kernel.Pmm.Bitmap.{IsFree}
use bleed_kernel.Pmm.Entry.{BitmapEntry, set_bits, clear_bits, mark_available, cursor_after}
use bleed_kernel.Pmm.Entry.Marks.{
  free_count, length-set_bits, clear_bits_count, clear_bits-set_bits,
}
use bleed_kernel.Pmm.Frames.{
  free_in, free_pages, frame_address, usable_start, usable_end, try_alloc_pages,
}
use bleed_kernel.Pmm.Frames.Valid.{IsValid, taken, taken-IsValid}
use bleed_kernel.Pmm.Frames.Alloc.{
  Taken, here, there, Allocates, fails, takes, try_alloc_pages-Allocates,
}

-- A region less its search cursor, which is a hint only.
abbrev pub forget : BitmapEntry → BitmapEntry
forget e = record e { search_cursor = 0 }

abbrev pub Apart : BitmapEntry → BitmapEntry → Type 0
Apart e f = (usable_end e ≤ usable_start f) ⊎ (usable_end f ≤ usable_start e)

-- The frames of the regions do not overlap.
abbrev pub IsApart : List BitmapEntry → Type 0
IsApart [] = Unit
IsApart (e ∷ es) = All (Apart e) es × IsApart es

module _ {e : BitmapEntry} (v : IsValid e) (s n : ℕ) (fits : s + n ≤ e.capacity)
    (free : IsFree e.bitmap s n) where
  index-eq : (frame_address e s - usable_start e) / page_size ≡ s
  index-eq = omega (arith, v.below)

  bitmap-eq : (a : ℕ) → (clear_bits (set_bits e.bitmap s n) a s n).0 ≡ e.bitmap
  bitmap-eq a = clear_bits-set_bits e.bitmap a s n (omega (arith, v.sized)) free

  available-eq :
      (clear_bits (set_bits e.bitmap s n) (sub64 e.available_pages n) s n).1 ≡ e.available_pages
  available-eq =
      clear_bits_count (set_bits e.bitmap s n) (sub64 e.available_pages n) s n e.capacity fits
        (omega (arith, v.sized, length-set_bits e.bitmap s n)) (omega (arith, v.below))
        (taken-IsValid {e = e} s n v fits free).counted
      ∙ ap (λ bm. free_count bm e.capacity) (bitmap-eq (sub64 e.available_pages n))
      ∙ sym v.counted

  free_in-taken : forget (free_in (taken e s n) (frame_address e s) n) ≡ forget e
  unfolding free_in mark_available
  free_in-taken =
      let whole : ltb e.capacity (add64 s n) ≡ false = ground (arith, v.below) in
      rw (index-eq, whole)
        (elim (Bool-cases (ltb s (cursor_after e s n))) [
          | inl lower ↦ rw (lower, bitmap-eq (sub64 e.available_pages n), available-eq)
          | inr same ↦ rw (same, bitmap-eq (sub64 e.available_pages n), available-eq)
        ])

outside : (p a b c d : ℕ) → a ≤ p → p < b → (d ≤ a) ⊎ (b ≤ c) → (ltb p c || leb d p) ≡ true
outside p a b c d above under apart = ground arith

inside : (p a b : ℕ) → a ≤ p → p < b → (ltb p a || leb b p) ≡ false
inside p a b above under = ground arith

-- A run of frames that another region has handed out is not in this one.
Taken-outside :
    {n p : ℕ} {es es' : List BitmapEntry} (f : BitmapEntry)
    → 0 < n
    → Taken n p es es'
    → All IsValid es
    → All (Apart f) es
    → (ltb p (usable_start f) || leb (usable_end f) p) ≡ true
Taken-outside f pos (here {e = e} s fits free at eq) v a =
    let above : usable_start e ≤ frame_address e s = omega (arith, v.0.below) in
    let under : frame_address e s < usable_end e = omega (arith, v.0.below) in
    rw at (
      outside (frame_address e s) (usable_start e) (usable_end e) (usable_start f) (usable_end f)
        above under a.0)
Taken-outside f pos (there t) v a = Taken-outside f pos t v.1 a.1

taken_inside :
    {e : BitmapEntry} (s n : ℕ)
    → IsValid e
    → 0 < n
    → s + n ≤ e.capacity
    → (ltb (frame_address e s) (usable_start e) || leb (usable_end e) (frame_address e s)) ≡ false
taken_inside {e} s n v pos fits =
    inside (frame_address e s) (usable_start e) (usable_end e) (omega (arith, v.below))
      (omega (arith, v.below))

Taken-free_pages :
    {n p : ℕ} {es es' : List BitmapEntry}
    → 0 < n
    → Taken n p es es'
    → All IsValid es
    → IsApart es
    → map forget (free_pages es' p n) ≡ map forget es
unfolding free_pages
Taken-free_pages {n} pos (here {e = e} {es = es} s fits free at eq) v a =
    rw (at, eq, taken_inside {e = e} s n v.0 pos fits)
      (ap (λ f. f ∷ map forget es) (free_in-taken {e = e} v.0 s n fits free))
Taken-free_pages pos (there {e = e} t) v a =
    rw (Taken-outside e pos t v.1 a.0) (ap (◌∷◌ (forget e)) (Taken-free_pages pos t v.1 a.1))

round_trip :
    {n : ℕ} {es : List BitmapEntry} {r : ℕ × List BitmapEntry}
    → 0 < n
    → Allocates n es r
    → All IsValid es
    → IsApart es
    → 0 < r.0
    → map forget (free_pages r.1 r.0 n) ≡ map forget es
round_trip {r = r} pos (fails eq ex) v a got =
    let zero_address : r.0 ≡ 0 = cc in absurd (omega arith)
round_trip pos (takes some_address t) v a got = Taken-free_pages pos t v a

-- Freeing what pmm_try_alloc_pages has just handed out puts every bitmap and every count back, for
-- all valid regions that do not overlap and every non-zero request that succeeds; only search
-- cursors may differ.
pub free_pages-try_alloc_pages :
    (es : List BitmapEntry) (n : ℕ)
    → 0 < n
    → All IsValid es
    → IsApart es
    → 0 < (try_alloc_pages es n).0
    → map forget (free_pages (try_alloc_pages es n).1 (try_alloc_pages es n).0 n) ≡ map forget es
free_pages-try_alloc_pages es n pos v a got =
    round_trip pos (try_alloc_pages-Allocates es n pos v) v a got
