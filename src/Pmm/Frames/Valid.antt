-- ===== src/Pmm/Frames/Valid.antt =====
-- The invariant of a region: its count of free frames is right. Every operation keeps it.
use bleed_kernel.Common.{
  page_size, ℕ, ◌+◌, ◌-◌, ◌*◌, ◌/◌, ◌^◌, ◌≤◌, ◌<◌, ◌≡◌, inl, inr, ◌||◌, List, [], ◌∷◌,
  if◌then◌else◌, ltb, leb, Bool-cases, arith, length, All, add64, sub64, ltb_false→le,
}
use bleed_kernel.Pmm.Bitmap.{IsFree}
use bleed_kernel.Pmm.Entry.{BitmapEntry, set_bits, mark_available, cursor_after}
use bleed_kernel.Pmm.Entry.Marks.{
  free_count, free_count-le, length-set_bits, free_count-set_bits, length-clear_bits,
  clear_bits_count,
}
use bleed_kernel.Pmm.Frames.{free_in, free_pages, usable_start, usable_end}

pub record IsValid (e : BitmapEntry) : Type 0 where
  pub sized : e.capacity ≤ length e.bitmap
  pub counted : e.available_pages ≡ free_count e.bitmap e.capacity
  pub header : 0 < e.header_pages
  pub below : e.region_base + (e.header_pages + e.capacity) * 4096 < 2 ^ 64

-- What an allocation makes of the entry that serves it.
abbrev pub taken : BitmapEntry → ℕ → ℕ → BitmapEntry
taken e s n = record e {
  bitmap = set_bits e.bitmap s n;
  available_pages = sub64 e.available_pages n;
  search_cursor = cursor_after e s n;
}

pub taken-IsValid :
    {e : BitmapEntry} (s n : ℕ)
    → IsValid e
    → s + n ≤ e.capacity
    → IsFree e.bitmap s n
    → IsValid (taken e s n)
taken-IsValid {e} s n v fits f = record {
  sized = omega (arith, v.sized, length-set_bits e.bitmap s n);
  counted = omega (
    arith,
    v.counted,
    v.below,
    free_count-le e.bitmap e.capacity,
    free_count-set_bits e.bitmap s n e.capacity fits v.sized f,
  );
  header = v.header;
  below = v.below;
}

mark_available-IsValid :
    {e : BitmapEntry} (i n : ℕ) → IsValid e → i + n ≤ e.capacity → IsValid (mark_available e i n)
unfolding mark_available
mark_available-IsValid {e} i n v fits = record {
  sized = omega (arith, v.sized, length-clear_bits e.bitmap e.available_pages i n);
  counted =
      clear_bits_count e.bitmap e.available_pages i n e.capacity fits v.sized
        (omega (arith, v.below)) v.counted;
  header = v.header;
  below = v.below;
}

-- Inside its region, pmm_free_pages marks at most the frames up to the end of the region.
pub free_in-IsValid :
    {e : BitmapEntry} (paddr n : ℕ)
    → IsValid e
    → usable_start e ≤ paddr
    → paddr < usable_end e
    → n < 2 ^ 63
    → IsValid (free_in e paddr n)
unfolding free_in
free_in-IsValid {e} paddr n v from to small =
    moved (mark_available-IsValid {e = e} index count v inside)
  where
    index : ℕ
    index = (paddr - usable_start e) / page_size

    count : ℕ
    count = if ltb e.capacity (add64 index n) then e.capacity - index else n

    inside : index + count ≤ e.capacity
    inside = elim (Bool-cases (ltb e.capacity (add64 index n))) [
      | inl over ↦ rw over (omega (arith, v.below))
      | inr fits ↦ rw fits (omega (arith, v.below, ltb_false→le _ _ fits))
    ]

    moved :
        IsValid (mark_available e index count)
        → IsValid (
            let e' = mark_available e index count in
            if ltb index e'.search_cursor then record e' { search_cursor = index } else e')
    moved w = elim (Bool-cases (ltb index (mark_available e index count).search_cursor)) [
      | inl lower ↦
          rw lower
            (record { sized = w.sized; counted = w.counted; header = w.header; below = w.below })
      | inr same ↦ rw same w
    ]

-- pmm_free_pages keeps every region's count of free frames right, for every address and for frames
-- that are free already.
pub free_pages-IsValid :
    (es : List BitmapEntry) (paddr n : ℕ)
    → n < 2 ^ 63
    → All IsValid es
    → All IsValid (free_pages es paddr n)
unfolding free_pages
free_pages-IsValid [] paddr n small v = tt
free_pages-IsValid (e ∷ es) paddr n small v =
    elim (Bool-cases (ltb paddr (usable_start e) || leb (usable_end e) paddr)) [
      | inl outside ↦ rw outside (v.0, free_pages-IsValid es paddr n small v.1)
      | inr inside ↦
          rw inside (free_in-IsValid {e = e} paddr n v.0 (ground arith) (ground arith) small, v.1)
    ]
