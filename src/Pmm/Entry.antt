-- ===== src/Pmm/Entry.antt =====
-- kernel/src/mm/pmm.c: one region of frames, and the functions on it.
use bleed_kernel.Common.{
  ℕ, zero, suc, ◌+◌, ◌||◌, Option, none, some, if◌then◌else◌, ltb, leb, ◌==◌, add64, sub64,
}
use bleed_kernel.Pmm.Bitmap.{Bitmap, bit_tst, bit_set, bit_clr}
use bleed_kernel.Pmm.Search.{find_free_in_range}
pub mod Marks
pub mod Find

-- `bitmap_entry_t`. The link `next_entry` is the order of the list of entries.
pub record BitmapEntry : Type 0 where
  pub region_base : ℕ
  pub header_pages : ℕ
  pub capacity : ℕ
  pub available_pages : ℕ
  pub search_cursor : ℕ
  pub bitmap : Bitmap

-- The loop of paging_mark_entry_unavailable from bit `i` on, with `n` rounds left.
unfoldable pub set_bits : Bitmap → ℕ → ℕ → Bitmap
set_bits bm i zero = bm
set_bits bm i (suc n) = set_bits (bit_set bm i) (i + 1) n

unfoldable pub mark_unavailable : BitmapEntry → ℕ → ℕ → BitmapEntry
mark_unavailable e start page_count = record e {
  bitmap = set_bits e.bitmap start page_count;
  available_pages = sub64 e.available_pages page_count;
}

-- The loop of paging_mark_entry_available: the bitmap and the count of free frames. A frame that is
-- free already is passed over.
unfoldable pub clear_bits : Bitmap → ℕ → ℕ → ℕ → Bitmap × ℕ
clear_bits bm available i zero = (bm, available)
clear_bits bm available i (suc n) =
    clear_bits (if bit_tst bm i then bit_clr bm i else bm)
      (if bit_tst bm i then add64 available 1 else available) (i + 1) n

unfoldable pub mark_available : BitmapEntry → ℕ → ℕ → BitmapEntry
mark_available e start page_count =
    let (bm, available) = clear_bits e.bitmap e.available_pages start page_count in
    record e { bitmap = bm; available_pages = available }

-- The cursor behind an allocation.
unfoldable pub cursor_after : BitmapEntry → ℕ → ℕ → ℕ
cursor_after e start count = if leb e.capacity (start + count) then 0 else start + count

-- The two searches of paging_bitmap_find_free: from the cursor up, then below it.
unfoldable pub search_round : BitmapEntry → ℕ → Option ℕ
search_round e count =
    let cursor = if leb e.capacity e.search_cursor then 0 else e.search_cursor in
    let below = find_free_in_range e.bitmap count 0 cursor in
    elim (find_free_in_range e.bitmap count cursor e.capacity) [
      | some start ↦ some start
      | none ↦ if cursor == 0 then none else below
    ]

-- paging_bitmap_find_free: the start of a run of free frames, and the entry with its cursor moved.
-- `none` is -1.
unfoldable pub find_free : BitmapEntry → ℕ → Option ℕ × BitmapEntry
unfolding search_round cursor_after
find_free e count =
    if (count == 0) || ltb e.capacity count then (none, e) else elim (search_round e count) [
      | some start ↦ (some start, record e { search_cursor = cursor_after e start count })
      | none ↦ (none, e)
    ]
