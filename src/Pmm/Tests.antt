-- ===== src/Pmm/Tests.antt =====
-- Concrete regions: runs of the frame allocator, and its theorems at them.
use bleed_kernel.Common.{
  ℕ, zero, suc, ◌+◌, ◌≤◌, ◌<◌, ◌≡◌, refl, sym, true, false, none, some, List, [], ◌∷◌, ◌++◌, map,
  if◌then◌else◌, ltb, ◌==◌, arith, replicate, All, add64,
}
use mathlib.Core.Bool.{false≢true}
use bleed_kernel.Pmm.Bitmap.{Bitmap, bit_tst, IsFree, all_bits}
use bleed_kernel.Pmm.Search.{find_free_in_range, find_loop, step_at}
use bleed_kernel.Pmm.Search.Scan.{scan, find_free_in_range-scan}
use bleed_kernel.Pmm.Search.FirstFit.{FirstFit, find_free_in_range-FirstFit}
use bleed_kernel.Pmm.Entry.{BitmapEntry, find_free}
use bleed_kernel.Pmm.Entry.Marks.{free_count}
use bleed_kernel.Pmm.Entry.Find.{find_free_straddling, start_cursor}
use bleed_kernel.Pmm.Frames.{Region, new_entry, try_alloc_pages, free_pages, pmm_available_pages}
use bleed_kernel.Pmm.Frames.Valid.{IsValid, free_pages-IsValid}
use bleed_kernel.Pmm.Frames.Init.{new_entry-used}
use bleed_kernel.Pmm.Frames.Alloc.{
  Allocates, try_alloc_pages-Allocates, try_alloc_pages-IsValid, try_alloc_pages-available,
}
use bleed_kernel.Pmm.Frames.RoundTrip.{forget, free_pages-try_alloc_pages}

-- Frames 1, 3, 4, 5 and 7 are free.
abbrev bits : Bitmap
bits = true ∷ false ∷ true ∷ false ∷ false ∷ false ∷ true ∷ false ∷ []

abbrev region : BitmapEntry
region = record {
  region_base = 0x100000;
  header_pages = 1;
  capacity = 8;
  available_pages = 5;
  search_cursor = 2;
  bitmap = bits;
}

-- Frames 1 and 2 are free, on both sides of the cursor.
abbrev split_region : BitmapEntry
split_region = record {
  region_base = 0x100000;
  header_pages = 1;
  capacity = 4;
  available_pages = 2;
  search_cursor = 2;
  bitmap = true ∷ false ∷ false ∷ true ∷ [];
}

region-IsValid : IsValid region
unfolding free_count
region-IsValid = record {
  sized = omega arith;
  counted = refl;
  header = omega arith;
  below = omega arith;
}

-- A word of free frames behind a used byte is taken whole.
word_found : find_free_in_range (replicate 8 true ++ replicate 120 false) 64 0 128 ≡ some 8
unfolding find_free_in_range find_loop step_at all_bits
word_found = refl

alloc_runs : (try_alloc_pages (region ∷ []) 3).0 ≡ 0x104000
unfolding try_alloc_pages find_free find_free_in_range find_loop step_at all_bits
alloc_runs = refl

-- The request fails though frames 1 and 2 are free.
straddled_fails : try_alloc_pages (split_region ∷ []) 2 ≡ (0, split_region ∷ [])
unfolding try_alloc_pages find_free find_free_in_range find_loop step_at all_bits
straddled_fails = refl

find_free_in_range-scan_example : find_free_in_range bits 3 0 8 ≡ scan bits 3 8 0 0 0
find_free_in_range-scan_example = find_free_in_range-scan bits 3 0 8 (omega arith)

find_free_in_range-FirstFit_example : FirstFit bits 3 0 8 (find_free_in_range bits 3 0 8)
find_free_in_range-FirstFit_example =
    find_free_in_range-FirstFit bits 3 0 8 (omega arith) (omega arith)

straddles :
    (s : ℕ)
    → s + 2 ≤ 4
    → IsFree split_region.bitmap s 2
    → (s < start_cursor split_region) × (start_cursor split_region < s + 2)
straddles zero fits free = absurd (false≢true (sym (free 0 (omega arith) (omega arith))))
straddles (suc zero) fits free = omega arith
straddles (suc (suc zero)) fits free =
    absurd (false≢true (sym (free 3 (omega arith) (omega arith))))
straddles (suc (suc (suc s))) fits free = absurd (omega arith)

find_free_straddling_example : find_free split_region 2 ≡ (none, split_region)
find_free_straddling_example = find_free_straddling split_region 2 (omega arith) straddles

-- A usable region of 64 frames behind a reserved one.
abbrev memory_map : List Region
memory_map =
    record { base = 0; size = 0x1000; usable = false }
    ∷ record { base = 0x100000; size = 0x40000; usable = true }
    ∷ []

new_entry-used_example :
    let e = new_entry 0x100000 64 in
    (e.capacity + e.header_pages ≡ 64)
    × (e.available_pages + e.header_pages ≡ e.capacity)
    × (bit_tst e.bitmap 0 ≡ ltb 0 e.header_pages)
new_entry-used_example = new_entry-used 0x100000 64 0 (omega arith) (omega arith)

try_alloc_pages-Allocates_example : Allocates 3 (region ∷ []) (try_alloc_pages (region ∷ []) 3)
try_alloc_pages-Allocates_example =
    try_alloc_pages-Allocates (region ∷ []) 3 (omega arith) (region-IsValid, tt)

try_alloc_pages-IsValid_example : All IsValid (try_alloc_pages (region ∷ []) 3).1
try_alloc_pages-IsValid_example =
    try_alloc_pages-IsValid (region ∷ []) 3 (omega arith) (region-IsValid, tt)

try_alloc_pages-available_example :
    let r = try_alloc_pages (region ∷ []) 3 in
    add64 (pmm_available_pages r.1) (if r.0 == 0 then 0 else 3) ≡ pmm_available_pages (region ∷ [])
try_alloc_pages-available_example =
    try_alloc_pages-available (region ∷ []) 3 (omega arith) (region-IsValid, tt)

free_pages-IsValid_example : All IsValid (free_pages (region ∷ []) 0x101000 4)
free_pages-IsValid_example =
    free_pages-IsValid (region ∷ []) 0x101000 4 (omega arith) (region-IsValid, tt)

free_pages-try_alloc_pages_example :
    map forget
      (free_pages (try_alloc_pages (region ∷ []) 3).1 (try_alloc_pages (region ∷ []) 3).0 3)
    ≡ map forget (region ∷ [])
free_pages-try_alloc_pages_example =
    free_pages-try_alloc_pages (region ∷ []) 3 (omega arith) (region-IsValid, tt) (tt, tt) got
  where
    got : 0 < (try_alloc_pages (region ∷ []) 3).0
    got = rw alloc_runs (omega arith)
