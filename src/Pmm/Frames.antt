-- ===== src/Pmm/Frames.antt =====
-- kernel/src/mm/pmm.c: the list of regions, and the functions that the rest of the kernel calls. The
-- spinlock makes each call one step.
use bleed_kernel.Common.{
  ℕ, ◌+◌, ◌-◌, ◌*◌, ◌/◌, Bool, false, not, ◌||◌, Option, none, some, List, [], ◌∷◌, if◌then◌else◌,
  ltb, leb, ◌==◌, replicate, add64, page_size,
}
pub mod Valid
pub mod Init
pub mod Alloc
pub mod RoundTrip
use bleed_kernel.Pmm.Entry.{BitmapEntry, mark_unavailable, mark_available, find_free}

-- `gbi_memmap_entry_t`: `usable` is `type == GBI_MEMMAP_USABLE`.
pub record Region : Type 0 where
  pub base : ℕ
  pub size : ℕ
  pub usable : Bool

-- `sizeof(bitmap_entry_t)`: six words.
abbrev pub entry_size : ℕ
entry_size = 48

-- PMM_MIN_REGION_PAGES
abbrev pub min_region_pages : ℕ
min_region_pages = 4

-- PAGE_ALIGN_UP and PAGE_ALIGN_DOWN on a `uintptr_t`.
abbrev pub align_up : ℕ → ℕ
align_up n = add64 n 4095 / 4096 * 4096

abbrev pub align_down : ℕ → ℕ
align_down n = n / 4096 * 4096

abbrev pub header_pages_for : ℕ → ℕ
header_pages_for total_pages = (entry_size + (total_pages + 7) / 8 + page_size - 1) / page_size

-- The entry that pmm_init writes for a region of `total_pages` frames at `region_base`.
unfoldable pub new_entry : ℕ → ℕ → BitmapEntry
new_entry region_base total_pages =
    let header = header_pages_for total_pages in
    mark_unavailable
      (record {
        region_base = region_base;
        header_pages = header;
        capacity = total_pages - header;
        available_pages = total_pages - header;
        search_cursor = 0;
        bitmap = replicate ((total_pages + 7) / 8 * 8) false;
      })
      0 header

-- pmm_init, less its log: the entries stand in the order of the memory map.
unfoldable pub init : List Region → List BitmapEntry
unfolding new_entry
init [] = []
init (r ∷ rs) =
    let region_base = align_up r.base in
    let region_end = align_down (add64 r.base r.size) in
    let total_pages = (region_end - region_base) / page_size in
    let rest = init rs in
    if not r.usable
    then rest
    else if leb region_end region_base
    then rest
    else if ltb total_pages (header_pages_for total_pages + min_region_pages)
    then rest
    else new_entry region_base total_pages ∷ rest

-- The address of the frame behind bit `i`.
abbrev pub frame_address : BitmapEntry → ℕ → ℕ
frame_address e i = add64 e.region_base ((e.header_pages + i) * page_size)

-- What the loop of pmm_try_alloc_pages does with the answer of a region's search: mark the frames
-- and return their address, or go on with the `later` regions.
abbrev pub alloc_at :
    List BitmapEntry → ℕ → ℕ × List BitmapEntry → Option ℕ × BitmapEntry → ℕ × List BitmapEntry
alloc_at es page_count later (some start, e) =
    (frame_address e start, mark_unavailable e start page_count ∷ es)
alloc_at es page_count later (none, e) = (later.0, e ∷ later.1)

-- The loop of pmm_try_alloc_pages; 0 is failure.
unfoldable pub alloc_from : List BitmapEntry → ℕ → ℕ × List BitmapEntry
alloc_from [] page_count = (0, [])
alloc_from (e ∷ es) page_count =
    let later = alloc_from es page_count in
    if ltb e.available_pages page_count
    then (later.0, e ∷ later.1)
    else alloc_at es page_count later (find_free e page_count)

unfoldable pub try_alloc_pages : List BitmapEntry → ℕ → ℕ × List BitmapEntry
unfolding alloc_from
try_alloc_pages es page_count = if page_count == 0 then (0, es) else alloc_from es page_count

-- pmm_available_pages: the sum over the list, from `total` on.
unfoldable pub available_from : ℕ → List BitmapEntry → ℕ
available_from total [] = total
available_from total (e ∷ es) = available_from (add64 total e.available_pages) es

unfoldable pub pmm_available_pages : List BitmapEntry → ℕ
unfolding available_from
pmm_available_pages es = available_from 0 es

abbrev pub usable_start : BitmapEntry → ℕ
usable_start e = add64 e.region_base (e.header_pages * page_size)

abbrev pub usable_end : BitmapEntry → ℕ
usable_end e = add64 (usable_start e) (e.capacity * page_size)

-- What pmm_free_pages does in the region that holds the address.
unfoldable pub free_in : BitmapEntry → ℕ → ℕ → BitmapEntry
free_in e paddr page_count =
    let index = (paddr - usable_start e) / page_size in
    let count =
      if ltb e.capacity (add64 index page_count) then e.capacity - index else page_count in
    let e' = mark_available e index count in
    if ltb index e'.search_cursor then record e' { search_cursor = index } else e'

-- pmm_free_pages, less its log of an unknown address.
unfoldable pub free_pages : List BitmapEntry → ℕ → ℕ → List BitmapEntry
unfolding free_in
free_pages [] paddr page_count = []
free_pages (e ∷ es) paddr page_count =
    if ltb paddr (usable_start e) || leb (usable_end e) paddr
    then e ∷ free_pages es paddr page_count
    else free_in e paddr page_count ∷ es
