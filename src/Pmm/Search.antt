-- ===== src/Pmm/Search.antt =====
-- kernel/src/mm/pmm.c: paging_bitmap_find_free_in_range.
pub mod Scan
pub mod FirstFit
use bleed_kernel.Common.{
  ℕ, zero, suc, ◌+◌, ◌-◌, ◌%◌, true, false, ◌&&◌, ◌||◌, Option, none, some, if◌then◌else◌, leb, ltb,
  ◌==◌,
}
use bleed_kernel.Pmm.Bitmap.{Bitmap, bit_tst, all_bits}

-- How many bits the loop takes at once: 64 or 8 where they are aligned, inside the range and all
-- used or all free; 0 where it has to look at a single bit.
unfoldable pub step_at : Bitmap → ℕ → ℕ → ℕ
step_at bm i end =
    if (i % 64 == 0) && (leb (i + 64) end && (all_bits bm i 64 true || all_bits bm i 64 false))
    then 64
    else if (i % 8 == 0) && (leb (i + 8) end && (all_bits bm i 8 true || all_bits bm i 8 false))
    then 8
    else 0

-- The `while` loop on fuel: `i` is the next bit, `free_run` and `run_start` the run of free bits
-- that ends there. `none` is -1. Of a uniform word `bits` is not 0 exactly if its bits are all used.
unfoldable pub find_loop : Bitmap → ℕ → ℕ → ℕ → ℕ → ℕ → ℕ → Option ℕ
find_loop bm count end zero i free_run run_start = none
find_loop bm count end (suc fuel) i free_run run_start =
    let step = step_at bm i end in
    let width = if step == 0 then 1 else step in
    let is_used = if step == 0 then bit_tst bm i else all_bits bm i step true in
    let first = if free_run == 0 then i else run_start in
    let enough = if step == 0 then free_run + 1 == count else leb count (free_run + step) in
    let used = find_loop bm count end fuel (i + width) 0 run_start in
    let free = find_loop bm count end fuel (i + width) (free_run + width) first in
    if ltb i end then (if is_used then used else if enough then some first else free) else none

-- Every round takes a bit at least, so `end - begin` rounds are enough.
unfoldable pub find_free_in_range : Bitmap → ℕ → ℕ → ℕ → Option ℕ
find_free_in_range bm count begin end =
    if (count == 0) || leb end begin then none else find_loop bm count end (end - begin) begin 0 0
