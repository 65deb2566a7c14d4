-- ===== src/Kalloc/Tests.antt =====
-- Runs of the heap, and the places where its theorems apply.
use bleed_kernel.Common.{
  ℕ, ◌+◌, ◌-◌, ◌*◌, ◌^◌, ◌≤◌, ◌<◌, ◌≡◌, refl, ◌⊎◌, none, some, [], ◌∷◌, map, arith, count,
}
use bleed_kernel.Kalloc.Slabs.{size_of, class_for, class_from, Slab, Heap, objects, slab_init_page}
use bleed_kernel.Kalloc.Calls.{
  Outcome, pop_from, pop_object, take_partial, take_slab, grow_slab, large_pages, small_block,
  kmalloc, free_object, kfree,
}
use bleed_kernel.Kalloc.Sound.{IsSound, IsLive}
use bleed_kernel.Kalloc.Take.{IsFresh}
use bleed_kernel.Kalloc.Free.{Frees}
use bleed_kernel.Kalloc.Kfree.{kfree-Frees}
use bleed_kernel.Kalloc.Sizes.{class_for-smallest, large_pages-bounds}
use bleed_kernel.Kalloc.Kmalloc.{Answers, kmalloc-Answers}
use bleed_kernel.Kalloc.Reach.{
  kalloc_init, malloc, HeapReach, boot, next, IsKept, reach-IsKept, live_apart,
}

abbrev heap_of : Outcome → Heap
heap_of none = kalloc_init
heap_of (some (a, r)) = r

-- A block of 1000 bytes, and a second one from the same slab.
abbrev one_out : Heap
unfolding kmalloc class_for class_from small_block take_slab take_partial grow_slab slab_init_page
    objects pop_object pop_from
one_out = heap_of (kmalloc 1000 (some 8192) (λ k. k) kalloc_init)

abbrev two_out : Heap
unfolding kmalloc class_for class_from small_block take_slab take_partial grow_slab slab_init_page
    objects pop_object pop_from
two_out = heap_of (kmalloc 1000 none (λ k. k) one_out)

IsFresh-8192 : IsFresh kalloc_init 8192
IsFresh-8192 = record { unused = refl; aligned = refl; nonnull = omega arith }

two_out_reached : HeapReach (9264 ∷ 8240 ∷ [], two_out)
unfolding kmalloc class_for class_from small_block take_slab take_partial grow_slab slab_init_page
    objects pop_object pop_from one_out two_out
two_out_reached =
    next (8240 ∷ [], one_out) _
      (next ([], kalloc_init) _ boot
        (malloc 1000 (some 8192) [] kalloc_init one_out 8240 IsFresh-8192 refl))
      (malloc 1000 none (8240 ∷ []) one_out two_out 9264 tt refl)

reach-IsKept_example : IsKept (9264 ∷ 8240 ∷ [], two_out)
reach-IsKept_example = reach-IsKept (9264 ∷ 8240 ∷ [], two_out) two_out_reached

two_out-IsSound : IsSound two_out
two_out-IsSound = reach-IsKept_example.sound

kmalloc-Answers_example : Answers 24 two_out two_out (kmalloc 24 (some 12288) (λ k. k) two_out)
unfolding kmalloc class_for class_from small_block take_slab take_partial grow_slab slab_init_page
    objects pop_object pop_from one_out two_out
kmalloc-Answers_example =
    kmalloc-Answers 24 (some 12288) (λ k. k) two_out two_out-IsSound two_out-IsSound
      (record { unused = refl; aligned = refl; nonnull = omega arith })

two_out-IsLive : (a : ℕ) → 0 < count a (9264 ∷ 8240 ∷ []) → IsLive two_out a
two_out-IsLive a there = reach-IsKept_example.held a there

held_9264 : 0 < count 9264 (9264 ∷ 8240 ∷ [])
unfolding count
held_9264 = omega arith

held_8240 : 0 < count 8240 (9264 ∷ 8240 ∷ [])
unfolding count
held_8240 = omega arith

kfree-Frees_example : Frees 8240 two_out (kfree 8240 two_out)
kfree-Frees_example = kfree-Frees 8240 two_out two_out-IsSound (two_out-IsLive 8240 held_8240)

abbrev two_out_slab : Slab
two_out_slab = record { class_idx = 7; free_count = 1; total_count = 3; freelist = 10288 ∷ [] }

live_apart_example : (9264 + 1024 ≤ 8240) ⊎ (8240 + 1024 ≤ 9264)
unfolding kmalloc class_for class_from small_block take_slab take_partial grow_slab slab_init_page
    objects pop_object pop_from one_out two_out
live_apart_example =
    live_apart two_out 9264 8240 two_out_slab two_out_slab two_out-IsSound refl refl
      (two_out-IsLive 9264 held_9264) (two_out-IsLive 8240 held_8240) (λ e. ground (arith, e))

class_for-smallest_example :
    (class_for 100 ≤ 9)
    × (class_for 100 < 9 → 100 ≤ size_of (class_for 100))
    × ((j : ℕ) → j < class_for 100 → size_of j < 100)
class_for-smallest_example = class_for-smallest 100

large_pages-bounds_example :
    (5000 + 16 + (4096 - 1) < 2 ^ 64
      → (5000 + 16 ≤ large_pages 5000 * 4096) × (large_pages 5000 * 4096 < 5000 + 16 + 4096))
    × (2 ^ 64 ≤ 5000 + 16 + (4096 - 1) → 5000 < 2 ^ 64 → large_pages 5000 ≤ 1)
large_pages-bounds_example = large_pages-bounds 5000

-- The greatest size gets one page.
large_pages_wraps : large_pages (2 ^ 64 - 1) ≡ 1
unfolding large_pages
large_pages_wraps = refl

-- The empty slab of a class is kept, and taken again.
emptied : (kfree 9264 (kfree 8240 two_out).0).0.empty 7 ≡ some 8192
unfolding kmalloc class_for class_from small_block take_slab take_partial grow_slab slab_init_page
    objects pop_object pop_from one_out two_out kfree free_object
emptied = refl

class_for_edges : map class_for (1 ∷ 8 ∷ 9 ∷ 2048 ∷ 2049 ∷ []) ≡ 0 ∷ 0 ∷ 1 ∷ 8 ∷ 9 ∷ []
unfolding class_for class_from
class_for_edges = refl
