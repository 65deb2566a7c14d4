-- ===== src/Kalloc/Calls.antt =====
-- kernel/src/mm/kalloc.c: kmalloc and kfree.
use bleed_kernel.Common.{
  put, page_size, add32, sub32, ℕ, ◌+◌, ◌-◌, ◌/◌, ◌%◌, Option, none, some, List, [], ◌∷◌,
  if◌then◌else◌, ◌==◌, add64,
}
use bleed_kernel.Kalloc.Slabs.{
  large_header, num_classes, class_for, Slab, slab, large, unknown, Heap, slab_init_page, slab_push,
  slab_remove,
}

-- The end of kmalloc, in the lock: an object comes off the list of the slab, and a slab with none left
-- leaves the partial ones. `none` is a crash: no slab at the page, or one with no free object.
unfoldable pub pop_from : ℕ → Slab → ℕ → List ℕ → Heap → Option (ℕ × Heap)
pop_from ci s page [] h = none
pop_from ci s page (obj ∷ rest) h =
    let s' = record s { freelist = rest; free_count = sub32 s.free_count 1 } in
    let h' = record h { header = put page (slab s') h.header } in
    some (obj, if s'.free_count == 0 then slab_remove ci page h' else h')

unfoldable pub pop_object : ℕ → ℕ → Heap → Option (ℕ × Heap)
pop_object ci page h = elim (h.header page) [
  | slab s ↦ pop_from ci s page s.freelist h
  | large n ↦ none
  | unknown ↦ none
]

-- The first time kmalloc holds the lock of the class: it takes from the first partial slab, or from
-- the empty one, or finds that it has to get a page.
pub data Taken : Type 0 where
  object : ℕ → Heap → Taken
  no_slab : Heap → Taken
  crash : Taken

abbrev pub taken_of : Option (ℕ × Heap) → Taken
taken_of none = crash
taken_of (some (obj, h)) = object obj h

unfoldable pub take_partial : ℕ → List ℕ → Option ℕ → Heap → Taken
take_partial ci (page ∷ pages) spare h = taken_of (pop_object ci page h)
take_partial ci [] (some page) h =
    taken_of (pop_object ci page (slab_push ci page (record h { empty = put ci none h.empty })))
take_partial ci [] none h = no_slab h

unfoldable pub take_slab : ℕ → Heap → Taken
take_slab ci h = take_partial ci (h.partial ci) (h.empty ci) h

-- The second time, with a page from vmm_alloc_pages.
unfoldable pub grow_slab : ℕ → ℕ → Heap → Option (ℕ × Heap)
grow_slab ci page h =
    pop_object ci page
      (slab_push ci page (record h { header = put page (slab (slab_init_page page ci)) h.header }))

-- The pages of a large block, in size_t; the block is behind its header.
unfoldable pub large_pages : ℕ → ℕ
large_pages bytes = add64 (add64 bytes large_header) (page_size - 1) / page_size

unfoldable pub large_block : ℕ → Option ℕ → Heap → Option ℕ × Heap
large_block bytes none h = (none, h)
large_block bytes (some page) h = (
  some (page + large_header),
  record h { header = put page (large (large_pages bytes)) h.header },
)

-- What kmalloc returns, NULL as `none`, and the heap it leaves; `none` for a crash.
abbrev pub Outcome : Type 0
Outcome = Option (Option ℕ × Heap)

abbrev pub given : Option (ℕ × Heap) → Outcome
given none = none
given (some (obj, h)) = some (some obj, h)

unfoldable pub small_block : ℕ → Option ℕ → (Heap → Heap) → Taken → Outcome
small_block ci page meanwhile (object obj h) = some (some obj, h)
small_block ci page meanwhile crash = none
small_block ci none meanwhile (no_slab h) = some (none, meanwhile h)
small_block ci (some page) meanwhile (no_slab h) = given (grow_slab ci page (meanwhile h))

-- kmalloc: `page` is what vmm_alloc_pages gives if it is asked, and `meanwhile` what others do to the
-- heap while it is asked, which is outside the lock of the class. The heap is one that kalloc_init has
-- set up: the test of kalloc_init_done is left out.
unfoldable pub kmalloc : ℕ → Option ℕ → (Heap → Heap) → Heap → Outcome
kmalloc bytes page meanwhile h =
    if bytes == 0
    then some (none, h)
    else (let ci = class_for bytes in
        if ci == num_classes
        then some (large_block bytes page (meanwhile h))
        else small_block ci page meanwhile (take_slab ci h))

-- What kfree gives back to vmm_free_pages: a page and how many from there on.
abbrev pub Returned : Type 0
Returned = Option (ℕ × ℕ)

-- An object goes back to its slab.
unfoldable pub free_object : ℕ → ℕ → Slab → Heap → Heap × Returned
free_object ptr page s h =
    let ci = s.class_idx in
    let s' = record s { freelist = ptr ∷ s.freelist; free_count = add32 s.free_count 1 } in
    let h' = record h { header = put page (slab s') h.header } in
    if s'.free_count == 1
    then (slab_push ci page h', none)
    else if s'.free_count == s.total_count
    then (let h'' = slab_remove ci page h' in
        elim (h.empty ci) [
          | none ↦ (record h'' { empty = put ci (some page) h.empty }, none)
          | some spare ↦ (record h'' { header = put page unknown h'.header }, some (page, 1))
        ])
    else (h', none)

-- kfree; NULL is 0. What a page given back holds from then on is not known.
unfoldable pub kfree : ℕ → Heap → Heap × Returned
kfree ptr h =
    if ptr == 0
    then (h, none)
    else (let page = ptr - ptr % page_size in
        elim (h.header page) [
          | large pages ↦ (record h { header = put page unknown h.header }, some (page, pages))
          | slab s ↦ free_object ptr page s h
          | unknown ↦ (h, none)
        ])
