-- ===== src/Kalloc/Slabs.antt =====
-- kernel/src/mm/kalloc.c: size classes, slabs and their lists.
use bleed_kernel.Common.{
  put, page_size, erase_first, ℕ, zero, suc, ◌+◌, ◌-◌, ◌/◌, Option, List, [], ◌∷◌, if◌then◌else◌,
  ltb, leb, get_or,
}

-- SIZE_CLASSES and NUM_CLASSES
abbrev pub size_classes : List ℕ
size_classes = 8 ∷ 16 ∷ 32 ∷ 64 ∷ 128 ∷ 256 ∷ 512 ∷ 1024 ∷ 2048 ∷ []

abbrev pub num_classes : ℕ
num_classes = 9

abbrev pub size_of : ℕ → ℕ
size_of ci = get_or size_classes ci 8

-- A slab's header, rounded up to KALLOC_ALIGN; that of a large block.
abbrev pub slab_header : ℕ
slab_header = 48

abbrev pub large_header : ℕ
large_header = 16

-- class_for: the loop over the classes from index `i` on.
unfoldable pub class_from : ℕ → ℕ → List ℕ → ℕ
class_from bytes i [] = i
class_from bytes i (size ∷ sizes) =
    let rest = class_from bytes (i + 1) sizes in if leb bytes size then i else rest

unfoldable pub class_for : ℕ → ℕ
class_for bytes = class_from (if ltb bytes 8 then 8 else bytes) 0 size_classes

-- `slab_hdr_t`; `freelist` is the addresses on the list of free objects. `prev` and `next` are in the
-- lists of the heap below.
pub record Slab : Type 0 where
  pub class_idx : ℕ
  pub free_count : ℕ
  pub total_count : ℕ
  pub freelist : List ℕ

-- What the magic number at the start of a page tells: a slab, a large block of some pages, or neither.
pub data Header : Type 0 where
  slab : Slab → Header
  large : ℕ → Header
  unknown : Header

-- The headers by the address of their page, and `slab_classes`: the list of partial slabs and the one
-- empty slab of each class.
pub record Heap : Type 0 where
  pub header : ℕ → Header
  pub partial : ℕ → List ℕ
  pub empty : ℕ → Option ℕ

-- The objects of a slab from `base` on, `n` of them.
unfoldable pub objects : ℕ → ℕ → ℕ → List ℕ
objects base size zero = []
objects base size (suc n) = base ∷ objects (base + size) size n

abbrev pub objects_per_slab : ℕ → ℕ
objects_per_slab ci = (page_size - slab_header) / size_of ci

-- slab_init_page
unfoldable pub slab_init_page : ℕ → ℕ → Slab
slab_init_page page ci = record {
  class_idx = ci;
  free_count = objects_per_slab ci;
  total_count = objects_per_slab ci;
  freelist = objects (page + slab_header) (size_of ci) (objects_per_slab ci);
}

-- slab_push and slab_remove
abbrev pub slab_push : ℕ → ℕ → Heap → Heap
slab_push ci page h = record h { partial = put ci (page ∷ h.partial ci) h.partial }

abbrev pub slab_remove : ℕ → ℕ → Heap → Heap
slab_remove ci page h = record h { partial = put ci (erase_first page (h.partial ci)) h.partial }
