-- ===== src/Kalloc/Sound.antt =====
-- When the heap is sound, and which pointers it has given out.
use bleed_kernel.Common.{
  page_size, ℕ, ◌+◌, ◌%◌, ◌≤◌, ◌<◌, ◌≡◌, ◌≢◌, ◌⊎◌, ◌↔◌, Bool, false, not, ◌&&◌, Option, none, some,
  if◌then◌else◌, ◌==◌, length, All, count,
}
use bleed_kernel.Kalloc.Slabs.{
  large_header, num_classes, objects_per_slab, Slab, Header, slab, large, unknown, Heap,
}
use bleed_kernel.Kalloc.Objects.{IsObject, page_of}

-- A slab of the page: its counts are right, and its free objects are objects of it, each on the list
-- once.
pub record IsSlab (page : ℕ) (s : Slab) : Type 0 where
  pub class : s.class_idx < num_classes
  pub counted : s.free_count ≡ length s.freelist
  pub total : s.total_count ≡ objects_per_slab s.class_idx
  pub known : All (IsObject s.class_idx page) s.freelist
  pub distinct : (a : ℕ) → count a s.freelist ≤ 1

abbrev pub is_spare : Option ℕ → ℕ → Bool
is_spare none p = false
is_spare (some q) p = q == p

-- How often the list of partial slabs of a class holds a page: once if it is a slab of the class with
-- a free object that is not kept as the empty one.
abbrev pub listing : ℕ → ℕ → Header → Option ℕ → ℕ
listing ci p (slab s) e =
    if s.class_idx == ci && (not (s.free_count == 0) && not (is_spare e p)) then 1 else 0
listing ci p (large n) e = 0
listing ci p unknown e = 0

-- A slab of the class with all of its objects free.
abbrev pub IsUnused : ℕ → Header → Type 0
IsUnused ci (slab s) = (s.class_idx ≡ ci) × (s.free_count ≡ s.total_count)
IsUnused ci (large n) = ⊥
IsUnused ci unknown = ⊥

pub record IsSound (h : Heap) : Type 0 where
  pub pages : (p : ℕ) → (h.header p ≡ unknown) ⊎ ((p % page_size ≡ 0) × (0 < p))
  pub slabs : (p : ℕ) (s : Slab) → h.header p ≡ slab s → IsSlab p s
  pub listed : (ci p : ℕ) → count p (h.partial ci) ≡ listing ci p (h.header p) (h.empty ci)
  pub spares : (ci p : ℕ) → h.empty ci ≡ some p → IsUnused ci (h.header p)

-- A pointer that kmalloc has given out and kfree has not got back: an object of a slab that is not on
-- its list, or the start of a large block.
abbrev pub LiveIn : ℕ → Header → Type 0
LiveIn a (slab s) = IsObject s.class_idx (page_of a) a × (count a s.freelist ≡ 0)
LiveIn a (large n) = a ≡ page_of a + large_header
LiveIn a unknown = ⊥

abbrev pub IsLive : Heap → ℕ → Type 0
IsLive h a = LiveIn a (h.header (page_of a))

-- What an allocation of the class does: it gives a pointer that was not out, to an object of the class,
-- and makes it live; no other pointer comes to life or dies.
pub record Gives (ci : ℕ) (h : Heap) (obj : ℕ) (h' : Heap) : Type 0 where
  pub sound : IsSound h'
  pub fresh : ¬ IsLive h obj
  pub live : IsLive h' obj
  pub aligned : page_of obj % page_size ≡ 0
  pub object : IsObject ci (page_of obj) obj
  pub others : (b : ℕ) → b ≢ obj → IsLive h b ↔ IsLive h' b
