-- ===== src/Kalloc/Kfree.antt =====
-- Large blocks, and kfree as a whole.
use bleed_kernel.Common.{
  put, page_size, ℕ, ◌+◌, ◌%◌, ◌<◌, ◌≡◌, ◌≢◌, refl, sym, ap, ◌∙◌, inl, inr, false, Option, none,
  some, ◌==◌, arith, count,
}
use bleed_kernel.Kalloc.Slabs.{large_header, Slab, Header, slab, large, unknown, Heap}
use bleed_kernel.Kalloc.Calls.{free_object, kfree}
use bleed_kernel.Kalloc.Objects.{page_of}
use bleed_kernel.Kalloc.Sound.{IsSlab, listing, IsUnused, IsSound, LiveIn, IsLive}
use bleed_kernel.Kalloc.Local.{IsOf, Local, local-IsSound, spare_eq}
use bleed_kernel.Kalloc.Lists.{Relisted-refl, Relisted-Local}
use bleed_kernel.Kalloc.Live.{from_live, live_elsewhere}
use bleed_kernel.Kalloc.Free.{Frees, free_object-Frees}

-- The header of a page that is no slab.
abbrev pub IsPlain : Header → Type 0
IsPlain (slab s) = ⊥
IsPlain (large n) = Unit
IsPlain unknown = Unit

plain-IsOf : (hd : Header) → IsPlain hd → IsOf 0 hd
plain-IsOf (slab s) p = absurd p
plain-IsOf (large n) p = tt
plain-IsOf unknown p = tt

plain_unlisted : (page : ℕ) (hd : Header) (e : Option ℕ) → IsPlain hd → listing 0 page hd e ≡ 0
plain_unlisted page (slab s) e p = absurd p
plain_unlisted page (large n) e p = refl
plain_unlisted page unknown e p = refl

plain_used : (hd : Header) → IsPlain hd → ¬ IsUnused 0 hd
plain_used (slab s) p u = p
plain_used (large n) p u = u
plain_used unknown p u = u

plain_slab : (page : ℕ) (hd : Header) (t : Slab) → IsPlain hd → hd ≡ slab t → IsSlab page t
plain_slab page (slab s) t p e = absurd p
plain_slab page (large n) t p e = cc
plain_slab page unknown t p e = cc

-- A page that is no slab before and after is on no list.
pub plain-Local :
    (page : ℕ) (hd : Header) (h : Heap)
    → IsSound h
    → IsPlain (h.header page)
    → IsPlain hd
    → (page % page_size ≡ 0) × (0 < page)
    → Local 0 page hd h (record h { header = put page hd h.header })
plain-Local page hd h sound before after aligned =
    let changed : Heap = record h { header = put page hd h.header } in
    Relisted-Local 0 page (count page (h.partial 0)) hd h.empty h changed
      (Relisted-refl 0 page changed) (plain-IsOf (h.header page) before) (plain-IsOf hd after)
      aligned (λ c ne. refl) (λ q ne. refl)
      (sound.listed 0 page
        ∙ plain_unlisted page (h.header page) (h.empty 0) before
        ∙ sym (plain_unlisted page hd (h.empty 0) after))
      (λ e.
        absurd
          (plain_used (h.header page) before (sound.spares 0 page (spare_eq (h.empty 0) page e))))
      (λ t e. plain_slab page hd t after e)

large_aligned :
    (page n : ℕ) (h : Heap)
    → IsSound h
    → h.header page ≡ large n
    → (page % page_size ≡ 0) × (0 < page)
large_aligned page n h sound at = elim (sound.pages page) [
  | inl none_there ↦ cc
  | inr ok_there ↦ ok_there
]

pub large_header_only :
    (page n b : ℕ) (hd : Header)
    → hd ≡ large n
    → page_of b ≡ page
    → b ≢ page + large_header
    → ¬ LiveIn b hd
large_header_only page n b hd eq home ne l =
    let is : LiveIn b (large n) = rw eq at l in ne (is ∙ ap (λ q. q + large_header) home)

large_free-Frees :
    (ptr page n : ℕ) (h : Heap)
    → IsSound h
    → h.header page ≡ large n
    → page_of ptr ≡ page
    → LiveIn ptr (large n)
    → Frees ptr h (record h { header = put page unknown h.header }, some (page, n))
large_free-Frees ptr page n h sound at home out =
    let r : Heap = record h { header = put page unknown h.header } in
    let own : ptr ≡ page + large_header = out ∙ ap (λ q. q + large_header) home in
    let local : Local 0 page unknown h r =
      plain-Local page unknown h sound (rw at tt) tt (large_aligned page n h sound at) in
    record {
      sound = local-IsSound 0 page unknown h r local sound;
      dead = λ l. from_live r ptr page unknown home local.here l;
      others = λ b differ.
          live_elsewhere h r page b (large n) unknown at local.here local.away (λ home. (
            λ l. large_header_only page n b (large n) refl home (λ e. differ (e ∙ sym own)) l,
            λ l. absurd l,
          ));
      back = rw (home, at) refl;
      vacant = λ p m b e home l.
          let same : p ≡ page = cc in from_live r b page unknown (home ∙ same) local.here l;
    }

by_header-Frees :
    (ptr : ℕ) (h : Heap) (hd : Header)
    → IsSound h
    → h.header (page_of ptr) ≡ hd
    → LiveIn ptr hd
    → Frees ptr h (elim hd [
      | large pages ↦
          (record h { header = put (page_of ptr) unknown h.header }, some (page_of ptr, pages))
      | slab s ↦ free_object ptr (page_of ptr) s h
      | unknown ↦ (h, none)
    ])
by_header-Frees ptr h (slab s) sound at out =
    free_object-Frees ptr (page_of ptr) s h sound at refl out
by_header-Frees ptr h (large n) sound at out =
    large_free-Frees ptr (page_of ptr) n h sound at refl out
by_header-Frees ptr h unknown sound at out = absurd out

LiveIn-nonzero : (ptr : ℕ) (hd : Header) → LiveIn ptr hd → 0 < ptr
LiveIn-nonzero ptr (slab s) out = let (i, lt, eq) = out.0 in omega (arith, eq)
LiveIn-nonzero ptr (large n) out = omega (arith, out)
LiveIn-nonzero ptr unknown out = absurd out

-- A pointer that is out is not NULL.
pub IsLive-nonzero : (ptr : ℕ) (h : Heap) → IsLive h ptr → (ptr == 0) ≡ false
IsLive-nonzero ptr h out =
    let some_ptr = LiveIn-nonzero ptr (h.header (page_of ptr)) out in ground arith

-- kfree of a pointer that is out takes it back, whatever branch it takes: the heap stays sound, the
-- pointer is not out any more, and every other pointer is out as before. Of a large block the page of the
-- pointer goes back to vmm_free_pages with as many pages as the block's header records, of a slab nothing or
-- its one page; no pointer is out in the first page that goes back.
pub kfree-Frees : (ptr : ℕ) (h : Heap) → IsSound h → IsLive h ptr → Frees ptr h (kfree ptr h)
unfolding kfree
kfree-Frees ptr h sound out =
    let nonzero = IsLive-nonzero ptr h out in
    rw nonzero (by_header-Frees ptr h (h.header (page_of ptr)) sound refl out)
