-- ===== src/Kalloc/Live.antt =====
-- Which pointers are out, when a call changes the header of one page.
use bleed_kernel.Common.{
  page_size, ℕ, ◌%◌, ◌<◌, ◌≡◌, sym, ap, ◌∙◌, ◌↔◌, inl, inr, false, ◌==◌, Bool-cases, ==→eq, count,
}
use mathlib.Core.Path.{subst}
use bleed_kernel.Kalloc.Slabs.{Slab, Header, slab, Heap}
use bleed_kernel.Kalloc.Objects.{page_of}
use bleed_kernel.Kalloc.Sound.{IsSound, LiveIn, IsLive}

-- A header other than `unknown` lies at the start of a page.
pub slab_aligned :
    (page : ℕ) (s : Slab) (h : Heap)
    → IsSound h
    → h.header page ≡ slab s
    → (page % page_size ≡ 0) × (0 < page)
slab_aligned page s h sound at = elim (sound.pages page) [
  | inl none_there ↦ cc
  | inr ok_there ↦ ok_there
]

pub to_live :
    (h : Heap) (a p : ℕ) (hd : Header) → page_of a ≡ p → h.header p ≡ hd → LiveIn a hd → IsLive h a
to_live h a p hd home at l = subst (LiveIn a) (sym (ap h.header home ∙ at)) l

pub from_live :
    (h : Heap) (a p : ℕ) (hd : Header) → page_of a ≡ p → h.header p ≡ hd → IsLive h a → LiveIn a hd
from_live h a p hd home at l = subst (LiveIn a) (ap h.header home ∙ at) l

same_header :
    (h r : Heap) (b : ℕ) → h.header (page_of b) ≡ r.header (page_of b) → IsLive h b ↔ IsLive r b
same_header h r b eq = (λ l. subst (LiveIn b) eq l, λ l. subst (LiveIn b) (sym eq) l)

-- Only the header of one page matters to what is out.
pub live_elsewhere :
    (h r : Heap) (page b : ℕ) (old new : Header)
    → h.header page ≡ old
    → r.header page ≡ new
    → ((q : ℕ) → (q == page) ≡ false → r.header q ≡ h.header q)
    → (page_of b ≡ page → LiveIn b old ↔ LiveIn b new)
    → IsLive h b ↔ IsLive r b
live_elsewhere h r page b old new was now away same = elim (Bool-cases (page_of b == page)) [
  | inr other ↦ same_header h r b (sym (away (page_of b) other))
  | inl home ↦
      let here : page_of b ≡ page = ==→eq (page_of b) page home in
      (
        λ l. to_live r b page new here now ((same here).0 (from_live h b page old here was l)),
        λ l. to_live h b page old here was ((same here).1 (from_live r b page new here now l)),
      )
]

-- A slab with a list that differs at one pointer only has the same other objects out.
pub slab_live :
    (b : ℕ) (s s' : Slab)
    → s'.class_idx ≡ s.class_idx
    → count b s'.freelist ≡ count b s.freelist
    → LiveIn b (slab s) ↔ LiveIn b (slab s')
slab_live b s s' class lists =
    (λ l. (rw class l.0, lists ∙ l.1), λ l. (rw class at l.0, sym lists ∙ l.1))
