-- ===== src/Kalloc/Lists.antt =====
-- What slab_push, slab_remove and a new header do to the rest of the heap.
use bleed_kernel.Common.{
  put_self, put_ne, put, page_size, ℕ, ◌+◌, ◌-◌, ◌%◌, ◌<◌, ◌≡◌, refl, ◌∙◌, true, false, Option, ◌∷◌,
  ◌==◌, arith, count, count-here, count-there, erase_first, count-erase_first_self,
  count-erase_first_ne,
}
use bleed_kernel.Kalloc.Slabs.{Slab, Header, slab, large, unknown, Heap, slab_push, slab_remove}
use bleed_kernel.Kalloc.Sound.{IsSlab, is_spare, listing, IsUnused}
use bleed_kernel.Kalloc.Local.{IsOf, Local}

-- Only the list of the class has changed, and only at the page, which is on it `n` times.
pub record Relisted (ci page n : ℕ) (h r : Heap) : Type 0 where
  pub headers : r.header ≡ h.header
  pub empties : r.empty ≡ h.empty
  pub classes : (c : ℕ) → (c == ci) ≡ false → r.partial c ≡ h.partial c
  pub rows : (q : ℕ) → (q == page) ≡ false → count q (r.partial ci) ≡ count q (h.partial ci)
  pub row : count page (r.partial ci) ≡ n

pub Relisted-refl : (ci page : ℕ) (h : Heap) → Relisted ci page (count page (h.partial ci)) h h
Relisted-refl ci page h = record {
  headers = refl;
  empties = refl;
  classes = λ c ne. refl;
  rows = λ q ne. refl;
  row = refl;
}

pub slab_push-Relisted :
    (ci page : ℕ) (h : Heap)
    → Relisted ci page (count page (h.partial ci) + 1) h (slab_push ci page h)
slab_push-Relisted ci page h =
    let longer : put ci (page ∷ h.partial ci) h.partial ci ≡ page ∷ h.partial ci =
      put_self ci (page ∷ h.partial ci) h.partial in
    record {
      headers = refl;
      empties = refl;
      classes = λ c ne. put_ne ci c (page ∷ h.partial ci) h.partial ne;
      rows = λ q ne. rw longer (count-there q page (h.partial ci) ne);
      row = rw longer (count-here page (h.partial ci) ∙ omega arith);
    }

pub slab_remove-Relisted :
    (ci page : ℕ) (h : Heap)
    → Relisted ci page (count page (h.partial ci) - 1) h (slab_remove ci page h)
slab_remove-Relisted ci page h =
    let shorter : put ci (erase_first page (h.partial ci)) h.partial ci
        ≡ erase_first page (h.partial ci) =
      put_self ci (erase_first page (h.partial ci)) h.partial in
    record {
      headers = refl;
      empties = refl;
      classes = λ c ne. put_ne ci c (erase_first page (h.partial ci)) h.partial ne;
      rows = λ q ne. rw shorter (count-erase_first_ne page q (h.partial ci) (ground arith));
      row = rw shorter (count-erase_first_self page (h.partial ci));
    }

-- A heap with a new header at the page, new spares and a list that has changed at the page.
pub Relisted-Local :
    (ci page n : ℕ) (hd : Header) (spares : ℕ → Option ℕ) (h r : Heap)
    → Relisted ci page n
        (record { header = put page hd h.header; partial = h.partial; empty = spares })
        r
    → IsOf ci (h.header page)
    → IsOf ci hd
    → (page % page_size ≡ 0) × (0 < page)
    → ((c : ℕ) → (c == ci) ≡ false → spares c ≡ h.empty c)
    → ((q : ℕ) → (q == page) ≡ false → is_spare (spares ci) q ≡ is_spare (h.empty ci) q)
    → n ≡ listing ci page hd (spares ci)
    → (is_spare (spares ci) page ≡ true → IsUnused ci hd)
    → ((t : Slab) → hd ≡ slab t → IsSlab page t)
    → Local ci page hd h r
Relisted-Local ci page n hd spares h r v before after aligned others same row unused known =
    record {
      kind_before = before;
      kind_after = after;
      aligned = aligned;
      here = rw v.headers (put_self page hd h.header);
      away = λ q ne. rw v.headers (put_ne page q hd h.header ne);
      classes = λ c ne. (v.classes c ne, rw v.empties (others c ne));
      rows = v.rows;
      same_spare = λ q ne. rw v.empties (same q ne);
      row = rw v.empties (v.row ∙ row);
      spare = λ e. unused (rw v.empties at e);
      slab_known = known;
    }

-- How often a slab with a free object that is no spare is listed, and one with none.
module _ (ci p : ℕ) (s : Slab) (e : Option ℕ) where
  pub listing_yes :
      s.class_idx ≡ ci → 0 < s.free_count → is_spare e p ≡ false → listing ci p (slab s) e ≡ 1
  listing_yes class some_free spare =
      let same : (s.class_idx == ci) ≡ true = ground arith in
      let some_left : (s.free_count == 0) ≡ false = ground arith in rw (same, some_left, spare) refl

  pub listing_full : (s.free_count == 0) ≡ true → listing ci p (slab s) e ≡ 0
  listing_full none_free = ground (arith, none_free)

  pub listing_kept : is_spare e p ≡ true → listing ci p (slab s) e ≡ 0
  listing_kept spare = ground (arith, spare)

-- A page that a list of partial slabs holds is a slab of the class with a free object.
pub listed_slab :
    (ci p : ℕ) (hd : Header) (e : Option ℕ)
    → 0 < listing ci p hd e
    → (s : Slab) × (hd ≡ slab s) × (s.class_idx ≡ ci) × (0 < s.free_count) × (is_spare e p ≡ false)
listed_slab ci p (slab s) e h = (s, refl, ground arith, ground arith, ground arith)
listed_slab ci p (large n) e h = absurd (omega arith)
listed_slab ci p unknown e h = absurd (omega arith)
