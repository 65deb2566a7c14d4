-- ===== src/Kalloc/Local.antt =====
-- A call touches one page and the lists of one class: what it has to get right there, and why the
-- whole heap is sound then.
use bleed_kernel.Common.{
  page_size, ℕ, ◌%◌, ◌<◌, ◌≡◌, refl, sym, ap, ◌∙◌, inl, inr, true, false, not, ◌&&◌, Option, none,
  some, if◌then◌else◌, ◌==◌, Bool-cases, arith, ==→eq, count,
}
use mathlib.Core.Bool.{false≢true}
use bleed_kernel.Kalloc.Slabs.{Slab, Header, slab, large, unknown, Heap}
use bleed_kernel.Kalloc.Sound.{IsSlab, is_spare, listing, IsUnused, IsSound}

pub slab_inj : (s t : Slab) → slab s ≡ slab t → s ≡ t
slab_inj s t e = cc

-- A header that is a slab of the class, or no slab.
abbrev pub IsOf : ℕ → Header → Type 0
IsOf ci (slab s) = s.class_idx ≡ ci
IsOf ci (large n) = Unit
IsOf ci unknown = Unit

pub listing_other :
    (ci c p : ℕ) (hd : Header) (e : Option ℕ)
    → IsOf ci hd
    → (c == ci) ≡ false
    → listing c p hd e ≡ 0
listing_other ci c p (slab s) e class ne =
    let other : (s.class_idx == c) ≡ false = ground arith in rw other refl
listing_other ci c p (large n) e class ne = refl
listing_other ci c p unknown e class ne = refl

pub listing_spare :
    (ci p : ℕ) (hd : Header) (e e' : Option ℕ)
    → is_spare e p ≡ is_spare e' p
    → listing ci p hd e ≡ listing ci p hd e'
listing_spare ci p (slab s) e e' same =
    ap (λ b. if s.class_idx == ci && (not (s.free_count == 0) && not b) then 1 else 0) same
listing_spare ci p (large n) e e' same = refl
listing_spare ci p unknown e e' same = refl

IsUnused-other : (ci c : ℕ) (hd : Header) → IsOf ci hd → (c == ci) ≡ false → ¬ IsUnused c hd
IsUnused-other ci c (slab s) class ne unused = ground (arith, unused.0, class)
IsUnused-other ci c (large n) class ne unused = unused
IsUnused-other ci c unknown class ne unused = unused

pub spare_eq : (e : Option ℕ) (p : ℕ) → is_spare e p ≡ true → e ≡ some p
spare_eq none p h = absurd (false≢true h)
spare_eq (some q) p h = ap some (==→eq q p h)

spare_is : (e : Option ℕ) (p : ℕ) → e ≡ some p → is_spare e p ≡ true
spare_is none p h = cc
spare_is (some q) p h = let eq : q ≡ p = cc in ground arith

-- The heap `r` that a call leaves of `h` if it writes the header `hd` at the page and changes the lists
-- of the class `ci` at that page only.
pub record Local (ci page : ℕ) (hd : Header) (h r : Heap) : Type 0 where
  pub kind_before : IsOf ci (h.header page)
  pub kind_after : IsOf ci hd
  pub aligned : (page % page_size ≡ 0) × (0 < page)
  pub here : r.header page ≡ hd
  pub away : (q : ℕ) → (q == page) ≡ false → r.header q ≡ h.header q
  pub classes : (c : ℕ) → (c == ci) ≡ false → (r.partial c ≡ h.partial c) × (r.empty c ≡ h.empty c)
  pub rows : (q : ℕ) → (q == page) ≡ false → count q (r.partial ci) ≡ count q (h.partial ci)
  pub same_spare : (q : ℕ) → (q == page) ≡ false → is_spare (r.empty ci) q ≡ is_spare (h.empty ci) q
  pub row : count page (r.partial ci) ≡ listing ci page hd (r.empty ci)
  pub spare : is_spare (r.empty ci) page ≡ true → IsUnused ci hd
  pub slab_known : (t : Slab) → hd ≡ slab t → IsSlab page t

module _ (ci page : ℕ) (hd : Header) (h r : Heap) (v : Local ci page hd h r)
    (sound : IsSound h) where
  local_listed : (c p : ℕ) → count p (r.partial c) ≡ listing c p (r.header p) (r.empty c)
  local_listed c p = elim (Bool-cases (c == ci)) [
    | inr ne ↦ elim (Bool-cases (p == page)) [
      | inl e ↦
          rw (==→eq p page e, (v.classes c ne).0, (v.classes c ne).1, v.here)
            (sound.listed c page
              ∙ listing_other ci c page (h.header page) (h.empty c) v.kind_before ne
              ∙ sym (listing_other ci c page hd (h.empty c) v.kind_after ne))
      | inr away ↦ rw ((v.classes c ne).0, (v.classes c ne).1, v.away p away) (sound.listed c p)
    ]
    | inl class ↦ elim (Bool-cases (p == page)) [
      | inl e ↦ rw (==→eq c ci class, ==→eq p page e, v.here) v.row
      | inr away ↦
          rw (==→eq c ci class, v.away p away)
            (v.rows p away
              ∙ sound.listed ci p
              ∙ listing_spare ci p (h.header p) (h.empty ci) (r.empty ci)
                  (sym (v.same_spare p away)))
    ]
  ]

  local_spares : (c p : ℕ) → r.empty c ≡ some p → IsUnused c (r.header p)
  local_spares c p eq = elim (Bool-cases (c == ci)) [
    | inr ne ↦
        let old : h.empty c ≡ some p = sym (v.classes c ne).1 ∙ eq in
        let unused : IsUnused c (h.header p) = sound.spares c p old in
        elim (Bool-cases (p == page)) [
          | inl e ↦
              absurd (
                IsUnused-other ci c (h.header page) v.kind_before ne
                  (rw (==→eq p page e) at unused))
          | inr away ↦ rw (v.away p away) unused
        ]
    | inl class ↦
        let own : r.empty ci ≡ some p = rw (==→eq c ci class) at eq in
        elim (Bool-cases (p == page)) [
          | inl e ↦
              rw (==→eq c ci class, ==→eq p page e, v.here)
                (v.spare (rw (==→eq p page e) at (spare_is (r.empty ci) p own)))
          | inr away ↦
              rw (==→eq c ci class, v.away p away)
                (sound.spares ci p (
                  spare_eq (h.empty ci) p
                    (sym (v.same_spare p away) ∙ spare_is (r.empty ci) p own)))
        ]
  ]

  pub local-IsSound : IsSound r
  local-IsSound = record {
    pages = λ p. elim (Bool-cases (p == page)) [
      | inl e ↦ inr (rw (==→eq p page e) v.aligned)
      | inr away ↦ rw (v.away p away) (sound.pages p)
    ];
    slabs = λ p t eq. elim (Bool-cases (p == page)) [
      | inl e ↦
          let pe : p ≡ page = ==→eq p page e in rw pe (v.slab_known t (sym v.here ∙ (rw pe at eq)))
      | inr away ↦ sound.slabs p t (sym (v.away p away) ∙ eq)
    ];
    listed = local_listed;
    spares = local_spares;
  }
