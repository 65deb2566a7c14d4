-- ===== src/Kalloc/Take.antt =====
-- Where kmalloc finds the slab: the partial ones, the empty one, a new page.
use bleed_kernel.Common.{
  put_self, put_ne, put, ne→==, page_size, ℕ, ◌+◌, ◌%◌, ◌<◌, ◌≡◌, ◌≢◌, refl, sym, ap, ◌∙◌, inl, inr,
  true, false, Option, none, some, List, [], ◌∷◌, ◌==◌, Bool-cases, arith, count, count-here,
}
use mathlib.Core.Bool.{false≢true}
use bleed_kernel.Kalloc.Slabs.{
  size_of, slab_header, num_classes, objects_per_slab, Slab, Header, slab, large, unknown, Heap,
  objects, slab_init_page, slab_push,
}
use bleed_kernel.Kalloc.Calls.{
  pop_object, Taken, object, no_slab, crash, taken_of, take_partial, take_slab, grow_slab,
}
use bleed_kernel.Kalloc.Objects.{
  page_of, size_bounds, objects-IsObject, objects_distinct, length-objects, all_listed,
}
use bleed_kernel.Kalloc.Sound.{IsSlab, is_spare, listing, IsUnused, IsSound, LiveIn, Gives}
use bleed_kernel.Kalloc.Local.{slab_inj, Local, local-IsSound, spare_eq}
use bleed_kernel.Kalloc.Lists.{slab_push-Relisted, Relisted-Local, listing_yes, listing_kept}
use bleed_kernel.Kalloc.Live.{slab_aligned, live_elsewhere}
use bleed_kernel.Kalloc.Pop.{Pops, pop_object-Gives, Gives-from}

-- A page that vmm_alloc_pages may give: a page of memory that no header lies in.
pub record IsFresh (h : Heap) (page : ℕ) : Type 0 where
  pub unused : h.header page ≡ unknown
  pub aligned : page % page_size ≡ 0
  pub nonnull : 0 < page

-- The empty slab of a class comes onto its list.
abbrev pub reused : ℕ → ℕ → Heap → Heap
reused ci page h = slab_push ci page (record h { empty = put ci none h.empty })

ne_self : (q page : ℕ) → (q == page) ≡ false → q ≢ page
ne_self q page ne e = ground arith

IsUnused-slab :
    (ci : ℕ) (hd : Header) → IsUnused ci hd → (s : Slab) × (hd ≡ slab s) × IsUnused ci (slab s)
IsUnused-slab ci (slab s) u = (s, refl, u)
IsUnused-slab ci (large n) u = absurd u
IsUnused-slab ci unknown u = absurd u

pub reused-IsSound :
    (ci page : ℕ) (h : Heap)
    → IsSound h
    → h.empty ci ≡ some page
    → IsSound (reused ci page h) × (0 < count page ((reused ci page h).partial ci))
reused-IsSound ci page h sound spare =
    let (s, at, unused) = IsUnused-slab ci (h.header page) (sound.spares ci page spare) in
    let v = slab_push-Relisted ci page (record h { empty = put ci none h.empty }) in
    let cleared : put ci none h.empty ci ≡ none = put_self ci none h.empty in
    let known : IsSlab page s = sound.slabs page s at in
    let bounds = size_bounds s.class_idx known.class in
    let kept : is_spare (h.empty ci) page ≡ true = rw spare (ground arith) in
    let unlisted : count page (h.partial ci) ≡ 0 =
      sound.listed ci page
      ∙ ap (λ hd. listing ci page hd (h.empty ci)) at
      ∙ listing_kept ci page s (h.empty ci) kept in
    let listed : listing ci page (slab s) none ≡ 1 =
      listing_yes ci page s none unused.0 (omega (arith, unused.1, known.total, bounds.2)) refl in
    let row : count page (h.partial ci) + 1 ≡ 1 = omega (arith, unlisted) in
    let local : Local ci page (slab s) h (reused ci page h) = record {
      kind_before = rw at unused.0;
      kind_after = unused.0;
      aligned = slab_aligned page s h sound at;
      here = at;
      away = λ q ne. refl;
      classes = λ c ne. (v.classes c ne, put_ne ci c none h.empty ne);
      rows = v.rows;
      same_spare =
          λ q ne. rw (cleared, spare) (sym (ne→== page q (λ e. ne_self q page ne (sym e))));
      row = rw cleared (v.row ∙ row ∙ sym listed);
      spare = λ e. absurd (false≢true (rw cleared at e));
      slab_known = λ t e. rw (sym (slab_inj s t e)) known;
    } in
    (local-IsSound ci page (slab s) h (reused ci page h) local sound, omega (arith, v.row))

-- A slab on a new page: all of its objects are free, so none is out.
pub slab_init_page-IsSlab : (ci page : ℕ) → ci < num_classes → IsSlab page (slab_init_page page ci)
unfolding slab_init_page
slab_init_page-IsSlab ci page small = record {
  class = small;
  counted = sym (length-objects (page + slab_header) (size_of ci) (objects_per_slab ci));
  total = refl;
  known = objects-IsObject ci page;
  distinct = λ a.
      objects_distinct (page + slab_header) (size_of ci) (objects_per_slab ci) a
        (omega (arith, (size_bounds ci small).0));
}

abbrev pub grown : ℕ → ℕ → Heap → Heap
grown ci page h =
    slab_push ci page (record h { header = put page (slab (slab_init_page page ci)) h.header })

fresh_unlisted :
    (ci page : ℕ) (h : Heap) → IsSound h → IsFresh h page → count page (h.partial ci) ≡ 0
fresh_unlisted ci page h sound fresh =
    sound.listed ci page ∙ ap (λ hd. listing ci page hd (h.empty ci)) fresh.unused

pub fresh_spare :
    (ci page : ℕ) (h : Heap) → IsSound h → IsFresh h page → is_spare (h.empty ci) page ≡ false
fresh_spare ci page h sound fresh = elim (Bool-cases (is_spare (h.empty ci) page)) [
  | inr no_spare ↦ no_spare
  | inl spare ↦
      let unused : IsUnused ci unknown =
        rw fresh.unused at (sound.spares ci page (spare_eq (h.empty ci) page spare)) in
      absurd unused
]

-- All the objects of a new slab are on its list.
slab_init_page-LiveIn :
    (ci page b : ℕ)
    → ci < num_classes
    → page_of b ≡ page
    → ¬ LiveIn b (slab (slab_init_page page ci))
unfolding slab_init_page
slab_init_page-LiveIn ci page b small home l =
    let known = slab_init_page-IsSlab ci page small in
    omega (
      arith,
      l.1,
      all_listed ci page b (objects (page + slab_header) (size_of ci) (objects_per_slab ci))
          known.known known.distinct
          (length-objects (page + slab_header) (size_of ci) (objects_per_slab ci)) (rw home at l.0),
    )

grown-IsSound :
    (ci page : ℕ) (h : Heap)
    → ci < num_classes
    → IsSound h
    → IsFresh h page
    → Local ci page (slab (slab_init_page page ci)) h (grown ci page h)
unfolding slab_init_page
grown-IsSound ci page h small sound fresh =
    let s : Slab = slab_init_page page ci in
    let spare : is_spare (h.empty ci) page ≡ false = fresh_spare ci page h sound fresh in
    let listed : listing ci page (slab s) (h.empty ci) ≡ 1 =
      listing_yes ci page s (h.empty ci) refl (size_bounds ci small).2 spare in
    Relisted-Local ci page (count page (h.partial ci) + 1) (slab s) h.empty h (grown ci page h)
      (slab_push-Relisted ci page (record h { header = put page (slab s) h.header }))
      (rw fresh.unused tt) refl (fresh.aligned, fresh.nonnull) (λ c ne. refl) (λ q ne. refl)
      (omega (arith, fresh_unlisted ci page h sound fresh, listed))
      (λ e. absurd (false≢true (sym spare ∙ e)))
      (λ t e. rw (sym (slab_inj s t e)) (slab_init_page-IsSlab ci page small))

-- A slab on a fresh page gives an object, and nothing else comes to life.
pub grow_slab-Gives :
    (ci page : ℕ) (h : Heap)
    → ci < num_classes
    → IsSound h
    → IsFresh h page
    → (obj : ℕ) × (r : Heap) × (grow_slab ci page h ≡ some (obj, r)) × Gives ci h obj r
unfolding grow_slab
grow_slab-Gives ci page h small sound fresh =
    let v = grown-IsSound ci page h small sound fresh in
    let sound' =
      local-IsSound ci page (slab (slab_init_page page ci)) h (grown ci page h) v sound in
    let there : 0 < count page ((grown ci page h).partial ci) = omega (
      arith,
      (slab_push-Relisted ci page
          (record h { header = put page (slab (slab_init_page page ci)) h.header })).row,
    ) in
    let (obj, r, eq, gives) = pop_object-Gives ci page (grown ci page h) sound' there in
    (
      obj,
      r,
      eq,
      Gives-from ci obj (grown ci page h) h r
          (λ b.
            live_elsewhere h (grown ci page h) page b unknown (slab (slab_init_page page ci))
              fresh.unused v.here v.away
              (λ home. (λ l. absurd l, λ l. absurd (slab_init_page-LiveIn ci page b small home l))))
          gives,
    )

-- What the first section of kmalloc does: an object of a slab at hand, or nothing if there is none.
abbrev pub Takes : ℕ → Heap → Taken → Type 0
Takes ci h (object obj r) = Gives ci h obj r
Takes ci h (no_slab r) = r ≡ h
Takes ci h crash = ⊥

taken_of-Takes :
    (ci page : ℕ) (h before : Heap)
    → Pops ci page h before
    → Takes ci before (taken_of (pop_object ci page h))
taken_of-Takes ci page h before (obj, r, eq, gives) = rw eq gives

take_partial-Takes :
    (ci : ℕ) (pages : List ℕ) (spare : Option ℕ) (h : Heap)
    → IsSound h
    → h.partial ci ≡ pages
    → h.empty ci ≡ spare
    → Takes ci h (take_partial ci pages spare h)
unfolding take_partial
take_partial-Takes ci (page ∷ pages) spare h sound rows eq =
    let there : 0 < count page (h.partial ci) = rw rows (omega (arith, count-here page pages)) in
    taken_of-Takes ci page h h (pop_object-Gives ci page h sound there)
take_partial-Takes ci [] (some page) h sound rows eq =
    let (sound', there) = reused-IsSound ci page h sound eq in
    let (obj, r, eq, gives) = pop_object-Gives ci page (reused ci page h) sound' there in
    taken_of-Takes ci page (reused ci page h) h
      (obj, r, eq, Gives-from ci obj (reused ci page h) h r (λ b. (λ l. l, λ l. l)) gives)
take_partial-Takes ci [] none h sound rows eq = refl

pub take_slab-Takes : (ci : ℕ) (h : Heap) → IsSound h → Takes ci h (take_slab ci h)
unfolding take_slab
take_slab-Takes ci h sound = take_partial-Takes ci (h.partial ci) (h.empty ci) h sound refl refl
