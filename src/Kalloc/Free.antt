-- ===== src/Kalloc/Free.antt =====
-- What kfree does to the heap, for an object of a slab and for a large block.
use bleed_kernel.Common.{
  put_self, put_ne, put, ne→==, ℕ, ◌<◌, ◌≡◌, ◌≢◌, refl, sym, ap, ◌∙◌, ◌↔◌, ◌⊎◌, inl, inr, true,
  false, Option, none, some, ◌==◌, Bool-cases, Option-cases, arith, ==→eq, count, count-here,
  count-there,
}
use mathlib.Core.Bool.{false≢true}
use bleed_kernel.Kalloc.Slabs.{Slab, Header, slab, large, unknown, Heap, slab_push, slab_remove}
use bleed_kernel.Kalloc.Calls.{Returned, free_object}
use bleed_kernel.Kalloc.Objects.{IsObject, page_of}
use bleed_kernel.Kalloc.Sound.{IsSlab, is_spare, listing, IsUnused, IsSound, LiveIn, IsLive}
use bleed_kernel.Kalloc.Local.{slab_inj, Local, local-IsSound, spare_eq}
use bleed_kernel.Kalloc.Lists.{
  Relisted, Relisted-refl, slab_push-Relisted, slab_remove-Relisted, Relisted-Local, listing_yes,
  listing_full, listing_kept,
}
use bleed_kernel.Kalloc.Live.{slab_aligned, from_live, live_elsewhere, slab_live}
use bleed_kernel.Kalloc.Freed.{with_free, room, with_free_count, with_free-IsSlab, with_free_vacant}

-- What goes back to vmm_free_pages for a block of a page with a header: all the pages that a large block
-- records, and of a slab nothing or its one page.
abbrev pub IsReturn : Header → ℕ → Returned → Type 0
IsReturn (slab s) page back = (back ≡ none) ⊎ (back ≡ some (page, 1))
IsReturn (large n) page back = back ≡ some (page, n)
IsReturn unknown page back = ⊥

-- What kfree does with a pointer that is out: it is not out any more, every other one stays as it is,
-- and the block's own pages go back to vmm_free_pages, with nothing out in the first.
pub record Frees (ptr : ℕ) (h : Heap) (res : Heap × Returned) : Type 0 where
  pub sound : IsSound (res.0)
  pub dead : ¬ IsLive (res.0) ptr
  pub others : (b : ℕ) → b ≢ ptr → IsLive h b ↔ IsLive (res.0) b
  pub back : IsReturn (h.header (page_of ptr)) (page_of ptr) (res.1)
  pub vacant : (page n b : ℕ) → res.1 ≡ some (page, n) → page_of b ≡ page → ¬ IsLive (res.0) b

module _ (ptr page : ℕ) (s : Slab) (h : Heap) (sound : IsSound h) (at : h.header page ≡ slab s)
    (home : page_of ptr ≡ page) (out : LiveIn ptr (slab s)) where
  ours : IsObject s.class_idx page ptr
  ours = rw home at out.0

  known : IsSlab page s
  known = sound.slabs page s at

  pub no_spare : is_spare (h.empty s.class_idx) page ≡ false
  no_spare = elim (Bool-cases (is_spare (h.empty s.class_idx) page)) [
    | inr fine ↦ fine
    | inl spare ↦
        let unused : IsUnused s.class_idx (slab s) =
          rw at at (sound.spares s.class_idx page (spare_eq (h.empty s.class_idx) page spare)) in
        absurd (omega (arith, unused.1, known.total, room ptr page s known ours out.1))
  ]

  was_listed :
      count page (h.partial s.class_idx) ≡ listing s.class_idx page (slab s) (h.empty s.class_idx)
  was_listed =
      sound.listed s.class_idx page
      ∙ ap (λ hd. listing s.class_idx page hd (h.empty s.class_idx)) at

  -- The slab stays a slab: only the pointer is not out any more.
  kept-Frees :
      (r : Heap) → Local s.class_idx page (slab (with_free ptr s)) h r → Frees ptr h (r, none)
  kept-Frees r v =
      let dead : ¬ IsLive r ptr = λ l.
        let is : LiveIn ptr (slab (with_free ptr s)) = from_live r ptr page _ home v.here l in
        omega (arith, is.1, count-here ptr s.freelist) in
      record {
        sound = local-IsSound s.class_idx page _ h r v sound;
        dead = dead;
        others = λ b ne.
            live_elsewhere h r page b (slab s) (slab (with_free ptr s)) at v.here v.away (λ home.
              slab_live b s (with_free ptr s) refl (count-there b ptr s.freelist (ne→== b ptr ne)));
        back = rw (home, at) (inl refl);
        vacant = λ p n b e home. cc;
      }

  freed : Heap
  freed = record h { header = put page (slab (with_free ptr s)) h.header }

  -- The three ways a slab stays: it comes onto its list, it stays there, it is kept as the empty one.
  kept-Local :
      (n : ℕ) (spares : ℕ → Option ℕ) (r : Heap)
      → Relisted s.class_idx page n (record freed { empty = spares }) r
      → ((c : ℕ) → (c == s.class_idx) ≡ false → spares c ≡ h.empty c)
      → ((q : ℕ)
          → (q == page) ≡ false
          → is_spare (spares s.class_idx) q ≡ is_spare (h.empty s.class_idx) q)
      → n ≡ listing s.class_idx page (slab (with_free ptr s)) (spares s.class_idx)
      → (is_spare (spares s.class_idx) page ≡ true → IsUnused s.class_idx (slab (with_free ptr s)))
      → Local s.class_idx page (slab (with_free ptr s)) h r
  unfolding freed
  kept-Local n spares r v others same row unused =
      Relisted-Local s.class_idx page n (slab (with_free ptr s)) spares h r v (rw at refl) refl
        (slab_aligned page s h sound at) others same row unused
        (λ t e.
          rw (sym (slab_inj (with_free ptr s) t e)) (with_free-IsSlab ptr page s known ours out.1))

  listed_now : listing s.class_idx page (slab (with_free ptr s)) (h.empty s.class_idx) ≡ 1
  listed_now =
      listing_yes s.class_idx page (with_free ptr s) (h.empty s.class_idx) refl
        (omega (arith, with_free_count ptr page s known ours out.1)) no_spare

  pushed-Frees :
      (with_free ptr s).free_count ≡ 1 → Frees ptr h (slab_push s.class_idx page freed, none)
  unfolding freed
  pushed-Frees first =
      let full : (s.free_count == 0) ≡ true =
        let e : s.free_count ≡ 0 =
          omega (arith, first, with_free_count ptr page s known ours out.1) in
        ground arith in
      kept-Frees (slab_push s.class_idx page freed) (
        kept-Local _ h.empty _ (slab_push-Relisted s.class_idx page freed) (λ c ne. refl)
          (λ q ne. refl)
          (omega (
            arith,
            was_listed,
            listing_full s.class_idx page s (h.empty s.class_idx) full,
            listed_now,
          ))
          (λ e. absurd (false≢true (sym no_spare ∙ e))))

  listed_before : (with_free ptr s).free_count ≢ 1 → count page (h.partial s.class_idx) ≡ 1
  listed_before ne =
      let e : 0 < s.free_count = omega (arith, ne, with_free_count ptr page s known ours out.1) in
      was_listed ∙ listing_yes s.class_idx page s (h.empty s.class_idx) refl e no_spare

  stays-Frees : (with_free ptr s).free_count ≢ 1 → Frees ptr h (freed, none)
  unfolding freed
  stays-Frees ne = kept-Frees freed (
      kept-Local _ h.empty _ (Relisted-refl s.class_idx page freed) (λ c ne. refl) (λ q ne. refl)
        (omega (arith, listed_before ne, listed_now)) (λ e. absurd (false≢true (sym no_spare ∙ e))))

  spared-Frees :
      (with_free ptr s).free_count ≢ 1
      → (with_free ptr s).free_count ≡ s.total_count
      → h.empty s.class_idx ≡ none
      → Frees ptr h (
        record (slab_remove s.class_idx page freed) { empty = put s.class_idx (some page) h.empty },
        none,
      )
  unfolding freed
  spared-Frees ne full spare =
      let kept = put_self s.class_idx (some page) h.empty in
      let spares : ℕ → Option ℕ = put s.class_idx (some page) h.empty in
      kept-Frees _ (
        kept-Local _ spares _
          (slab_remove-Relisted s.class_idx page (record freed { empty = spares }))
          (λ c ne. put_ne s.class_idx c (some page) h.empty ne)
          (λ q ne. rw (kept, spare) (ground arith))
          (rw kept (
            omega (
              arith,
              listed_before ne,
              listing_kept s.class_idx page (with_free ptr s) (some page) (ground arith),
            )))
          (λ e. (refl, full)))

  given_back-Frees :
      (spare : ℕ)
      → (with_free ptr s).free_count ≢ 1
      → (with_free ptr s).free_count ≡ s.total_count
      → h.empty s.class_idx ≡ some spare
      → Frees ptr h (
        record (slab_remove s.class_idx page freed) { header = put page unknown freed.header },
        some (page, 1),
      )
  unfolding freed
  given_back-Frees spare ne full eq =
      let r : Heap = record (slab_remove s.class_idx page freed) {
        header = put page unknown freed.header;
      } in
      let v = slab_remove-Relisted s.class_idx page freed in
      let local : Local s.class_idx page unknown h r = record {
        kind_before = rw at refl;
        kind_after = tt;
        aligned = slab_aligned page s h sound at;
        here = put_self page unknown freed.header;
        away = λ q away. put_ne page q unknown freed.header away ∙ put_ne page q _ h.header away;
        classes = λ c other. (v.classes c other, refl);
        rows = v.rows;
        same_spare = λ q away. refl;
        row = v.row ∙ omega (arith, listed_before ne);
        spare = λ e. absurd (false≢true (sym no_spare ∙ e));
        slab_known = λ t e. cc;
      } in
      record {
        sound = local-IsSound s.class_idx page unknown h r local sound;
        dead = λ l. from_live r ptr page unknown home local.here l;
        others = λ b differ.
            live_elsewhere h r page b (slab s) unknown at local.here local.away (λ home. (
              λ l. with_free_vacant ptr page s known ours out.1 b full home differ l,
              λ l. absurd l,
            ));
        back = rw (home, at) (inr refl);
        vacant = λ p n b e home l.
            let same : p ≡ page = cc in from_live r b page unknown (home ∙ same) local.here l;
      }

  pub free_object-Frees : Frees ptr h (free_object ptr page s h)
  unfolding free_object freed
  free_object-Frees = elim (Bool-cases ((with_free ptr s).free_count == 1)) [
    | inl first ↦ rw first (pushed-Frees (==→eq _ 1 first))
    | inr later ↦
        let ne : (with_free ptr s).free_count ≢ 1 = ground arith in
        rw later (elim (Bool-cases ((with_free ptr s).free_count == s.total_count)) [
          | inr part ↦ rw part (stays-Frees ne)
          | inl all ↦
              let full = ==→eq _ s.total_count all in
              rw all (elim (Option-cases (h.empty s.class_idx)) [
                | inl spare ↦ rw spare (spared-Frees ne full spare)
                | inr (spare, eq) ↦ rw eq (given_back-Frees spare ne full eq)
              ])
        ])
  ]
