-- ===== src/Kalloc/Pop.antt =====
-- Taking an object off a slab: from the lists, from the empty slab, from a new page.
use bleed_kernel.Common.{
  put, ne→==, ℕ, ◌+◌, ◌≤◌, ◌<◌, ◌≡◌, refl, sym, ap, ◌∙◌, ◌↔◌, inl, inr, false, some, List, [], ◌∷◌,
  if◌then◌else◌, ◌==◌, Bool-cases, arith, length, All, count, count-here, count-there, sub32,
}
use mathlib.Core.Bool.{false≢true}
use bleed_kernel.Kalloc.Slabs.{objects_per_slab, Slab, slab, Heap, slab_remove}
use bleed_kernel.Kalloc.Calls.{pop_from, pop_object}
use bleed_kernel.Kalloc.Objects.{
  IsObject, page_of, page_of-object, size_bounds, length-le-objects_per_slab,
}
use bleed_kernel.Kalloc.Sound.{IsSlab, is_spare, listing, IsSound, LiveIn, IsLive, Gives}
use bleed_kernel.Kalloc.Local.{slab_inj, Local, local-IsSound}
use bleed_kernel.Kalloc.Lists.{
  Relisted, Relisted-refl, slab_remove-Relisted, Relisted-Local, listing_yes, listing_full,
  listed_slab,
}
use bleed_kernel.Kalloc.Live.{slab_aligned, to_live, from_live, live_elsewhere, slab_live}

-- A list of free objects without the first.
tail-IsSlab :
    (page obj : ℕ) (rest : List ℕ) (s : Slab)
    → IsSlab page s
    → s.freelist ≡ obj ∷ rest
    → IsSlab page (record s { freelist = rest; free_count = sub32 s.free_count 1 })
unfolding count
tail-IsSlab page obj rest s v eq =
    let long : s.free_count ≡ 1 + length rest = v.counted ∙ ap length eq ∙ omega arith in
    let few : length s.freelist ≤ objects_per_slab s.class_idx =
      length-le-objects_per_slab s.class_idx page s.freelist v.known v.distinct in
    let bounds = size_bounds s.class_idx v.class in
    let known : All (IsObject s.class_idx page) (obj ∷ rest) = rw eq at v.known in
    record {
      class = v.class;
      counted = omega (arith, long, few, bounds.1, v.counted);
      total = v.total;
      known = known.1;
      distinct = λ a. omega (arith, rw eq at (v.distinct a));
    }

-- The heap that pop_from leaves.
abbrev popped_heap : ℕ → ℕ → Slab → Heap → Heap
popped_heap ci page s' h =
    let h' = record h { header = put page (slab s') h.header } in
    if s'.free_count == 0 then slab_remove ci page h' else h'

popped-Local :
    (ci page : ℕ) (s s' : Slab) (h : Heap)
    → IsSound h
    → h.header page ≡ slab s
    → s.class_idx ≡ ci
    → 0 < s.free_count
    → is_spare (h.empty ci) page ≡ false
    → s'.class_idx ≡ ci
    → IsSlab page s'
    → Local ci page (slab s') h (popped_heap ci page s' h)
popped-Local ci page s s' h sound at class some_free listed class' known =
    let h' : Heap = record h { header = put page (slab s') h.header } in
    let once : count page (h.partial ci) ≡ 1 =
      sound.listed ci page
      ∙ ap (λ hd. listing ci page hd (h.empty ci)) at
      ∙ listing_yes ci page s (h.empty ci) class some_free listed in
    let local =
      λ (n : ℕ) (r : Heap) (v : Relisted ci page n h' r)
          (row : n ≡ listing ci page (slab s') (h.empty ci)).
        Relisted-Local ci page n (slab s') h.empty h r v (rw at class) class'
          (slab_aligned page s h sound at) (λ c ne. refl) (λ q ne. refl) row
          (λ e. absurd (false≢true (sym listed ∙ e))) (λ t e. rw (sym (slab_inj s' t e)) known) in
    elim (Bool-cases (s'.free_count == 0)) [
      | inl gone ↦ rw gone (
          local _ _ (slab_remove-Relisted ci page h')
            (omega (arith, once, listing_full ci page s' (h.empty ci) gone)))
      | inr stays ↦ rw stays (
          local _ _ (Relisted-refl ci page h')
            (once ∙ sym (listing_yes ci page s' (h.empty ci) class' (ground arith) listed)))
    ]

pop_from-Gives :
    (ci page : ℕ) (h : Heap) (s : Slab) (free : List ℕ)
    → IsSound h
    → h.header page ≡ slab s
    → s.class_idx ≡ ci
    → 0 < s.free_count
    → is_spare (h.empty ci) page ≡ false
    → s.freelist ≡ free
    → (obj : ℕ) × (r : Heap) × (pop_from ci s page free h ≡ some (obj, r)) × Gives ci h obj r
unfolding pop_from
pop_from-Gives ci page h s [] sound at class some_free listed eq =
    absurd (omega (arith, (sound.slabs page s at).counted, ap length eq))
pop_from-Gives ci page h s (obj ∷ rest) sound at class some_free listed eq =
    let ok_slab : IsSlab page s = sound.slabs page s at in
    let s' : Slab = record s { freelist = rest; free_count = sub32 s.free_count 1 } in
    let v : Local ci page (slab s') h (popped_heap ci page s' h) =
      popped-Local ci page s s' h sound at class some_free listed class
        (tail-IsSlab page obj rest s ok_slab eq) in
    let aligned = slab_aligned page s h sound at in
    let object : IsObject ci page obj = rw class at (rw eq at ok_slab.known).0 in
    let home : page_of obj ≡ page =
      page_of-object ci page obj (rw class at ok_slab.class) aligned.0 object in
    let own : IsObject s.class_idx (page_of obj) obj = rw home (rw eq at ok_slab.known).0 in
    (
      obj,
      popped_heap ci page s' h,
      refl,
      record {
        sound = local-IsSound ci page (slab s') h (popped_heap ci page s' h) v sound;
        fresh = λ l.
            let is : LiveIn obj (slab s) = from_live h obj page (slab s) home at l in
            omega (arith, rw eq at is.1, count-here obj rest);
        live =
            to_live (popped_heap ci page s' h) obj page (slab s') home v.here
              (own, omega (arith, count-here obj rest, rw eq at (ok_slab.distinct obj)));
        aligned = rw home aligned.0;
        object = rw home object;
        others = λ b ne.
            live_elsewhere h (popped_heap ci page s' h) page b (slab s) (slab s') at v.here v.away
              (λ home.
                slab_live b s s' refl
                  (sym (ap (count b) eq ∙ count-there b obj rest (ne→== b obj ne))));
      },
    )

-- Taking the first free object of a partial slab gives it out, and does nothing else to what is out.
abbrev pub Pops : ℕ → ℕ → Heap → Heap → Type 0
Pops ci page h before =
    (obj : ℕ) × (r : Heap) × (pop_object ci page h ≡ some (obj, r)) × Gives ci before obj r

pop_object_slab :
    (ci page : ℕ) (h : Heap) (s : Slab)
    → h.header page ≡ slab s
    → pop_object ci page h ≡ pop_from ci s page s.freelist h
unfolding pop_object
pop_object_slab ci page h s at = rw (at, pop_object) refl

pub pop_object-Gives :
    (ci page : ℕ) (h : Heap) → IsSound h → 0 < count page (h.partial ci) → Pops ci page h h
pop_object-Gives ci page h sound there =
    let (s, at, class, some_free, listed) =
      listed_slab ci page (h.header page) (h.empty ci)
        (omega (arith, sound.listed ci page, there)) in
    let (obj, r, eq, gives) =
      pop_from-Gives ci page h s s.freelist sound at class some_free listed refl in
    (obj, r, pop_object_slab ci page h s at ∙ eq, gives)

-- A heap with the same pointers out is as good to start from.
pub Gives-from :
    (ci obj : ℕ) (h before r : Heap)
    → ((b : ℕ) → IsLive before b ↔ IsLive h b)
    → Gives ci h obj r
    → Gives ci before obj r
Gives-from ci obj h before r same g = record {
  sound = g.sound;
  fresh = λ l. g.fresh ((same obj).0 l);
  live = g.live;
  aligned = g.aligned;
  object = g.object;
  others = λ b ne. (λ l. (g.others b ne).0 ((same b).0 l), λ l. (same b).1 ((g.others b ne).1 l));
}
