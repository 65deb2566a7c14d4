-- ===== src/Kalloc/Freed.antt =====
-- A slab that an object which is out goes back to.
use bleed_kernel.Common.{
  ne→==, ℕ, ◌+◌, ◌≤◌, ◌<◌, ◌≡◌, ◌≢◌, ◌∙◌, inl, inr, ◌∷◌, ◌==◌, Bool-cases, arith, ==→eq, count,
  count-here, count-there, add32,
}
use bleed_kernel.Kalloc.Slabs.{objects_per_slab, Slab, slab}
use bleed_kernel.Kalloc.Objects.{
  IsObject, page_of, size_bounds, length-le-objects_per_slab, all_listed,
}
use bleed_kernel.Kalloc.Sound.{IsSlab, LiveIn}

-- The slab with the object on its list.
abbrev pub with_free : ℕ → Slab → Slab
with_free ptr s = record s { freelist = ptr ∷ s.freelist; free_count = add32 s.free_count 1 }

module _ (ptr page : ℕ) (s : Slab) (v : IsSlab page s) (ours : IsObject s.class_idx page ptr)
    (absent : count ptr s.freelist ≡ 0) where
  distinct_with : (a : ℕ) → count a (ptr ∷ s.freelist) ≤ 1
  distinct_with a = elim (Bool-cases (a == ptr)) [
    | inl e ↦ rw (==→eq a ptr e) (omega (arith, count-here ptr s.freelist, absent))
    | inr ne ↦ omega (arith, count-there a ptr s.freelist ne, v.distinct a)
  ]

  -- An object that is out leaves room on the list.
  pub room : s.free_count < objects_per_slab s.class_idx
  room = omega (
    arith,
    v.counted,
    length-le-objects_per_slab s.class_idx page (ptr ∷ s.freelist) (ours, v.known) distinct_with,
  )

  pub with_free_count : (with_free ptr s).free_count ≡ s.free_count + 1
  with_free_count = let bounds = size_bounds s.class_idx v.class in omega (arith, room, bounds.1)

  pub with_free-IsSlab : IsSlab page (with_free ptr s)
  with_free-IsSlab = record {
    class = v.class;
    counted = with_free_count ∙ omega (arith, v.counted);
    total = v.total;
    known = (ours, v.known);
    distinct = distinct_with;
  }

  -- With as many free objects as there are, none is out.
  pub with_free_vacant :
      (b : ℕ)
      → (with_free ptr s).free_count ≡ s.total_count
      → page_of b ≡ page
      → b ≢ ptr
      → ¬ LiveIn b (slab s)
  with_free_vacant b full home ne l = omega (
    arith,
    l.1,
    count-there b ptr s.freelist (ne→== b ptr ne),
    all_listed s.class_idx page b (ptr ∷ s.freelist) (ours, v.known) distinct_with
        (omega (arith, full, with_free_count, v.counted, v.total)) (rw home at l.0),
  )
