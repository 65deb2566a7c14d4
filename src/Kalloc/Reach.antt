-- ===== src/Kalloc/Reach.antt =====
-- Any sequence of calls: which pointers are out.
use bleed_kernel.Common.{
  ne→==, page_size, ℕ, ◌+◌, ◌-◌, ◌%◌, ◌≤◌, ◌<◌, ◌≡◌, ◌≢◌, refl, sym, ap, ◌∙◌, ◌⊎◌, inl, inr, Option,
  none, some, List, [], ◌∷◌, arith, count, count_nil, count-here, count-there, erase_first,
  count-erase_first_self, count-erase_first_ne,
}
use native.Mathlib.Decide.{dec_lt, ℕ_discrete}
use mathlib.Core.Path.{subst}
use bleed_kernel.Kalloc.Slabs.{size_of, Slab, slab, unknown, Heap}
use bleed_kernel.Kalloc.Calls.{Returned, kmalloc, kfree}
use bleed_kernel.Kalloc.Objects.{IsObject, page_of, object_inside, objects_apart}
use bleed_kernel.Kalloc.Sound.{IsSound, LiveIn, IsLive}
use bleed_kernel.Kalloc.Local.{slab_inj}
use bleed_kernel.Kalloc.Kfree.{kfree-Frees}
use bleed_kernel.Kalloc.Free.{Frees}
use bleed_kernel.Kalloc.Live.{slab_aligned}
use bleed_kernel.Kalloc.Kmalloc.{FreshPage, Allocates, kmalloc-Answers}

-- The heap when the kernel starts: no page, no slab.
abbrev pub kalloc_init : Heap
kalloc_init = record { header = λ p. unknown; partial = λ ci. []; empty = λ ci. none }

-- The pointers that the callers hold, with the heap.
abbrev pub World : Type 0
World = List ℕ × Heap

-- A caller gets a block or NULL, or gives one back that it holds.
pub data HeapStep : World → World → Type 0 where
  malloc :
      (bytes : ℕ) (page : Option ℕ) (held : List ℕ) (h r : Heap) (obj : ℕ)
      → FreshPage h page
      → kmalloc bytes page (λ k. k) h ≡ some (some obj, r)
      → HeapStep (held, h) (obj ∷ held, r)
  refused :
      (bytes : ℕ) (page : Option ℕ) (held : List ℕ) (h r : Heap)
      → FreshPage h page
      → kmalloc bytes page (λ k. k) h ≡ some (none, r)
      → HeapStep (held, h) (held, r)
  free :
      (ptr : ℕ) (held : List ℕ) (h : Heap)
      → 0 < count ptr held
      → HeapStep (held, h) (erase_first ptr held, (kfree ptr h).0)

pub data HeapReach : World → Type 0 where
  boot : HeapReach ([], kalloc_init)
  next : (w v : World) → HeapReach w → HeapStep w v → HeapReach v

-- The heap is sound, and the callers hold exactly the pointers that are out, each once.
pub record IsKept (w : World) : Type 0 where
  pub sound : IsSound (w.1)
  pub once : (a : ℕ) → count a w.0 ≤ 1
  pub held : (a : ℕ) → 0 < count a w.0 → IsLive (w.1) a
  pub out : (a : ℕ) → IsLive (w.1) a → 0 < count a w.0

kalloc_init-IsSound : IsSound kalloc_init
kalloc_init-IsSound = record {
  pages = λ p. inl refl;
  slabs = λ p s e. cc;
  listed = λ ci p. count_nil p;
  spares = λ ci p e. cc;
}

malloc-IsKept :
    (bytes obj : ℕ) (held : List ℕ) (h r : Heap)
    → IsKept (held, h)
    → Allocates bytes obj h r
    → IsKept (obj ∷ held, r)
malloc-IsKept bytes obj held h r k a =
    let absent : count obj held ≡ 0 = elim (dec_lt 0 (count obj held)) [
      | yes there ↦ absurd (a.fresh (k.held obj there))
      | no none_there ↦ omega (arith, none_there)
    ] in
    record {
      sound = a.sound;
      once = λ b. elim (ℕ_discrete b obj) [
        | yes e ↦ rw e (omega (arith, count-here obj held, absent))
        | no ne ↦ omega (arith, count-there b obj held (ne→== b obj ne), k.once b)
      ];
      held = λ b there. elim (ℕ_discrete b obj) [
        | yes e ↦ subst (IsLive r) (sym e) a.live
        | no ne ↦
            (a.others b ne).0
              (k.held b (omega (arith, there, count-there b obj held (ne→== b obj ne))))
      ];
      out = λ b live. elim (ℕ_discrete b obj) [
        | yes e ↦ rw e (omega (arith, count-here obj held))
        | no ne ↦
            omega (arith, count-there b obj held (ne→== b obj ne), k.out b ((a.others b ne).1 live))
      ];
    }

free-IsKept :
    (ptr : ℕ) (held : List ℕ) (h : Heap) (res : Heap × Returned)
    → IsKept (held, h)
    → Frees ptr h res
    → IsKept (erase_first ptr held, res.0)
free-IsKept ptr held h res k f =
    let gone : count ptr (erase_first ptr held) ≡ count ptr held - 1 =
      count-erase_first_self ptr held in
    let same =
      λ (b : ℕ) (ne : b ≢ ptr). count-erase_first_ne ptr b held (ne→== ptr b (λ e. ne (sym e))) in
    record {
      sound = f.sound;
      once = λ b. elim (ℕ_discrete b ptr) [
        | yes e ↦ rw e (omega (arith, gone, k.once ptr))
        | no ne ↦ omega (arith, same b ne, k.once b)
      ];
      held = λ b there. elim (ℕ_discrete b ptr) [
        | yes e ↦
            let here : 0 < count ptr (erase_first ptr held) = rw e at there in
            absurd (omega (arith, here, gone, k.once ptr))
        | no ne ↦ (f.others b ne).0 (k.held b (omega (arith, there, same b ne)))
      ];
      out = λ b live. elim (ℕ_discrete b ptr) [
        | yes e ↦ absurd (f.dead (subst (IsLive res.0) e live))
        | no ne ↦ omega (arith, same b ne, k.out b ((f.others b ne).1 live))
      ];
    }

step-IsKept : (w v : World) → IsKept w → HeapStep w v → IsKept v
step-IsKept w v k (malloc bytes page held h r obj fresh eq) =
    elim (rw eq at (kmalloc-Answers bytes page (λ k. k) h k.sound k.sound fresh)) [
      | inl a ↦ malloc-IsKept bytes obj held h r k a
      | inr a ↦ malloc-IsKept bytes obj held h r k a
    ]
step-IsKept w v k (refused bytes page held h r fresh eq) =
    let same : r ≡ h =
      elim (rw eq at (kmalloc-Answers bytes page (λ k. k) h k.sound k.sound fresh)) [
        | inl e ↦ e
        | inr e ↦ e
      ] in
    subst (λ x. IsKept (held, x)) (sym same) k
step-IsKept w v k (free ptr held h there) =
    free-IsKept ptr held h (kfree ptr h) k (kfree-Frees ptr h k.sound (k.held ptr there))

-- After any sequence of kmalloc and kfree calls from the start, the last of them on pointers that are held
-- only, the heap is sound and the callers hold exactly the pointers that are out, none of them twice: no
-- block is given to two callers.
pub reach-IsKept : (w : World) → HeapReach w → IsKept w
reach-IsKept w boot = record {
  sound = kalloc_init-IsSound;
  once = λ a. omega (arith, count_nil a);
  held = λ a there. absurd (omega (arith, there, count_nil a));
  out = λ a live. absurd live;
}
reach-IsKept w (next u v before step) = step-IsKept u v (reach-IsKept u before) step

pages_apart : (p q : ℕ) → p % page_size ≡ 0 → q % page_size ≡ 0 → p < q → p + page_size ≤ q
pages_apart p q a b lt = omega arith

-- Two objects of slabs that are out on a sound heap do not overlap.
pub live_apart :
    (h : Heap) (a b : ℕ) (s t : Slab)
    → IsSound h
    → h.header (page_of a) ≡ slab s
    → h.header (page_of b) ≡ slab t
    → IsLive h a
    → IsLive h b
    → a ≢ b
    → (a + size_of s.class_idx ≤ b) ⊎ (b + size_of t.class_idx ≤ a)
live_apart h a b s t sound at at' live live' differ =
    let out : LiveIn a (slab s) = rw at at live in
    let out' : LiveIn b (slab t) = rw at' at live' in
    let (low, high) = object_inside s.class_idx (page_of a) a out.0 in
    let (low', high') = object_inside t.class_idx (page_of b) b out'.0 in
    let p : page_of a % page_size ≡ 0 = (slab_aligned (page_of a) s h sound at).0 in
    let q : page_of b % page_size ≡ 0 = (slab_aligned (page_of b) t h sound at').0 in
    elim (dec_lt (page_of a) (page_of b)) [
      | yes before ↦ inl (omega (arith, high, low', pages_apart (page_of a) (page_of b) p q before))
      | no not_before ↦ elim (dec_lt (page_of b) (page_of a)) [
        | yes after ↦ inr (omega (arith, high', low, pages_apart (page_of b) (page_of a) q p after))
        | no not_after ↦
            let home : page_of b ≡ page_of a = omega (arith, not_before, not_after) in
            let same : t ≡ s = slab_inj t s (sym at' ∙ ap h.header home ∙ at) in
            let ours : IsObject s.class_idx (page_of a) b = rw (same, home) at out'.0 in
            rw same (objects_apart s.class_idx (page_of a) a b out.0 ours differ)
      ]
    ]
