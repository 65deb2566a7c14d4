-- ===== src/Kalloc/Kmalloc.antt =====
-- kmalloc as a whole.
use bleed_kernel.Common.{
  put, page_size, ℕ, ◌+◌, ◌≤◌, ◌<◌, ◌≡◌, ◌≢◌, refl, ap, ◌⊎◌, ◌↔◌, inl, inr, Option, none, some,
  ◌==◌, Bool-cases, arith, ==→eq,
}
use bleed_kernel.Kalloc.Slabs.{
  size_of, slab_header, large_header, num_classes, large, unknown, Heap, class_for,
}
use bleed_kernel.Kalloc.Calls.{
  Taken, object, no_slab, crash, take_slab, large_block, Outcome, small_block, kmalloc,
}
use bleed_kernel.Kalloc.Objects.{page_of, object_inside}
use bleed_kernel.Kalloc.Sound.{IsSound, IsLive, Gives}
use bleed_kernel.Kalloc.Local.{Local, local-IsSound}
use bleed_kernel.Kalloc.Live.{to_live, from_live, live_elsewhere}
use bleed_kernel.Kalloc.Take.{IsFresh, Takes, take_slab-Takes, grow_slab-Gives}
use bleed_kernel.Kalloc.Sizes.{class_for-smallest}
use bleed_kernel.Kalloc.Kfree.{plain-Local, large_header_only}

-- What kmalloc does when it gives a pointer: it was not out before and is out now, no other pointer
-- comes out or goes back, and up to the largest class the bytes lie in the page of the pointer, behind
-- the header.
pub record Allocates (bytes obj : ℕ) (h r : Heap) : Type 0 where
  pub sound : IsSound r
  pub fresh : ¬ IsLive h obj
  pub live : IsLive r obj
  pub others : (b : ℕ) → b ≢ obj → IsLive h b ↔ IsLive r b
  pub inside :
      bytes ≤ 2048 → (page_of obj + slab_header ≤ obj) × (obj + bytes ≤ page_of obj + page_size)

Gives-Allocates :
    (ci bytes obj : ℕ) (h r : Heap)
    → bytes ≤ size_of ci
    → Gives ci h obj r
    → Allocates bytes obj h r
Gives-Allocates ci bytes obj h r fits g = record {
  sound = g.sound;
  fresh = g.fresh;
  live = g.live;
  others = g.others;
  inside = λ small.
      let inside = object_inside ci (page_of obj) obj g.object in
      (inside.0, omega (arith, inside.1, fits));
}

-- A large block on a fresh page.
large-Allocates :
    (bytes page pages : ℕ) (h : Heap)
    → IsSound h
    → IsFresh h page
    → 2048 < bytes
    → Allocates bytes
        (page + large_header)
        h
        (record h { header = put page (large pages) h.header })
large-Allocates bytes page pages h sound fresh big =
    let r : Heap = record h { header = put page (large pages) h.header } in
    let obj : ℕ = page + large_header in
    let home : page_of obj ≡ page = omega (arith, fresh.aligned) in
    let local : Local 0 page (large pages) h r =
      plain-Local page (large pages) h sound (rw fresh.unused tt) tt
        (fresh.aligned, fresh.nonnull) in
    record {
      sound = local-IsSound 0 page (large pages) h r local sound;
      fresh = λ l. from_live h obj page unknown home fresh.unused l;
      live = to_live r obj page (large pages) home local.here (rw home refl);
      others = λ b differ.
          live_elsewhere h r page b unknown (large pages) fresh.unused local.here local.away
            (λ home. (
              λ l. absurd l,
              λ l. absurd (large_header_only page pages b (large pages) refl home differ l),
            ));
      inside = λ small. absurd (omega (arith, small, big));
    }

-- What may come of kmalloc if `before` is the heap that it finds and `during` that of the second time it
-- takes the lock: no crash; NULL, with nothing changed; or a pointer.
abbrev pub Answers : ℕ → Heap → Heap → Outcome → Type 0
Answers bytes before during none = ⊥
Answers bytes before during (some (none, r)) = (r ≡ before) ⊎ (r ≡ during)
Answers bytes before during (some (some obj, r)) =
    Allocates bytes obj before r ⊎ Allocates bytes obj during r

abbrev pub FreshPage : Heap → Option ℕ → Type 0
FreshPage h none = Unit
FreshPage h (some page) = IsFresh h page

small_block-Answers :
    (ci bytes : ℕ) (page : Option ℕ) (meanwhile : Heap → Heap) (h : Heap) (t : Taken)
    → ci < num_classes
    → bytes ≤ size_of ci
    → IsSound (meanwhile h)
    → FreshPage (meanwhile h) page
    → Takes ci h t
    → Answers bytes h (meanwhile h) (small_block ci page meanwhile t)
unfolding small_block
small_block-Answers ci bytes page meanwhile h (object obj r) small fits sound fresh takes =
    inl (Gives-Allocates ci bytes obj h r fits takes)
small_block-Answers ci bytes page meanwhile h crash small fits sound fresh takes = takes
small_block-Answers ci bytes none meanwhile h (no_slab r) small fits sound fresh takes =
    inr (ap meanwhile takes)
small_block-Answers ci bytes (some page) meanwhile h (no_slab r) small fits sound fresh takes =
    let (obj, r', eq, gives) = grow_slab-Gives ci page (meanwhile h) small sound fresh in
    rw (takes, eq) (inr (Gives-Allocates ci bytes obj (meanwhile h) r' fits gives))

large_block-Answers :
    (bytes : ℕ) (page : Option ℕ) (before h : Heap)
    → IsSound h
    → FreshPage h page
    → 2048 < bytes
    → Answers bytes before h (some (large_block bytes page h))
unfolding large_block
large_block-Answers bytes none before h sound fresh big = inr refl
large_block-Answers bytes (some page) before h sound fresh big =
    inr (large-Allocates bytes page _ h sound fresh big)

-- kmalloc on a sound heap, with a fresh page if vmm_alloc_pages gives one, and whatever others do to the
-- heap in the meantime that keeps it sound: it does not crash, and gives NULL and changes nothing, or a
-- block that was not out.
pub kmalloc-Answers :
    (bytes : ℕ) (page : Option ℕ) (meanwhile : Heap → Heap) (h : Heap)
    → IsSound h
    → IsSound (meanwhile h)
    → FreshPage (meanwhile h) page
    → Answers bytes h (meanwhile h) (kmalloc bytes page meanwhile h)
unfolding kmalloc
kmalloc-Answers bytes page meanwhile h sound later fresh = elim (Bool-cases (bytes == 0)) [
  | inl nothing ↦ rw nothing (inl refl)
  | inr some_bytes ↦
      let (most, fits, least) = class_for-smallest bytes in
      rw some_bytes (elim (Bool-cases (class_for bytes == num_classes)) [
        | inl big ↦
            let all : 8 < class_for bytes =
              rw (==→eq (class_for bytes) num_classes big) (omega arith) in
            rw big (large_block-Answers bytes page h (meanwhile h) later fresh (least 8 all))
        | inr small ↦
            let class : class_for bytes < num_classes =
              let ne : class_for bytes ≢ num_classes = ground arith in omega (arith, most, ne) in
            rw small (
              small_block-Answers (class_for bytes) bytes page meanwhile h
                (take_slab (class_for bytes) h) class (fits class) later fresh
                (take_slab-Takes (class_for bytes) h sound))
      ])
]
