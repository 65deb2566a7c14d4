-- ===== src/Pmm/Frames/Init.antt =====
-- pmm_init: what the regions look like at boot.
use bleed_kernel.Common.{
  page_size, ℕ, zero, suc, ◌+◌, ◌-◌, ◌*◌, ◌/◌, ◌^◌, ◌≤◌, ◌<◌, ◌≡◌, refl, sym, ◌∙◌, inl, inr, false,
  List, [], ◌∷◌, ltb, leb, Bool-cases, arith, length, replicate, length-replicate, get_or-replicate,
  All, add64, lt→ltb, ltb_false→le, leb_false→lt,
}
use native.Mathlib.Decide.{dec_lt}
use bleed_kernel.Pmm.Bitmap.{Bitmap, bit_tst, IsFree}
use bleed_kernel.Pmm.Entry.{mark_unavailable}
use bleed_kernel.Pmm.Entry.Marks.{
  free_count, length-set_bits, free_count-set_bits, set_bits_inside, set_bits_outside,
}
use bleed_kernel.Pmm.Frames.{
  Region, init, new_entry, header_pages_for, min_region_pages, align_up, align_down,
}
use bleed_kernel.Pmm.Frames.Valid.{IsValid}

free_count-IsFree : (bm : Bitmap) (n : ℕ) → IsFree bm 0 n → free_count bm n ≡ n
unfolding free_count
free_count-IsFree bm zero f = refl
free_count-IsFree bm (suc n) f =
    rw (f n (omega arith) (omega arith))
      (omega (arith, free_count-IsFree bm n (λ j a b. f j a (omega arith))))

-- pmm_init's bitmap before the header is marked.
abbrev blank : ℕ → Bitmap
blank total_pages = replicate ((total_pages + 7) / 8 * 8) false

length-blank : (total_pages : ℕ) → total_pages ≤ length (blank total_pages)
length-blank t = omega (arith, length-replicate ((t + 7) / 8 * 8) false)

blank-IsFree : (total_pages s n : ℕ) → IsFree (blank total_pages) s n
blank-IsFree t s n j a b = get_or-replicate ((t + 7) / 8 * 8) j false

-- A region large enough for its header and four frames holds its header twice.
header_twice : (t : ℕ) → header_pages_for t + 4 ≤ t → header_pages_for t + header_pages_for t ≤ t
header_twice t h = omega arith

pub new_entry-IsValid :
    (region_base total_pages : ℕ)
    → header_pages_for total_pages + min_region_pages ≤ total_pages
    → region_base + total_pages * 4096 < 2 ^ 64
    → IsValid (new_entry region_base total_pages)
unfolding new_entry mark_unavailable
new_entry-IsValid b t enough below =
    let header = header_pages_for t in
    record {
      sized = omega (arith, length-set_bits (blank t) 0 header, length-blank t);
      counted = omega (
        arith,
        free_count-IsFree (blank t) (t - header) (blank-IsFree t 0 (t - header)),
        free_count-set_bits (blank t) 0 header (t - header) (omega (arith, header_twice t enough))
            (omega (arith, length-blank t)) (blank-IsFree t 0 header),
      );
      header = omega arith;
      below = omega arith;
    }

-- The memory map's entries are 64-bit numbers, so that every region that pmm_init accepts, for every
-- memory map, gets an entry whose count of free frames is right.
pub init-IsValid : (rs : List Region) → All IsValid (init rs)
unfolding init
init-IsValid [] = tt
init-IsValid (r ∷ rs) =
    let region_base = align_up r.base in
    let region_end = align_down (add64 r.base r.size) in
    let total = (region_end - region_base) / page_size in
    elim (Bool-cases r.usable) [
      | inr reserved ↦ rw reserved (init-IsValid rs)
      | inl usable ↦ elim (Bool-cases (leb region_end region_base)) [
        | inl empty ↦ rw (usable, empty) (init-IsValid rs)
        | inr room ↦ elim (Bool-cases (ltb total (header_pages_for total + min_region_pages))) [
          | inl tiny ↦ rw (usable, room, tiny) (init-IsValid rs)
          | inr large ↦
              rw (usable, room, large)
                (
                  new_entry-IsValid region_base total (ltb_false→le _ _ large)
                      (omega (arith, leb_false→lt _ _ room)),
                  init-IsValid rs,
                )
        ]
      ]
    ]

-- In a new region exactly the first `header_pages` frames behind the header are marked used, though
-- the header lies in front of them: they are lost.
pub new_entry-used :
    (region_base total_pages i : ℕ)
    → header_pages_for total_pages + min_region_pages ≤ total_pages
    → total_pages < 2 ^ 52
    → let e = new_entry region_base total_pages in
      (e.capacity + e.header_pages ≡ total_pages)
      × (e.available_pages + e.header_pages ≡ e.capacity)
      × (bit_tst e.bitmap i ≡ ltb i e.header_pages)
unfolding new_entry mark_unavailable
new_entry-used b t i enough small = (
  omega arith,
  omega (arith, header_twice t enough),
  elim (dec_lt i (header_pages_for t)) [
    | yes lost ↦
        set_bits_inside (blank t) 0 (header_pages_for t) i (omega (arith, length-blank t))
          (omega arith) (omega arith)
        ∙ sym (lt→ltb _ _ lost)
    | no kept ↦
        set_bits_outside (blank t) 0 (header_pages_for t) i (inr (omega arith))
        ∙ get_or-replicate ((t + 7) / 8 * 8) i false
        ∙ ground arith
  ],
)
