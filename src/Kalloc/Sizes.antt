-- ===== src/Kalloc/Sizes.antt =====
-- Which size class kmalloc picks, and how many pages a large block has.
use bleed_kernel.Common.{
  page_size, ℕ, zero, suc, ◌+◌, ◌-◌, ◌*◌, ◌/◌, ◌^◌, ◌≤◌, ◌<◌, ◌≡◌, ◌∙◌, inl, inr, List, [], ◌∷◌,
  if◌then◌else◌, ltb, leb, Bool-cases, arith, length, get_or, add64, leb→le, leb_false→lt,
}
use native.Mathlib.Decide.{dec_lt}
use bleed_kernel.Kalloc.Slabs.{
  size_of, large_header, num_classes, size_classes, class_from, class_for,
}
use bleed_kernel.Kalloc.Calls.{large_pages}
use bleed_kernel.Kalloc.Objects.{size_bounds}

-- The loop stops at the first size that is enough, or at the end.
abbrev IsFirst : ℕ → List ℕ → ℕ → Type 0
IsFirst bytes sizes k =
    (k ≤ length sizes)
    × (k < length sizes → bytes ≤ get_or sizes k 8)
    × ((j : ℕ) → j < k → get_or sizes j 8 < bytes)

before_next :
    (bytes size k j : ℕ) (sizes : List ℕ)
    → size < bytes
    → ((j : ℕ) → j < k → get_or sizes j 8 < bytes)
    → j < suc k
    → get_or (size ∷ sizes) j 8 < bytes
before_next bytes size k zero sizes small before lt = small
before_next bytes size k (suc j) sizes small before lt = before j (omega arith)

class_from-IsFirst :
    (bytes i : ℕ) (sizes : List ℕ)
    → (k : ℕ) × (class_from bytes i sizes ≡ i + k) × IsFirst bytes sizes k
unfolding class_from
class_from-IsFirst bytes i [] =
    (0, omega arith, (omega arith, λ lt. absurd (omega arith), λ j lt. absurd (omega arith)))
class_from-IsFirst bytes i (size ∷ sizes) =
    let (k, eq, (most, fits, before)) = class_from-IsFirst bytes (i + 1) sizes in
    elim (Bool-cases (leb bytes size)) [
      | inl enough ↦ (
        0,
        rw enough (omega arith),
        (omega arith, λ lt. leb→le bytes size enough, λ j lt. absurd (omega arith)),
      )
      | inr small ↦ (
        suc k,
        rw small (eq ∙ omega arith),
        (
          omega arith,
          λ lt. fits (omega arith),
          λ j lt. before_next bytes size k j sizes (leb_false→lt bytes size small) before lt,
        ),
      )
    ]

-- The least size that is asked for is that of the first class.
abbrev at_least : ℕ → ℕ
at_least bytes = if ltb bytes 8 then 8 else bytes

at_least_size : (bytes j : ℕ) → size_of j < at_least bytes → j < num_classes → size_of j < bytes
at_least_size bytes j lt class =
    let bounds = size_bounds j class in
    elim (Bool-cases (ltb bytes 8)) [
      | inl tiny ↦ let few : size_of j < 8 = rw tiny at lt in absurd (omega (arith, few, bounds.0))
      | inr fine ↦ rw fine at lt
    ]

-- class_for gives the smallest size class that holds the bytes, and NUM_CLASSES if none does.
pub class_for-smallest :
    (bytes : ℕ)
    → (class_for bytes ≤ num_classes)
      × (class_for bytes < num_classes → bytes ≤ size_of (class_for bytes))
      × ((j : ℕ) → j < class_for bytes → size_of j < bytes)
unfolding class_for
class_for-smallest bytes =
    let (k, eq, (most, fits, before)) = class_from-IsFirst (at_least bytes) 0 size_classes in
    let large_enough : bytes ≤ at_least bytes = ground arith in
    let own : class_from (at_least bytes) 0 size_classes ≡ k = eq ∙ omega arith in
    rw own (
      most,
      λ lt. omega (arith, large_enough, fits lt),
      λ j lt. at_least_size bytes j (before j lt) (omega (arith, most, lt)),
    )

-- A sum in 64 bits, without a carry and with one.
sum_fits : (a b : ℕ) → a + b < 2 ^ 64 → add64 a b ≡ a + b
sum_fits a b fits = omega arith

sum_wraps : (a b : ℕ) → 2 ^ 64 ≤ a + b → a < 2 ^ 64 → b < 2 ^ 64 → add64 a b + 2 ^ 64 ≡ a + b
sum_wraps a b over lt lt' = omega arith

few_pages : (bytes total : ℕ) → total < page_size * 2 → total / page_size ≤ 1
few_pages bytes total lt = omega arith

whole_pages :
    (n : ℕ)
    → (n ≤ (n + (page_size - 1)) / page_size * page_size)
      × ((n + (page_size - 1)) / page_size * page_size < n + page_size)
whole_pages n = (omega arith, omega arith)

-- The pages of a large block hold its header and its bytes and less than a page more, for every size
-- below 2^64 - 4111; from there on size_t wraps around, and the pages are at most one.
pub large_pages-bounds :
    (bytes : ℕ)
    → (bytes + large_header + (page_size - 1) < 2 ^ 64
        → (bytes + large_header ≤ large_pages bytes * page_size)
          × (large_pages bytes * page_size < bytes + large_header + page_size))
      × (2 ^ 64 ≤ bytes + large_header + (page_size - 1) → bytes < 2 ^ 64 → large_pages bytes ≤ 1)
unfolding large_pages
large_pages-bounds bytes = (
  λ fits.
      let first = sum_fits bytes large_header (omega (arith, fits)) in
      let second = sum_fits (bytes + large_header) (page_size - 1) fits in
      rw (first, second) (whole_pages (bytes + large_header)),
  λ over small. elim (dec_lt (bytes + large_header) (2 ^ 64)) [
    | yes fits ↦
        let first = sum_fits bytes large_header fits in
        let second = sum_wraps (bytes + large_header) (page_size - 1) over fits (omega arith) in
        rw first (few_pages bytes _ (omega (arith, second, fits)))
    | no carry ↦
        let first = sum_wraps bytes large_header (omega (arith, carry)) small (omega arith) in
        few_pages bytes _ (omega (arith, first, small))
  ],
)
