-- ===== src/Pmm/Search/Scan.antt =====
-- The reference for paging_bitmap_find_free_in_range: one bit at a time. The words and bytes that
-- the code takes at once change nothing.
use bleed_kernel.Common.{
  leb→le, lt→ltb, leb_false→lt, ℕ, zero, suc, ◌+◌, ◌-◌, ◌%◌, ◌≤◌, ◌<◌, ◌≡◌, refl, ◌⊎◌, inl, inr,
  Bool, true, false, ◌&&◌, ◌||◌, Option, none, some, if◌then◌else◌, ltb, leb, ◌==◌, Bool-cases,
  arith,
}
use Prim.Native.Nat.add
use bleed_kernel.Pmm.Bitmap.{Bitmap, bit_tst, all_bits}
use bleed_kernel.Pmm.Search.{step_at, find_loop, find_free_in_range}

-- The search of `n` bits from `i` on, bit by bit.
unfoldable pub scan : Bitmap → ℕ → ℕ → ℕ → ℕ → ℕ → Option ℕ
scan bm count zero i free_run run_start = none
scan bm count (suc n) i free_run run_start =
    let first = if free_run == 0 then i else run_start in
    let used = scan bm count n (i + 1) 0 run_start in
    let free = scan bm count n (i + 1) (free_run + 1) first in
    if bit_tst bm i then used else if free_run + 1 == count then some first else free

scan_used :
    (bm : Bitmap) (count k n i j fr rs : ℕ)
    → i + suc k ≡ j
    → all_bits bm i (suc k) true ≡ true
    → scan bm count (suc k + n) i fr rs ≡ scan bm count n j 0 rs
unfolding scan all_bits
scan_used bm count zero n i j fr rs e h =
    let next : i + 1 ≡ j = omega arith in rw (add.suc zero n, add.zero n, ← next) (ground arith)
scan_used bm count (suc k) n i j fr rs e h =
    rw (add.suc (suc k) n) (ground (arith, scan_used bm count k n (i + 1) j 0 rs (omega arith)))

-- What a run of free bits does to the scan: it succeeds inside the run, or goes on behind it.
abbrev after_free : Bitmap → ℕ → ℕ → ℕ → ℕ → ℕ → Option ℕ
after_free bm count n j fr first = if leb count fr then some first else scan bm count n j fr first

scan_free :
    (bm : Bitmap) (count k n i j fr fr' rs first : ℕ)
    → i + suc k ≡ j
    → fr + suc k ≡ fr'
    → (if fr == 0 then i else rs) ≡ first
    → all_bits bm i (suc k) false ≡ true
    → fr < count
    → scan bm count (suc k + n) i fr rs ≡ after_free bm count n j fr' first
unfolding scan all_bits
scan_free bm count zero n i j fr fr' rs first e e' ef h lt =
    let next : i + 1 ≡ j = omega arith in
    let longer : fr + 1 ≡ fr' = omega arith in
    rw (add.suc zero n, add.zero n, ef, ← next, ← longer) (ground arith)
scan_free bm count (suc k) n i j fr fr' rs first e e' ef h lt =
    rw (add.suc (suc k) n, ef)
      (ground (
        arith,
        scan_free bm count k n (i + 1) j (fr + 1) fr' first first (omega arith) (omega arith)
            (ground arith),
      ))

-- Where the step is not 0, the bits that it passes are inside the range and all alike.
record IsUniform (bm : Bitmap) (i end step : ℕ) : Type 0 where
  inside : i + step ≤ end
  same : (all_bits bm i step true ≡ true) ⊎ (all_bits bm i step false ≡ true)

step_at_cases :
    (bm : Bitmap) (i end : ℕ)
    → (step_at bm i end ≡ 0) ⊎ ((k : ℕ) × (step_at bm i end ≡ suc k) × IsUniform bm i end (suc k))
unfolding step_at
step_at_cases bm i end = elim (Bool-cases (fits 64)) [
  | inl wide ↦ inr (63, ground arith, record { inside = ground arith; same = ground arith })
  | inr narrow ↦ elim (Bool-cases (fits 8)) [
    | inl byte ↦ inr (7, ground arith, record { inside = ground arith; same = ground arith })
    | inr single ↦ inl (ground arith)
  ]
]
  where
    fits : ℕ → Bool
    fits w = (i % w == 0) && (leb (i + w) end && (all_bits bm i w true || all_bits bm i w false))

all_bits_conflict :
    (bm : Bitmap) (i k : ℕ)
    → all_bits bm i (suc k) true ≡ true
    → all_bits bm i (suc k) false ≡ true
    → ⊥
unfolding all_bits
all_bits_conflict bm i k p q = ground arith

-- A round that takes a whole word does what the scan does over its bits.
word_round :
    (bm : Bitmap) (count end fuel i k n fr rs first : ℕ)
    → step_at bm i end ≡ suc k
    → IsUniform bm i end (suc k)
    → fr < count
    → (if fr == 0 then i else rs) ≡ first
    → find_loop bm count end fuel (i + suc k) 0 rs ≡ scan bm count n (i + suc k) 0 rs
    → (fr + suc k < count
        → find_loop bm count end fuel (i + suc k) (fr + suc k) first
          ≡ scan bm count n (i + suc k) (fr + suc k) first)
    → find_loop bm count end (suc fuel) i fr rs ≡ scan bm count (suc k + n) i fr rs
unfolding find_loop
word_round bm count end fuel i k n fr rs first wide u lt ef used free =
    let nonzero : (suc k == 0) ≡ false = ground arith in
    let inside : ltb i end ≡ true = lt→ltb i end (omega (arith, u.inside)) in
    rw (wide, ef, nonzero, inside)
      (elim u.same [
        | inl ones ↦ rw (ones, scan_used bm count k n i (i + suc k) fr rs refl ones) used
        | inr zeros ↦
            rw
              (
                scan_free bm count k n i (i + suc k) fr (fr + suc k) rs first refl refl ef zeros lt,
                not_ones zeros,
              )
              (elim (Bool-cases (leb count (fr + suc k))) [
                | inl enough ↦ rw enough
                | inr short ↦ rw (short, free (leb_false→lt _ _ short))
              ])
      ])
  where
    not_ones : all_bits bm i (suc k) false ≡ true → all_bits bm i (suc k) true ≡ false
    not_ones zeros = elim (Bool-cases (all_bits bm i (suc k) true)) [
      | inl ones ↦ absurd (all_bits_conflict bm i k ones zeros)
      | inr e ↦ e
    ]

-- A round that looks at one bit is a step of the scan.
bit_round :
    (bm : Bitmap) (count end fuel i m fr rs : ℕ)
    → step_at bm i end ≡ 0
    → i < end
    → fr < count
    → find_loop bm count end fuel (i + 1) 0 rs ≡ scan bm count m (i + 1) 0 rs
    → (fr + 1 < count
        → find_loop bm count end fuel (i + 1) (fr + 1) (if fr == 0 then i else rs)
          ≡ scan bm count m (i + 1) (fr + 1) (if fr == 0 then i else rs))
    → find_loop bm count end (suc fuel) i fr rs ≡ scan bm count (suc m) i fr rs
unfolding find_loop scan
bit_round bm count end fuel i m fr rs single inside lt used free = rw single (ground arith)

end_round :
    (bm : Bitmap) (count end fuel i fr rs : ℕ)
    → end ≤ i
    → find_loop bm count end fuel i fr rs ≡ scan bm count 0 i fr rs
unfolding find_loop scan
end_round bm count end zero i fr rs h = refl
end_round bm count end (suc fuel) i fr rs h = ground arith

find_loop-scan :
    (bm : Bitmap) (count end fuel i m fr rs : ℕ)
    → i + m ≡ end
    → m ≤ fuel
    → fr < count
    → find_loop bm count end fuel i fr rs ≡ scan bm count m i fr rs
find_loop-scan bm count end fuel i zero fr rs e h lt =
    end_round bm count end fuel i fr rs (omega arith)
find_loop-scan bm count end zero i (suc m) fr rs e h lt = absurd (omega arith)
find_loop-scan bm count end (suc fuel) i (suc m) fr rs e h lt = elim (step_at_cases bm i end) [
  | inl single ↦
      bit_round bm count end fuel i m fr rs single (omega arith) lt
        (find_loop-scan bm count end fuel (i + 1) m 0 rs (omega arith) (omega arith) (omega arith))
        (find_loop-scan bm count end fuel (i + 1) m (fr + 1) first (omega arith) (omega arith))
  | inr (k, wide, u) ↦
      let n = m - k in
      let m_eq : suc m ≡ suc k + n = omega (arith, u.inside) in
      rw m_eq (
        word_round bm count end fuel i k n fr rs first wide u lt refl
          (find_loop-scan bm count end fuel (i + suc k) n 0 rs (omega (arith, u.inside))
            (omega arith) (omega arith))
          (find_loop-scan bm count end fuel (i + suc k) n (fr + suc k) first
            (omega (arith, u.inside)) (omega arith)))
]
  where
    first : ℕ
    first = if fr == 0 then i else rs

scan_nothing : (bm : Bitmap) (count i fr rs : ℕ) → scan bm count 0 i fr rs ≡ none
unfolding scan
scan_nothing bm count i fr rs = refl

-- paging_bitmap_find_free_in_range gives the answer of the bit-by-bit scan of the range, for every
-- bitmap, count and range: the words and bytes that it takes at once skip no run of free frames and
-- join none.
pub find_free_in_range-scan :
    (bm : Bitmap) (count begin end : ℕ)
    → 0 < count
    → find_free_in_range bm count begin end ≡ scan bm count (end - begin) begin 0 0
unfolding find_free_in_range
find_free_in_range-scan bm count begin end pos = elim (Bool-cases (leb end begin)) [
  | inl empty ↦
      let nothing : end - begin ≡ 0 = omega (arith, leb→le end begin empty) in
      rw nothing (ground (arith, scan_nothing bm count begin 0 0))
  | inr bits ↦ ground (
    arith,
    find_loop-scan bm count end (end - begin) begin (end - begin) 0 0
        (omega (arith, leb_false→lt end begin bits)) (omega arith) pos,
  )
]
