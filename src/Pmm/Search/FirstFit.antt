-- ===== src/Pmm/Search/FirstFit.antt =====
-- What the frame search finds: the first run of `count` free bits of the range.
use native.Mathlib.Decide.{dec_lt}
use mathlib.Core.Bool.{false≢true}
use bleed_kernel.Common.{
  ==→eq, ℕ, zero, suc, ◌+◌, ◌-◌, ◌≤◌, ◌<◌, ◌≡◌, refl, sym, ◌∙◌, ◌⊎◌, inl, inr, true, false, Option,
  none, some, if◌then◌else◌, ◌==◌, Bool-cases, arith,
}
use bleed_kernel.Pmm.Bitmap.{Bitmap, bit_tst, IsFree}
use bleed_kernel.Pmm.Search.{find_free_in_range}
use bleed_kernel.Pmm.Search.Scan.{scan, find_free_in_range-scan}

-- No run of `count` free bits starts in `begin .. stop`.
abbrev pub NoneBefore : Bitmap → ℕ → ℕ → ℕ → Type 0
NoneBefore bm count begin stop = (t : ℕ) → begin ≤ t → t < stop → ¬ IsFree bm t count

-- The answer of a search of `begin .. end`.
abbrev pub FirstFit : Bitmap → ℕ → ℕ → ℕ → Option ℕ → Type 0
FirstFit bm count begin end none = (t : ℕ) → begin ≤ t → t + count ≤ end → ¬ IsFree bm t count
FirstFit bm count begin end (some s) =
    (begin ≤ s) × (s + count ≤ end) × IsFree bm s count × NoneBefore bm count begin s

-- The state of the scan before bit `i`: the last `fr` bits are free, and start at `rs`; no run that
-- starts further left is long enough.
record IsRun (bm : Bitmap) (count begin i fr rs : ℕ) : Type 0 where
  start : fr ≡ 0 ⊎ rs + fr ≡ i
  short : fr < count
  room : begin + fr ≤ i
  free : (j : ℕ) → j < i → i ≤ j + fr → bit_tst bm j ≡ false
  left : (t : ℕ) → begin ≤ t → t + fr < i → ¬ IsFree bm t count

module _ {bm : Bitmap} {count begin i fr rs : ℕ} (r : IsRun bm count begin i fr rs) where
  -- A used bit ends the run.
  used-IsRun : bit_tst bm i ≡ true → IsRun bm count begin (i + 1) 0 rs
  used-IsRun u = record {
    start = inl refl;
    short = omega (arith, r.short);
    room = omega (arith, r.room);
    free = λ j lt le. absurd (omega arith);
    left = λ t from lt hole. elim (dec_lt (t + fr) i) [
      | yes further ↦ r.left t from further hole
      | no near ↦ false≢true (sym (hole i (omega arith) (omega (arith, r.short))) ∙ u)
    ];
  }

  -- A free bit makes the run longer.
  free-IsRun :
      (first : ℕ)
      → (if fr == 0 then i else rs) ≡ first
      → bit_tst bm i ≡ false
      → fr + 1 < count
      → IsRun bm count begin (i + 1) (fr + 1) first
  free-IsRun first ef f lt = record {
    start = inr (ground (arith, r.start));
    short = lt;
    room = omega (arith, r.room);
    free = λ j before after. elim (dec_lt j i) [
      | yes old ↦ r.free j old (omega arith)
      | no new ↦ let here : j ≡ i = omega arith in rw here f
    ];
    left = λ t from before. r.left t from (omega arith);
  }

  -- A run that has its last bit is the answer.
  done-FirstFit :
      (end first : ℕ)
      → (if fr == 0 then i else rs) ≡ first
      → bit_tst bm i ≡ false
      → fr + 1 ≡ count
      → i < end
      → FirstFit bm count begin end (some first)
  done-FirstFit end first ef f last inside =
      let at : first + fr ≡ i = ground (arith, r.start) in
      (
        omega (arith, r.room),
        omega arith,
        λ j after before. elim (dec_lt j i) [
          | yes old ↦ r.free j old (omega arith)
          | no new ↦ let here : j ≡ i = omega arith in rw here f
        ],
        λ t from before. r.left t from (omega arith),
      )

scan-FirstFit :
    (bm : Bitmap) (count begin end n i fr rs : ℕ)
    → i + n ≡ end
    → IsRun bm count begin i fr rs
    → FirstFit bm count begin end (scan bm count n i fr rs)
unfolding scan
scan-FirstFit bm count begin end zero i fr rs e r =
    λ t from to. r.left t from (omega (arith, r.short))
scan-FirstFit bm count begin end (suc n) i fr rs e r = elim (Bool-cases (bit_tst bm i)) [
  | inl u ↦ rw u (scan-FirstFit bm count begin end n (i + 1) 0 rs (omega arith) (used-IsRun r u))
  | inr f ↦ elim (Bool-cases (fr + 1 == count)) [
    | inl last ↦
        rw (f, last) (done-FirstFit r end first refl f (==→eq (fr + 1) count last) (omega arith))
    | inr more ↦
        rw (f, more)
          (scan-FirstFit bm count begin end n (i + 1) (fr + 1) first (omega arith)
            (free-IsRun r first refl f (ground (arith, r.short))))
  ]
]
  where
    first : ℕ
    first = if fr == 0 then i else rs

-- The frame search is a first-fit search, for every bitmap, non-empty request and range inside which
-- it looks: what it finds is a run of `count` free frames inside the range, no such run starts
-- further left, and it finds nothing only if the range has no such run.
pub find_free_in_range-FirstFit :
    (bm : Bitmap) (count begin end : ℕ)
    → 0 < count
    → begin ≤ end
    → FirstFit bm count begin end (find_free_in_range bm count begin end)
find_free_in_range-FirstFit bm count begin end pos le =
    rw (find_free_in_range-scan bm count begin end pos)
      (scan-FirstFit bm count begin end (end - begin) begin 0 0 (omega arith) fresh)
  where
    fresh : IsRun bm count begin begin 0 0
    fresh = record {
      start = inl refl;
      short = pos;
      room = omega arith;
      free = λ j lt le. absurd (omega arith);
      left = λ t from lt. absurd (omega arith);
    }
