-- ===== src/Pmm/Frames/Alloc.antt =====
-- pmm_try_alloc_pages: it hands out a run of frames that were free, or there was none to find.
use bleed_kernel.Common.{
  ℕ, ◌+◌, ◌%◌, ◌^◌, ◌≤◌, ◌<◌, ◌≡◌, refl, inl, inr, false, List, [], ◌∷◌, if◌then◌else◌, ltb, ◌==◌,
  Bool-cases, arith, All, add64, ltb→lt,
}
use bleed_kernel.Pmm.Bitmap.{IsFree}
use bleed_kernel.Pmm.Entry.{BitmapEntry, mark_unavailable}
use bleed_kernel.Pmm.Entry.Marks.{free_count-le, free_count-set_bits}
use bleed_kernel.Pmm.Entry.Find.{IsRunBeside, nothing, run, find_free-Found}
use bleed_kernel.Pmm.Frames.{
  alloc_from, try_alloc_pages, available_from, pmm_available_pages, frame_address,
}
use bleed_kernel.Pmm.Frames.Valid.{IsValid, taken, taken-IsValid}

-- `n` free frames at address `p` have been taken from one of the regions, and nothing else changed.
pub data Taken (n p : ℕ) : List BitmapEntry → List BitmapEntry → Type 0 where
  here :
      {e e' : BitmapEntry} {es : List BitmapEntry} (s : ℕ)
      → s + n ≤ e.capacity
      → IsFree e.bitmap s n
      → p ≡ frame_address e s
      → e' ≡ taken e s n
      → Taken n p (e ∷ es) (e' ∷ es)
  there :
      {e : BitmapEntry} {es es' : List BitmapEntry}
      → Taken n p es es'
      → Taken n p (e ∷ es) (e ∷ es')

-- No region has a run of `n` free frames on one side of its cursor.
abbrev pub Exhausted : ℕ → List BitmapEntry → Type 0
Exhausted n = All (λ e. (s : ℕ) → ¬ IsRunBeside e n s)

-- What a call of pmm_try_alloc_pages does.
pub data Allocates (n : ℕ) (es : List BitmapEntry) (r : ℕ × List BitmapEntry) : Type 0 where
  fails : r ≡ (0, es) → Exhausted n es → Allocates n es r
  takes : 0 < r.0 → Taken n r.0 es r.1 → Allocates n es r

-- A region with fewer free frames than asked for has no run of them.
few_frames :
    {e : BitmapEntry} (n : ℕ) → IsValid e → e.available_pages < n → (s : ℕ) → ¬ IsRunBeside e n s
few_frames {e} n v few s r =
    omega (arith, v.counted, free_count-set_bits e.bitmap s n e.capacity r.fits v.sized r.free)

pass_over :
    {n : ℕ} {e : BitmapEntry} {es : List BitmapEntry} (r : ℕ × List BitmapEntry)
    → ((s : ℕ) → ¬ IsRunBeside e n s)
    → Allocates n es r
    → Allocates n (e ∷ es) (r.0, e ∷ r.1)
pass_over r none_here (fails eq ex) = fails (cc) (none_here, ex)
pass_over r none_here (takes pos t) = takes pos (there t)

alloc_from-Allocates :
    (es : List BitmapEntry) (n : ℕ) → 0 < n → All IsValid es → Allocates n es (alloc_from es n)
unfolding alloc_from mark_unavailable
alloc_from-Allocates [] n pos v = fails refl tt
alloc_from-Allocates (e ∷ es) n pos v = elim (Bool-cases (ltb e.available_pages n)) [
  | inl few ↦ rw few (
      pass_over (alloc_from es n) (few_frames {e = e} n v.0 (ltb→lt _ _ few))
        (alloc_from-Allocates es n pos v.1))
  | inr enough ↦ elim (find_free-Found e n pos) [
    | nothing eq no_run ↦
        rw (enough, eq) (pass_over (alloc_from es n) no_run (alloc_from-Allocates es n pos v.1))
    | run s eq r ↦
        rw (enough, eq)
          (takes (omega (arith, v.0.below, v.0.header, r.fits)) (here s r.fits r.free refl refl))
  ]
]

-- For every list of valid regions and every non-zero request, pmm_try_alloc_pages either returns 0,
-- changes nothing, and no region has a run of that many free frames on one side of its cursor; or
-- it returns the non-zero address of a run of frames that were all free, which it marks used.
pub try_alloc_pages-Allocates :
    (es : List BitmapEntry) (n : ℕ) → 0 < n → All IsValid es → Allocates n es (try_alloc_pages es n)
unfolding try_alloc_pages
try_alloc_pages-Allocates es n pos v =
    let nonzero : (n == 0) ≡ false = ground arith in rw nonzero (alloc_from-Allocates es n pos v)

pub Taken-IsValid :
    {n p : ℕ} {es es' : List BitmapEntry} → Taken n p es es' → All IsValid es → All IsValid es'
Taken-IsValid {n} (here {e = e} s fits free at eq) v =
    rw eq (taken-IsValid {e = e} s n v.0 fits free, v.1)
Taken-IsValid (there t) v = (v.0, Taken-IsValid t v.1)

Allocates-IsValid :
    {n : ℕ} {es : List BitmapEntry} {r : ℕ × List BitmapEntry}
    → Allocates n es r
    → All IsValid es
    → All IsValid r.1
Allocates-IsValid {n} {es} {r} (fails eq ex) v = let same : r.1 ≡ es = cc in rw same v
Allocates-IsValid (takes pos t) v = Taken-IsValid t v

-- An allocation keeps every region's count of free frames right.
pub try_alloc_pages-IsValid :
    (es : List BitmapEntry) (n : ℕ) → 0 < n → All IsValid es → All IsValid (try_alloc_pages es n).1
try_alloc_pages-IsValid es n pos v = Allocates-IsValid (try_alloc_pages-Allocates es n pos v) v

available_from-add :
    (es : List BitmapEntry) (a b n : ℕ)
    → add64 b n ≡ a % 2 ^ 64
    → add64 (available_from b es) n ≡ available_from a es % 2 ^ 64
unfolding available_from
available_from-add [] a b n h = h
available_from-add (e ∷ es) a b n h =
    available_from-add es (add64 a e.available_pages) (add64 b e.available_pages) n (omega arith)

Taken-available :
    {n p : ℕ} {es es' : List BitmapEntry} (total : ℕ)
    → Taken n p es es'
    → All IsValid es
    → add64 (available_from total es') n ≡ available_from total es % 2 ^ 64
unfolding available_from
Taken-available {n} total (here {e = e} {e' = e'} {es = es} s fits free at eq) v =
    available_from-add es (add64 total e.available_pages) (add64 total e'.available_pages) n (
      rw eq (
        omega (
          arith,
          free_count-set_bits e.bitmap s n e.capacity fits v.0.sized free,
          v.0.counted,
          v.0.below,
          free_count-le e.bitmap e.capacity,
        )))
Taken-available total (there {e = e} t) v = Taken-available (add64 total e.available_pages) t v.1

available_from-lt : (es : List BitmapEntry) (a : ℕ) → a < 2 ^ 64 → available_from a es < 2 ^ 64
unfolding available_from
available_from-lt [] a h = h
available_from-lt (e ∷ es) a h = available_from-lt es (add64 a e.available_pages) (omega arith)

-- An allocation that succeeds takes its frames off pmm_available_pages, for every list of valid
-- regions and non-zero request; one that fails leaves the total as it was.
pub try_alloc_pages-available :
    (es : List BitmapEntry) (n : ℕ)
    → 0 < n
    → All IsValid es
    → let r = try_alloc_pages es n in
      add64 (pmm_available_pages r.1) (if r.0 == 0 then 0 else n) ≡ pmm_available_pages es
unfolding pmm_available_pages
try_alloc_pages-available es n pos v = elim (try_alloc_pages-Allocates es n pos v) [
  | fails eq ex ↦ rw eq (omega (arith, available_from-lt es 0))
  | takes some_address t ↦ ground (arith, available_from-lt es 0, Taken-available 0 t v)
]
