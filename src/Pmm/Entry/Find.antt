-- ===== src/Pmm/Entry/Find.antt =====
-- paging_bitmap_find_free: what the two searches round the cursor find, and what they miss.
use bleed_kernel.Common.{
  ℕ, ◌+◌, ◌≤◌, ◌<◌, ◌≡◌, refl, ◌⊎◌, inl, inr, Option, none, some, if◌then◌else◌, leb, ◌==◌,
  Bool-cases, arith, ==→eq,
}
use native.Mathlib.Decide.{dec_le}
use bleed_kernel.Pmm.Bitmap.{IsFree}
use bleed_kernel.Pmm.Search.{find_free_in_range}
use bleed_kernel.Pmm.Search.FirstFit.{FirstFit, find_free_in_range-FirstFit}
use bleed_kernel.Pmm.Entry.{BitmapEntry, find_free, search_round, cursor_after}

-- Where paging_bitmap_find_free starts.
abbrev pub start_cursor : BitmapEntry → ℕ
start_cursor e = if leb e.capacity e.search_cursor then 0 else e.search_cursor

-- A run of `count` free frames that lies on one side of the cursor.
pub record IsRunBeside (e : BitmapEntry) (count s : ℕ) : Type 0 where
  pub fits : s + count ≤ e.capacity
  pub free : IsFree e.bitmap s count
  pub beside : (start_cursor e ≤ s) ⊎ (s + count ≤ start_cursor e)

-- The answer of the search of an entry: a run beside the cursor, or none where there is none.
abbrev pub Finds : BitmapEntry → ℕ → Option ℕ → Type 0
Finds e count none = (s : ℕ) → ¬ IsRunBeside e count s
Finds e count (some s) = IsRunBeside e count s

combine-Finds :
    (e : BitmapEntry) (count : ℕ) (above below : Option ℕ)
    → 0 < count
    → FirstFit e.bitmap count (start_cursor e) e.capacity above
    → FirstFit e.bitmap count 0 (start_cursor e) below
    → Finds e count (elim above [
      | some start ↦ some start
      | none ↦ if start_cursor e == 0 then none else below
    ])
combine-Finds e count (some s) below pos u d = record { fits = u.1; free = u.2; beside = inl u.0 }
combine-Finds e count none below pos u d = elim (Bool-cases (start_cursor e == 0)) [
  | inl start ↦ rw start (λ s r. u s (omega (arith, ==→eq _ _ start)) r.fits r.free)
  | inr later ↦ rw later (only_below below d)
]
  where
    only_below :
        (below : Option ℕ) → FirstFit e.bitmap count 0 (start_cursor e) below → Finds e count below
    only_below none d = λ s r. elim r.beside [
      | inl above ↦ u s above r.fits r.free
      | inr under ↦ d s (omega arith) under r.free
    ]
    only_below (some s) d = record { fits = ground (arith, d.1); free = d.2; beside = inr d.1 }

start_cursor-le : (e : BitmapEntry) → start_cursor e ≤ e.capacity
start_cursor-le e = ground arith

search_round-Finds :
    (e : BitmapEntry) (count : ℕ) → 0 < count → Finds e count (search_round e count)
unfolding search_round
search_round-Finds e count pos =
    combine-Finds e count (find_free_in_range e.bitmap count (start_cursor e) e.capacity)
      (find_free_in_range e.bitmap count 0 (start_cursor e)) pos
      (find_free_in_range-FirstFit e.bitmap count (start_cursor e) e.capacity pos
        (start_cursor-le e))
      (find_free_in_range-FirstFit e.bitmap count 0 (start_cursor e) pos (omega arith))

-- What paging_bitmap_find_free does: it fails, changes nothing and there is no run beside the
-- cursor, or it finds such a run and moves the cursor behind it.
pub data Found (e : BitmapEntry) (count : ℕ) : Type 0 where
  nothing : find_free e count ≡ (none, e) → ((s : ℕ) → ¬ IsRunBeside e count s) → Found e count
  run :
      (s : ℕ)
      → find_free e count ≡ (some s, record e { search_cursor = cursor_after e s count })
      → IsRunBeside e count s
      → Found e count

found_by :
    (e : BitmapEntry) (count : ℕ) (answer : Option ℕ)
    → 0 < count
    → count ≤ e.capacity
    → search_round e count ≡ answer
    → Finds e count answer
    → Found e count
unfolding find_free
found_by e count none pos le eq f = nothing (rw eq (ground arith)) f
found_by e count (some s) pos le eq f = run s (rw eq (ground arith)) f

-- The search of one region finds a run of free frames on one side of the cursor whenever there is
-- one, for every non-empty request, and then moves the cursor only.
pub find_free-Found : (e : BitmapEntry) (count : ℕ) → 0 < count → Found e count
unfolding find_free
find_free-Found e count pos = elim (dec_le count e.capacity) [
  | yes fits ↦
      found_by e count (search_round e count) pos fits refl (search_round-Finds e count pos)
  | no large ↦ nothing (ground arith) (λ s r. large (omega (arith, r.fits)))
]

-- A region with free runs of `count` frames that all straddle its cursor is passed over: the search
-- fails though the frames are there.
pub find_free_straddling :
    (e : BitmapEntry) (count : ℕ)
    → 0 < count
    → ((s : ℕ)
        → s + count ≤ e.capacity
        → IsFree e.bitmap s count
        → (s < start_cursor e) × (start_cursor e < s + count))
    → find_free e count ≡ (none, e)
find_free_straddling e count pos straddle = elim (find_free-Found e count pos) [
  | nothing eq no_run ↦ eq
  | run s eq r ↦ absurd (omega (arith, straddle s r.fits r.free, r.beside))
]
