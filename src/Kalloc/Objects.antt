-- ===== src/Kalloc/Objects.antt =====
-- The objects of a slab: where they lie, and what a full list of free ones means.
use bleed_kernel.Common.{
  page_size, ℕ, zero, suc, ◌+◌, ◌-◌, ◌*◌, ◌%◌, ◌≤◌, ◌<◌, ◌≡◌, ◌≢◌, refl, sym, ap, ◌∙◌, ◌⊎◌, inl,
  inr, false, List, [], ◌∷◌, ◌==◌, Bool-cases, arith, length, All, ==→eq, count, count_nil,
  count-here, count-there,
}
use native.Mathlib.Decide.{dec_lt, ℕ_discrete}
use native.Mathlib.Nat.{div-mul-le_self, mul-le-mul_right}
use bleed_kernel.Kalloc.Slabs.{size_of, slab_header, num_classes, objects_per_slab, objects}

-- `a` is an object of a slab of the class at the page.
abbrev pub IsObject : ℕ → ℕ → ℕ → Type 0
IsObject ci page a = (i : ℕ) × (i < objects_per_slab ci) × (a ≡ page + slab_header + i * size_of ci)

-- The page that kfree takes a pointer to lie in.
abbrev pub page_of : ℕ → ℕ
page_of a = a - a % page_size

pub size_bounds :
    (ci : ℕ)
    → ci < num_classes
    → (8 ≤ size_of ci) × (objects_per_slab ci ≤ 506) × (0 < objects_per_slab ci)
size_bounds zero lt = omega arith
size_bounds (suc zero) lt = omega arith
size_bounds (suc (suc zero)) lt = omega arith
size_bounds (suc (suc (suc zero))) lt = omega arith
size_bounds (suc (suc (suc (suc zero)))) lt = omega arith
size_bounds (suc (suc (suc (suc (suc zero))))) lt = omega arith
size_bounds (suc (suc (suc (suc (suc (suc zero)))))) lt = omega arith
size_bounds (suc (suc (suc (suc (suc (suc (suc zero))))))) lt = omega arith
size_bounds (suc (suc (suc (suc (suc (suc (suc (suc zero)))))))) lt = omega arith
size_bounds (suc (suc (suc (suc (suc (suc (suc (suc (suc ci))))))))) lt = absurd (omega arith)

-- An object ends inside its page.
pub object_inside :
    (ci page a : ℕ)
    → IsObject ci page a
    → (page + slab_header ≤ a) × (a + size_of ci ≤ page + page_size)
object_inside ci page a (i, lt, eq) =
    let whole : objects_per_slab ci * size_of ci ≤ page_size - slab_header =
      div-mul-le_self (page_size - slab_header) (size_of ci) in
    let step : (i + 1) * size_of ci ≤ objects_per_slab ci * size_of ci =
      mul-le-mul_right (size_of ci) (omega arith) in
    let split : (i + 1) * size_of ci ≡ i * size_of ci + size_of ci = grind arith in
    (omega (arith, eq), omega (arith, eq, whole, step, split))

pub page_of-object :
    (ci page a : ℕ)
    → ci < num_classes
    → page % page_size ≡ 0
    → IsObject ci page a
    → page_of a ≡ page
page_of-object ci page a small aligned at =
    let inside = object_inside ci page a at in
    let bounds = size_bounds ci small in
    let low : page ≤ a = omega (arith, inside.0) in
    let high : a < page + 4096 = omega (arith, inside.1, bounds.0) in
    omega (arith, aligned, low, high)

-- Two objects of a slab do not overlap.
pub objects_apart :
    (ci page a b : ℕ)
    → IsObject ci page a
    → IsObject ci page b
    → a ≢ b
    → (a + size_of ci ≤ b) ⊎ (b + size_of ci ≤ a)
objects_apart ci page a b (i, lt, eq) (j, lt', eq') differ = elim (dec_lt i j) [
  | yes before ↦
      let step : (i + 1) * size_of ci ≤ j * size_of ci =
        mul-le-mul_right (size_of ci) (omega arith) in
      let split : (i + 1) * size_of ci ≡ i * size_of ci + size_of ci = grind arith in
      inl (omega (arith, eq, eq', step, split))
  | no other ↦ elim (dec_lt j i) [
    | yes after ↦
        let step : (j + 1) * size_of ci ≤ i * size_of ci =
          mul-le-mul_right (size_of ci) (omega arith) in
        let split : (j + 1) * size_of ci ≡ j * size_of ci + size_of ci = grind arith in
        inr (omega (arith, eq, eq', step, split))
    | no same ↦
        let index : i ≡ j = omega (arith, other, same) in
        absurd (differ (eq ∙ ap (λ k. page + slab_header + k * size_of ci) index ∙ sym eq'))
  ]
]

-- How often the values of `f` below `n` stand in a list, all together.
sum_counts : (ℕ → ℕ) → ℕ → List ℕ → ℕ
sum_counts f zero xs = 0
sum_counts f (suc n) xs = count (f n) xs + sum_counts f n xs

sum_counts-cons-le :
    (f : ℕ → ℕ) (n x : ℕ) (xs : List ℕ) → sum_counts f n xs ≤ sum_counts f n (x ∷ xs)
unfolding sum_counts count
sum_counts-cons-le f zero x xs = omega arith
sum_counts-cons-le f (suc n) x xs = omega (arith, sum_counts-cons-le f n x xs)

count_grows : (a x : ℕ) (xs : List ℕ) → count a xs ≤ count a (x ∷ xs)
unfolding count
count_grows a x xs = omega arith

sum_counts-cons :
    (f : ℕ → ℕ) (n i : ℕ) (xs : List ℕ) → i < n → sum_counts f n xs + 1 ≤ sum_counts f n (f i ∷ xs)
unfolding sum_counts
sum_counts-cons f zero i xs lt = absurd (omega arith)
sum_counts-cons f (suc n) i xs lt = elim (ℕ_discrete i n) [
  | yes e ↦ rw e (omega (arith, count-here (f n) xs, sum_counts-cons-le f n (f n) xs))
  | no ne ↦ omega (arith, sum_counts-cons f n i xs (omega (arith, ne)), count_grows (f n) (f i) xs)
]

length-le-sum_counts :
    (f : ℕ → ℕ) (n : ℕ) (xs : List ℕ)
    → All (λ a. (i : ℕ) × (i < n) × (a ≡ f i)) xs
    → length xs ≤ sum_counts f n xs
length-le-sum_counts f n [] known = omega arith
length-le-sum_counts f n (x ∷ xs) known =
    let (i, lt, eq) = known.0 in
    rw eq (omega (arith, length-le-sum_counts f n xs known.1, sum_counts-cons f n i xs lt))

sum_counts-le :
    (f : ℕ → ℕ) (n : ℕ) (xs : List ℕ) → ((a : ℕ) → count a xs ≤ 1) → sum_counts f n xs ≤ n
unfolding sum_counts
sum_counts-le f zero xs distinct = omega arith
sum_counts-le f (suc n) xs distinct = omega (arith, sum_counts-le f n xs distinct, distinct (f n))

sum_counts-lt :
    (f : ℕ → ℕ) (n j : ℕ) (xs : List ℕ)
    → ((a : ℕ) → count a xs ≤ 1)
    → j < n
    → count (f j) xs ≡ 0
    → sum_counts f n xs < n
unfolding sum_counts
sum_counts-lt f zero j xs distinct lt absent = absurd (omega arith)
sum_counts-lt f (suc n) j xs distinct lt absent = elim (ℕ_discrete j n) [
  | yes e ↦
      let here : count (f n) xs ≡ 0 = rw (← e) absent in
      omega (arith, here, sum_counts-le f n xs distinct)
  | no ne ↦
      omega (arith, sum_counts-lt f n j xs distinct (omega (arith, ne)) absent, distinct (f n))
]

-- A list of distinct objects is no longer than there are objects.
pub length-le-objects_per_slab :
    (ci page : ℕ) (xs : List ℕ)
    → All (IsObject ci page) xs
    → ((a : ℕ) → count a xs ≤ 1)
    → length xs ≤ objects_per_slab ci
length-le-objects_per_slab ci page xs known distinct =
    let f : ℕ → ℕ = λ i. page + slab_header + i * size_of ci in
    omega (
      arith,
      length-le-sum_counts f (objects_per_slab ci) xs known,
      sum_counts-le f (objects_per_slab ci) xs distinct,
    )

-- If as many distinct objects are on a list as there are, every object is on it.
pub all_listed :
    (ci page a : ℕ) (xs : List ℕ)
    → All (IsObject ci page) xs
    → ((b : ℕ) → count b xs ≤ 1)
    → length xs ≡ objects_per_slab ci
    → IsObject ci page a
    → 0 < count a xs
all_listed ci page a xs known distinct full (j, lt, eq) =
    let f : ℕ → ℕ = λ i. page + slab_header + i * size_of ci in
    rw eq (elim (dec_lt 0 (count (f j) xs)) [
      | yes there ↦ there
      | no absent ↦ absurd (
          omega (
            arith,
            length-le-sum_counts f (objects_per_slab ci) xs known,
            full,
            sum_counts-lt f (objects_per_slab ci) j xs distinct lt (omega (arith, absent)),
          ))
    ])

-- The fresh list of a slab holds its objects, each once.
objects_known :
    (size base n m k : ℕ)
    → k + n ≡ m
    → All (λ a. (i : ℕ) × (i < m) × (a ≡ base + i * size)) (objects (base + k * size) size n)
unfolding objects
objects_known size base zero m k whole = tt
objects_known size base (suc n) m k whole =
    let next : base + k * size + size ≡ base + (k + 1) * size = grind arith in
    ((k, omega arith, refl), rw next (objects_known size base n m (k + 1) (omega arith)))

pub objects-IsObject :
    (ci page : ℕ)
    → All (IsObject ci page) (objects (page + slab_header) (size_of ci) (objects_per_slab ci))
objects-IsObject ci page =
    let start : page + slab_header + 0 * size_of ci ≡ page + slab_header = omega arith in
    rw start at (
      objects_known (size_of ci) (page + slab_header) (objects_per_slab ci) (objects_per_slab ci) 0
        (omega arith))

objects_above : (a base size n : ℕ) → a < base → count a (objects base size n) ≡ 0
unfolding objects
objects_above a base size zero lt = count_nil a
objects_above a base size (suc n) lt =
    let ne : (a == base) ≡ false = ground arith in
    count-there a base _ ne ∙ objects_above a (base + size) size n (omega arith)

pub objects_distinct : (base size n a : ℕ) → 0 < size → count a (objects base size n) ≤ 1
unfolding objects
objects_distinct base size zero a p = omega (arith, count_nil a)
objects_distinct base size (suc n) a p = elim (Bool-cases (a == base)) [
  | inl e ↦ rw (==→eq a base e) (
      omega (
        arith,
        count-here base (objects (base + size) size n),
        objects_above base (base + size) size n (omega arith),
      ))
  | inr ne ↦ omega (
    arith,
    count-there a base (objects (base + size) size n) ne,
    objects_distinct (base + size) size n a p,
  )
]

pub length-objects : (base size n : ℕ) → length (objects base size n) ≡ n
unfolding objects
length-objects base size zero = refl
length-objects base size (suc n) = omega (arith, length-objects (base + size) size n)
