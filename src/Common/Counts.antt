-- ===== src/Common/Counts.antt =====
-- How often a number stands in a list, and the removal of its first occurrence: the linked lists of
-- the kernel, whose nodes are known by their addresses.
use Prim.Native.Nat.{ℕ, ◌+◌, ◌-◌}
use mathlib.Core.Path.{◌≡◌, refl}
use mathlib.Core.Logic.{inl, inr}
use mathlib.Core.Bool.{true, false}
use mathlib.Core.List.{List, [], ◌∷◌}
use native.Mathlib.Omega.{arith}
use bleed_kernel.Common.Tests.{◌==◌, if◌then◌else◌, Bool-cases, ==→eq}

unfoldable pub count : ℕ → List ℕ → ℕ
count id [] = 0
count id (x ∷ xs) = (if x == id then 1 else 0) + count id xs

-- A node is taken out of its list.
unfoldable pub erase_first : ℕ → List ℕ → List ℕ
erase_first id [] = []
erase_first id (x ∷ xs) = if x == id then xs else x ∷ erase_first id xs

pub count_nil : (id : ℕ) → count id [] ≡ 0
unfolding count
count_nil id = refl

pub count-here : (x : ℕ) (xs : List ℕ) → count x (x ∷ xs) ≡ 1 + count x xs
unfolding count
count-here x xs = let same : (x == x) ≡ true = ground arith in rw same refl

pub count-there : (id x : ℕ) (xs : List ℕ) → (id == x) ≡ false → count id (x ∷ xs) ≡ count id xs
unfolding count
count-there id x xs ne = let other : (x == id) ≡ false = ground arith in rw other (omega arith)

pub count-erase_first_self : (id : ℕ) (xs : List ℕ) → count id (erase_first id xs) ≡ count id xs - 1
unfolding count erase_first
count-erase_first_self id [] = refl
count-erase_first_self id (x ∷ xs) = elim (Bool-cases (x == id)) [
  | inl e ↦ rw e (omega arith)
  | inr ne ↦ rw (ne, ne) (omega (arith, count-erase_first_self id xs))
]

pub count-erase_first_ne :
    (id j : ℕ) (xs : List ℕ) → (id == j) ≡ false → count j (erase_first id xs) ≡ count j xs
unfolding count erase_first
count-erase_first_ne id j [] ne = refl
count-erase_first_ne id j (x ∷ xs) ne =
    let rest = count-erase_first_ne id j xs ne in
    elim (Bool-cases (x == id)) [
      | inl e ↦
          let other : (x == j) ≡ false = ground (arith, ==→eq x id e) in rw (e, other) (omega arith)
      | inr differs ↦ rw differs (omega (arith, rest))
    ]
