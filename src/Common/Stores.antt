-- ===== src/Common/Stores.antt =====
-- Stores at an index of a table.
use Prim.Native.Nat.{ℕ}
use mathlib.Core.Path.{◌≡◌, refl, sym, subst}
use mathlib.Core.Logic.{◌≢◌, inl, inr}
use mathlib.Core.Bool.{Bool, true, false}
use bleed_kernel.Common.Tests.{if◌then◌else◌, ◌==◌, Bool-cases, ==→eq}
use native.Mathlib.Omega.{arith}

abbrev pub put {ℓ} : {A : Type ℓ} → ℕ → A → (ℕ → A) → ℕ → A
put i v f j = if j == i then v else f j

pub put_self {ℓ} : {A : Type ℓ} (i : ℕ) (v : A) (f : ℕ → A) → put i v f i ≡ v
put_self i v f = let same : (i == i) ≡ true = ground arith in rw same refl

pub put_ne {ℓ} : {A : Type ℓ} (i j : ℕ) (v : A) (f : ℕ → A) → (j == i) ≡ false → put i v f j ≡ f j
put_ne i j v f ne = rw ne refl

pub ne→== : (a b : ℕ) → a ≢ b → (a == b) ≡ false
ne→== a b ne = ground arith

-- What holds of the value stored, and of every other entry, holds of the table.
pub put_all {ℓ ℓ'} :
    {A : Type ℓ} (P : ℕ → A → Type ℓ') (i : ℕ) (v : A) (f : ℕ → A)
    → P i v
    → ((j : ℕ) → (j == i) ≡ false → P j (f j))
    → (j : ℕ) → P j (put i v f j)
put_all P i v f here away j = elim (Bool-cases (j == i)) [
  | inl e ↦ rw e (subst (λ k. P k v) (sym (==→eq j i e)) here)
  | inr ne ↦ rw ne (away j ne)
]

-- What holds of both branches of a test holds of the test.
pub if_either {ℓ ℓ'} :
    {A : Type ℓ} (P : A → Type ℓ') (b : Bool) (x y : A)
    → (b ≡ true → P x)
    → (b ≡ false → P y)
    → P (if b then x else y)
if_either P true x y first second = first refl
if_either P false x y first second = second refl
