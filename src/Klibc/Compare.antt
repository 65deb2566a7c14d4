-- ===== src/Klibc/Compare.antt =====
-- What the comparisons and lengths say of the bytes.
use bleed_kernel.Common.{
  ℕ, zero, suc, ◌+◌, ◌<◌, ◌≡◌, ◌≢◌, refl, sym, ap, ◌∙◌, inl, inr, true, false, ltb, ◌==◌,
  Bool-cases, arith, min, ℤ, ltb→lt, ==→eq, pos, negsuc,
}
use mathlib.Core.Path.{subst}
use bleed_kernel.Klibc.Memory.{Mem}
use bleed_kernel.Klibc.Strings.{strlen, strlen_loop, strnlen, strnlen_loop, memcmp, memcmp_loop}

-- A string of `len` bytes, with its 0 behind them.
abbrev pub IsString : Mem → ℕ → ℕ → Type 0
IsString m s len = ((k : ℕ) → k < len → m (s + k) ≢ 0) × (m (s + len) ≡ 0)

strlen_from :
    (fuel : ℕ) (m : Mem) (s len base : ℕ)
    → IsString m s len
    → len < fuel
    → strlen_loop fuel m s base ≡ base + len
unfolding strlen_loop
strlen_from zero m s len base str fed = absurd (omega arith)
strlen_from (suc fuel) m s zero base str fed =
    let end : m s ≡ 0 = ap m (omega arith) ∙ str.1 in
    let stop : (m s == 0) ≡ true = rw end refl in rw stop (omega arith)
strlen_from (suc fuel) m s (suc len) base str fed =
    let here : m s ≢ 0 = λ e. str.0 0 (omega arith) (ap m (omega arith) ∙ e) in
    let go : (m s == 0) ≡ false = ground (arith, here) in
    let shift : (k : ℕ) → s + 1 + k ≡ s + suc k = λ k. omega arith in
    let rest : IsString m (s + 1) len = (
      λ k lt e. str.0 (suc k) (omega arith) (ap m (sym (shift k)) ∙ e),
      ap m (shift len) ∙ str.1,
    ) in
    rw go (strlen_from fuel m (s + 1) len (base + 1) rest (omega arith) ∙ omega arith)

-- strlen gives the length of every string, at an address other than NULL, with fuel for its bytes.
pub strlen_length :
    (fuel : ℕ) (m : Mem) (s len : ℕ)
    → (s == 0) ≡ false
    → IsString m s len
    → len < fuel
    → strlen fuel m s ≡ len
unfolding strlen
strlen_length fuel m s len there str fed =
    rw there (strlen_from fuel m s len 0 str fed ∙ omega arith)

strnlen_from :
    (left : ℕ) (m : Mem) (s len i : ℕ)
    → IsString m s (i + len)
    → strnlen_loop left m s i ≡ i + min len left
unfolding strnlen_loop
strnlen_from zero m s len i str = omega arith
strnlen_from (suc left) m s zero i str =
    let end : m (s + i) ≡ 0 = ap m (omega arith) ∙ str.1 in
    let stop : (m (s + i) == 0) ≡ true = rw end refl in rw stop (omega arith)
strnlen_from (suc left) m s (suc len) i str =
    let here : m (s + i) ≢ 0 = str.0 i (omega arith) in
    let go : (m (s + i) == 0) ≡ false = ground (arith, here) in
    let total : i + suc len ≡ i + 1 + len = omega arith in
    let same : IsString m s (i + 1 + len) = subst (λ n. IsString m s n) total str in
    rw go (strnlen_from left m s len (i + 1) same ∙ omega arith)

-- strnlen gives the length of every string, and no more than `n`.
pub strnlen_length :
    (m : Mem) (s len n : ℕ) → (s == 0) ≡ false → IsString m s len → strnlen m s n ≡ min len n
unfolding strnlen
strnlen_length m s len n there str =
    let same : IsString m s (0 + len) = subst (λ k. IsString m s k) (omega arith) str in
    rw there (strnlen_from n m s len 0 same ∙ omega arith)

-- The `k` bytes of both blocks from `i` on are the same.
abbrev pub Alike : Mem → ℕ → ℕ → ℕ → ℕ → Type 0
Alike m p1 p2 i k = (j : ℕ) → j < k → m (p1 + (i + j)) ≡ m (p2 + (i + j))

Alike-suc :
    (m : Mem) (p1 p2 i k : ℕ)
    → m (p1 + i) ≡ m (p2 + i)
    → Alike m p1 p2 (i + 1) k
    → Alike m p1 p2 i (suc k)
Alike-suc m p1 p2 i k same h zero lt = let here : i + 0 ≡ i = omega arith in rw here same
Alike-suc m p1 p2 i k same h (suc j) lt =
    let on : i + suc j ≡ i + 1 + j = omega arith in rw on (h j (omega arith))

-- The outcome of a comparison of `n` bytes from `i` on: they are all alike, or there is a first place
-- where they differ, and the sign tells which block has the smaller byte there.
abbrev pub Compared : Mem → ℕ → ℕ → ℕ → ℕ → ℤ → Type 0
Compared m p1 p2 i n (pos zero) = Alike m p1 p2 i n
Compared m p1 p2 i n (pos (suc r)) =
    (k : ℕ) × (k < n) × (m (p2 + (i + k)) < m (p1 + (i + k))) × Alike m p1 p2 i k
Compared m p1 p2 i n (negsuc r) =
    (k : ℕ) × (k < n) × (m (p1 + (i + k)) < m (p2 + (i + k))) × Alike m p1 p2 i k

Compared-suc :
    (m : Mem) (p1 p2 i n : ℕ) (r : ℤ)
    → m (p1 + i) ≡ m (p2 + i)
    → Compared m p1 p2 (i + 1) n r
    → Compared m p1 p2 i (suc n) r
Compared-suc m p1 p2 i n (pos zero) same h = Alike-suc m p1 p2 i n same h
Compared-suc m p1 p2 i n (pos (suc r)) same h =
    let on : i + suc h.0 ≡ i + 1 + h.0 = omega arith in
    (suc h.0, omega (arith, h.1), rw on h.2, Alike-suc m p1 p2 i h.0 same h.3)
Compared-suc m p1 p2 i n (negsuc r) same h =
    let on : i + suc h.0 ≡ i + 1 + h.0 = omega arith in
    (suc h.0, omega (arith, h.1), rw on h.2, Alike-suc m p1 p2 i h.0 same h.3)

none_before : (m : Mem) (p1 p2 i : ℕ) → Alike m p1 p2 i 0
none_before m p1 p2 i j lt = absurd (omega arith)

memcmp_loop-Compared :
    (left : ℕ) (m : Mem) (p1 p2 i : ℕ) → Compared m p1 p2 i left (memcmp_loop left m p1 p2 i)
unfolding memcmp_loop
memcmp_loop-Compared zero m p1 p2 i = none_before m p1 p2 i
memcmp_loop-Compared (suc left) m p1 p2 i =
    let here : i + 0 ≡ i = omega arith in
    elim (Bool-cases (m (p1 + i) == m (p2 + i))) [
      | inl same ↦ rw same (
          Compared-suc m p1 p2 i left (memcmp_loop left m p1 p2 (i + 1)) (==→eq _ _ same)
            (memcmp_loop-Compared left m p1 p2 (i + 1)))
      | inr differ ↦ elim (Bool-cases (ltb (m (p1 + i)) (m (p2 + i)))) [
        | inl less ↦
            rw (differ, less) (0, omega arith, rw here (ltb→lt _ _ less), none_before m p1 p2 i)
        | inr more ↦
            rw (differ, more)
              (0, omega arith, rw here (ground (arith, differ, more)), none_before m p1 p2 i)
      ]
    ]

-- memcmp is the comparison of the blocks byte by byte: 0 exactly where they are alike, and otherwise the
-- sign of the first difference.
pub memcmp-Compared : (m : Mem) (s1 s2 n : ℕ) → Compared m s1 s2 0 n (memcmp m s1 s2 n)
unfolding memcmp
memcmp-Compared m s1 s2 n = memcmp_loop-Compared n m s1 s2 0
