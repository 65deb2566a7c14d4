-- ===== src/Klibc/Tokens.antt =====
-- klibc/string.c: joining, copying and cutting up strings.
use bleed_kernel.Common.{
  ℕ, zero, suc, ◌+◌, Bool, true, false, not, ◌&&◌, Option, none, some, if◌then◌else◌, ◌==◌,
}
use bleed_kernel.Klibc.Memory.{Mem, memcpy}
use bleed_kernel.Klibc.Strings.{store, strcpy, strlen}

-- Where the first 0 from `d` on is, on fuel.
unfoldable pub end_of : ℕ → Mem → ℕ → ℕ
end_of zero m d = d
end_of (suc fuel) m d = let rest = end_of fuel m (d + 1) in if not (m d == 0) then rest else d

-- strcat: its second half is the loop of strcpy.
unfoldable pub strcat : ℕ → Mem → ℕ → ℕ → Mem
strcat fuel m dest src = strcpy fuel m (end_of fuel m dest) src

-- The inner loops of strtok_r: whether `c` is one of the delimiters.
unfoldable pub is_delim : ℕ → Mem → ℕ → ℕ → Bool
is_delim zero m c d = false
is_delim (suc fuel) m c d =
    let rest = is_delim fuel m c (d + 1) in
    if m d == 0 then false else if c == m d then true else rest

-- The loop over leading delimiters.
unfoldable pub skip_delims : ℕ → Mem → ℕ → ℕ → ℕ
skip_delims zero m s delim = s
skip_delims (suc fuel) m s delim =
    let rest = skip_delims fuel m (s + 1) delim in
    if not (m s == 0) && is_delim (suc fuel) m (m s) delim then rest else s

-- The loop up to the next delimiter: where it is, `none` if the string ends first.
unfoldable pub next_delim : ℕ → Mem → ℕ → ℕ → Option ℕ
next_delim zero m s delim = none
next_delim (suc fuel) m s delim =
    let rest = next_delim fuel m (s + 1) delim in
    if m s == 0 then none else if is_delim (suc fuel) m (m s) delim then some s else rest

-- strtok_r: the token and `*save`, where 0 is NULL, and memory after it.
unfoldable pub strtok_r : ℕ → Mem → ℕ → ℕ → ℕ → ℕ × ℕ × Mem
strtok_r fuel m s delim save =
    let from = if s == 0 then save else s in
    let token = skip_delims fuel m from delim in
    if from == 0
    then (0, save, m)
    else if m token == 0
    then (0, 0, m)
    else elim (next_delim fuel m token delim) [
      | some at ↦ (token, at + 1, store m at 0)
      | none ↦ (token, 0, m)
    ]

-- strtok: `static_ptr` in place of `*save`.
unfoldable pub strtok : ℕ → Mem → ℕ → ℕ → ℕ → ℕ × ℕ × Mem
strtok fuel m s delim static_ptr = strtok_r fuel m s delim static_ptr

-- strdup: `copy` is what kmalloc gives, 0 where it fails.
unfoldable pub strdup : ℕ → Mem → ℕ → ℕ → ℕ × Mem
strdup fuel m s copy =
    let len = strlen fuel m s in
    if s == 0
    then (0, m)
    else if copy == 0
    then (0, m)
    else (copy, store (memcpy m copy s len) (copy + len) 0)
