-- ===== src/Klibc/Strings.antt =====
-- klibc/string.c: lengths and comparisons of blocks and strings.
use bleed_kernel.Common.{
  ℕ, zero, suc, ◌+◌, ◌%◌, Bool, not, ◌&&◌, Option, none, some, if◌then◌else◌, ltb, ◌==◌, length, ℤ,
  pos, negsuc,
}
use bleed_kernel.Klibc.Memory.{Mem}

-- The loop of strlen, on fuel.
unfoldable pub strlen_loop : ℕ → Mem → ℕ → ℕ → ℕ
strlen_loop zero m string length = length
strlen_loop (suc fuel) m string length =
    let rest = strlen_loop fuel m (string + 1) (length + 1) in
    if not (m string == 0) then rest else length

-- strlen
unfoldable pub strlen : ℕ → Mem → ℕ → ℕ
strlen fuel m string = if string == 0 then 0 else strlen_loop fuel m string 0

-- strnlen; the loop is on the bytes that are left of `n`.
unfoldable pub strnlen_loop : ℕ → Mem → ℕ → ℕ → ℕ
strnlen_loop zero m s len = len
strnlen_loop (suc left) m s len =
    let rest = strnlen_loop left m s (len + 1) in if not (m (s + len) == 0) then rest else len

unfoldable pub strnlen : Mem → ℕ → ℕ → ℕ
strnlen m s n = if s == 0 then 0 else strnlen_loop n m s 0

-- memcmp: 0, -1 or 1; the loop is on the bytes that are left of `n`.
unfoldable pub memcmp_loop : ℕ → Mem → ℕ → ℕ → ℕ → ℤ
memcmp_loop zero m p1 p2 i = pos 0
memcmp_loop (suc left) m p1 p2 i =
    let rest = memcmp_loop left m p1 p2 (i + 1) in
    if not (m (p1 + i) == m (p2 + i))
    then (if ltb (m (p1 + i)) (m (p2 + i)) then negsuc 0 else pos 1)
    else rest

unfoldable pub memcmp : Mem → ℕ → ℕ → ℕ → ℤ
memcmp m s1 s2 n = memcmp_loop n m s1 s2 0

-- `<` between `char`s, which have a sign on x86: bytes from 128 on are negative.
abbrev pub char_lt : ℕ → ℕ → Bool
char_lt a b = ltb ((a + 128) % 256) ((b + 128) % 256)

-- strcmp, on fuel.
unfoldable pub strcmp : ℕ → Mem → ℕ → ℕ → ℤ
strcmp zero m s1 s2 = pos 0
strcmp (suc fuel) m s1 s2 =
    let rest = strcmp fuel m (s1 + 1) (s2 + 1) in
    if not (m s1 == 0) && not (m s2 == 0)
    then (if not (m s1 == m s2) then (if char_lt (m s1) (m s2) then negsuc 0 else pos 1) else rest)
    else if m s1 == m s2
    then pos 0
    else if char_lt (m s1) (m s2)
    then negsuc 0
    else pos 1

-- strncmp; the loop is on the bytes that are left of `n`.
unfoldable pub strncmp_loop : ℕ → Mem → ℕ → ℕ → ℕ → ℤ
strncmp_loop zero m s1 s2 i = pos 0
strncmp_loop (suc left) m s1 s2 i =
    let rest = strncmp_loop left m s1 s2 (i + 1) in
    if not (m (s1 + i) == m (s2 + i))
    then (if char_lt (m (s1 + i)) (m (s2 + i)) then negsuc 0 else pos 1)
    else if m (s1 + i) == 0
    then pos 0
    else rest

unfoldable pub strncmp : Mem → ℕ → ℕ → ℕ → ℤ
strncmp m s1 s2 n = strncmp_loop n m s1 s2 0

-- strchr, on fuel: `none` for NULL. A `char` of the `int` is its low byte.
unfoldable pub strchr : ℕ → Mem → ℕ → ℕ → Option ℕ
strchr zero m s c = none
strchr (suc fuel) m s c =
    let rest = strchr fuel m (s + 1) c in
    if m s == 0 then none else if m s == c % 256 then some s else rest

-- A store of a byte.
abbrev pub store : Mem → ℕ → ℕ → Mem
store m at v i = if i == at then v else m i

-- strcpy, on fuel: memory after it.
unfoldable pub strcpy : ℕ → Mem → ℕ → ℕ → Mem
strcpy zero m d src = m
strcpy (suc fuel) m d src =
    let rest = strcpy fuel (store m d (m src)) (d + 1) (src + 1) in
    if not (m src == 0) then rest else store m d 0

-- strncpy: the zeros that pad, and the loop on the bytes that are left of `n`.
unfoldable pub pad : ℕ → Mem → ℕ → ℕ → Mem
pad zero m d i = m
pad (suc left) m d i = pad left (store m (d + i) 0) d (i + 1)

unfoldable pub strncpy_loop : ℕ → Mem → ℕ → ℕ → ℕ → Mem
strncpy_loop zero m d src i = m
strncpy_loop (suc left) m d src i =
    let rest = strncpy_loop left (store m (d + i) (m (src + i))) d src (i + 1) in
    if not (m (src + i) == 0) then rest else pad (suc left) m d i

unfoldable pub strncpy : Mem → ℕ → ℕ → ℕ → Mem
strncpy m dest src n = strncpy_loop n m dest src 0
