-- ===== src/Klibc/Tests.antt =====
-- Concrete memory: runs of the routines, and the theorems at it.
use bleed_kernel.Common.{◌||◌, ◌%◌, ◌≡◌, refl, if◌then◌else◌, ◌==◌, arith, min, pos, negsuc}
use bleed_kernel.Klibc.Memory.{Mem, move_block, memmove, memset, fill_block}
use bleed_kernel.Klibc.Backward.{memmove-move_block}
use bleed_kernel.Klibc.Strings.{strnlen, memcmp, memcmp_loop, strncmp, strncmp_loop}
use bleed_kernel.Klibc.Fill.{memset-fill_block}
use bleed_kernel.Klibc.Tokens.{strtok_r, skip_delims, next_delim, is_delim}
use bleed_kernel.Klibc.Compare.{IsString, strnlen_length, Compared, memcmp-Compared}

-- Every address holds its own low byte.
abbrev plain : Mem
plain i = i % 256

memmove-move_block_example :
    memmove plain 3000 2000 5000 7000 ≡ move_block plain 3000 2000 5000 7000
memmove-move_block_example = memmove-move_block plain 3000 2000 5000 7000

-- The string at 254: two bytes and the 0.
two_bytes : IsString plain 254 2
two_bytes = (λ k lt. omega arith, refl)

strnlen_of_two : strnlen plain 254 1 ≡ min 2 1
strnlen_of_two = strnlen_length plain 254 2 1 refl two_bytes

memcmp-Compared_example : Compared plain 250 506 0 9 (memcmp plain 250 506 9)
memcmp-Compared_example = memcmp-Compared plain 250 506 9

-- Two strings of one byte each, 127 and 200.
abbrev words : Mem
words i = if i == 10 then 127 else if i == 20 then 200 else 0

memcmp_unsigned : memcmp words 10 20 1 ≡ negsuc 0
unfolding memcmp memcmp_loop
memcmp_unsigned = refl

strncmp_signed : strncmp words 10 20 1 ≡ pos 1
unfolding strncmp strncmp_loop
strncmp_signed = refl

memset-fill_block_example :
    memset plain 100 300 2000 2099 ≡ fill_block plain 100 (300 % 256) 2000 2099
memset-fill_block_example = memset-fill_block plain 100 300 2000 2099

-- The string ",ab,c" at 10, and the delimiter "," at 30.
abbrev list_of_two : Mem
list_of_two i =
    if i == 10 || (i == 13 || i == 30)
    then 44
    else if i == 11
    then 97
    else if i == 12
    then 98
    else if i == 14
    then 99
    else 0

first_token : (strtok_r 9 list_of_two 10 30 0).0 ≡ 11
unfolding strtok_r skip_delims next_delim is_delim
first_token = refl

saved_place : (strtok_r 9 list_of_two 10 30 0).1 ≡ 14
unfolding strtok_r skip_delims next_delim is_delim
saved_place = refl
