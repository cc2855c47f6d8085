-- ===== src/Intrin/Bits.antt =====
-- intrinsics/zvanillc/_vanillc_bitops.c: leading and trailing zeros, portable C. Also `is_2pow`,
-- `__IS_2POW__` of intrinsics/intrinsics.c.
pub mod Isolate
pub mod Zeros
pub mod Smear
use dynamol.Base.{
  ℕ, ◌+◌, ◌*◌, ◌/◌, ◌%◌, ◌^◌, Bool, not, ◌&&◌, if◌then◌else◌, ◌==◌, sub64, u64, ◌>>>◌, bit_and,
  bit_or, List, [], ◌∷◌, get_or,
}

abbrev pub debruijn_clz_table : List ℕ
debruijn_clz_table =
    63 ∷ 62 ∷ 15 ∷ 61 ∷ 6 ∷ 14 ∷ 35 ∷ 60 ∷ 2 ∷ 5 ∷ 13 ∷ 21 ∷ 25 ∷ 34 ∷ 46 ∷ 59 ∷ 1 ∷ 8 ∷ 4 ∷ 27 ∷ 10
    ∷ 12 ∷ 20 ∷ 41 ∷ 18 ∷ 24 ∷ 30 ∷ 33 ∷ 39 ∷ 45 ∷ 51 ∷ 58 ∷ 0 ∷ 16 ∷ 7 ∷ 36 ∷ 3 ∷ 22 ∷ 26 ∷ 47 ∷ 9
    ∷ 28 ∷ 11 ∷ 42 ∷ 19 ∷ 31 ∷ 40 ∷ 52 ∷ 17 ∷ 37 ∷ 23 ∷ 48 ∷ 29 ∷ 43 ∷ 32 ∷ 53 ∷ 38 ∷ 49 ∷ 44 ∷ 54
    ∷ 50 ∷ 55 ∷ 56 ∷ 57 ∷ []

abbrev pub debruijn_ctz_table : List ℕ
debruijn_ctz_table =
    0 ∷ 1 ∷ 48 ∷ 2 ∷ 57 ∷ 49 ∷ 28 ∷ 3 ∷ 61 ∷ 58 ∷ 50 ∷ 42 ∷ 38 ∷ 29 ∷ 17 ∷ 4 ∷ 62 ∷ 55 ∷ 59 ∷ 36
    ∷ 53 ∷ 51 ∷ 43 ∷ 22 ∷ 45 ∷ 39 ∷ 33 ∷ 30 ∷ 24 ∷ 18 ∷ 12 ∷ 5 ∷ 63 ∷ 47 ∷ 56 ∷ 27 ∷ 60 ∷ 41 ∷ 37
    ∷ 16 ∷ 54 ∷ 35 ∷ 52 ∷ 21 ∷ 44 ∷ 32 ∷ 23 ∷ 11 ∷ 46 ∷ 26 ∷ 40 ∷ 15 ∷ 34 ∷ 20 ∷ 31 ∷ 10 ∷ 25 ∷ 14
    ∷ 19 ∷ 9 ∷ 13 ∷ 8 ∷ 7 ∷ 6 ∷ []

-- `table[(x * UINT64_C(0x03F79D71B4CB0A89)) >> 58]`
abbrev pub debruijn : List ℕ → ℕ → ℕ
debruijn table x = get_or table (u64 (x * 285870213051386505) >>> 58) 0

-- `x |= x >> 1; ... x |= x >> 32;`
unfoldable pub smear : ℕ → ℕ
smear x =
    let x1 = bit_or x (x >>> 1) in
    let x2 = bit_or x1 (x1 >>> 2) in
    let x3 = bit_or x2 (x2 >>> 4) in
    let x4 = bit_or x3 (x3 >>> 8) in let x5 = bit_or x4 (x4 >>> 16) in bit_or x5 (x5 >>> 32)

unfoldable pub clz64 : ℕ → ℕ
unfolding smear
clz64 x =
    if x == 0
    then 64
    else if not (bit_and x 9223372036854775808 == 0)
    then 0
    else debruijn debruijn_clz_table (u64 ((smear x >>> 1) + 1))

unfoldable pub ctz64 : ℕ → ℕ
ctz64 x =
    if x == 0
    then 64
    else if not (bit_and x 1 == 0)
    then 0
    else debruijn debruijn_ctz_table (bit_and x (sub64 0 x))

unfoldable pub is_2pow : ℕ → Bool
is_2pow x = not (x == 0) && (bit_and x (sub64 x 1) == 0)
