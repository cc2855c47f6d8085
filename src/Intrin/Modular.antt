-- ===== src/Intrin/Modular.antt =====
-- intrinsics/intrinsics.c: the product and the power of limbs modulo a limb. `modmul_wide` is
-- `__MODMUL_UI64__` where the compiler has `__int128`, `modmul` its other branch, on `wmul128`;
-- `modexp` is `__MODEXP_UI64__` on the former. A zero modulus is undefined in C.
pub mod Reversed
pub mod Power
use dynamol.Base.{
  ℕ, zero, suc, ◌+◌, ◌-◌, ◌*◌, ◌/◌, ◌%◌, ◌^◌, Bool, if◌then◌else◌, ◌==◌, leb, u64, bit_and, bit_or,
  ◌>>>◌,
}
use dynamol.Intrin.Arith.{wmul128}

unfoldable pub modmul_wide : ℕ → ℕ → ℕ → ℕ
modmul_wide a b modulus = let (lo, hi) = wmul128 a b in bit_or (hi * 2 ^ 64) lo % modulus

-- One round: the remainder is doubled, and bit `i` of the low half comes in.
pub modmul_round : ℕ → ℕ → ℕ → ℕ → ℕ
modmul_round modulus lo i rem =
    let doubled = if leb (modulus - rem) rem then rem - (modulus - rem) else rem + rem in
    let more = if leb modulus (doubled + 1) then doubled + 1 - modulus else doubled + 1 in
    if bit_and (lo >>> i) 1 == 0 then doubled else more

-- `left` rounds from round `i` on.
pub modmul_loop : ℕ → ℕ → ℕ → ℕ → ℕ → ℕ
modmul_loop modulus lo zero i rem = rem
modmul_loop modulus lo (suc left) i rem =
    modmul_loop modulus lo left (suc i) (modmul_round modulus lo i rem)

pub modmul : ℕ → ℕ → ℕ → ℕ
modmul a b modulus =
    let (lo, hi) = wmul128 a b in
    if hi == 0 then lo % modulus else modmul_loop modulus lo 64 0 (hi % modulus)

-- `while (exp > 0)`, on fuel.
pub modexp_loop : ℕ → ℕ → ℕ → ℕ → ℕ → ℕ
modexp_loop modulus zero base exp res = res
modexp_loop modulus (suc fuel) base exp res =
    let res' = if bit_and exp 1 == 0 then res else modmul_wide res base modulus in
    let rest = modexp_loop modulus fuel (modmul_wide base base modulus) (exp >>> 1) res' in
    if exp == 0 then res else rest

-- 64 rounds empty an exponent of 64 bits.
pub modexp : ℕ → ℕ → ℕ → ℕ
modexp base exp modulus =
    if modulus == 1
    then 0
    else if exp == 0
    then 1
    else if exp == 1
    then base
    else modexp_loop modulus 64 (base % modulus) exp 1
