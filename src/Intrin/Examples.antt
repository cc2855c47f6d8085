-- ===== src/Intrin/Examples.antt =====
-- The limb operations at concrete words.
use dynamol.Base.{
  ℕ, ◌+◌, ◌*◌, ◌-◌, ◌^◌, ◌≤◌, ◌<◌, ◌≡◌, arith, word, refl, flag, ltb, leb, if◌then◌else◌, ◌==◌, u64,
  u64_max,
}
use dynamol.Intrin.Arith.{add64c, sub64b, wmul128, wdiv128}
use dynamol.Intrin.Arith.Wide.{limbs_lem, wdiv128_exact}
use dynamol.Intrin.Crt.{crt_lt, crt_gt, crt_leq, crt_geq, crt_select, crt_add64c, crt_sub64b}
use dynamol.Intrin.Crt.{crt_wmul128, crt_wdiv128}
use dynamol.Intrin.Crt.Same.{crt_limbs_lem}
use dynamol.Base.{◌/◌, ◌%◌, ◌^◌, ◌&&◌, not}
use dynamol.Intrin.Modular.{modmul_wide, modmul, modexp}
use dynamol.Intrin.Modular.Reversed.{reversed, modular_lem}
use dynamol.Intrin.Bits.{ctz64, clz64}
use dynamol.Intrin.Bits.Isolate.{LowestBit}
use dynamol.Intrin.Bits.Smear.{LeadingZeros}
use dynamol.Intrin.Crt.{crt_ctz64, crt_clz64}
use dynamol.Intrin.Crt.Leading.{zero_counts_lem}
use dynamol.Intrin.Crt.Wide.{crt_wdiv128_exact, overflows_lem}
use dynamol.Intrin.Modinv.{modinv64, modinv64_lem}

abbrev big : ℕ
big = 2 ^ 64 - 3

wdiv128_exact_example :
    ((wdiv128 9 5 big).quot * big + (wdiv128 9 5 big).rhat ≡ 5 * word + 9)
    × ((wdiv128 9 5 big).rhat < big)
    × ((wdiv128 9 5 big).quot < word)
    × ((wdiv128 9 5 big).overflowed ≡ 0)
wdiv128_exact_example = wdiv128_exact 9 5 big (omega arith) (omega arith) (omega arith)

crt_wdiv128_exact_example :
    ((crt_wdiv128 9 5 big).quot * big + (crt_wdiv128 9 5 big).rhat ≡ 5 * word + 9)
    × ((crt_wdiv128 9 5 big).rhat < big)
    × ((crt_wdiv128 9 5 big).quot < word)
    × ((crt_wdiv128 9 5 big).overflowed ≡ 0)
crt_wdiv128_exact_example = crt_wdiv128_exact 9 5 big (omega arith) (omega arith) (omega arith)

modinv64_lem_example : u64 (big * modinv64 big) ≡ 1
modinv64_lem_example = modinv64_lem big refl

overflows_lem_example :
    ((wdiv128 9 5 3).overflowed ≡ 1)
    × ((wdiv128 9 5 3).quot ≡ word - 1)
    × (crt_wdiv128 9 5 3 ≡ record { quot = u64_max; rhat = 0; overflowed = 1 })
overflows_lem_example = overflows_lem 9 5 3 (omega arith) (omega arith)

limbs_lem_example :
    (((add64c big 7 1).0 + word * (add64c big 7 1).1 ≡ big + 7 + 1)
      × ((add64c big 7 1).0 < word)
      × ((add64c big 7 1).1 ≤ 1))
    × (((sub64b big 7 1).0 + 7 + 1 ≡ big + word * (sub64b big 7 1).1)
        × ((sub64b big 7 1).0 < word)
        × ((sub64b big 7 1).1 ≤ 1))
    × (((wmul128 big 7).0 + word * (wmul128 big 7).1 ≡ big * 7)
        × ((wmul128 big 7).0 < word)
        × ((wmul128 big 7).1 < word))
limbs_lem_example = limbs_lem big 7 1 (omega arith) (omega arith) (omega arith)

crt_limbs_lem_example :
    (crt_lt big 9 ≡ flag (ltb big 9))
    × (crt_gt big 9 ≡ flag (ltb 9 big))
    × (crt_leq big 9 ≡ flag (leb big 9))
    × (crt_geq big 9 ≡ flag (leb 9 big))
    × (crt_select 4 big 9 ≡ (if 4 == 0 then 9 else big))
    × (crt_add64c big 9 1 ≡ add64c big 9 1)
    × (crt_sub64b big 9 1 ≡ sub64b big 9 1)
    × (crt_wmul128 big 9 ≡ wmul128 big 9)
crt_limbs_lem_example = crt_limbs_lem 4 big 9 1 (omega arith) (omega arith)

zero_counts_lem_example :
    LowestBit 64 88 (ctz64 88)
    × LeadingZeros 88 (clz64 88)
    × LowestBit 64 88 (crt_ctz64 88)
    × LeadingZeros 88 (crt_clz64 88)
zero_counts_lem_example = zero_counts_lem 88 (λ e. absurd (omega (arith, e))) (omega arith)

modular_lem_example :
    (modmul_wide big 10 7 ≡ big * 10 % 7)
    × (modmul big 10 7 ≡ (
        if big * 10 / word == 0
        then big * 10 % 7
        else (big * 10 / word * word + reversed 64 (big * 10 % word)) % 7))
    × (modexp big 10 7 ≡ (if (10 == 1) && not (7 == 1) then big else big ^ 10 % 7))
modular_lem_example = modular_lem big 10 7 (omega arith) (omega arith) (omega arith) (omega arith)
