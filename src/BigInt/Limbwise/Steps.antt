-- ===== src/BigInt/Limbwise/Steps.antt =====
-- The steps of the passes as arithmetic on one limb.
use dynamol.Base.{
  ℕ, ◌+◌, ◌-◌, ◌*◌, ◌/◌, ◌≤◌, ◌<◌, ◌≡◌, arith, word, u64, flag, ltb, leb, sub64, if◌then◌else◌,
  ◌==◌, ◌>>>◌,
}
use native.Mathlib.Nat.{mul-le-mul}
use dynamol.Intrin.Arith.{wmul128}
use dynamol.Intrin.Arith.Wide.{wmul128_lem, wdiv128_exact}
use dynamol.BigInt.Limbwise.{mul_step, div_step, div3_step}
use dynamol.BigInt.Limbwise.Passes.{IsScaling, IsDividing}

-- The product and a carry below the factor.
pub mul_step-IsScaling : (val : ℕ) → val < word → IsScaling (mul_step val) val
unfolding mul_step
mul_step-IsScaling val hv = record {
  scales = λ l c hl hc. (lem l c hl hc).0;
  scaled_limb = λ l c hl hc. (lem l c hl hc).1;
  scaled_carry = λ l c hl hc. (lem l c hl hc).2;
}
  where
    digits :
        (lo hi p l c : ℕ)
        → lo + word * hi ≡ p
        → lo < word
        → hi < word
        → p ≤ (word - 1) * val
        → c < val
        → (u64 (lo + c) + word * u64 (hi + flag (ltb (u64 (lo + c)) lo)) ≡ p + c)
          × (u64 (lo + c) < word)
          × (u64 (hi + flag (ltb (u64 (lo + c)) lo)) < val)
    digits lo hi p l c e hl hh bound hc = ground arith

    bounded : (l : ℕ) → l < word → l * val ≤ (word - 1) * val
    bounded l h = mul-le-mul {n₂ = word - 1} {m₂ = val} (omega arith) (omega arith)

    lem :
        (l c : ℕ)
        → l < word
        → c < val
        → ((mul_step val l c).0 + word * (mul_step val l c).1 ≡ val * l + c)
          × ((mul_step val l c).0 < word)
          × ((mul_step val l c).1 < val)
    lem l c hl hc =
        let (e, low, high) = wmul128_lem l val hl hv in
        let (sum, a, b) =
          digits (wmul128 l val).0 (wmul128 l val).1 (l * val) l c e low high (bounded l hl) hc in
        (omega (arith, sum), a, b)

pub div_step-IsDividing : (val : ℕ) → val < word → IsDividing (div_step val) val
div_step-IsDividing val hv = record {
  divides = λ l c hl hc. let (e, r, q, o) = wdiv128_exact l c val hl hv hc in omega (arith, e);
  quotient_limb = λ l c hl hc. (wdiv128_exact l c val hl hv hc).2;
  remainder_lt = λ l c hl hc. (wdiv128_exact l c val hl hv hc).1;
}

div3_lem :
    (a r hi lo : ℕ)
    → a < word
    → r < 3
    → lo + word * hi ≡ a * 12297829382473034411
    → lo < word
    → (hi / 2 ≡ a / 3)
div3_lem a r hi lo ha hr e hl = omega (arith, e, ha, hl)

-- One step of the division by 3, once the third of the limb is known.
div3_digits :
    (a r q : ℕ)
    → q ≡ a / 3
    → a < word
    → r < 3
    → (3
            * u64 (
                u64 (q + u64 (r * 6148914691236517205))
                + flag (leb 3 (u64 (r + sub64 a (u64 (q * 3))))))
          + (u64 (r + sub64 a (u64 (q * 3)))
              - (if flag (leb 3 (u64 (r + sub64 a (u64 (q * 3))))) == 0 then 0 else 3))
        ≡ r * word + a)
      × (u64 (r + sub64 a (u64 (q * 3)))
            - (if flag (leb 3 (u64 (r + sub64 a (u64 (q * 3))))) == 0 then 0 else 3)
          < 3)
div3_digits a r q e ha hr =
    let left : sub64 a (u64 (q * 3)) ≡ a - q * 3 = omega (arith, e, ha) in
    rw left (ground (arith, e, ha, hr))

div3_step_lem :
    (a r : ℕ)
    → a < word
    → r < 3
    → (3 * (div3_step a r).0 + (div3_step a r).1 ≡ r * word + a) × ((div3_step a r).1 < 3)
unfolding div3_step
div3_step_lem a r ha hr =
    let (e, low, high) = wmul128_lem a 12297829382473034411 ha (omega arith) in
    div3_digits a r ((wmul128 a 12297829382473034411).1 >>> 1) (div3_lem a r _ _ ha hr e low) ha hr

pub div3_step-IsDividing : IsDividing div3_step 3
unfolding div3_step
div3_step-IsDividing = record {
  divides = λ a r ha hr. (div3_step_lem a r ha hr).0;
  quotient_limb = λ a r ha hr. omega arith;
  remainder_lt = λ a r ha hr. (div3_step_lem a r ha hr).1;
}
