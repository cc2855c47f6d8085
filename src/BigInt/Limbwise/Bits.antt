-- ===== src/BigInt/Limbwise/Bits.antt =====
-- The steps of the shifts by less than a limb.
use dynamol.Base.{
  ℕ, ◌+◌, ◌-◌, ◌*◌, ◌/◌, ◌%◌, ◌^◌, ◌≤◌, ◌<◌, ◌≡◌, refl, arith, ap, ap₂, sym, ◌∙◌, word, bit_or,
  ◌<<<◌, two-pow-add,
}
use mathlib.Core.Path.{subst}
use dynamol.Base.Bits.Fields.{bit_or-fields, bit_and-mask, bit_or-zero, zero-bit_or}
use dynamol.Base.Bits.Split.{bit_or-IsDigitwise, digitwise-join}
use native.Mathlib.Nat.{
  add-mul-mod_self_left, mod-eq_of_lt, mod-lt, div-add-mod, mul-le-mul, mul-zero, one-le-pow,
  div-lt_iff_lt-mul,
}
use dynamol.BigInt.Limbwise.{left_step, right_step}
use dynamol.BigInt.Limbwise.Passes.{IsScaling, IsDividing}

-- A limb as `k` high bits, weight `m`, and the low bits.
module _ (k : ℕ) (h : k < 64) where
  abbrev f : ℕ
  f = 2 ^ k

  abbrev m : ℕ
  m = 2 ^ (64 - k)

  whole : m * f ≡ word
  whole =
      let sum : 64 - k + k ≡ 64 = omega arith in
      sym (two-pow-add (64 - k) k) ∙ ap (λ (t : ℕ). 2 ^ t) sum

  m-pos : 0 < m
  m-pos = one-le-pow (64 - k) 2 (omega arith)

  f-pos : 0 < f
  f-pos = one-le-pow k 2 (omega arith)

  product_lt : (a b : ℕ) → a < m → b < f → a * f + b < word
  product_lt a b ha hb =
      let rows : (a + 1) * f ≤ m * f = mul-le-mul {n₂ = m} {m₂ = f} (omega arith) (omega arith) in
      omega (arith, rows, whole)

  regroup : (q r : ℕ) → (m * q + r) * f ≡ r * f + m * f * q
  regroup q r = grind arith

  shifted_out : (l : ℕ) → l < word → l / m < f
  shifted_out l hl =
      let turned : m * f ≡ f * m = omega arith in
      (div-lt_iff_lt-mul m-pos).1 (omega (arith, whole, turned, hl))

  raised : (l : ℕ) → l <<< k ≡ l * f % word
  raised l = refl

  shifted_in : (l : ℕ) → l <<< k ≡ l % m * f
  shifted_in l =
      let low : l % m < m = mod-lt _ m-pos in
      let kept : l % m * f < m * f = omega (arith, product_lt (l % m) 0 low f-pos, whole) in
      raised l
      ∙ ap (λ (t : ℕ). l * f % t) (sym whole)
      ∙ ap (λ (t : ℕ). t * f % (m * f)) (sym (div-add-mod l m))
      ∙ ap (λ (t : ℕ). t % (m * f)) (regroup (l / m) (l % m))
      ∙ add-mul-mod_self_left (l % m * f) (m * f) (l / m)
      ∙ mod-eq_of_lt kept

  expand_left : (q r c : ℕ) → r * f + c + m * f * q ≡ f * (m * q + r) + c
  expand_left q r c = grind arith

  -- The shifted limb takes the carry in, and the bits shifted out are the next carry.
  left_lem :
      (l c : ℕ)
      → l < word
      → c < f
      → ((left_step k l c).0 ≡ l % m * f + c) × ((left_step k l c).1 ≡ l / m)
  unfolding left_step
  left_lem l c hl hc = (
    ap (λ (t : ℕ). bit_or t c) (shifted_in l) ∙ bit_or-fields k (l % 2 ^ (64 - k)) c hc,
    bit_and-mask k (l / 2 ^ (64 - k)) ∙ mod-eq_of_lt (shifted_out l hl),
  )

  pub left_step-IsScaling : IsScaling (left_step k) (2 ^ k)
  left_step-IsScaling = record {
    scales = λ l c hl hc.
        let (limb, carry) = left_lem l c hl hc in
        ap₂ (λ (s t : ℕ). s + word * t) limb carry
        ∙ ap (λ (t : ℕ). l % m * f + c + t * (l / m)) (sym whole)
        ∙ expand_left (l / m) (l % m) c
        ∙ ap (λ (t : ℕ). f * t + c) (div-add-mod l m);
    scaled_limb = λ l c hl hc.
        subst (λ t. t < word) (sym (left_lem l c hl hc).0)
          (product_lt (l % m) c (mod-lt _ m-pos) hc);
    scaled_carry = λ l c hl hc. subst (λ t. t < f) (sym (left_lem l c hl hc).1) (shifted_out l hl);
  }

  above : (l c : ℕ) → l < word → c < f → bit_or (l / f) (c * m) ≡ l / f + m * c
  above l c hl hc =
      let low : l / f < m = (div-lt_iff_lt-mul f-pos).1 (omega (arith, whole, hl)) in
      let first : l / f ≡ l / f + m * 0 = omega (arith, mul-zero m) in
      let second : c * m ≡ 0 + m * c = omega arith in
      ap₂ bit_or first second
      ∙ digitwise-join bit_or-IsDigitwise (64 - k) (l / f) 0 0 c low m-pos
      ∙ ap₂ (λ (s t : ℕ). s + m * t) (bit_or-zero (l / f)) (zero-bit_or c)

  shifted_high : (c : ℕ) → c < f → c <<< (64 - k) ≡ c * m
  shifted_high c hc =
      let rows : (c + 1) * m ≤ f * m = mul-le-mul {n₂ = f} {m₂ = m} (omega arith) (omega arith) in
      let turned : m * f ≡ f * m = omega arith in
      mod-eq_of_lt (omega (arith, rows, turned, whole, m-pos))

  right_lem :
      (l c : ℕ)
      → l < word
      → c < f
      → ((right_step k l c).0 ≡ l / f + m * c) × ((right_step k l c).1 ≡ l % f)
  unfolding right_step
  right_lem l c hl hc =
      (ap (bit_or (l / 2 ^ k)) (shifted_high c hc) ∙ above l c hl hc, bit_and-mask k l)

  expand_right : (q r c : ℕ) → f * (q + m * c) + r ≡ c * (m * f) + (f * q + r)
  expand_right q r c = grind arith

  right_fits : (l c : ℕ) → l < word → c < f → l / f + m * c < word
  right_fits l c hl hc =
      let low : l / f < m = (div-lt_iff_lt-mul f-pos).1 (omega (arith, whole, hl)) in
      let rows : m * (c + 1) ≤ m * f = mul-le-mul {n₂ = m} {m₂ = f} (omega arith) (omega arith) in
      omega (arith, low, rows, whole)

  pub right_step-IsDividing : IsDividing (right_step k) (2 ^ k)
  right_step-IsDividing = record {
    divides = λ l c hl hc.
        let (limb, rest) = right_lem l c hl hc in
        ap₂ (λ (s t : ℕ). f * s + t) limb rest
        ∙ expand_right (l / f) (l % f) c
        ∙ ap₂ (λ (s t : ℕ). c * s + t) whole (div-add-mod l f);
    quotient_limb =
        λ l c hl hc. subst (λ t. t < word) (sym (right_lem l c hl hc).0) (right_fits l c hl hc);
    remainder_lt = λ l c hl hc. subst (λ t. t < f) (sym (right_lem l c hl hc).1) (mod-lt _ f-pos);
  }
