-- ===== src/BigInt/Bitwise/Values.antt =====
-- The bitwise operations on two bigInts as operations on their magnitudes.
use dynamol.Base.{
  ℕ, zero, suc, ◌+◌, ◌*◌, ◌≤◌, ◌<◌, ◌≡◌, ◌⊎◌, inl, inr, refl, arith, ap, ap₂, sym, ◌∙◌,
}
use dynamol.Base.{true, false, ◌&&◌, if◌then◌else◌, ==-cases, ◌==◌, none, word, weight}
use dynamol.Base.{weight-zero, weight-suc, bit_and, bit_or, bit_xor, not64, u64_max}
use dynamol.Base.Int.{ℤ, pos}
use mathlib.Core.Path.{subst}
use dynamol.Base.Bits.Fields.{bit_and-zero, zero-bit_and}
use dynamol.Base.Bits.Split.{IsDigitwise, digitwise-lt, digitwise-join}
use dynamol.Base.Bits.Split.{bit_and-IsDigitwise, bit_or-IsDigitwise, bit_xor-IsDigitwise}
use dynamol.BigInt.{BigInt, IsValid, limb_at, set_limb}
use dynamol.BigInt.Value.{value, seg, seg-zero, seg-suc, seg_ext, seg-pad}
use dynamol.BigInt.Util.{trim_lz, trim_count}
use dynamol.BigInt.AddSub.Operands.{value-empty}
use dynamol.BigInt.Bitwise.{computed, linit, padded, span, and, nor, xor, xnor, both_valid, fill}
use dynamol.BigInt.Bitwise.Fill.{computed-IsValid}

pub seg-digitwise :
    {native op : ℕ → ℕ → ℕ}
    → IsDigitwise native op
    → (f g : ℕ → ℕ) (i k : ℕ) → ((j : ℕ) → f j < word)
    → ((j : ℕ) → g j < word)
    → seg (λ j. native (f j) (g j)) i k ≡ native (seg f i k) (seg g i k)
seg-digitwise {native} d f g i zero hf hg =
    seg-zero _ i ∙ sym d.base ∙ sym (ap₂ native (seg-zero f i) (seg-zero g i))
seg-digitwise {native} d f g i (suc k) hf hg =
    seg-suc _ i k
    ∙ ap (λ (t : ℕ). native (f i) (g i) + word * t) (seg-digitwise d f g (suc i) k hf hg)
    ∙ sym (digitwise-join d 64 (f i) (seg f (suc i) k) (g i) (seg g (suc i) k) (hf i) (hg i))
    ∙ sym (ap₂ native (seg-suc f i k) (seg-suc g i k))

-- The complement of every limb complements the number.
pub seg-not64 :
    (f : ℕ → ℕ) (i k : ℕ)
    → ((j : ℕ) → f j < word)
    → seg (λ j. not64 (f j)) i k + seg f i k + 1 ≡ weight k
seg-not64 f i zero h = omega (arith, seg-zero f i, seg-zero (λ j. not64 (f j)) i, weight-zero)
seg-not64 f i (suc k) h = omega (
  arith,
  seg-suc f i k,
  seg-suc (λ j. not64 (f j)) i k,
  weight-suc k,
  h i,
  seg-not64 f (suc i) k h,
)

pub padded-lt : (x : BigInt) → IsValid x → (j : ℕ) → padded x j < word
unfolding padded
padded-lt x v j = ground (arith, v.words j)

pub seg-padded : (x : BigInt) (k : ℕ) → x.n ≤ k → seg (padded x) 0 k ≡ value x
unfolding padded value
seg-padded x k h =
    seg-pad (padded x) 0 x.n k h (λ m p q. ground arith)
    ∙ seg_ext (padded x) (limb_at x) 0 x.n (λ j p q. ground arith)

pub both_cases :
    (m n : ℕ)
    → ((((m == 0) && (n == 0)) ≡ true) × (m ≡ 0) × (n ≡ 0)) ⊎ (((m == 0) && (n == 0)) ≡ false)
both_cases m n = ground arith

pub empty-IsValid : IsValid (linit 0) × (value (linit 0) ≡ 0)
unfolding linit computed fill trim_lz trim_count
empty-IsValid =
    let (v, e) = computed-IsValid (λ i. 0) 0 (λ i. omega arith) in (v, e ∙ seg-zero (λ i. 0) 0)

-- One limb of ones, with the sign of a zero operand.
ones-IsValid :
    (sign : ℤ)
    → sign ≡ pos 1
    → IsValid (record (set_limb (linit 0) 0 u64_max) { n = 1; sign = sign })
      × (value (record (set_limb (linit 0) 0 u64_max) { n = 1; sign = sign }) ≡ u64_max)
unfolding linit computed fill trim_lz trim_count set_limb limb_at
ones-IsValid sign h =
    let (v, e) = computed-IsValid (λ i. u64_max) 1 (λ i. omega arith) in
    subst
      (λ (t : ℤ).
        IsValid (record (set_limb (linit 0) 0 u64_max) { n = 1; sign = t })
        × (value (record (set_limb (linit 0) 0 u64_max) { n = 1; sign = t }) ≡ u64_max))
      (sym h) ((v, e ∙ omega (arith, seg-suc (λ i. u64_max) 0 0, seg-zero (λ i. u64_max) 1)))

-- How many limbs a complement has.
abbrev pub width : BigInt → BigInt → ℕ
width x y = if (x.n == 0) && (y.n == 0) then 1 else span x y

module _ (stray_x stray_y : ℕ) (x y : BigInt) (vx : IsValid x) (vy : IsValid y) where
  spans : (x.n ≤ span x y) × (y.n ≤ span x y)
  spans = ground arith

  seg-operands :
      {native op : ℕ → ℕ → ℕ}
      → IsDigitwise native op
      → seg (λ j. native (padded x j) (padded y j)) 0 (span x y) ≡ native (value x) (value y)
  seg-operands {native} d =
      seg-digitwise d (padded x) (padded y) 0 (span x y) (padded-lt x vx) (padded-lt y vy)
      ∙ ap₂ native (seg-padded x (span x y) spans.0) (seg-padded y (span x y) spans.1)

  computed_lem :
      {native op : ℕ → ℕ → ℕ}
      → IsDigitwise native op
      → IsValid (computed (λ j. native (padded x j) (padded y j)) (span x y))
        × (value (computed (λ j. native (padded x j) (padded y j)) (span x y))
            ≡ native (value x) (value y))
  computed_lem {native} d =
      let (v, e) =
        computed-IsValid (λ j. native (padded x j) (padded y j)) (span x y)
          (λ j. digitwise-lt d 64 _ _ (padded-lt x vx j) (padded-lt y vy j)) in
      (v, e ∙ seg-operands d)

  complement_lem :
      {native op : ℕ → ℕ → ℕ}
      → IsDigitwise native op
      → IsValid (computed (λ j. not64 (native (padded x j) (padded y j))) (span x y))
        × (value (computed (λ j. not64 (native (padded x j) (padded y j))) (span x y))
              + native (value x) (value y)
              + 1
            ≡ weight (span x y))
  complement_lem {native} d =
      let f : ℕ → ℕ = λ j. native (padded x j) (padded y j) in
      let small : (j : ℕ) → f j < word =
        λ j. digitwise-lt d 64 _ _ (padded-lt x vx j) (padded-lt y vy j) in
      let (v, e) = computed-IsValid (λ j. not64 (f j)) (span x y) (λ j. omega (arith, small j)) in
      (v, omega (arith, e, seg-operands d, seg-not64 f 0 (span x y) small))

  module _ (ok : both_valid stray_x stray_y true x y ≡ true) where
    -- With memory and operands that pass the guard, `bigInt_and` gives a valid bigInt whose
    -- magnitude is `&` of the operands' magnitudes, and no error.
    and_lem :
        IsValid (and stray_x stray_y true x y).0
        × (value (and stray_x stray_y true x y).0 ≡ bit_and (value x) (value y))
        × ((and stray_x stray_y true x y).1 ≡ none)
    unfolding and
    and_lem = rw ok (elim (==-cases x.n 0) [
      | inl (p, e) ↦ rw p (
        empty-IsValid.0,
        empty-IsValid.1
            ∙ sym (ap (λ (t : ℕ). bit_and t (value y)) (value-empty x e) ∙ zero-bit_and (value y)),
        refl,
      )
      | inr (p, e) ↦ elim (==-cases y.n 0) [
        | inl (q, f) ↦
            rw (p, q)
              (
                empty-IsValid.0,
                empty-IsValid.1
                    ∙ sym (ap (bit_and (value x)) (value-empty y f) ∙ bit_and-zero (value x)),
                refl,
              )
        | inr (q, f) ↦
            rw (p, q)
              ((computed_lem bit_and-IsDigitwise).0, (computed_lem bit_and-IsDigitwise).1, refl)
      ]
    ])

    -- Under the same conditions `bigInt_xor` gives `^` of the magnitudes.
    xor_lem :
        IsValid (xor stray_x stray_y true x y).0
        × (value (xor stray_x stray_y true x y).0 ≡ bit_xor (value x) (value y))
        × ((xor stray_x stray_y true x y).1 ≡ none)
    unfolding xor
    xor_lem = rw ok (elim (both_cases x.n y.n) [
      | inl (p, ex, ey) ↦ rw p (
        empty-IsValid.0,
        empty-IsValid.1 ∙ sym (ap₂ bit_xor (value-empty x ex) (value-empty y ey)),
        refl,
      )
      | inr p ↦
          rw p ((computed_lem bit_xor-IsDigitwise).0, (computed_lem bit_xor-IsDigitwise).1, refl)
    ])

    -- Under the same conditions `bigInt_nor` gives the complement of `|` of the magnitudes
    -- within the limbs of the longer operand, one limb for two zeros.
    nor_lem :
        IsValid (nor stray_x stray_y true x y).0
        × (value (nor stray_x stray_y true x y).0 + bit_or (value x) (value y) + 1
            ≡ weight (width x y))
        × ((nor stray_x stray_y true x y).1 ≡ none)
    unfolding nor
    nor_lem = rw ok (elim (both_cases x.n y.n) [
      | inl (p, ex, ey) ↦
          let ones = ones-IsValid x.sign (vx.zero_sign ex) in
          let zeros : bit_or (value x) (value y) ≡ 0 =
            ap₂ bit_or (value-empty x ex) (value-empty y ey) in
          rw p (ones.0, omega (arith, ones.1, zeros, weight-suc 0, weight-zero), refl)
      | inr p ↦
          rw p ((complement_lem bit_or-IsDigitwise).0, (complement_lem bit_or-IsDigitwise).1, refl)
    ])

    -- Under the same conditions `bigInt_xnor` gives the complement of `^` of the magnitudes
    -- within the limbs of the longer operand, one limb for two zeros.
    xnor_lem :
        IsValid (xnor stray_x stray_y true x y).0
        × (value (xnor stray_x stray_y true x y).0 + bit_xor (value x) (value y) + 1
            ≡ weight (width x y))
        × ((xnor stray_x stray_y true x y).1 ≡ none)
    unfolding xnor set_limb linit
    xnor_lem = rw ok (elim (both_cases x.n y.n) [
      | inl (p, ex, ey) ↦
          let ones = ones-IsValid (pos 1) refl in
          let zeros : bit_xor (value x) (value y) ≡ 0 =
            ap₂ bit_xor (value-empty x ex) (value-empty y ey) in
          rw p (ones.0, omega (arith, ones.1, zeros, weight-suc 0, weight-zero), refl)
      | inr p ↦
          rw p
            ((complement_lem bit_xor-IsDigitwise).0, (complement_lem bit_xor-IsDigitwise).1, refl)
    ])

    -- For valid bigInts that pass the guard, with memory, each operation gives a valid bigInt and
    -- writes no error: `bigInt_and` and `bigInt_xor` with the magnitude `&` and `^` of the operands'
    -- magnitudes, `bigInt_nor` and `bigInt_xnor` with the complement of `|` and `^` within the limbs of
    -- the longer operand, one limb for two zeros.
    pub bitwise_pair_lem :
        (IsValid (and stray_x stray_y true x y).0
          × (value (and stray_x stray_y true x y).0 ≡ bit_and (value x) (value y))
          × ((and stray_x stray_y true x y).1 ≡ none))
        × (IsValid (xor stray_x stray_y true x y).0
            × (value (xor stray_x stray_y true x y).0 ≡ bit_xor (value x) (value y))
            × ((xor stray_x stray_y true x y).1 ≡ none))
        × (IsValid (nor stray_x stray_y true x y).0
            × (value (nor stray_x stray_y true x y).0 + bit_or (value x) (value y) + 1
                ≡ weight (width x y))
            × ((nor stray_x stray_y true x y).1 ≡ none))
        × (IsValid (xnor stray_x stray_y true x y).0
            × (value (xnor stray_x stray_y true x y).0 + bit_xor (value x) (value y) + 1
                ≡ weight (width x y))
            × ((xnor stray_x stray_y true x y).1 ≡ none))
    bitwise_pair_lem = (and_lem, xor_lem, nor_lem, xnor_lem)
