-- ===== src/Intrin/Crt/Leading.antt =====
-- The leading zeros without branches, intrinsics/crt_vanillc/_crt_vanillc_bitops.c.
use dynamol.Base.{
  ℕ, ◌+◌, ◌-◌, ◌*◌, ◌/◌, ◌%◌, ◌^◌, ◌≤◌, ◌<◌, ◌≡◌, ◌≢◌, refl, arith, ap, ap₂, sym, ◌∙◌, inl, inr,
  ==-cases, bit_and, word, u8, two-pow-add,
}
use mathlib.Core.Path.{subst}
use native.Mathlib.Nat.{
  div-add-mod, mod-lt, one-le-pow, mul-le-mul_left, div-lt_iff_lt-mul, mod-eq_of_lt, mul-zero,
  le_of_mul-le-mul_left,
}
use dynamol.Base.Bits.{bit_and-mask, bit_and-zero}
use dynamol.Base.Bits.Split.{bit_and-IsDigitwise, digitwise-join}
use dynamol.Intrin.Crt.{crt_skip, crt_clz_round, crt_clz64, crt_ctz64, lnot, crt_select}
use dynamol.Intrin.Crt.Zeros.{skip_lem, last_count, exact_u8, grouped, crt_ctz64_lem}
use dynamol.Intrin.Bits.{ctz64, clz64}
use dynamol.Intrin.Bits.Isolate.{LowestBit}
use dynamol.Intrin.Bits.Zeros.{ctz64_lem}
use dynamol.Intrin.Bits.Smear.{LeadingZeros, cancel, clz64_lem}

-- The current value is `x` shifted by the count, and one of its high `s` bits is set.
abbrev Counting : ℕ → ℕ → ℕ × ℕ → Type 0
Counting s x (y, c) = (y ≡ 2 ^ c * x) × (2 ^ (64 - s) ≤ y) × (y < word) × (c + s ≤ 64)

parts : (s : ℕ) → s ≤ 64 → word ≡ 2 ^ s * 2 ^ (64 - s)
parts s h = ap (λ (t : ℕ). 2 ^ t) (sum s h) ∙ two-pow-add s (64 - s)
  where
    sum : (s : ℕ) → s ≤ 64 → 64 ≡ s + (64 - s)
    sum s h = omega (arith, h)

-- The mask of the high `s` bits.
abbrev high_mask : ℕ → ℕ
high_mask s = 2 ^ (64 - s) * (2 ^ s - 1)

high_bits :
    (s y : ℕ) → s ≤ 64 → y < word → bit_and y (high_mask s) ≡ 2 ^ (64 - s) * (y / 2 ^ (64 - s))
high_bits s y h l =
    let p : ℕ = 64 - s in
    let pos : 0 < 2 ^ p = one-le-pow p 2 (omega arith) in
    let split : y ≡ y % 2 ^ p + 2 ^ p * (y / 2 ^ p) = omega (arith, div-add-mod y (2 ^ p)) in
    let small : y / 2 ^ p < 2 ^ s = (div-lt_iff_lt-mul pos).1 (omega (arith, parts s h, l)) in
    ap₂ bit_and split (zero_low (2 ^ p * (2 ^ s - 1)))
    ∙ digitwise-join bit_and-IsDigitwise p (y % 2 ^ p) (y / 2 ^ p) 0 (2 ^ s - 1) (mod-lt _ pos) pos
    ∙ ap₂ (λ (u v : ℕ). u + 2 ^ p * v) (bit_and-zero (y % 2 ^ p))
        (bit_and-mask s (y / 2 ^ p) ∙ mod-eq_of_lt small)
    ∙ omega arith
  where
    zero_low : (m : ℕ) → m ≡ 0 + m
    zero_low m = omega arith

-- The masked bits are zero just below their weight.
high_test :
    (s y : ℕ)
    → s ≤ 64
    → y < word
    → ((bit_and y (high_mask s) ≡ 0) → y < 2 ^ (64 - s))
      × ((bit_and y (high_mask s) ≢ 0) → 2 ^ (64 - s) ≤ y)
high_test s y h l =
    let p : ℕ = 64 - s in
    let pos : 0 < 2 ^ p = one-le-pow p 2 (omega arith) in
    let masked = high_bits s y h l in
    let whole = div-add-mod y (2 ^ p) in
    let rest : y % 2 ^ p < 2 ^ p = mod-lt _ pos in
    (
      λ z. omega (arith, masked, z, whole, rest),
      λ ne. elim (==-cases (y / 2 ^ p) 0) [
        | inl (q, e) ↦ absurd (ne (masked ∙ ap (λ (t : ℕ). 2 ^ p * t) e ∙ mul-zero (2 ^ p)))
        | inr (q, more) ↦
            let row : 2 ^ p * 1 ≤ 2 ^ p * (y / 2 ^ p) =
              mul-le-mul_left (2 ^ p) (omega (arith, more)) in
            omega (arith, row, whole)
      ],
    )

round_lem :
    (s mask x : ℕ) (r : ℕ × ℕ)
    → s ≤ 32
    → mask ≡ high_mask s
    → Counting (s + s) x r
    → Counting s x (crt_clz_round s mask r)
unfolding crt_clz_round
round_lem s mask x (y, c) h m (e, low, l, b) =
    let (below, above) = high_test s y (omega (arith, h)) l in
    let chosen = skip_lem y mask s (omega (arith, h)) in
    elim (==-cases (bit_and y mask) 0) [
      | inr (q, set) ↦
          let skip : crt_skip y mask s ≡ 0 = chosen ∙ rw q refl in
          let same : crt_clz_round s mask (y, c) ≡ (y, c) =
            ap (λ (t : ℕ). (y * 2 ^ t % 2 ^ 64, u8 (c + t))) skip
            ∙ ap₂ (λ (u v : ℕ). (u, v)) (omega (arith, l)) (omega (arith, b)) in
          subst (Counting s x) (sym same)
            (e, above (λ z. set (ap (bit_and y) m ∙ z)), l, omega (arith, b))
      | inl (q, none) ↦
          let skip : crt_skip y mask s ≡ s = chosen ∙ rw q refl in
          let small : y < 2 ^ (64 - s) = below (ap (bit_and y) (sym m) ∙ none) in
          let fits : 2 ^ s * (y + 1) ≤ 2 ^ s * 2 ^ (64 - s) =
            mul-le-mul_left (2 ^ s) (omega (arith, small)) in
          let one : 1 ≤ 2 ^ s = one-le-pow s 2 (omega arith) in
          let spread : 2 ^ s * (y + 1) ≡ 2 ^ s * y + 2 ^ s = grind arith in
          let inside : 2 ^ s * y < word =
            omega (arith, fits, spread, one, parts s (omega (arith, h))) in
          let turned : y * 2 ^ s ≡ 2 ^ s * y = omega arith in
          let value : y * 2 ^ s % 2 ^ 64 ≡ 2 ^ s * y = omega (arith, turned, inside) in
          let same : crt_clz_round s mask (y, c) ≡ (2 ^ s * y, c + s) =
            ap (λ (t : ℕ). (y * 2 ^ t % 2 ^ 64, u8 (c + t))) skip
            ∙ ap₂ (λ (u v : ℕ). (u, v)) value (exact_u8 (c + s) (omega (arith, b))) in
          let raised : 2 ^ s * 2 ^ (64 - (s + s)) ≤ 2 ^ s * y = mul-le-mul_left (2 ^ s) low in
          let top : 2 ^ (64 - s) ≡ 2 ^ s * 2 ^ (64 - (s + s)) =
            ap (λ (t : ℕ). 2 ^ t) (rest s h) ∙ two-pow-add s (64 - (s + s)) in
          subst (Counting s x) (sym same) (
            ap (λ (t : ℕ). 2 ^ s * t) e
                ∙ grouped (2 ^ s) (2 ^ c) x
                ∙ ap (λ (t : ℕ). t * x) (omega (arith, two-pow-add c s)),
            omega (arith, raised, top),
            inside,
            omega (arith, b),
          )
    ]
  where
    rest : (s : ℕ) → s ≤ 32 → 64 - s ≡ s + (64 - (s + s))
    rest s h = omega (arith, h)

-- The place of the highest bit, once it is shifted to the top.
placed : (k x : ℕ) → k < 64 → 2 ^ 63 ≤ 2 ^ k * x → 2 ^ k * x < word → LeadingZeros x k
placed k x h low high = (
  h,
  le_of_mul-le-mul_left (omega (arith, two-pow-add k (63 - k), all 63 k (omega (arith, h)), low))
      (one-le-pow k 2 (omega arith)),
  cancel (2 ^ k) x (2 ^ (64 - k))
      (omega (arith, two-pow-add k (64 - k), all 64 k (omega (arith, h)), high)),
)
  where
    all : (n k : ℕ) → k ≤ n → 2 ^ n ≡ 2 ^ (k + (n - k))
    all n k h = ap (λ (t : ℕ). 2 ^ t) (omega (arith, h))

clz_end :
    (x : ℕ) (r : ℕ × ℕ)
    → x ≢ 0
    → Counting 2 x r
    → LeadingZeros x
        (u8 (crt_select (lnot x) 64 (u8 (r.1 + lnot (bit_and r.0 9223372036854775808)))))
clz_end x (y, c) nz (e, low, l, b) =
    let mask : ℕ = 9223372036854775808 in
    let (below, above) = high_test 1 y (omega arith) l in
    elim (==-cases (bit_and y mask) 0) [
      | inl (q, clear) ↦
          let bit : lnot (bit_and y mask) ≡ 1 = rw q refl in
          let small : y < 2 ^ 63 = below clear in
          let double : 2 ^ (c + 1) * x ≡ 2 * y =
            omega (arith, ap (λ (t : ℕ). t * x) (two-pow-add c 1), e) in
          subst (LeadingZeros x)
            (sym (
              last_count x (c + lnot (bit_and y mask)) nz (omega (arith, bit, b))
              ∙ ap (λ (t : ℕ). c + t) bit))
            (placed (c + 1) x (omega (arith, b)) (omega (arith, double, low))
              (omega (arith, double, small)))
      | inr (q, set) ↦
          let bit : lnot (bit_and y mask) ≡ 0 = rw q refl in
          let large : 2 ^ 63 ≤ y = above set in
          subst (LeadingZeros x)
            (sym (
              last_count x (c + lnot (bit_and y mask)) nz (omega (arith, bit, b))
              ∙ ap (λ (t : ℕ). c + t) bit
              ∙ omega arith))
            (placed c x (omega (arith, b)) (omega (arith, e, large)) (omega (arith, e, l)))
    ]

pub crt_clz64_lem : (x : ℕ) → x ≢ 0 → x < word → LeadingZeros x (crt_clz64 x)
unfolding crt_clz64
crt_clz64_lem x ne h =
    let r1 =
      round_lem 32 18446744069414584320 x (x, 0) (omega arith) refl
        (omega arith, omega (arith, ne), h, omega arith) in
    let r2 = round_lem 16 18446462598732840960 x _ (omega arith) refl r1 in
    let r3 = round_lem 8 18374686479671623680 x _ (omega arith) refl r2 in
    let r4 = round_lem 4 17293822569102704640 x _ (omega arith) refl r3 in
    clz_end x _ ne (round_lem 2 13835058055282163712 x _ (omega arith) refl r4)

-- For a limb other than zero, `ctz64` is the place of the lowest set bit, of which the limb is an
-- odd multiple, and `clz64` counts the zeros above the highest set bit: the limb is at least
-- 2 ^ (63 - clz64) and below 2 ^ (64 - clz64). The counts without branches are the same.
pub zero_counts_lem :
    (x : ℕ)
    → x ≢ 0
    → x < word
    → LowestBit 64 x (ctz64 x)
      × LeadingZeros x (clz64 x)
      × LowestBit 64 x (crt_ctz64 x)
      × LeadingZeros x (crt_clz64 x)
zero_counts_lem x ne h =
    (ctz64_lem x ne h, clz64_lem x ne h, crt_ctz64_lem x ne h, crt_clz64_lem x ne h)
