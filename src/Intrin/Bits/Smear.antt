-- ===== src/Intrin/Bits/Smear.antt =====
-- Leading zeros: the shifts of `clz64` set every bit below the highest.
use dynamol.Base.{
  ℕ, zero, suc, ◌+◌, ◌-◌, ◌*◌, ◌/◌, ◌%◌, ◌^◌, ◌≤◌, ◌<◌, ◌≡◌, ◌≢◌, refl, arith, ap, ap₂, sym, ◌∙◌,
  inl, inr, ◌==◌, ==-cases, bit_and, bit_or, word, u64, two-pow-suc, two-pow-add, ◌>>>◌, ltb-cases,
}
use native.Mathlib.Nat.{
  one-le-pow, pow-le-pow_right, mul-le-mul_left, div-add-mod, mod-lt, div-lt_iff_lt-mul,
  div-eq_of_lt,
}
use mathlib.Core.Path.{subst}
use dynamol.Base.Bits.{bit_or_step, bit_or-zero, bit_and-zero, bit_and-mask}
use dynamol.Base.Bits.Split.{bit_or-IsDigitwise, bit_and-IsDigitwise, digitwise-join, digitwise-lt}
use dynamol.Intrin.Bits.{debruijn, debruijn_clz_table, smear, clz64}
use dynamol.Intrin.Bits.Zeros.{below_lem, equal_test}

le-bit_or : (n a b : ℕ) → a < 2 ^ n → b < 2 ^ n → b ≤ bit_or a b
le-bit_or zero a b ha hb = omega (arith, hb)
le-bit_or (suc n) a b ha hb = omega (
  arith,
  bit_or_step a b,
  le-bit_or n (a / 2) (b / 2) (omega (arith, two-pow-suc n)) (omega (arith, two-pow-suc n)),
)

-- All bits of the top `s` of `width` are set.
abbrev Filled : ℕ → ℕ → ℕ → Type 0
Filled width s x = (2 ^ width ≤ x + 2 ^ (width - s)) × (x < 2 ^ width)

pub cancel : (c a b : ℕ) → c * a < c * b → a < b
cancel c a b h = elim (ltb-cases a b) [
  | inl (q, l) ↦ l
  | inr (q, l) ↦ let rows : c * b ≤ c * a = mul-le-mul_left c l in absurd (omega (arith, rows, h))
]

module _ (s p : ℕ) where
  abbrev f : ℕ
  f = 2 ^ s

  abbrev m : ℕ
  m = 2 ^ p

  rows : (a b : ℕ) → f * (a + b) ≡ f * a + f * b
  rows a b = grind arith

  -- The copy of the bits, shifted down.
  copied : (x : ℕ) → f * m ≤ x + m → m ≤ x / f + 2 ^ (p - s)
  copied x h =
      let small : m ≤ f * 2 ^ (p - s) =
        subst (λ t. m ≤ t) (two-pow-add s (p - s))
          (pow-le-pow_right {n = 2} (omega arith) (omega arith)) in
      let part : f * (x / f) + x % f ≡ x = div-add-mod x f in
      let rest : x % f < f = mod-lt _ (one-le-pow s 2 (omega arith)) in
      let more : m < x / f + 2 ^ (p - s) + 1 = cancel f m (x / f + 2 ^ (p - s) + 1) (
        omega (
          arith,
          rows (x / f + 2 ^ (p - s)) 1,
          rows (x / f) (2 ^ (p - s)),
          small,
          part,
          rest,
          h,
        )) in
      omega (arith, more)

  lifted : (x : ℕ) → f * m ≤ x + m → x < f * m → f * m ≤ m * (x / m) + m
  lifted x h l =
      let m-pos : 0 < m = one-le-pow p 2 (omega arith) in
      let part : m * (x / m) + x % m ≡ x = div-add-mod x m in
      let rest : x % m < m = mod-lt _ m-pos in
      let turned : m * f ≡ f * m = omega arith in
      let spread : m * (x / m + 1 + 1) ≡ m * (x / m) + m + m = grind arith in
      let enough : f < x / m + 1 + 1 =
        cancel m f (x / m + 1 + 1) (omega (arith, spread, turned, part, rest, h)) in
      let all : m * f ≤ m * (x / m + 1) = mul-le-mul_left m (omega (arith, enough)) in
      let spread1 : m * (x / m + 1) ≡ m * (x / m) + m = grind arith in
      omega (arith, all, spread1, turned)

  double :
      (x : ℕ)
      → f * m ≤ x + m
      → x < f * m
      → (f * m ≤ bit_or x (x / f) + 2 ^ (p - s)) × (bit_or x (x / f) < f * m)
  double x h l =
      let m-pos : 0 < m = one-le-pow p 2 (omega arith) in
      let turned : m * f ≡ f * m = omega arith in
      let wider : m * 1 ≤ m * f = mul-le-mul_left m (one-le-pow s 2 (omega arith)) in
      let y-lt : x / f < m =
        (div-lt_iff_lt-mul (one-le-pow s 2 (omega arith))).1 (omega (arith, l, turned)) in
      let rest : x % m < m = mod-lt _ m-pos in
      let high : x ≡ x % m + m * (x / m) = omega (arith, div-add-mod x m) in
      let low : x / f ≡ x / f + m * 0 = omega arith in
      let joined : bit_or x (x / f) ≡ bit_or (x % m) (x / f) + m * (x / m) =
        ap₂ bit_or high low
        ∙ digitwise-join bit_or-IsDigitwise p (x % m) (x / m) (x / f) 0 rest y-lt
        ∙ ap (λ (t : ℕ). bit_or (x % m) (x / f) + m * t) (bit_or-zero (x / m)) in
      let fits : bit_or x (x / f) < 2 ^ (s + p) =
        digitwise-lt bit_or-IsDigitwise (s + p) x (x / f) (omega (arith, two-pow-add s p, l))
          (omega (arith, two-pow-add s p, y-lt, wider)) in
      (
        omega (arith, joined, lifted x h l, copied x h, le-bit_or p (x % m) (x / f) rest y-lt),
        omega (arith, fits, two-pow-add s p),
      )

-- One of the shifts.
step : (width s x : ℕ) → Filled width s x → Filled width (s + s) (bit_or x (x >>> s))
step width s x (h, l) = elim (ltb-cases width s) [
  | inl (q, wide) ↦
      let under : 2 ^ width ≤ 2 ^ s = pow-le-pow_right {n = 2} (omega arith) (omega arith) in
      let none : x / 2 ^ s ≡ 0 = div-eq_of_lt (omega (arith, under, l)) in
      let same : bit_or x (x / 2 ^ s) ≡ x = ap (bit_or x) none ∙ bit_or-zero x in
      let end : 2 ^ (width - (s + s)) ≡ 2 ^ (width - s) = ap (λ (t : ℕ). 2 ^ t) (omega arith) in
      (omega (arith, same, h, end), omega (arith, same, l))
  | inr (q, inside) ↦
      let split : 2 ^ width ≡ 2 ^ s * 2 ^ (width - s) =
        ap (λ (t : ℕ). 2 ^ t) (parts width s inside) ∙ two-pow-add s (width - s) in
      let end : 2 ^ (width - (s + s)) ≡ 2 ^ (width - s - s) = ap (λ (t : ℕ). 2 ^ t) (omega arith) in
      let (filled, fits) =
        double s (width - s) x (omega (arith, split, h)) (omega (arith, split, l)) in
      (omega (arith, split, end, filled), omega (arith, split, fits))
]
  where
    parts : (a b : ℕ) → b ≤ a → a ≡ b + (a - b)
    parts a b h = omega (arith, h)

-- All bits below the highest.
smear_lem : (e x : ℕ) → e < 64 → 2 ^ e ≤ x → x < 2 ^ suc e → smear x ≡ 2 ^ suc e - 1
unfolding smear
smear_lem e x small low high =
    let start : 2 ^ (suc e - 1) ≡ 2 ^ e = ap (λ (t : ℕ). 2 ^ t) (omega arith) in
    let end : 2 ^ (suc e - 64) ≡ 1 = ap (λ (t : ℕ). 2 ^ t) zero_left in
    let first : Filled (suc e) 1 x = (omega (arith, start, two-pow-suc e, low), high) in
    let s1 = step (suc e) 1 x first in
    let s2 = step (suc e) 2 _ s1 in
    let s3 = step (suc e) 4 _ s2 in
    let s4 = step (suc e) 8 _ s3 in
    let s5 = step (suc e) 16 _ s4 in
    let (filled, fits) = step (suc e) 32 _ s5 in omega (arith, filled, fits, end)
  where
    zero_left : suc e - 64 ≡ 0
    zero_left = omega (arith, small)

-- The place of the highest bit.
highest : (n x : ℕ) → 0 < x → x < 2 ^ n → (e : ℕ) × (e < n) × (2 ^ e ≤ x) × (x < 2 ^ suc e)
highest zero x p h = absurd (omega arith)
highest (suc n) x p h = elim (==-cases (x / 2) 0) [
  | inl (q, one) ↦ (0, omega arith, omega arith, omega (arith, one, two-pow-suc 0))
  | inr (q, more) ↦
      let (e, small, low, high) = highest n (x / 2) (omega arith) (omega (arith, two-pow-suc n)) in
      (
        suc e,
        omega (arith, small),
        omega (arith, low, two-pow-suc e),
        omega (arith, high, two-pow-suc (suc e)),
      )
]

top_bit : (x : ℕ) → x < word → bit_and x 9223372036854775808 ≡ 2 ^ 63 * (x / 2 ^ 63)
top_bit x h =
    let split : x ≡ x % 2 ^ 63 + 2 ^ 63 * (x / 2 ^ 63) = omega arith in
    ap (λ (t : ℕ). bit_and t (0 + 2 ^ 63 * 1)) split
    ∙ digitwise-join bit_and-IsDigitwise 63 (x % 2 ^ 63) (x / 2 ^ 63) 0 1 (omega arith)
        (omega arith)
    ∙ omega (arith, bit_and-zero (x % 2 ^ 63), bit_and-mask 1 (x / 2 ^ 63), h)

clz_table : (k : ℕ) → k < 64 → debruijn debruijn_clz_table (2 ^ k) ≡ 63 - k
clz_table k h =
    equal_test _ _ (below_lem 64 k (λ k. debruijn debruijn_clz_table (2 ^ k) == 63 - k) refl h)

abbrev pub LeadingZeros : ℕ → ℕ → Type 0
LeadingZeros x k = (k < 64) × (2 ^ (63 - k) ≤ x) × (x < 2 ^ (64 - k))

-- The highest set bit stands below the leading zeros.
pub clz64_lem : (x : ℕ) → x ≢ 0 → x < word → LeadingZeros x (clz64 x)
unfolding clz64
clz64_lem x ne h = elim (==-cases x 0) [
  | inl (q, e) ↦ absurd (ne e)
  | inr (q, _) ↦ elim (==-cases (bit_and x 9223372036854775808) 0) [
    | inr (set, e) ↦ rw (q, set) (omega arith, omega (arith, top_bit x h, e), h)
    | inl (clear, e) ↦
        let (k, small, low, high) = highest 63 x (omega arith) (omega (arith, top_bit x h, e)) in
        let bit : u64 (smear x / 2 + 1) ≡ 2 ^ k =
          below_top k (smear x) small (smear_lem k x (omega (arith, small)) low high) in
        let count : debruijn debruijn_clz_table (u64 ((smear x >>> 1) + 1)) ≡ 63 - k =
          ap (debruijn debruijn_clz_table) bit ∙ clz_table k (omega (arith, small)) in
        let here : 2 ^ (63 - (63 - k)) ≡ 2 ^ k = ap (λ (t : ℕ). 2 ^ t) (omega (arith, small)) in
        let above : 2 ^ (64 - (63 - k)) ≡ 2 ^ suc k =
          ap (λ (t : ℕ). 2 ^ t) (omega (arith, small)) in
        rw (q, clear)
          (subst (LeadingZeros x) (sym count)
            (omega arith, omega (arith, here, low), omega (arith, above, high)))
  ]
]
  where
    below_top : (k s : ℕ) → k < 63 → s ≡ 2 ^ suc k - 1 → u64 (s / 2 + 1) ≡ 2 ^ k
    below_top k s h e =
        let under : 2 ^ k ≤ 2 ^ 63 =
          pow-le-pow_right {n = 2} (omega arith) {i = k} {j = 63} (omega arith) in
        omega (arith, two-pow-suc k, e, under, one-le-pow k 2 (omega arith))
