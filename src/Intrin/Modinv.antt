-- ===== src/Intrin/Modinv.antt =====
-- intrinsics/zvanillc/_vanillc_marith.c: the inverse of an odd limb modulo 2 ^ 64, by a table of the
-- inverses modulo 2 ^ 8 and three Newton steps.
use dynamol.Base.{ℕ, zero, suc, ◌+◌, ◌-◌, ◌*◌, ◌/◌, ◌%◌, ◌^◌, ◌<◌, ◌≡◌, refl, arith, ap, sym}
use dynamol.Base.{List, [], ◌∷◌, Bool, true, ◌&&◌, ◌==◌, get_or, bit_and, u64, sub64, ◌>>>◌, word}
use mathlib.Core.Path.{subst}
use native.Mathlib.Decide.{ℕ_discrete}
use dynamol.Base.Bits.Fields.{bit_and-mask}

abbrev inv8_lookup : List ℕ
inv8_lookup =
    0x1 ∷ 0xAB ∷ 0xCD ∷ 0xB7 ∷ 0x39 ∷ 0xA3 ∷ 0xC5 ∷ 0xEF ∷ 0xF1 ∷ 0x1B ∷ 0x3D ∷ 0xA7 ∷ 0x29 ∷ 0x13
    ∷ 0x35 ∷ 0xDF ∷ 0xE1 ∷ 0x8B ∷ 0xAD ∷ 0x97 ∷ 0x19 ∷ 0x83 ∷ 0xA5 ∷ 0xCF ∷ 0xD1 ∷ 0xFB ∷ 0x1D
    ∷ 0x87 ∷ 0x9 ∷ 0xF3 ∷ 0x15 ∷ 0xBF ∷ 0xC1 ∷ 0x6B ∷ 0x8D ∷ 0x77 ∷ 0xF9 ∷ 0x63 ∷ 0x85 ∷ 0xAF ∷ 0xB1
    ∷ 0xDB ∷ 0xFD ∷ 0x67 ∷ 0xE9 ∷ 0xD3 ∷ 0xF5 ∷ 0x9F ∷ 0xA1 ∷ 0x4B ∷ 0x6D ∷ 0x57 ∷ 0xD9 ∷ 0x43
    ∷ 0x65 ∷ 0x8F ∷ 0x91 ∷ 0xBB ∷ 0xDD ∷ 0x47 ∷ 0xC9 ∷ 0xB3 ∷ 0xD5 ∷ 0x7F ∷ 0x81 ∷ 0x2B ∷ 0x4D
    ∷ 0x37 ∷ 0xB9 ∷ 0x23 ∷ 0x45 ∷ 0x6F ∷ 0x71 ∷ 0x9B ∷ 0xBD ∷ 0x27 ∷ 0xA9 ∷ 0x93 ∷ 0xB5 ∷ 0x5F
    ∷ 0x61 ∷ 0xB ∷ 0x2D ∷ 0x17 ∷ 0x99 ∷ 0x3 ∷ 0x25 ∷ 0x4F ∷ 0x51 ∷ 0x7B ∷ 0x9D ∷ 0x7 ∷ 0x89 ∷ 0x73
    ∷ 0x95 ∷ 0x3F ∷ 0x41 ∷ 0xEB ∷ 0xD ∷ 0xF7 ∷ 0x79 ∷ 0xE3 ∷ 0x5 ∷ 0x2F ∷ 0x31 ∷ 0x5B ∷ 0x7D ∷ 0xE7
    ∷ 0x69 ∷ 0x53 ∷ 0x75 ∷ 0x1F ∷ 0x21 ∷ 0xCB ∷ 0xED ∷ 0xD7 ∷ 0x59 ∷ 0xC3 ∷ 0xE5 ∷ 0xF ∷ 0x11 ∷ 0x3B
    ∷ 0x5D ∷ 0xC7 ∷ 0x49 ∷ 0x33 ∷ 0x55 ∷ 0xFF ∷ []

-- `res *= 2 - x * res`
newton : ℕ → ℕ → ℕ
newton x res = u64 (res * sub64 2 (u64 (x * res)))

pub modinv64 : ℕ → ℕ
modinv64 x =
    let res = get_or inv8_lookup (bit_and (x >>> 1) 0x7F) 0 in newton x (newton x (newton x res))

module _ (f : ℕ → ℕ) where
  -- Entry `b` is the inverse of the byte `2 * b + 1`, for every `b` below `n`.
  abbrev rows_below : ℕ → Bool
  rows_below zero = true
  rows_below (suc b) = ((2 * b + 1) * f b % 256 == 1) && rows_below b

  row_of : (n b : ℕ) → rows_below n ≡ true → b < n → (2 * b + 1) * f b % 256 ≡ 1
  row_of zero b h l = absurd (omega arith)
  row_of (suc n) b h l = elim (ℕ_discrete b n) [
    | yes e ↦ subst (λ (t : ℕ). (2 * t + 1) * f t % 256 ≡ 1) (sym e) (ground arith)
    | no e ↦ row_of n b (ground arith) (omega arith)
  ]

entry : ℕ → ℕ
entry b = get_or inv8_lookup b 0

entries : rows_below entry 128 ≡ true
unfolding entry
entries = refl

lookup_lem : (x : ℕ) → x % 2 ≡ 1 → x * entry (bit_and (x >>> 1) 0x7F) % 256 ≡ 1
lookup_lem x odd =
    let b = x / 2 % 128 in
    let q = x / 256 in
    let split : x ≡ 256 * q + (2 * b + 1) = omega arith in
    rw (bit_and-mask 7 (x / 2))
      (omega (arith, row_of entry 128 b entries (omega arith), ap (λ (t : ℕ). t * entry b) split))

-- What a Newton step does to `x * res`, with every wrap-around as a multiple of `m`.
newton_balance :
    (m x r r' a b s u v w : ℕ)
    → a + m * w ≡ x * r
    → b + m * v + a ≡ 2 + m
    → r' + m * u ≡ r * b
    → a ≡ 1 + s
    → x * r' + m * (a * v) + m * (u * x) + s * s ≡ 1 + m * a + m * (w * b)
newton_balance m x r r' a b s u v w ha hb hr hs = omega (
  arith,
  ap (λ (t : ℕ). x * t) hr,
  ap (λ (t : ℕ). b * t) ha,
  ap (λ (t : ℕ). a * t) hb,
  ap (λ (t : ℕ). a * t) hs,
  ap (λ (t : ℕ). s * t) hs,
)

-- One step for the modulus `k` whose square divides 2 ^ 64.
newton_step :
    (x r t : ℕ)
    → u64 (x * r) ≡ 1 + t
    → (u v w : ℕ) × (x * newton x r + word * (u64 (x * r) * v) + word * (u * x) + t * t
        ≡ 1 + word * u64 (x * r) + word * (w * sub64 2 (u64 (x * r))))
unfolding newton
newton_step x r t h =
    let a = u64 (x * r) in
    let b = sub64 2 a in
    (
      r * b / word,
      (2 + word - a) / word,
      x * r / word,
      newton_balance word x r _ a b t _ _ _ (omega arith) (omega arith) (omega arith) h,
    )

step_8 : (x r : ℕ) → x * r % 2 ^ 8 ≡ 1 → x * newton x r % 2 ^ 16 ≡ 1
step_8 x r h =
    let t = u64 (x * r) / 2 ^ 8 in
    let (u, v, w, e) = newton_step x r (2 ^ 8 * t) (omega arith) in omega (arith, e)

step_16 : (x r : ℕ) → x * r % 2 ^ 16 ≡ 1 → x * newton x r % 2 ^ 32 ≡ 1
step_16 x r h =
    let t = u64 (x * r) / 2 ^ 16 in
    let (u, v, w, e) = newton_step x r (2 ^ 16 * t) (omega arith) in omega (arith, e)

step_32 : (x r : ℕ) → x * r % 2 ^ 32 ≡ 1 → x * newton x r % 2 ^ 64 ≡ 1
step_32 x r h =
    let t = u64 (x * r) / 2 ^ 32 in
    let (u, v, w, e) = newton_step x r (2 ^ 32 * t) (omega arith) in omega (arith, e)

-- For every odd limb the result is its inverse modulo 2 ^ 64.
pub modinv64_lem : (x : ℕ) → x % 2 ≡ 1 → u64 (x * modinv64 x) ≡ 1
unfolding modinv64 entry
modinv64_lem x odd = step_32 x _ (step_16 x _ (step_8 x _ (lookup_lem x odd)))
