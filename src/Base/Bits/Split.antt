-- ===== src/Base/Bits/Split.antt =====
-- Bit operations on numbers in two fields, and their bounds.
use Prim.Native.Nat.{ℕ, zero, suc, ◌+◌, ◌*◌, ◌/◌, ◌%◌, ◌^◌, ◌<◌, min, max}
use Prim.Native.Nat.{bit_and, bit_or, bit_xor, differ}
use mathlib.Core.Path.{◌≡◌, refl, ap, ap₂}
use native.Mathlib.Nat.{pow-succ'}
use native.Mathlib.Omega.{arith}
use dynamol.Base.Bits.Digit.{bit_and_step, bit_or_step, bit_xor_step}

-- An operation on numbers that is an operation on their binary digits.
pub record IsDigitwise (native op : ℕ → ℕ → ℕ) : Type 0 where
  pub step : (a b : ℕ) → native a b ≡ native (a / 2) (b / 2) * 2 + op (a % 2) (b % 2)
  pub digit : (a b : ℕ) → a < 2 → b < 2 → op a b < 2
  pub base : native 0 0 ≡ 0

halved : (k a b : ℕ) → (a + 2 ^ suc k * b) / 2 ≡ a / 2 + 2 ^ k * b
halved k a b = omega (arith, ap (λ (t : ℕ). t * b) (pow-succ' 2 k))

parity : (k a b : ℕ) → (a + 2 ^ suc k * b) % 2 ≡ a % 2
parity k a b = omega (arith, ap (λ (t : ℕ). t * b) (pow-succ' 2 k))

module _ {native op : ℕ → ℕ → ℕ} (d : IsDigitwise native op) where
  pub digitwise-lt : (k a b : ℕ) → a < 2 ^ k → b < 2 ^ k → native a b < 2 ^ k
  digitwise-lt zero a b ha hb = omega (arith, ap₂ native (only a ha) (only b hb), d.base)
    where
      only : (a : ℕ) → a < 1 → a ≡ 0
      only a h = omega arith
  digitwise-lt (suc k) a b ha hb = omega (
    arith,
    d.step a b,
    d.digit (a % 2) (b % 2) (omega arith) (omega arith),
    pow-succ' 2 k,
    digitwise-lt k (a / 2) (b / 2) (omega (arith, pow-succ' 2 k)) (omega (arith, pow-succ' 2 k)),
  )

  pub digitwise-join :
      (k a b c e : ℕ)
      → a < 2 ^ k
      → c < 2 ^ k
      → native (a + 2 ^ k * b) (c + 2 ^ k * e) ≡ native a c + 2 ^ k * native b e
  digitwise-join zero a b c e ha hc =
      let pa : a ≡ 0 = omega arith in
      let pc : c ≡ 0 = omega arith in
      let pb : a + 1 * b ≡ b = omega arith in
      let pe : c + 1 * e ≡ e = omega arith in
      omega (arith, ap₂ native pb pe, ap₂ native pa pc, d.base)
  digitwise-join (suc k) a b c e ha hc = omega (
    arith,
    d.step (a + 2 ^ suc k * b) (c + 2 ^ suc k * e),
    ap₂ native (halved k a b) (halved k c e),
    ap₂ op (parity k a b) (parity k c e),
    d.step a c,
    digitwise-join k (a / 2) b (c / 2) e (omega (arith, pow-succ' 2 k))
        (omega (arith, pow-succ' 2 k)),
    ap (λ (t : ℕ). t * native b e) (pow-succ' 2 k),
  )

pub bit_and-IsDigitwise : IsDigitwise bit_and min
bit_and-IsDigitwise = record { step = bit_and_step; digit = λ a b p q. omega arith; base = refl }

pub bit_or-IsDigitwise : IsDigitwise bit_or max
bit_or-IsDigitwise = record { step = bit_or_step; digit = λ a b p q. omega arith; base = refl }

differ-lt : (a b : ℕ) → a < 2 → b < 2 → differ a b < 2
differ-lt zero b p q = q
differ-lt (suc zero) zero p q = omega arith
differ-lt (suc zero) (suc zero) p q = omega arith
differ-lt (suc zero) (suc (suc b)) p q = absurd (omega arith)
differ-lt (suc (suc a)) b p q = absurd (omega arith)

pub bit_xor-IsDigitwise : IsDigitwise bit_xor differ
bit_xor-IsDigitwise = record { step = bit_xor_step; digit = differ-lt; base = refl }
