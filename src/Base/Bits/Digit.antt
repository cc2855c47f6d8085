-- ===== src/Base/Bits/Digit.antt =====
-- One binary digit of the native `bit_and`, `bit_or` and `bit_xor`, with no fuel left over.
use Prim.Native.Nat.{ℕ, zero, suc, ◌+◌, ◌-◌, ◌*◌, ◌/◌, ◌%◌, ◌≤◌, min, max}
use Prim.Native.Nat.{bit_and, bit_or, bit_xor, digits, bitwise, differ}
use Prim.Native.Nat.{bit_and-bitwise, bit_or-bitwise, bit_xor-bitwise}
use Prim.Native.Nat.add
use mathlib.Core.Path.{◌≡◌, refl, ap, sym, ◌∙◌}
use native.Mathlib.Omega.{arith}

-- A native operation that means `bitwise rest op`, where `rest` follows the same digits.
module _ (native op : ℕ → ℕ → ℕ) (rest : ℕ → ℕ)
    (means : (a b : ℕ) → native a b ≡ bitwise rest op a b)
    (rest_step : (b : ℕ) → rest b ≡ rest (b / 2) * 2 + op 0 (b % 2)) where
  digits-more : (k a b : ℕ) → a ≤ k → digits rest op (suc k) a b ≡ digits rest op k a b
  digits-more zero zero b h = refl
  digits-more (suc k) zero b h = refl
  digits-more zero (suc a) b h = absurd (omega arith)
  digits-more (suc k) (suc a) b h =
      ap (λ (t : ℕ). t * 2 + op (suc a % 2) (b % 2))
        (digits-more k (suc a / 2) (b / 2) (omega arith))

  digits-extra : (e a b : ℕ) → digits rest op (e + a) a b ≡ digits rest op a a b
  digits-extra zero a b = ap (λ (t : ℕ). digits rest op t a b) (add.zero a)
  digits-extra (suc e) a b =
      ap (λ (t : ℕ). digits rest op t a b) (add.suc e a)
      ∙ digits-more (e + a) a b (omega arith)
      ∙ digits-extra e a b

  lowest_digit : (a b : ℕ) → native a b ≡ native (a / 2) (b / 2) * 2 + op (a % 2) (b % 2)
  lowest_digit zero b = omega (arith, means 0 b, rest_step b, means 0 (b / 2))
  lowest_digit (suc a) b =
      let half = suc a / 2 in
      let split : a ≡ a - half + half = omega arith in
      means (suc a) b
      ∙ ap (λ (t : ℕ). t * 2 + op (suc a % 2) (b % 2))
          (ap (λ (t : ℕ). digits rest op t half (b / 2)) split
            ∙ digits-extra (a - half) half (b / 2)
            ∙ sym (means half (b / 2)))

pub bit_and_step : (a b : ℕ) → bit_and a b ≡ bit_and (a / 2) (b / 2) * 2 + min (a % 2) (b % 2)
bit_and_step =
    lowest_digit bit_and min (λ b. 0) (λ a b. simp bit_and-bitwise refl) (λ b. omega arith)

pub bit_or_step : (a b : ℕ) → bit_or a b ≡ bit_or (a / 2) (b / 2) * 2 + max (a % 2) (b % 2)
bit_or_step = lowest_digit bit_or max (λ b. b) (λ a b. simp bit_or-bitwise refl) (λ b. omega arith)

pub bit_xor_step : (a b : ℕ) → bit_xor a b ≡ bit_xor (a / 2) (b / 2) * 2 + differ (a % 2) (b % 2)
bit_xor_step =
    lowest_digit bit_xor differ (λ b. b) (λ a b. simp bit_xor-bitwise refl) (λ b. omega arith)
