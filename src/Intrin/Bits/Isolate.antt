-- ===== src/Intrin/Bits/Isolate.antt =====
-- `x & -x` and `x & (x - 1)` by the lowest set bit.
use dynamol.Base.{
  ℕ, zero, suc, ◌+◌, ◌-◌, ◌*◌, ◌/◌, ◌%◌, ◌^◌, ◌<◌, ◌≡◌, arith, ap, sym, ◌∙◌, bit_and, two-pow-suc,
  ==-cases, inl, inr,
}
use dynamol.Base.Bits.{bit_and_step}

-- Bits that no place shares.
bit_and-complement : (n z : ℕ) → z < 2 ^ n → bit_and z (2 ^ n - 1 - z) ≡ 0
bit_and-complement zero z h = ap (λ (t : ℕ). bit_and t (1 - 1 - t)) only
  where
    only : z ≡ 0
    only = omega arith
bit_and-complement (suc n) z h =
    let half : (2 ^ suc n - 1 - z) / 2 ≡ 2 ^ n - 1 - z / 2 = omega (arith, two-pow-suc n, h) in
    let low : (2 ^ suc n - 1 - z) % 2 ≡ 1 - z % 2 = omega (arith, two-pow-suc n, h) in
    omega (
      arith,
      bit_and_step z (2 ^ suc n - 1 - z),
      ap (bit_and (z / 2)) half,
      bit_and-complement n (z / 2) (omega (arith, two-pow-suc n, h)),
      low,
    )

-- `x` is an odd multiple of 2 to the `k`.
pub record LowestBit (n x k : ℕ) : Type 0 where
  pub place : k < n
  pub odd_part : ℕ
  pub odd_multiple : x ≡ 2 ^ k * (2 * odd_part + 1)

abbrev pub Isolated : ℕ → ℕ → Type 0
Isolated n x = (k : ℕ) × LowestBit n x k × (bit_and x (2 ^ n - x) ≡ 2 ^ k)

pub isolate : (n x : ℕ) → 0 < x → x < 2 ^ n → Isolated n x
isolate zero x p h = absurd (omega arith)
isolate (suc n) x p h = elim (==-cases (x % 2) 0) [
  | inl (q, e) ↦
      let (k, b, masked) = isolate n (x / 2) (omega arith) (omega (arith, two-pow-suc n)) in
      let half : (2 ^ suc n - x) / 2 ≡ 2 ^ n - x / 2 = omega (arith, two-pow-suc n, e) in
      (
        suc k,
        record {
          place = omega (arith, b.place);
          odd_part = b.odd_part;
          odd_multiple =
              omega (
                arith,
                e,
                b.odd_multiple,
                ap (λ (t : ℕ). t * (2 * b.odd_part + 1)) (two-pow-suc k),
              );
        },
        omega (
          arith,
          bit_and_step x (2 ^ suc n - x),
          ap (bit_and (x / 2)) half,
          masked,
          two-pow-suc k,
          e,
        ),
      )
  | inr (q, ne) ↦
      let half : (2 ^ suc n - x) / 2 ≡ 2 ^ n - 1 - x / 2 = omega (arith, two-pow-suc n, h) in
      (
        0,
        record { place = omega arith; odd_part = x / 2; odd_multiple = omega arith },
        omega (
          arith,
          bit_and_step x (2 ^ suc n - x),
          ap (bit_and (x / 2)) half,
          bit_and-complement n (x / 2) (omega (arith, two-pow-suc n, h)),
          two-pow-suc n,
        ),
      )
]

bit_and_self : (n x : ℕ) → x < 2 ^ n → bit_and x x ≡ x
bit_and_self zero x h = ap (λ (t : ℕ). bit_and t t) only ∙ sym only
  where
    only : x ≡ 0
    only = omega arith
bit_and_self (suc n) x h =
    omega (arith, bit_and_step x x, bit_and_self n (x / 2) (omega (arith, two-pow-suc n)))

-- Only a power of two shares no bit with its predecessor.
pub power_of_two :
    (n x : ℕ) → 0 < x → x < 2 ^ n → bit_and x (x - 1) ≡ 0 → (k : ℕ) × (k < n) × (x ≡ 2 ^ k)
power_of_two zero x p h e = absurd (omega arith)
power_of_two (suc n) x p h e = elim (==-cases (x % 2) 0) [
  | inl (q, even) ↦
      let half : (x - 1) / 2 ≡ x / 2 - 1 = omega (arith, even) in
      let (k, b, is) =
        power_of_two n (x / 2) (omega arith) (omega (arith, two-pow-suc n))
          (omega (arith, bit_and_step x (x - 1), ap (bit_and (x / 2)) half, e)) in
      (suc k, omega (arith, b), omega (arith, is, two-pow-suc k, even))
  | inr (q, odd) ↦
      let half : (x - 1) / 2 ≡ x / 2 = omega (arith, odd) in
      let top : x / 2 ≡ 0 = omega (
        arith,
        bit_and_step x (x - 1),
        ap (bit_and (x / 2)) half,
        bit_and_self n (x / 2) (omega (arith, two-pow-suc n)),
        e,
      ) in
      (0, omega arith, omega (arith, top))
]
