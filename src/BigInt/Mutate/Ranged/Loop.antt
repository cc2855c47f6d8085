-- ===== src/BigInt/Mutate/Ranged/Loop.antt =====
-- The loop in place of a bigInt and `suc k` words, and the trimming.
use dynamol.Base.{
  ℕ, suc, ◌+◌, ◌-◌, ◌*◌, ◌/◌, ◌%◌, ◌<◌, ◌≡◌, arith, ◌==◌, if◌then◌else◌, word, weight, bit_and,
  not64,
}
use dynamol.Base.Int.{pos}
use dynamol.Base.Bits.Fields.{zero-bit_and}
use dynamol.Base.Bits.Split.{IsDigitwise}
use native.Mathlib.Nat.{zero-mod, zero-div, mul-zero}
use dynamol.BigInt.{BigInt, IsValid, limb_at}
use dynamol.BigInt.Value.{value, seg}
use dynamol.BigInt.Room.{Realloc}
use dynamol.BigInt.Bitwise.Ranged.Results.{with_sign}
use dynamol.BigInt.Mutate.{through}
use dynamol.BigInt.Mutate.Partial.{IsChanged, partial_lem, partial_complement_lem}
use dynamol.BigInt.Mutate.Ranged.{ranging, partial_signed}
use dynamol.BigInt.Mutate.Ranged.Outcome.{Becomes, GetsRoom, kept, kept-IsValid, ranging-Becomes}

-- The last statement of the loops, which resets the sign of zero once more.
pub signed-IsChanged :
    (r x : BigInt) (v : ℕ)
    → IsChanged r x v
    → IsChanged (record r { sign = if r.n == 0 then pos 1 else r.sign }) x v
unfolding value limb_at
signed-IsChanged r x v h = (with_sign r r.sign h.0 h.0.sign_unit, h.1, λ ne. ground (arith, h.2 ne))

-- An operation on the limbs below `k`, with the limbs above kept.
abbrev pub lower_limbs : (ℕ → ℕ → ℕ) → ℕ → ℕ → ℕ → ℕ
lower_limbs op k w v = op (v % weight k) w + weight k * (v / weight k)

abbrev pub complement : (ℕ → ℕ → ℕ) → ℕ → ℕ → ℕ → ℕ
complement op k a b = weight k - 1 - op a b

pub lower_limbs-and_zero : (k w : ℕ) → lower_limbs bit_and k w 0 ≡ 0
lower_limbs-and_zero k w =
    rw (zero-mod (weight k), zero-div (weight k), zero-bit_and w)
      (omega (arith, mul-zero (weight k)))

module _ {realloc : Realloc} {x z : BigInt} (k : ℕ) (vx : IsValid x)
    (room : GetsRoom realloc x (suc k) z) (g : ℕ → ℕ) (w : ℕ) (hg : (j : ℕ) → g j < word)
    (sg : seg g 0 (suc k) ≡ w) where
  pub loop-Becomes :
      {native op : ℕ → ℕ → ℕ}
      → IsDigitwise native op
      → Becomes
          (through (ranging realloc (suc k) x (partial_signed (λ i a. native a (g i)) (suc k))))
          x
          (lower_limbs native (suc k) w (value x))
  loop-Becomes {native} d = ranging-Becomes vx room _ (lower_limbs native (suc k) w) (
      signed-IsChanged _ z _
        (partial_lem z (kept-IsValid vx room).0 (suc k) (kept vx room).1 g w hg sg d))

  pub turned-Becomes :
      {native op : ℕ → ℕ → ℕ}
      → IsDigitwise native op
      → Becomes
          (through
            (ranging realloc (suc k) x (partial_signed (λ i a. not64 (native a (g i))) (suc k))))
          x
          (lower_limbs (complement native (suc k)) (suc k) w (value x))
  turned-Becomes {native} d =
      ranging-Becomes vx room _ (lower_limbs (complement native (suc k)) (suc k) w) (
        signed-IsChanged _ z _
          (partial_complement_lem z (kept-IsValid vx room).0 (suc k) (kept vx room).1 g w hg sg d))
