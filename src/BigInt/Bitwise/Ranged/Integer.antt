-- ===== src/BigInt/Bitwise/Ranged/Integer.antt =====
-- The operations of a bigInt and an int64_t with an explicit count of limbs.
use dynamol.Base.{
  ℕ, zero, suc, ◌+◌, ◌-◌, ◌%◌, ◌<◌, ◌≡◌, arith, true, word, weight, if◌then◌else◌, weight-zero,
  weight-suc, weight-pos,
}
use dynamol.Base.{bit_and, bit_or, bit_xor}
use dynamol.Base.Int.{ℤ, pos, ltb_ℤ}
use dynamol.Base.Bits.Split.{bit_and-IsDigitwise, bit_or-IsDigitwise, bit_xor-IsDigitwise}
use dynamol.BigInt.{BigInt, IsValid}
use dynamol.BigInt.Value.{value, seg, seg-zero, seg-suc}
use native.Mathlib.Nat.{zero-mod}
use dynamol.Base.{==-cases, refl, inl, inr, ap, sym, ◌∙◌}
use dynamol.Base.Bits.Fields.{zero-bit_and}
use dynamol.BigInt.AddSub.Operands.{value-empty}
use dynamol.BigInt.Bitwise.Ranged.{ex_andi64}
use dynamol.BigInt.Bitwise.Fill.{linit-IsValid, linit-n}
use dynamol.BigInt.Order.{validate}
use dynamol.BigInt.Order.Mixed.{abs}
use dynamol.BigInt.Order.Signed64.{IsI64, mag_i64-abs}
use dynamol.BigInt.Bitwise.Ranged.{extended, ex_nandi64, ex_ori64, ex_nori64, ex_xori64, ex_xnori64}
use dynamol.BigInt.Bitwise.Ranged.Results.{Gives}
use dynamol.BigInt.Bitwise.Ranged.Operand.{word-Gives, turned_word-Gives}

-- The number that the loops take for an int64_t on `k` limbs: the magnitude, and for a negative
-- one all ones in the limbs above the lowest.
abbrev pub extension : ℤ → ℕ → ℕ
extension val k = abs val + (if ltb_ℤ val (pos 0) then weight k - word else 0)

pub extended-lt : (val : ℤ) → IsI64 val → (j : ℕ) → extended val j < word
unfolding extended
extended-lt val h j = ground (arith, mag_i64-abs val h)

seg-extended_high :
    (val : ℤ) (i k : ℕ)
    → seg (extended val) (suc i) k ≡ (if ltb_ℤ val (pos 0) then weight k - 1 else 0)
unfolding extended
seg-extended_high val i zero = ground (arith, seg-zero (extended val) (suc i), weight-zero)
seg-extended_high val i (suc k) = ground (
  arith,
  seg-suc (extended val) (suc i) k,
  seg-extended_high val (suc i) k,
  weight-suc k,
  weight-pos k,
)

pub seg-extended :
    (val : ℤ) (k : ℕ) → IsI64 val → seg (extended val) 0 (suc k) ≡ extension val (suc k)
unfolding extended
seg-extended val k h = ground (
  arith,
  seg-suc (extended val) 0 k,
  seg-extended_high val 0 k,
  weight-suc k,
  weight-pos k,
  mag_i64-abs val h,
)

module _ (stray : ℕ) (x : BigInt) (val : ℤ) (k : ℕ) (vx : IsValid x) (hv : IsI64 val)
    (good : validate stray x ≡ true) where
  andi64-Gives :
      Gives
        (ex_andi64 stray true x val (suc k))
        x
        (bit_and (value x % weight (suc k)) (extension val (suc k)))
  unfolding ex_andi64
  andi64-Gives = elim (==-cases x.n 0) [
    | inl (q, e) ↦
        let (valid, zero_value) = linit-IsValid (suc k) in
        let low : value x % weight (suc k) ≡ 0 =
          ap (λ (t : ℕ). t % weight (suc k)) (value-empty x e) ∙ zero-mod (weight (suc k)) in
        rw (good, q)
          (
            valid,
            zero_value
                ∙ sym (
                    ap (λ (t : ℕ). bit_and t (extension val (suc k))) low
                    ∙ zero-bit_and (extension val (suc k))),
            λ ne. absurd (ne (linit-n (suc k))),
            refl,
          )
    | inr (q, e) ↦
        rw (good, q)
          (word-Gives x (extended val) k _ vx (extended-lt val hv) (seg-extended val k hv)
            bit_and-IsDigitwise)
  ]

  -- For a valid bigInt that passes the guard, with memory, an int64_t and a count of `k + 1` limbs:
  -- `bigInt_ex_andi64`, `bigInt_ex_ori64` and `bigInt_ex_xori64` give the operation of the magnitude modulo
  -- 2 ^ (64 * (k + 1)) and of the magnitude of the int64_t, which for a negative one has all ones
  -- above its lowest limb; `bigInt_ex_nandi64`, `bigInt_ex_nori64` and `bigInt_ex_xnori64` give
  -- complements to that width. Each result is valid, has the sign of `x` unless it is zero, and
  -- success is written.
  pub ranged_i64_lem :
      Gives
        (ex_andi64 stray true x val (suc k))
        x
        (bit_and (value x % weight (suc k)) (extension val (suc k)))
      × Gives
          (ex_ori64 stray true x val (suc k))
          x
          (bit_or (value x % weight (suc k)) (extension val (suc k)))
      × Gives
          (ex_xori64 stray true x val (suc k))
          x
          (bit_xor (value x % weight (suc k)) (extension val (suc k)))
      × Gives
          (ex_nandi64 stray true x val (suc k))
          x
          (weight (suc k) - 1 - bit_and (value x % weight (suc k)) (extension val (suc k)))
      × Gives
          (ex_nori64 stray true x val (suc k))
          x
          (weight (suc k) - 1 - bit_or (value x % weight (suc k)) (extension val (suc k)))
      × Gives
          (ex_xnori64 stray true x val (suc k))
          x
          (weight (suc k) - 1 - bit_xor (value x % weight (suc k)) (extension val (suc k)))
  unfolding ex_ori64 ex_xori64 ex_nandi64 ex_nori64 ex_xnori64
  ranged_i64_lem =
      let small = extended-lt val hv in
      let whole = seg-extended val k hv in
      rw good (
        (
          andi64-Gives,
          word-Gives x (extended val) k _ vx small whole bit_or-IsDigitwise,
          word-Gives x (extended val) k _ vx small whole bit_xor-IsDigitwise,
          turned_word-Gives x (extended val) k _ vx small whole bit_and-IsDigitwise,
          turned_word-Gives x (extended val) k _ vx small whole bit_or-IsDigitwise,
          turned_word-Gives x (extended val) k _ vx small whole bit_xor-IsDigitwise,
        ))
