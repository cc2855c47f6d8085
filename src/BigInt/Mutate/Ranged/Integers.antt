-- ===== src/BigInt/Mutate/Ranged/Integers.antt =====
-- The changing operations with an int64_t and an explicit count of limbs, on the magnitude.
use dynamol.Base.{ℕ, suc, ◌≡◌, inl, inr, ap, sym, ◌∙◌, true, some}
use dynamol.Base.{bit_and, bit_or, bit_xor, ==-cases}
use dynamol.Base.Int.{ℤ}
use dynamol.Base.Bits.Split.{bit_and-IsDigitwise, bit_or-IsDigitwise, bit_xor-IsDigitwise}
use dynamol.BigInt.{BigInt, IsValid}
use dynamol.BigInt.Value.{value}
use dynamol.BigInt.AddSub.Operands.{value-empty}
use dynamol.BigInt.Order.Signed64.{IsI64}
use dynamol.BigInt.Room.{Realloc}
use dynamol.BigInt.Bitwise.Ranged.{extended}
use dynamol.BigInt.Bitwise.Ranged.Integer.{extension, extended-lt, seg-extended}
use dynamol.BigInt.Mutate.{pvalidate}
use dynamol.BigInt.Mutate.Partial.{partial_lem}
use dynamol.BigInt.Mutate.Ranged.Outcome.{Becomes, GetsRoom, kept, kept-IsValid, ranging-Becomes}
use dynamol.BigInt.Mutate.Ranged.Loop.{
  signed-IsChanged, lower_limbs, complement, lower_limbs-and_zero, loop-Becomes, turned-Becomes,
}
use dynamol.BigInt.Mutate.Ranged.{
  mutex_andi64, mutex_nandi64, mutex_ori64, mutex_nori64, mutex_xori64, mutex_xnori64,
}

module _ {realloc : Realloc} {x z : BigInt} (stray : ℕ) (val : ℤ) (k : ℕ) (vx : IsValid x)
    (hv : IsI64 val) (good : pvalidate stray x ≡ true) (room : GetsRoom realloc x (suc k) z) where
  andi64-Becomes :
      Becomes
        (mutex_andi64 realloc stray (some x) val (suc k))
        x
        (lower_limbs bit_and (suc k) (extension val (suc k)) (value x))
  unfolding mutex_andi64
  andi64-Becomes =
      let (vz, same) = kept-IsValid vx room in
      let (keeps, fits) = kept vx room in
      rw good (
        ranging-Becomes vx room _ (lower_limbs bit_and (suc k) (extension val (suc k)))
          (elim (==-cases z.n 0) [
            | inl (q, e) ↦ rw q (
              vz,
              value-empty z e
                  ∙ sym (
                      ap (lower_limbs bit_and (suc k) (extension val (suc k))) (value-empty z e)
                      ∙ lower_limbs-and_zero (suc k) (extension val (suc k))),
              λ ne. absurd (ne e),
            )
            | inr (q, e) ↦ rw q (
                signed-IsChanged _ z _ (
                  partial_lem z vz (suc k) fits (extended val) _ (extended-lt val hv)
                    (seg-extended val k hv) bit_and-IsDigitwise))
          ]))

  -- For a valid bigInt that passes the guard, an int64_t and a count of `k + 1` limbs for which
  -- there is room, the six operations `bigInt_mutex_…i64` succeed and leave behind the pointer a valid
  -- bigInt with the sign of `x` unless it is zero. Its low `k + 1` limbs are the operation, or its
  -- complement, on those of `x` and on the magnitude of the int64_t, extended by ones when that is
  -- negative; its limbs above are those of `x`.
  pub mutex_i64_lem :
      Becomes
        (mutex_andi64 realloc stray (some x) val (suc k))
        x
        (lower_limbs bit_and (suc k) (extension val (suc k)) (value x))
      × Becomes
          (mutex_ori64 realloc stray (some x) val (suc k))
          x
          (lower_limbs bit_or (suc k) (extension val (suc k)) (value x))
      × Becomes
          (mutex_xori64 realloc stray (some x) val (suc k))
          x
          (lower_limbs bit_xor (suc k) (extension val (suc k)) (value x))
      × Becomes
          (mutex_nandi64 realloc stray (some x) val (suc k))
          x
          (lower_limbs (complement bit_and (suc k)) (suc k) (extension val (suc k)) (value x))
      × Becomes
          (mutex_nori64 realloc stray (some x) val (suc k))
          x
          (lower_limbs (complement bit_or (suc k)) (suc k) (extension val (suc k)) (value x))
      × Becomes
          (mutex_xnori64 realloc stray (some x) val (suc k))
          x
          (lower_limbs (complement bit_xor (suc k)) (suc k) (extension val (suc k)) (value x))
  unfolding mutex_ori64 mutex_xori64 mutex_nandi64 mutex_nori64 mutex_xnori64
  mutex_i64_lem =
      let small = extended-lt val hv in
      let whole = seg-extended val k hv in
      rw good (
        (
          andi64-Becomes,
          loop-Becomes k vx room (extended val) _ small whole bit_or-IsDigitwise,
          loop-Becomes k vx room (extended val) _ small whole bit_xor-IsDigitwise,
          turned-Becomes k vx room (extended val) _ small whole bit_and-IsDigitwise,
          turned-Becomes k vx room (extended val) _ small whole bit_or-IsDigitwise,
          turned-Becomes k vx room (extended val) _ small whole bit_xor-IsDigitwise,
        ))
