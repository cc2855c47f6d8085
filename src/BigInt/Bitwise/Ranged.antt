-- ===== src/BigInt/Bitwise/Ranged.antt =====
-- dynamol/bigint/bigInt.c: the functional bitwise operations with an explicit count of limbs.
pub mod Results
pub mod Operand
pub mod Word
pub mod Integer
pub mod Runs
use dynamol.Base.{
  ℕ, Option, some, Bool, not, ◌&&◌, if◌then◌else◌, ◌==◌, u64_max, not64, bit_and, bit_or, bit_xor,
}
use dynamol.Base.Int.{ℤ, pos, ltb_ℤ}
use dynamol.BigInt.{BigInt}
use dynamol.BigInt.Status.{success, err_inval, alloc_oom}
use dynamol.BigInt.Order.{validate}
use dynamol.BigInt.Order.Mixed.{mag_i64}
use dynamol.BigInt.Bitwise.{Outcome, computed, linit, padded, first_only, error_value}

-- The common body: calloc, the loop, and the sign of `x` unless the result is zero.
abbrev pub ranged : Bool → Bool → BigInt → (ℕ → ℕ) → ℕ → Outcome
ranged ok granted x f op_range =
    if not ok
    then (error_value, some err_inval)
    else if not granted
    then (error_value, some alloc_oom)
    else if op_range == 0
    then (linit op_range, some success)
    else let res = computed f op_range in
      (record res { sign = if res.n == 0 then pos 1 else x.sign }, some success)

module _ (stray : ℕ) (granted : Bool) (x : BigInt) (val op_range : ℕ) where
  unfoldable pub ex_oru64 : Outcome
  ex_oru64 =
      ranged (validate stray x) granted x (λ i. bit_or (padded x i) (first_only val i)) op_range

  unfoldable pub ex_noru64 : Outcome
  ex_noru64 =
      ranged (validate stray x) granted x (λ i. not64 (bit_or (padded x i) (first_only val i)))
        op_range

  unfoldable pub ex_xoru64 : Outcome
  ex_xoru64 =
      ranged (validate stray x) granted x (λ i. bit_xor (padded x i) (first_only val i)) op_range

  unfoldable pub ex_xnoru64 : Outcome
  ex_xnoru64 =
      ranged (validate stray x) granted x (λ i. not64 (bit_xor (padded x i) (first_only val i)))
        op_range

-- `b` of the loops with an int64_t: the magnitude, then the bits of the sign.
unfoldable pub extended : ℤ → ℕ → ℕ
extended val i = if i == 0 then mag_i64 val else if ltb_ℤ val (pos 0) then u64_max else 0

module _ (stray : ℕ) (granted : Bool) (x : BigInt) (val : ℤ) (op_range : ℕ) where
  -- The loop runs only on a bigInt other than zero.
  unfoldable pub ex_andi64 : Outcome
  ex_andi64 =
      if validate stray x && granted && (x.n == 0)
      then (linit op_range, some success)
      else ranged (validate stray x) granted x (λ i. bit_and (padded x i) (extended val i)) op_range

  unfoldable pub ex_nandi64 : Outcome
  ex_nandi64 =
      ranged (validate stray x) granted x (λ i. not64 (bit_and (padded x i) (extended val i)))
        op_range

  unfoldable pub ex_ori64 : Outcome
  ex_ori64 =
      ranged (validate stray x) granted x (λ i. bit_or (padded x i) (extended val i)) op_range

  unfoldable pub ex_nori64 : Outcome
  ex_nori64 =
      ranged (validate stray x) granted x (λ i. not64 (bit_or (padded x i) (extended val i)))
        op_range

  unfoldable pub ex_xori64 : Outcome
  ex_xori64 =
      ranged (validate stray x) granted x (λ i. bit_xor (padded x i) (extended val i)) op_range

  unfoldable pub ex_xnori64 : Outcome
  ex_xnori64 =
      ranged (validate stray x) granted x (λ i. not64 (bit_xor (padded x i) (extended val i)))
        op_range

module _ (stray_x stray_y : ℕ) (granted : Bool) (x y : BigInt) (op_range : ℕ) where
  abbrev ok : Bool
  ok = validate stray_x x && validate stray_y y

  unfoldable pub ex_and : Outcome
  ex_and = ranged ok granted x (λ i. bit_and (padded x i) (padded y i)) op_range

  unfoldable pub ex_nand : Outcome
  ex_nand = ranged ok granted x (λ i. not64 (bit_and (padded x i) (padded y i))) op_range

  unfoldable pub ex_or : Outcome
  ex_or = ranged ok granted x (λ i. bit_or (padded x i) (padded y i)) op_range

  unfoldable pub ex_nor : Outcome
  ex_nor = ranged ok granted x (λ i. not64 (bit_or (padded x i) (padded y i))) op_range

  unfoldable pub ex_xor : Outcome
  ex_xor = ranged ok granted x (λ i. bit_xor (padded x i) (padded y i)) op_range

  unfoldable pub ex_xnor : Outcome
  ex_xnor = ranged ok granted x (λ i. not64 (bit_xor (padded x i) (padded y i))) op_range
