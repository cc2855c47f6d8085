-- ===== src/BigInt/Order/Mixed.antt =====
-- dynamol/bigint/bigInt.c: the comparisons with a uint64_t and an int64_t; `__MAG_I64__` of
-- util/perf_util/misc_utils.c.
use dynamol.Base.{ℕ, ◌-◌, ◌+◌, ◌^◌, true, false, not, ◌&&◌, if◌then◌else◌, ltb, leb, ◌==◌, u64}
use dynamol.Base.Int.{ℤ, pos, negsuc, pos_part, neg_part, ltb_ℤ, ◌+ℤ◌}
use dynamol.BigInt.{BigInt, limb_at}
use dynamol.BigInt.Util.{sign_eq}
use dynamol.BigInt.Order.{validate, guarded, Verdict, i64_eq}

abbrev pub abs : ℤ → ℕ
abs z = pos_part z + neg_part z

-- INT64_MIN
abbrev pub i64_min : ℤ
i64_min = negsuc (2 ^ 63 - 1)

-- `__MAG_I64__`
unfoldable pub mag_i64 : ℤ → ℕ
unfolding ◌+ℤ◌
mag_i64 v = if i64_eq v i64_min then u64 (abs (v +ℤ pos 1)) + 1 else u64 (abs v)

abbrev pub sign_of : ℤ → ℤ
sign_of v = if ltb_ℤ v (pos 0) then negsuc 0 else pos 1

module _ (stray : ℕ) where
  unfoldable pub equal_u64 : BigInt → ℕ → Verdict
  unfolding sign_eq
  equal_u64 x val = guarded (validate stray x) (
      if x.n == 0
      then (if val == 0 then true else false)
      else if sign_eq x.sign (negsuc 0)
      then false
      else if ltb 1 x.n
      then false
      else limb_at x 0 == val)

  unfoldable pub less_u64 : BigInt → ℕ → Verdict
  unfolding sign_eq
  less_u64 x val = guarded (validate stray x) (
      if x.n == 0
      then (if val == 0 then false else true)
      else if sign_eq x.sign (negsuc 0)
      then true
      else if ltb 1 x.n
      then false
      else ltb (limb_at x 0) val)

  unfoldable pub more_u64 : BigInt → ℕ → Verdict
  unfolding sign_eq
  more_u64 x val = guarded (validate stray x) (
      if x.n == 0
      then (if val == 0 then true else false)
      else if sign_eq x.sign (negsuc 0)
      then false
      else if ltb 1 x.n
      then true
      else ltb val (limb_at x 0))

  unfoldable pub lequal_u64 : BigInt → ℕ → Verdict
  unfolding sign_eq
  lequal_u64 x val = guarded (validate stray x) (
      if x.n == 0
      then true
      else if sign_eq x.sign (negsuc 0)
      then true
      else if ltb 1 x.n
      then false
      else leb (limb_at x 0) val)

  unfoldable pub mequal_u64 : BigInt → ℕ → Verdict
  unfolding sign_eq
  mequal_u64 x val = guarded (validate stray x) (
      if x.n == 0
      then (if val == 0 then true else false)
      else if sign_eq x.sign (negsuc 0)
      then false
      else if ltb 1 x.n
      then true
      else leb val (limb_at x 0))

  unfoldable pub equal_i64 : BigInt → ℤ → Verdict
  unfolding sign_eq
  equal_i64 x val = guarded (validate stray x) (
      if x.n == 0
      then (if i64_eq val (pos 0) then true else false)
      else if not (sign_eq (sign_of val) x.sign)
      then false
      else if ltb 1 x.n
      then false
      else limb_at x 0 == mag_i64 val)

  unfoldable pub less_i64 : BigInt → ℤ → Verdict
  unfolding sign_eq
  less_i64 x val = guarded (validate stray x) (
      if x.n == 0
      then ltb_ℤ (pos 0) val
      else if not (sign_eq (sign_of val) x.sign)
      then ltb_ℤ x.sign (sign_of val)
      else if ltb 1 x.n
      then sign_eq x.sign (negsuc 0)
      else if ltb (mag_i64 val) (limb_at x 0)
      then sign_eq x.sign (negsuc 0)
      else ltb (limb_at x 0) (mag_i64 val) && sign_eq x.sign (pos 1))

  unfoldable pub more_i64 : BigInt → ℤ → Verdict
  unfolding sign_eq
  more_i64 x val = guarded (validate stray x) (
      if x.n == 0
      then ltb_ℤ val (pos 0)
      else if not (sign_eq (sign_of val) x.sign)
      then ltb_ℤ (sign_of val) x.sign
      else if ltb 1 x.n
      then not (ltb_ℤ x.sign (sign_of val))
      else if ltb (limb_at x 0) (mag_i64 val)
      then sign_eq x.sign (negsuc 0)
      else ltb (mag_i64 val) (limb_at x 0) && sign_eq x.sign (pos 1))

  unfoldable pub lequal_i64 : BigInt → ℤ → Verdict
  unfolding sign_eq
  lequal_i64 x val = guarded (validate stray x) (
      if x.n == 0
      then not (ltb_ℤ val (pos 0))
      else if not (sign_eq x.sign (sign_of val))
      then ltb_ℤ x.sign (sign_of val)
      else if ltb 1 x.n
      then sign_eq x.sign (negsuc 0)
      else if ltb (mag_i64 val) (limb_at x 0)
      then sign_eq x.sign (negsuc 0)
      else sign_eq x.sign (pos 1))

  unfoldable pub mequal_i64 : BigInt → ℤ → Verdict
  unfolding sign_eq
  mequal_i64 x val = guarded (validate stray x) (
      if x.n == 0
      then not (ltb_ℤ (pos 0) val)
      else if not (sign_eq x.sign (sign_of val))
      then ltb_ℤ (sign_of val) x.sign
      else if ltb 1 x.n
      then sign_eq x.sign (pos 1)
      else if ltb (mag_i64 val) (limb_at x 0)
      then sign_eq x.sign (pos 1)
      else sign_eq x.sign (negsuc 0))
