-- ===== src/BigInt/Bitwise.antt =====
-- dynamol/bigint/bigInt.c: the functional bitwise operations that fill a fresh bigInt, as they
-- stand outside the debug mode. `granted` says whether calloc succeeds. An operation returns its
-- result and what it writes to `*err`, if it writes.
pub mod Fill
pub mod Values
pub mod Words64
pub mod Ranged
pub mod Examples
use dynamol.Base.{ℕ, zero, suc, ◌+◌, ◌<◌, Option, none, some, Bool, true, false, not, ◌&&◌, ◌||◌}
use dynamol.Base.{
  if◌then◌else◌, ltb, ◌==◌, replicate, flag, not64, u64_max, bit_and, bit_or, bit_xor,
}
use dynamol.Base.Int.{ℤ, pos}
use dynamol.BigInt.{BigInt, limb_at, set_limb}
use dynamol.BigInt.Status.{Status, err_inval, alloc_oom}
use dynamol.BigInt.Util.{trim_lz}
use dynamol.BigInt.Order.{validate}

abbrev pub Outcome : Type 0
Outcome = BigInt × Option Status

abbrev pub error_value : BigInt
error_value = record { n = 1; cap = 0; limbs = none; sign = pos 0 }

-- `__BIGINT_INTERNAL_LINIT__` when calloc succeeds.
unfoldable pub linit : ℕ → BigInt
linit k =
    let k' = if k == 0 then 1 else k in
    record { n = 0; cap = k'; limbs = some (replicate k' 0); sign = pos 1 }

-- `bigInt_normalize` is the code of `trim_lz` behind a test for NULL.
abbrev pub normalize : BigInt → BigInt
normalize = trim_lz

-- `for (i = ...) res.limbs[i] = f(i)` for `left` rounds.
unfoldable pub fill : (ℕ → ℕ) → ℕ → ℕ → BigInt → BigInt
fill f zero i res = res
fill f (suc left) i res = fill f left (suc i) (set_limb res i (f i))

-- `(i < x.n) ? x.limbs[i] : 0`
unfoldable pub padded : BigInt → ℕ → ℕ
padded x i = if ltb i x.n then limb_at x i else 0

-- The count of limbs that two operands span: `max(x.n, y.n)`.
abbrev pub span : BigInt → BigInt → ℕ
span x y = if ltb y.n x.n then x.n else y.n

-- The branch that computes: a fresh bigInt of `range` limbs, filled and normalized.
unfoldable pub computed : (ℕ → ℕ) → ℕ → BigInt
computed f range = normalize (record (fill f range 0 (linit range)) { n = range })

-- The guard, then calloc, then the result.
abbrev pub checked : Bool → Bool → BigInt → Outcome
checked ok granted res =
    if not ok
    then (error_value, some err_inval)
    else if granted
    then (res, none)
    else (error_value, some alloc_oom)

abbrev pub single : ℕ → ℤ → BigInt
single v sign = record (set_limb (linit 0) 0 v) {
  n = flag (not (v == 0));
  sign = (if v == 0 then pos 1 else sign);
}

-- `b` of the loops with a uint64_t.
unfoldable pub first_only : ℕ → ℕ → ℕ
first_only val i = if i == 0 then val else 0

module _ (stray : ℕ) (granted : Bool) (x : BigInt) where
  unfoldable pub noru64 : ℕ → Outcome
  noru64 val = checked (validate stray x) granted (
      if x.n == 0
      then single (not64 (bit_or 0 val)) x.sign
      else computed (λ i. not64 (bit_or (limb_at x i) (first_only val i))) x.n)

  unfoldable pub xoru64 : ℕ → Outcome
  xoru64 val = checked (validate stray x) granted (
      if x.n == 0
      then single (bit_xor 0 val) x.sign
      else computed (λ i. bit_xor (limb_at x i) (first_only val i)) x.n)

  unfoldable pub xnoru64 : ℕ → Outcome
  xnoru64 val = checked (validate stray x) granted (
      if x.n == 0
      then single (not64 (bit_xor 0 val)) x.sign
      else computed (λ i. not64 (bit_xor (limb_at x i) (first_only val i))) x.n)

module _ (stray_x stray_y : ℕ) (granted : Bool) (x y : BigInt) where
  abbrev both_valid : Bool
  both_valid = validate stray_x x && validate stray_y y

  unfoldable pub and : Outcome
  and = checked both_valid granted (
      if (x.n == 0) || (y.n == 0)
      then linit 0
      else computed (λ i. bit_and (padded x i) (padded y i)) (span x y))

  unfoldable pub nor : Outcome
  nor = checked both_valid granted (
      if (x.n == 0) && (y.n == 0)
      then record (set_limb (linit 0) 0 u64_max) { n = 1; sign = x.sign }
      else computed (λ i. not64 (bit_or (padded x i) (padded y i))) (span x y))

  unfoldable pub xor : Outcome
  xor = checked both_valid granted (
      if (x.n == 0) && (y.n == 0)
      then linit 0
      else computed (λ i. bit_xor (padded x i) (padded y i)) (span x y))

  unfoldable pub xnor : Outcome
  xnor = checked both_valid granted (
      if (x.n == 0) && (y.n == 0)
      then record (set_limb (linit 0) 0 u64_max) { n = 1 }
      else computed (λ i. not64 (bit_xor (padded x i) (padded y i))) (span x y))
