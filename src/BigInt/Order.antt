-- ===== src/BigInt/Order.antt =====
-- dynamol/bigint/bigInt.c: the guard `bigInt_validate` and the comparisons, as they stand outside
-- the debug mode. A comparison returns its verdict and what it writes to `*err`, if it writes.
-- `stray` is the word before a buffer, which the guard reads when `n` is 0; `shared` says
-- whether two bigInts point to one buffer.
pub mod Mixed
pub mod Facts
pub mod Words
pub mod Signed64
pub mod Verdicts
pub mod Examples
use dynamol.Base.{ℕ, ◌-◌, ◌+◌, ◌≤◌, ◌<◌, ◌^◌, Option, none, some, Bool, true, false, not, ◌&&◌}
use dynamol.Base.{if◌then◌else◌, ltb, leb, ◌==◌, u64}
use dynamol.Base.Int.{ℤ, pos, negsuc, pos_part, neg_part, ltb_ℤ, ◌+ℤ◌}
use dynamol.BigInt.{BigInt, limb_at, is_null}
use dynamol.BigInt.Status.{Status, err_inval}
use dynamol.BigInt.Util.{sign_eq, is_unit_sign, comp}

abbrev pub Verdict : Type 0
Verdict = Bool × Option Status

-- `x.limbs[x.n - 1]` of a by-value bigInt: for `n = 0` the index wraps around to -1.
abbrev pub top_limb : ℕ → BigInt → ℕ
top_limb stray x = if x.n == 0 then stray else limb_at x (x.n - 1)

unfoldable pub validate : ℕ → BigInt → Bool
unfolding sign_eq is_unit_sign
validate stray x =
    if is_null x.limbs
    then false
    else if ltb x.cap 1
    then false
    else if ltb x.cap x.n
    then false
    else if not (is_unit_sign x.sign)
    then false
    else if top_limb stray x == 0
    then false
    else if (x.n == 0) && not (sign_eq x.sign (pos 1))
    then false
    else true

abbrev pub guarded : Bool → Bool → Verdict
guarded ok verdict = if ok then (verdict, none) else (false, some err_inval)

-- `==` of two int64_t.
abbrev pub i64_eq : ℤ → ℤ → Bool
i64_eq a b = (pos_part a == pos_part b) && (neg_part a == neg_part b)

-- The comparisons of two bigInts. `__BIGINT_MAGCOMP__` is the code of `comp`.
abbrev pub magcomp : BigInt → BigInt → ℤ
magcomp = comp

module _ (stray_a stray_b : ℕ) (shared : Bool) (a b : BigInt) where
  abbrev both : Bool
  both = validate stray_a a && validate stray_b b

  unfoldable pub equal : Verdict
  unfolding sign_eq
  equal = guarded both (
      if a.n == 0
      then (if b.n == 0 then true else false)
      else if not (sign_eq a.sign b.sign)
      then false
      else if not (a.n == b.n)
      then false
      else if shared
      then true
      else i64_eq (magcomp a b) (pos 0))

  unfoldable pub less : Verdict
  unfolding sign_eq
  less = guarded both (
      if not (sign_eq a.sign b.sign)
      then ltb_ℤ a.sign b.sign
      else if not (a.n == b.n)
      then (if sign_eq a.sign (pos 1) then ltb a.n b.n else ltb b.n a.n)
      else if shared
      then false
      else if sign_eq a.sign (pos 1)
      then ltb_ℤ (magcomp a b) (pos 0)
      else ltb_ℤ (pos 0) (magcomp a b))

  unfoldable pub more : Verdict
  unfolding sign_eq
  more = guarded both (
      if not (sign_eq a.sign b.sign)
      then ltb_ℤ b.sign a.sign
      else if not (a.n == b.n)
      then (if sign_eq a.sign (pos 1) then ltb b.n a.n else ltb a.n b.n)
      else if shared
      then false
      else if sign_eq a.sign (pos 1)
      then ltb_ℤ (pos 0) (magcomp a b)
      else ltb_ℤ (magcomp a b) (pos 0))

  unfoldable pub lequal : Verdict
  unfolding sign_eq
  lequal = guarded both (
      if not (sign_eq a.sign b.sign)
      then ltb_ℤ a.sign b.sign
      else if not (a.n == b.n)
      then (if sign_eq a.sign (pos 1) then ltb a.n b.n else ltb b.n a.n)
      else if shared
      then true
      else if sign_eq a.sign (pos 1)
      then not (ltb_ℤ (pos 0) (magcomp a b))
      else not (ltb_ℤ (magcomp a b) (pos 0)))

  unfoldable pub mequal : Verdict
  unfolding sign_eq
  mequal = guarded both (
      if not (sign_eq a.sign b.sign)
      then ltb_ℤ b.sign a.sign
      else if not (a.n == b.n)
      then (if sign_eq a.sign (pos 1) then ltb b.n a.n else ltb a.n b.n)
      else if shared
      then true
      else if sign_eq a.sign (pos 1)
      then not (ltb_ℤ (magcomp a b) (pos 0))
      else not (ltb_ℤ (pos 0) (magcomp a b)))
