-- ===== src/BigInt/Convert.antt =====
-- dynamol/bigint/bigInt.c: constructors, assignments and conversions from and to machine integers,
-- as they stand outside the debug mode. A pointer that may be NULL is an `Option`; an operation
-- returns its status and what the pointer's target then holds. `block` is what malloc returns.
pub mod Words
pub mod Examples
use dynamol.Base.{ℕ, suc, ◌+◌, ◌-◌, ◌*◌, ◌^◌, ◌<◌, Option, none, some, Bool, true, false, not, List}
use dynamol.Base.{◌||◌, ◌&&◌, if◌then◌else◌, ltb, ◌==◌, memcpy, flag}
use dynamol.Base.Int.{ℤ, pos, negsuc, ltb_ℤ}
use dynamol.BigInt.{BigInt, limb_at, set_limb, cells, cells_of}
use dynamol.BigInt.Status.{Status, success, null, err_inval, err_sinval, err_range, alloc_oom}
use dynamol.BigInt.Util.{sign_eq, pvalid}
use dynamol.BigInt.Order.{validate, i64_eq}
use dynamol.BigInt.Order.Mixed.{mag_i64, sign_of, i64_min}

abbrev Block : Type 0
Block = Option (List ℕ)

-- `free` gives the buffer back and leaves a header that no operation accepts.
unfoldable pub free : Option BigInt → Status × Option BigInt
free none = (null, none)
free (some x) = (success, some (record { n = 0; cap = 0; limbs = none; sign = pos 0 }))

unfoldable pub new : Block → Option BigInt → Status × Option BigInt
new block none = (null, none)
new none (some x) = (alloc_oom, some x)
new (some xs) (some x) = (success, some (record { n = 0; cap = 1; limbs = some xs; sign = pos 1 }))

unfoldable pub snew : Block → ℕ → Option BigInt → Status × Option BigInt
snew block n none = (null, none)
snew none n (some x) = (alloc_oom, some x)
snew (some xs) n (some x) =
    (success, some (record { n = 0; cap = n; limbs = some xs; sign = pos 1 }))

-- One limb written to a fresh or an old header.
abbrev pub one_limb : BigInt → ℕ → Bool → ℤ → BigInt
one_limb x v live sign = record (set_limb x 0 v) { n = flag live; sign = sign }

unfoldable pub newu64 : Block → Option BigInt → ℕ → Status × Option BigInt
newu64 block none v = (null, none)
newu64 none (some x) v = (alloc_oom, some x)
newu64 (some xs) (some x) v = (
  success,
  some (
      one_limb (record { n = 0; cap = 1; limbs = some xs; sign = pos 1 }) v (not (v == 0)) (pos 1)),
)

unfoldable pub newi64 : Block → Option BigInt → ℤ → Status × Option BigInt
newi64 block none v = (null, none)
newi64 none (some x) v = (alloc_oom, some x)
newi64 (some xs) (some x) v = (
  success,
  some (
      one_limb (record { n = 0; cap = 1; limbs = some xs; sign = pos 1 }) (mag_i64 v)
        (not (i64_eq v (pos 0))) (sign_of v)),
)

unfoldable pub getu64 : ℕ → Option BigInt → Status × Option BigInt
getu64 v none = (null, none)
getu64 v (some x) =
    if pvalid (some x)
    then (success, some (one_limb x v (not (v == 0)) (pos 1)))
    else (err_sinval, some x)

unfoldable pub geti64 : ℤ → Option BigInt → Status × Option BigInt
geti64 v none = (null, none)
geti64 v (some x) =
    if pvalid (some x)
    then (success, some (one_limb x (mag_i64 v) (not (i64_eq v (pos 0))) (sign_of v)))
    else (err_sinval, some x)

-- A conversion to an int64_t.
abbrev pub to_i64 : ℕ → ℤ
to_i64 w = if ltb w (2 ^ 63) then pos w else negsuc (2 ^ 64 - 1 - w)

-- Its product with a sign. `none` is behaviour that C leaves undefined: INT64_MIN times -1 is not an
-- int64_t.
abbrev pub i64_times_sign : ℤ → ℤ → Option ℤ
i64_times_sign (pos w) sign =
    some (if sign_eq sign (negsuc 0) then (if w == 0 then pos 0 else negsuc (w - 1)) else pos w)
i64_times_sign (negsuc w) sign =
    if sign_eq sign (negsuc 0)
    then (if w == 2 ^ 63 - 1 then none else some (pos (suc w)))
    else some (negsuc w)

-- The product returned, or written through the pointer, with success.
abbrev pub returned : Option ℤ → Option (Status × ℤ)
returned none = none
returned (some v) = some (success, v)

abbrev pub written : Option ℤ → Option (Status × Option ℤ)
written none = none
written (some v) = some (success, some v)

module _ (stray : ℕ) where
  abbrev pub low_limb : BigInt → ℕ
  low_limb x = if x.n == 0 then 0 else limb_at x 0

  unfoldable pub setu64 : BigInt → Option ℕ → Status × Option ℕ
  setu64 x none = (null, none)
  setu64 x (some old) =
      if validate stray x then (success, some (low_limb x)) else (err_inval, some old)

  unfoldable pub setu64_safe : BigInt → Option ℕ → Status × Option ℕ
  setu64_safe x none = (null, none)
  setu64_safe x (some old) =
      if not (validate stray x)
      then (err_inval, some old)
      else if sign_eq x.sign (negsuc 0) || ltb 1 x.n
      then (err_range, some old)
      else (success, some (low_limb x))

  -- The test `x.n > 1` of the source has no `return` and thus no effect. `none` is undefined
  -- behaviour, here and in `toi64_safe`.
  unfoldable pub seti64_safe : BigInt → Option ℤ → Option (Status × Option ℤ)
  seti64_safe x none = some (null, none)
  seti64_safe x (some old) =
      if not (validate stray x)
      then some (err_inval, some old)
      else let raw = low_limb x in
        if ltb (2 ^ 63) raw && sign_eq x.sign (negsuc 0)
        then some (err_range, some old)
        else if ltb (2 ^ 63 - 1) raw && sign_eq x.sign (pos 1)
        then some (err_range, some old)
        else written (i64_times_sign (to_i64 raw) x.sign)

  unfoldable pub tou64_safe : BigInt → Status × ℕ
  tou64_safe x =
      if not (validate stray x)
      then (err_inval, 0)
      else if sign_eq x.sign (negsuc 0) || ltb 1 x.n
      then (err_range, 0)
      else (success, low_limb x)

  unfoldable pub toi64_safe : BigInt → Option (Status × ℤ)
  toi64_safe x =
      if not (validate stray x)
      then some (err_inval, pos 0)
      else if ltb 1 x.n
      then some (err_range, i64_min)
      else let raw = low_limb x in
        if ltb (2 ^ 63) raw && sign_eq x.sign (negsuc 0)
        then some (err_range, i64_min)
        else if ltb (2 ^ 63 - 1) raw && sign_eq x.sign (pos 1)
        then some (err_range, i64_min)
        else returned (i64_times_sign (to_i64 raw) x.sign)
