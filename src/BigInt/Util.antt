-- ===== src/BigInt/Util.antt =====
-- util/perf_util/bigNum_utils.c: the validity checks, the copies and the comparison. A function
-- that writes through one pointer takes that bigInt and returns it; where two pointers may be
-- equal, the result is the same bigInt that the C code leaves there.
pub mod Compare
pub mod Copy
pub mod Examples
use dynamol.Base.{
  ℕ, zero, suc, ◌+◌, ◌-◌, ◌*◌, ◌/◌, Option, none, some, List, Bool, true, false, not,
}
use dynamol.Base.{◌&&◌, ◌||◌, if◌then◌else◌, ltb, leb, ◌==◌, memcpy, replicate, flag}
use dynamol.Base.Int.{ℤ, pos, negsuc}
use dynamol.BigInt.{BigInt, cells, is_null, limb_at, set_limb, cells_of}

-- `==` of two int8_t signs.
unfoldable pub sign_eq : ℤ → ℤ → Bool
sign_eq (pos a) (pos b) = a == b
sign_eq (negsuc a) (negsuc b) = a == b
sign_eq (pos a) (negsuc b) = false
sign_eq (negsuc a) (pos b) = false

unfoldable pub is_unit_sign : ℤ → Bool
unfolding sign_eq
is_unit_sign s = sign_eq s (pos 1) || sign_eq s (negsuc 0)

-- The pointer `x` itself may be NULL.
unfoldable pub valid : Option BigInt → Bool
unfolding sign_eq is_unit_sign
valid none = false
valid (some x) =
    if is_null x.limbs
    then false
    else if ltb x.cap 1
    then false
    else if ltb x.cap x.n
    then false
    else if not (is_unit_sign x.sign)
    then false
    else if x.n == 0
    then sign_eq x.sign (pos 1)
    else if limb_at x (x.n - 1) == 0
    then false
    else true

unfoldable pub pvalid : Option BigInt → Bool
unfolding is_unit_sign
pvalid none = false
pvalid (some x) =
    if is_null x.limbs
    then false
    else if ltb x.cap 1
    then false
    else if ltb x.cap x.n
    then false
    else if not (is_unit_sign x.sign)
    then false
    else true

unfoldable pub svalid : Option BigInt → Bool
svalid none = false
svalid (some x) = if is_null x.limbs then false else if ltb x.cap 1 then false else true

unfoldable pub zset : BigInt → BigInt
zset x = record x { n = 0; sign = pos 1 }

abbrev copy_cells : ℕ → Option (List ℕ) → List ℕ → Option (List ℕ)
copy_cells k none src = none
copy_cells k (some dst) src = some (memcpy k dst src)

-- When `dst` and `source` are one bigInt, memcpy copies a block onto itself, which C leaves undefined;
-- here that changes nothing.
unfoldable pub copy : BigInt → BigInt → BigInt
unfolding zset
copy dst source =
    if is_null dst.limbs
    then dst
    else if is_null source.limbs || source.n == 0
    then zset dst
    else record dst {
      limbs = copy_cells source.n dst.limbs (cells source);
      n = source.n;
      sign = source.sign;
    }

-- The loop that drops zero limbs from the top; `k` is `x->n` on entry.
unfoldable pub trim_count : (ℕ → ℕ) → ℕ → ℕ
trim_count f zero = zero
trim_count f (suc k) = let rest = trim_count f k in if f k == 0 then rest else suc k

unfoldable pub trim_lz : BigInt → BigInt
unfolding trim_count
trim_lz x =
    let n' = trim_count (limb_at x) x.n in
    record x { n = n'; sign = if n' == 0 then pos 1 else x.sign }

-- The loop of `comp` from limb `k - 1` downwards.
comp_loop : BigInt → BigInt → ℕ → ℤ
comp_loop x y zero = pos 0
comp_loop x y (suc k) =
    let rest = comp_loop x y k in
    if limb_at x k == limb_at y k
    then rest
    else if ltb (limb_at y k) (limb_at x k)
    then pos 1
    else negsuc 0

-- Magnitudes only: 1, 0 or -1.
pub comp : BigInt → BigInt → ℤ
comp x y = if x.n == y.n then comp_loop x y x.n else if ltb y.n x.n then pos 1 else negsuc 0
