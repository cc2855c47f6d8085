-- ===== src/BigInt/Limbwise.antt =====
-- util/perf_util/bigNum_utils.c: the operations of a bigInt with one limb and the shifts by bits,
-- which pass over the limbs once, upwards or downwards, with a carry, and the left shift by limbs.
pub mod Passes
pub mod Steps
pub mod Bits
pub mod Results
pub mod Raise
pub mod Sums
pub mod Shifts
pub mod Operations
pub mod Division
pub mod Examples
use dynamol.Base.{
  ℕ, zero, suc, ◌+◌, ◌-◌, ◌*◌, ◌/◌, ◌%◌, ◌^◌, Bool, not, ◌&&◌, ◌||◌, if◌then◌else◌, ltb, leb, ◌==◌,
  flag, u64, sub64, ◌<<<◌, ◌>>>◌, bit_and, bit_or,
}
use dynamol.Intrin.Arith.{add64c, wmul128, wdiv128}
use dynamol.Intrin.Bits.{ctz64, is_2pow}
use dynamol.BigInt.{BigInt, limb_at, set_limb}
use dynamol.BigInt.Bitwise.{fill}
use dynamol.BigInt.Util.{trim_lz, zset}

-- From cell `i` upwards, and from cell `i - 1` downwards: the bigInt and the carry.
pub upward : (ℕ → ℕ → ℕ × ℕ) → ℕ → ℕ → ℕ → BigInt → BigInt × ℕ
upward step zero i carry x = (x, carry)
upward step (suc left) i carry x =
    let out = step (limb_at x i) carry in upward step left (suc i) out.1 (set_limb x i out.0)

pub downward : (ℕ → ℕ → ℕ × ℕ) → ℕ → ℕ → BigInt → BigInt × ℕ
downward step zero carry x = (x, carry)
downward step (suc i) carry x =
    let out = step (limb_at x i) carry in downward step i out.1 (set_limb x i out.0)

-- `if (carry) x->limbs[x->n++] = carry;`
abbrev pub push : BigInt × ℕ → BigInt
push out = if out.1 == 0 then out.0 else record (set_limb out.0 out.0.n out.1) { n = suc out.0.n }

-- `for (i = 0; i < x->n && carry; ++i)`
pub add_carry : ℕ → ℕ → ℕ → BigInt → BigInt × ℕ
add_carry zero i carry x = (x, carry)
add_carry (suc left) i carry x =
    let out = add64c (limb_at x i) carry 0 in
    let rest = add_carry left (suc i) out.1 (set_limb x i out.0) in
    if carry == 0 then (x, carry) else rest

unfoldable pub add_ui64 : BigInt → ℕ → BigInt
unfolding add_carry
add_ui64 x val = if val == 0 then x else push (add_carry x.n 0 val x)

unfoldable pub left_step : ℕ → ℕ → ℕ → ℕ × ℕ
left_step k limb discarded =
    (bit_or (limb <<< k) discarded, bit_and (limb >>> (64 - k)) (2 ^ k - 1))

-- `__BIGINT_INTERNAL_LSHIFT__`, for `k` below 64.
unfoldable pub lshift : BigInt → ℕ → BigInt
unfolding upward
lshift x k = if k == 0 then x else trim_lz (push (upward (left_step k) x.n 0 0 x))

unfoldable pub right_step : ℕ → ℕ → ℕ → ℕ × ℕ
right_step k limb carry_in = (bit_or (limb >>> k) (carry_in <<< (64 - k)), bit_and limb (2 ^ k - 1))

-- `__BIGINT_INTERNAL_RSHIFT__`, for `k` below 64.
unfoldable pub rshift : BigInt → ℕ → BigInt
unfolding downward
rshift x k = if k == 0 then x else trim_lz (downward (right_step k) x.n 0 x).0

unfoldable pub mul_step : ℕ → ℕ → ℕ → ℕ × ℕ
mul_step val limb carry =
    let (low, high) = wmul128 limb val in
    let sum = u64 (low + carry) in (sum, u64 (high + flag (ltb sum low)))

abbrev pub div_step : ℕ → ℕ → ℕ → ℕ × ℕ
div_step val limb remainder = ((wdiv128 limb remainder val).quot, (wdiv128 limb remainder val).rhat)

unfoldable pub mul_ui64 : BigInt → ℕ → BigInt
unfolding upward lshift
mul_ui64 x val =
    if val == 1
    then x
    else if val == 0
    then zset x
    else if val == 2
    then lshift x 1
    else if is_2pow val
    then lshift x (ctz64 val)
    else push (upward (mul_step val) x.n 0 0 x)

-- The bigInt and the remainder.
unfoldable pub divmod_ui64 : BigInt → ℕ → BigInt × ℕ
unfolding downward rshift
divmod_ui64 x val =
    if (val == 1) || (x.n == 0)
    then (x, 0)
    else if val == 2
    then (rshift x 1, bit_and (limb_at x 0) 1)
    else if is_2pow val
    then (rshift x (ctz64 val), bit_and (limb_at x 0) ((1 <<< ctz64 val) - 1))
    else let out = downward (div_step val) x.n 0 x in (trim_lz out.0, out.1)

-- The third of a limb is the high half of a product with `inv3`, halved.
unfoldable pub div3_step : ℕ → ℕ → ℕ × ℕ
div3_step a r =
    let qa = (wmul128 a 12297829382473034411).1 >>> 1 in
    let ra = sub64 a (u64 (qa * 3)) in
    let sum_r = u64 (r + ra) in
    let more = flag (leb 3 sum_r) in
    (u64 (u64 (qa + u64 (r * 6148914691236517205)) + more), sum_r - (if more == 0 then 0 else 3))

unfoldable pub div3 : BigInt → BigInt
unfolding downward
div3 x = if x.n == 0 then x else trim_lz (downward div3_step x.n 0 x).0

-- `__BIGINT_INTERNAL_LLSHIFT__`: memmove reads the cells of `x`, then the low cells are cleared.
unfoldable pub llshift : BigInt → ℕ → BigInt
llshift x klimbs =
    if (klimbs == 0) || (x.n == 0)
    then x
    else if leb x.cap klimbs
    then zset x
    else let moved = if ltb x.cap (x.n + klimbs) then x.cap - klimbs else x.n in
      let raised = fill (λ i. limb_at x (i - klimbs)) moved klimbs x in
      let cleared = fill (λ i. 0) klimbs 0 raised in
      trim_lz (record cleared { n = if ltb x.cap (x.n + klimbs) then x.cap else x.n + klimbs })
