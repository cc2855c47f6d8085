-- ===== src/BigInt/Mutate.antt =====
-- dynamol/bigint/bigInt.c: the bitwise operations that change their first operand, as they stand
-- outside the debug mode, on a little-endian machine. The first operand is a pointer, which may be
-- NULL; `shared` says whether the `limbs` pointers of the two operands are equal; `stray_x` and
-- `stray_y` are the words before the buffers.
pub mod Words
pub mod Pairs
pub mod Ranged
pub mod Attempts
pub mod Guards
pub mod Sweep
pub mod Runs
pub mod Store
pub mod Partial
use dynamol.Base.{
  ℕ, zero, suc, ◌+◌, ◌-◌, ◌*◌, ◌/◌, ◌%◌, ◌^◌, Option, none, some, Bool, true, false, not, ◌&&◌,
  ◌||◌,
}
use dynamol.Base.{if◌then◌else◌, ltb, ◌==◌, flag, u64_max, bit_or}
use dynamol.Base.Int.{pos}
use dynamol.BigInt.{BigInt, limb_at, set_limb}
use dynamol.BigInt.Status.{Status, success, null, err_inval, err_aliased}
use dynamol.BigInt.Util.{pvalid, zset}
use dynamol.BigInt.Order.{validate}
use dynamol.BigInt.Room.{Realloc, enscap}
use dynamol.BigInt.Bitwise.{fill, normalize}
use dynamol.BigInt.Copies.{Reply, roomy}

-- `bigInt_pvalidate` is the code of `bigInt_validate` through a pointer.
abbrev pub pvalidate : ℕ → BigInt → Bool
pvalidate = validate

abbrev pub through : BigInt × Status → Reply
through out = (some out.0, out.1)

-- The guards of an operation with a word.
abbrev pub on_valid : ℕ → Option BigInt → (BigInt → BigInt × Status) → Reply
on_valid stray none body = (none, null)
on_valid stray (some x) body = if pvalidate stray x then through (body x) else (some x, err_inval)

-- The guards of an operation with a second bigInt.
abbrev pub on_pair : ℕ → ℕ → Bool → Option BigInt → BigInt → (BigInt → BigInt × Status) → Reply
on_pair stray_x stray_y shared none y body = (none, null)
on_pair stray_x stray_y shared (some x) y body =
    if not (pvalidate stray_x x && validate stray_y y)
    then (some x, err_inval)
    else if shared
    then (some x, err_aliased)
    else through (body x)

-- What follows a successful `__BIGINT_INTERNAL_ENSCAP__`.
abbrev pub with_room : Realloc → BigInt → ℕ → (BigInt → BigInt) → BigInt × Status
with_room realloc x k body = roomy body x (enscap realloc x k)

-- `for (i = ...) x->limbs[i] = f(i, read(x, i))` for `left` rounds.
pub sweep : (BigInt → ℕ → ℕ) → (ℕ → ℕ → ℕ) → ℕ → ℕ → BigInt → BigInt
sweep read f zero i x = x
sweep read f (suc left) i x = sweep read f left (suc i) (set_limb x i (f i (read x i)))

-- `max(a, b)`
abbrev pub larger : ℕ → ℕ → ℕ
larger a b = if ltb a b then b else a

-- `x->limbs[0] = v; x->n = !!(v); x->sign = v ? x->sign : 1;`
unfoldable pub store_word : ℕ → BigInt → BigInt
store_word v x = record (set_limb x 0 v) {
  n = flag (not (v == 0));
  sign = if v == 0 then pos 1 else x.sign;
}

-- `memset(&x->limbs[at], UINT8_MAX, bytes)`
unfoldable pub memset_ones : ℕ → ℕ → BigInt → BigInt
memset_ones at bytes x =
    let y = fill (λ i. u64_max) (bytes / 8) at x in
    if bytes % 8 == 0
    then y
    else set_limb y (at + bytes / 8)
        (bit_or (limb_at y (at + bytes / 8)) (2 ^ (8 * (bytes % 8)) - 1))

unfoldable pub reset : BigInt → BigInt
unfolding pvalid
reset x =
    if pvalid (some x)
    then (let y = if x.n == 0 then x else set_limb x 0 0 in record y { n = 0; sign = pos 1 })
    else x
