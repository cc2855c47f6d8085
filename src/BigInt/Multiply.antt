-- ===== src/BigInt/Multiply.antt =====
-- calc_algo/perf_based/mul.c: the schoolbook product of two magnitudes, into a buffer that neither
-- operand uses. `__MUL_UI64__` is `wmul128`.
pub mod Row
pub mod Product
pub mod Schoolbook
pub mod Examples
use dynamol.Base.{ℕ, zero, suc, ◌+◌, ◌-◌, ◌*◌, Bool, if◌then◌else◌, ltb, ◌==◌, flag, u64, ◌||◌}
use dynamol.Intrin.Arith.{wmul128}
use dynamol.BigInt.{BigInt, limb_at, set_limb}
use dynamol.BigInt.Util.{trim_lz}
use dynamol.BigInt.Bitwise.{fill}

-- One round of the inner loop: the cell `res->limbs[i + j]` and the carry, before and after.
unfoldable pub mul_cell : ℕ → ℕ → ℕ → ℕ → ℕ × ℕ
mul_cell a b cell carry =
    let (low, high) = wmul128 a b in
    let sum = u64 (cell + low) in
    let c1 = flag (ltb sum low) in
    let sum2 = u64 (sum + carry) in let c2 = flag (ltb sum2 carry) in (sum2, u64 (high + (c1 + c2)))

-- The inner loop over `b->limbs[j]`, for `left` rounds, at cell `i + j`: the result and the carry.
pub mul_row : ℕ → BigInt → ℕ → ℕ → ℕ → ℕ → BigInt → BigInt × ℕ
mul_row a b i zero j carry res = (res, carry)
mul_row a b i (suc left) j carry res =
    let out = mul_cell a (limb_at b j) (limb_at res (i + j)) carry in
    mul_row a b i left (suc j) out.1 (set_limb res (i + j) out.0)

-- `while (carry && k < res->cap)`, with `left` cells up to the capacity.
pub ripple : ℕ → ℕ → ℕ → BigInt → BigInt
ripple zero k carry res = res
ripple (suc left) k carry res =
    let sum = u64 (limb_at res k + carry) in
    let rest = ripple left (suc k) (flag (ltb sum carry)) (set_limb res k sum) in
    if carry == 0 then res else rest

-- The outer loop over `a->limbs[i]`, for `left` rounds.
pub mul_rows : BigInt → BigInt → ℕ → ℕ → BigInt → BigInt
mul_rows a b zero i res = res
mul_rows a b (suc left) i res =
    let row = mul_row (limb_at a i) b i b.n 0 0 res in
    mul_rows a b left (suc i) (ripple (res.cap - (i + b.n)) (i + b.n) row.1 row.0)

-- `memset`, the loops, and the trimming.
unfoldable pub schoolbook : BigInt → BigInt → BigInt → BigInt
schoolbook a b res =
    let cleared = fill (λ i. 0) (a.n + b.n) 0 res in
    trim_lz (record (mul_rows a b a.n 0 cleared) { n = a.n + b.n })
