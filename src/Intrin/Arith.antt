-- ===== src/Intrin/Arith.antt =====
-- intrinsics/zvanillc/_vanillc_arith.c: addition, subtraction, multiplication and division of
-- 64-bit limbs with a carry, a borrow, a high half and a remainder.
pub mod Carry
pub mod Wide
use dynamol.Base.{ℕ, zero, suc, ◌+◌, ◌*◌, ◌/◌, ◌%◌, ◌-◌, ◌^◌, Bool, true, false, ◌||◌, ◌&&◌}
use dynamol.Base.{ltb, leb, ◌==◌, if◌then◌else◌, flag, u64, u64_max, sub64, ◌<<<◌, ◌>>>◌}
use dynamol.Base.{bit_and, bit_or}

-- The carry is read and written; the result is (sum, carry).
unfoldable pub add64c : ℕ → ℕ → ℕ → ℕ × ℕ
add64c a b carry =
    let sum = u64 (a + b) in
    let ab_carry = flag (ltb sum a) in
    let a' = u64 (sum + carry) in
    let final_carry = flag (ltb a' sum) in (a', bit_or ab_carry final_carry)

unfoldable pub sub64b : ℕ → ℕ → ℕ → ℕ × ℕ
sub64b a b borrow =
    let diff = sub64 a b in
    let ab_borrow = flag (ltb a diff) in
    let a' = sub64 diff borrow in
    let final_borrow = flag (ltb diff a') in (a', bit_or ab_borrow final_borrow)

-- The second half of `wmul128`: from the four partial products to (low half, high half).
unfoldable pub wmul_join : ℕ → ℕ → ℕ → ℕ → ℕ × ℕ
wmul_join first_mul second_mul third_mul fourth_mul =
    let mid = u64 (second_mul + third_mul) in
    let mid_carry = flag (ltb mid second_mul) in
    let mid_low = bit_and mid (2 ^ 32 - 1) <<< 32 in
    let res = u64 (first_mul + mid_low) in
    let carry1 = flag (ltb res first_mul) in
    let mid_high = mid >>> 32 in (res, u64 (fourth_mul + carry1 + mid_high + (mid_carry <<< 32)))

-- The result is (low half, high half).
unfoldable pub wmul128 : ℕ → ℕ → ℕ × ℕ
wmul128 a b =
    let mask = 2 ^ 32 - 1 in
    let a_low = bit_and a mask in
    let b_low = bit_and b mask in
    let a_high = a >>> 32 in
    let b_high = b >>> 32 in
    wmul_join (u64 (a_low * b_low)) (u64 (a_low * b_high)) (u64 (a_high * b_low))
      (u64 (a_high * b_high))

-- What the division writes: quotient, remainder and the overflow flag.
pub record Wdiv : Type 0 where
  pub quot : ℕ
  pub rhat : ℕ
  pub overflowed : ℕ

-- One round of the restoring division: (quotient, high half, low half).
unfoldable pub wdiv_round : ℕ → ℕ × ℕ × ℕ → ℕ × ℕ × ℕ
wdiv_round div (q, hi, lo) =
    let hi_overflow = hi >>> 63 in
    let test_rem = bit_or (hi <<< 1) (bit_and (lo >>> 63) 1) in
    let q' = q <<< 1 in
    let lo' = lo <<< 1 in
    if ltb 0 hi_overflow || leb div test_rem
    then (bit_or q' 1, sub64 test_rem div, lo')
    else (q', test_rem, lo')

unfoldable pub wdiv_loop : ℕ → ℕ → ℕ × ℕ × ℕ → ℕ × ℕ × ℕ
wdiv_loop zero div s = s
wdiv_loop (suc rounds) div s = wdiv_loop rounds div (wdiv_round div s)

-- With a non-null `overflowed`. The order of the early returns is the source's.
unfoldable pub wdiv128 : ℕ → ℕ → ℕ → Wdiv
wdiv128 lo hi div =
    if div == 0
    then record { quot = u64_max; rhat = 0; overflowed = 1 }
    else if lo == 0 && hi == 0
    then record { quot = 0; rhat = 0; overflowed = 0 }
    else if hi == 0
    then record { quot = lo / div; rhat = lo % div; overflowed = 0 }
    else if leb div hi
    then record { quot = u64_max; rhat = hi % div; overflowed = 1 }
    else let (q, r, _) = wdiv_loop 64 div (0, hi, lo) in
      record { quot = q; rhat = r; overflowed = 0 }
