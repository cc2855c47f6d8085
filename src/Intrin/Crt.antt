-- ===== src/Intrin/Crt.antt =====
-- intrinsics/crt_vanillc/_crt_vanillc_cmp.c and _crt_vanillc_arith.c: comparisons and selection
-- without branches, and the limb operations on them. A uint8_t truth value is 0 or 1.
pub mod Compare
pub mod Same
pub mod Wide
pub mod Zeros
pub mod Leading
use dynamol.Base.{ℕ, zero, suc, ◌+◌, ◌*◌, ◌-◌, ◌^◌, Bool, if◌then◌else◌, flag, ◌==◌}
use dynamol.Base.{u64, u8, u64_max, sub64, not64, ◌<<<◌, ◌>>>◌, bit_and, bit_or, bit_xor}
use dynamol.Intrin.Arith.{Wdiv}

-- `!x`
abbrev pub lnot : ℕ → ℕ
lnot x = flag (x == 0)

-- `-x` on uint64_t.
abbrev pub neg64 : ℕ → ℕ
neg64 x = sub64 0 x

pub crt_lt : ℕ → ℕ → ℕ
crt_lt x y =
    let x_msb = x >>> 63 in
    let y_msb = y >>> 63 in
    u8 (
      bit_or (bit_and (bit_xor x_msb 1) y_msb)
        (bit_and (not64 (bit_xor x_msb y_msb)) (sub64 x y >>> 63)))

pub crt_gt : ℕ → ℕ → ℕ
crt_gt x y = crt_lt y x

pub crt_leq : ℕ → ℕ → ℕ
crt_leq x y = lnot (crt_lt y x)

pub crt_geq : ℕ → ℕ → ℕ
crt_geq x y = lnot (crt_lt x y)

pub crt_select : ℕ → ℕ → ℕ → ℕ
crt_select cond a b =
    let mask = neg64 (lnot (lnot cond)) in bit_or (bit_and a mask) (bit_and b (not64 mask))

pub crt_add64c : ℕ → ℕ → ℕ → ℕ × ℕ
crt_add64c a b carry =
    let sum = u64 (a + b) in
    let ab_carry = crt_lt sum a in
    let a' = u64 (sum + carry) in
    let final_carry = crt_lt a' sum in (a', bit_or ab_carry final_carry)

pub crt_sub64b : ℕ → ℕ → ℕ → ℕ × ℕ
crt_sub64b a b borrow =
    let diff = sub64 a b in
    let ab_borrow = crt_gt diff a in
    let a' = sub64 diff borrow in
    let final_borrow = crt_gt a' diff in (a', bit_or ab_borrow final_borrow)

-- From the four partial products to (low half, high half).
pub crt_wmul_join : ℕ → ℕ → ℕ → ℕ → ℕ × ℕ
crt_wmul_join first_mul second_mul third_mul fourth_mul =
    let mid = u64 (second_mul + third_mul) in
    let mid_carry = crt_lt mid second_mul in
    let mid_low = bit_and mid (2 ^ 32 - 1) <<< 32 in
    let res = u64 (first_mul + mid_low) in
    let carry1 = crt_lt res first_mul in
    let mid_high = mid >>> 32 in (res, u64 (fourth_mul + carry1 + mid_high + (mid_carry <<< 32)))

pub crt_wmul128 : ℕ → ℕ → ℕ × ℕ
crt_wmul128 a b =
    let mask = 2 ^ 32 - 1 in
    let a_low = bit_and a mask in
    let b_low = bit_and b mask in
    let a_high = a >>> 32 in
    let b_high = b >>> 32 in
    crt_wmul_join (u64 (a_low * b_low)) (u64 (a_low * b_high)) (u64 (a_high * b_low))
      (u64 (a_high * b_high))

-- One round of the division: (quotient, high half, low half).
pub crt_wdiv_round : ℕ → ℕ × ℕ × ℕ → ℕ × ℕ × ℕ
crt_wdiv_round div (q, hi, lo) =
    let hi_overflow = bit_and (hi >>> 63) 1 in
    let test_rem = bit_or (hi <<< 1) (bit_and (lo >>> 63) 1) in
    let q' = q <<< 1 in
    let lo' = lo <<< 1 in
    let mask = crt_select (bit_or hi_overflow (crt_geq test_rem div)) u64_max 0 in
    (bit_or q' (bit_and 1 mask), sub64 test_rem (bit_and div mask), lo')

pub crt_wdiv_loop : ℕ → ℕ → ℕ × ℕ × ℕ → ℕ × ℕ × ℕ
crt_wdiv_loop zero div s = s
crt_wdiv_loop (suc rounds) div s = crt_wdiv_loop rounds div (crt_wdiv_round div s)

pub crt_wdiv128 : ℕ → ℕ → ℕ → Wdiv
crt_wdiv128 lo hi div =
    let overflow_flag = bit_or (lnot div) (crt_geq hi div) in
    let chosen_lo = crt_select overflow_flag 0x1928356720912386 lo in
    let chosen_hi = crt_select overflow_flag 1 hi in
    let (q, r, _) = crt_wdiv_loop 64 div (0, chosen_hi, chosen_lo) in
    record {
      quot = crt_select overflow_flag u64_max q;
      rhat = crt_select overflow_flag 0 r;
      overflowed = overflow_flag;
    }

-- The rounds of the two counts: `count += select(!(x & mask), s, 0)`, and the shift of `x` by the
-- same selection.
pub crt_skip : ℕ → ℕ → ℕ → ℕ
crt_skip x mask s = crt_select (lnot (bit_and x mask)) s 0

pub crt_ctz_round : ℕ → ℕ → ℕ × ℕ → ℕ × ℕ
crt_ctz_round s mask (x, count) = (x >>> crt_skip x mask s, u8 (count + crt_skip x mask s))

pub crt_clz_round : ℕ → ℕ → ℕ × ℕ → ℕ × ℕ
crt_clz_round s mask (x, count) = (x <<< crt_skip x mask s, u8 (count + crt_skip x mask s))

pub crt_ctz64 : ℕ → ℕ
crt_ctz64 x =
    let r1 = crt_ctz_round 32 4294967295 (x, 0) in
    let r2 = crt_ctz_round 16 65535 r1 in
    let r3 = crt_ctz_round 8 255 r2 in
    let r4 = crt_ctz_round 4 15 r3 in
    let r5 = crt_ctz_round 2 3 r4 in u8 (crt_select (lnot x) 64 (u8 (r5.1 + lnot (bit_and r5.0 1))))

pub crt_clz64 : ℕ → ℕ
crt_clz64 x =
    let r1 = crt_clz_round 32 18446744069414584320 (x, 0) in
    let r2 = crt_clz_round 16 18446462598732840960 r1 in
    let r3 = crt_clz_round 8 18374686479671623680 r2 in
    let r4 = crt_clz_round 4 17293822569102704640 r3 in
    let r5 = crt_clz_round 2 13835058055282163712 r4 in
    u8 (crt_select (lnot x) 64 (u8 (r5.1 + lnot (bit_and r5.0 9223372036854775808))))
