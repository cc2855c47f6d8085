-- ===== src/Intrin/Arith/Wide.antt =====
-- The 128-bit product and quotient of intrinsics/zvanillc/_vanillc_arith.c.
use native.Mathlib.Nat.{one-le-pow, div-add-mod, mod-lt, div-le_self}
use dynamol.Base.{ℕ, zero, suc, ◌+◌, ◌-◌, ◌*◌, ◌/◌, ◌%◌, ◌≤◌, ◌<◌, ◌^◌, ◌≡◌, ap, ap₂, ◌∙◌}
use dynamol.Base.{
  arith, word, u64, flag, leb, two-pow-suc, bit_and, bit_or, ◌<<<◌, ◌>>>◌, Bool-cases, inl, inr,
}
use dynamol.Base.Bits.{bit_and-mask, bit_or-fields}
use dynamol.Intrin.Arith.{add64c, sub64b, wmul_join, wmul128, wdiv_round, wdiv_loop, wdiv128}
use dynamol.Intrin.Arith.Carry.{add64c_lem, sub64b_lem}

half_product : (x y : ℕ) → x < 2 ^ 32 → y < 2 ^ 32 → x * y ≤ (2 ^ 32 - 1) * (2 ^ 32 - 1)
half_product x y hx hy = grind arith

abbrev IsHalfProduct : ℕ → Type 0
IsHalfProduct p = p ≤ (2 ^ 32 - 1) * (2 ^ 32 - 1)

wmul_join_lem :
    (p q r s : ℕ)
    → IsHalfProduct p
    → IsHalfProduct q
    → IsHalfProduct r
    → IsHalfProduct s
    → ((wmul_join p q r s).0 + word * (wmul_join p q r s).1 ≡ p + 2 ^ 32 * (q + r) + word * s)
      × ((wmul_join p q r s).0 < word)
      × ((wmul_join p q r s).1 < word)
unfolding wmul_join
wmul_join_lem p q r s hp hq hr hs = ground (arith, bit_and-mask 32 (u64 (q + r)))

-- The product of the halves, where no partial product wraps.
wmul128-join :
    (a b : ℕ)
    → a < word
    → b < word
    → wmul128 a b
      ≡ wmul_join
          (a % 2 ^ 32 * (b % 2 ^ 32))
          (a % 2 ^ 32 * (b / 2 ^ 32))
          (a / 2 ^ 32 * (b % 2 ^ 32))
          (a / 2 ^ 32 * (b / 2 ^ 32))
unfolding wmul128
wmul128-join a b ha hb = ground (
  arith,
  bit_and-mask 32 a,
  bit_and-mask 32 b,
  half_product (a % 2 ^ 32) (b % 2 ^ 32),
  half_product (a % 2 ^ 32) (b / 2 ^ 32),
  half_product (a / 2 ^ 32) (b % 2 ^ 32),
  half_product (a / 2 ^ 32) (b / 2 ^ 32),
)

digits_product :
    (a b : ℕ)
    → a % 2 ^ 32 * (b % 2 ^ 32)
        + 2 ^ 32 * (a % 2 ^ 32 * (b / 2 ^ 32) + a / 2 ^ 32 * (b % 2 ^ 32))
        + word * (a / 2 ^ 32 * (b / 2 ^ 32))
      ≡ a * b
digits_product a b = omega (arith, ap₂ ◌*◌ (div-add-mod a (2 ^ 32)) (div-add-mod b (2 ^ 32)))

-- The low and the high half are the two digits of the product in base 2 ^ 64.
pub wmul128_lem :
    (a b : ℕ)
    → a < word
    → b < word
    → ((wmul128 a b).0 + word * (wmul128 a b).1 ≡ a * b)
      × ((wmul128 a b).0 < word)
      × ((wmul128 a b).1 < word)
wmul128_lem a b ha hb =
    rw (wmul128-join a b ha hb, ← digits_product a b)
      (wmul_join_lem _ _ _ _ (half_product _ _ (omega arith) (omega arith))
        (half_product _ _ (omega arith) (omega arith))
        (half_product _ _ (omega arith) (omega arith))
        (half_product _ _ (omega arith) (omega arith)))

-- For two limbs and a carry or borrow of at most 1: the sum and the carry are the two digits of
-- `a + b + carry` in base 2 ^ 64; the difference is short of `a` by `b + carry`, up to one
-- borrowed 2 ^ 64; and the two halves of the product are the digits of `a * b`. All results are
-- limbs, and the new carry and borrow are at most 1.
pub limbs_lem :
    (a b carry : ℕ)
    → a < word
    → b < word
    → carry ≤ 1
    → (((add64c a b carry).0 + word * (add64c a b carry).1 ≡ a + b + carry)
        × ((add64c a b carry).0 < word)
        × ((add64c a b carry).1 ≤ 1))
      × (((sub64b a b carry).0 + b + carry ≡ a + word * (sub64b a b carry).1)
          × ((sub64b a b carry).0 < word)
          × ((sub64b a b carry).1 ≤ 1))
      × (((wmul128 a b).0 + word * (wmul128 a b).1 ≡ a * b)
          × ((wmul128 a b).0 < word)
          × ((wmul128 a b).1 < word))
limbs_lem a b carry ha hb hc =
    (add64c_lem a b carry ha hb hc, sub64b_lem a b carry ha hb hc, wmul128_lem a b ha hb)

u64_scaled : (x m : ℕ) → u64 (u64 x * m) ≡ u64 (x * m)
u64_scaled x m = omega (arith, ap (λ (t : ℕ). t * m) (div-add-mod x word))

-- `(x << 1) | bit` on uint64_t.
shift_in : (x bit : ℕ) → bit ≤ 1 → bit_or (x <<< 1) bit ≡ 2 * (x % 2 ^ 63) + bit
shift_in x bit h =
    let e : x <<< 1 ≡ x % 2 ^ 63 * 2 ^ 1 = omega arith in
    rw e (bit_or-fields 1 (x % 2 ^ 63) bit (omega arith) ∙ omega arith)

top_bit : (lo : ℕ) → lo < word → bit_and (lo >>> 63) 1 ≡ lo / 2 ^ 63
top_bit lo h = bit_and-mask 1 (lo / 2 ^ 63) ∙ omega arith

-- The quotient bit of one round.
round_bit : ℕ → ℕ → ℕ → ℕ
round_bit div hi lo = flag (leb div (2 * hi + lo / 2 ^ 63))

module _ (div : ℕ) (fits : div < word) where
  round_lem :
      (q hi lo : ℕ)
      → hi < div
      → lo < word
      → 2 * q + 1 < word
      → ((wdiv_round div (q, hi, lo)).0 ≡ 2 * q + round_bit div hi lo)
        × ((wdiv_round div (q, hi, lo)).1 + div * round_bit div hi lo ≡ 2 * hi + lo / 2 ^ 63)
        × ((wdiv_round div (q, hi, lo)).2 ≡ u64 (lo * 2))
        × ((wdiv_round div (q, hi, lo)).1 < div)
        × (round_bit div hi lo ≤ 1)
  unfolding wdiv_round round_bit
  round_lem q hi lo h l s =
      rw (top_bit lo l, shift_in hi (lo / 2 ^ 63) (omega arith), shift_in q 1 (omega arith))
        (elim (Bool-cases (leb div (2 * hi + lo / 2 ^ 63))) [
          | inl e ↦ rw e (ground (arith, fits))
          | inr e ↦ rw e (ground (arith, fits))
        ])

  -- After k rounds from (q, hi, lo): `partial` holds the k quotient bits found.
  record IsDivided (k q hi lo : ℕ) (s : ℕ × ℕ × ℕ) : Type 0 where
    partial : ℕ
    small : partial + 1 ≤ 2 ^ k
    quotient : s.0 ≡ q * 2 ^ k + partial
    balance : s.1 * word + s.2 + word * (div * partial) ≡ 2 ^ k * (hi * word + lo)
    left : s.2 ≡ u64 (lo * 2 ^ k)
    remainder : s.1 < div

  wdiv_loop-IsDivided :
      (k q hi lo : ℕ)
      → hi < div
      → lo < word
      → (q + 1) * 2 ^ k ≤ word
      → IsDivided k q hi lo (wdiv_loop k div (q, hi, lo))
  unfolding wdiv_loop
  wdiv_loop-IsDivided zero q hi lo h l s = record {
    partial = 0;
    small = omega arith;
    quotient = omega arith;
    balance = omega arith;
    left = omega arith;
    remainder = h;
  }
  wdiv_loop-IsDivided (suc k) q hi lo h l s =
      let st = wdiv_round div (q, hi, lo) in
      let b = round_bit div hi lo in
      let doubled : q * 2 ^ suc k ≡ q * (2 * 2 ^ k) = ap (λ (t : ℕ). q * t) (two-pow-suc k) in
      let room : (q + 1) * 2 ^ k * 2 ≤ word = omega (arith, two-pow-suc k, doubled) in
      let narrow : q + 1 ≤ (q + 1) * 2 ^ k = grind (arith, one-le-pow k 2) in
      let (rq, rh, rl, rr, rb) = round_lem q hi lo h l (omega arith) in
      let shifted = ap (λ (t : ℕ). t * 2 ^ k) rq in
      let grown : b * 2 ^ k ≤ 2 ^ k = grind arith in
      let ih = wdiv_loop-IsDivided k st.0 st.1 st.2 rr (omega arith) (omega arith) in
      let one_round : st.1 * word + st.2 + word * (div * b) ≡ 2 * (hi * word + lo) = omega arith in
      record {
        partial = b * 2 ^ k + ih.partial;
        small = omega (arith, two-pow-suc k, ih.small);
        quotient = omega (arith, ih.quotient, doubled);
        balance = omega (
          arith,
          ih.balance,
          ap (λ (t : ℕ). 2 ^ k * t) one_round,
          ap (λ (t : ℕ). t * (hi * word + lo)) (two-pow-suc k),
        );
        left =
            ih.left
            ∙ ap (λ (t : ℕ). u64 (t * 2 ^ k)) rl
            ∙ u64_scaled (lo * 2) (2 ^ k)
            ∙ ap u64 (omega (arith, ap (λ (t : ℕ). lo * t) (two-pow-suc k)));
        remainder = ih.remainder;
      }

  pub loop_exact :
      (hi lo : ℕ)
      → hi < div
      → lo < word
      → ((wdiv_loop 64 div (0, hi, lo)).0 * div + (wdiv_loop 64 div (0, hi, lo)).1 ≡ hi * word + lo)
        × ((wdiv_loop 64 div (0, hi, lo)).1 < div)
        × ((wdiv_loop 64 div (0, hi, lo)).0 < word)
  loop_exact hi lo h l =
      let d = wdiv_loop-IsDivided 64 0 hi lo h l (omega arith) in
      let quotient = ap (λ (t : ℕ). t * div) d.quotient in
      (omega (arith, d.balance, d.left, quotient), d.remainder, omega (arith, d.quotient, d.small))

-- With `hi` below the divisor the quotient and the remainder are exact, fit a limb, and no
-- overflow is reported.
pub wdiv128_exact :
    (lo hi div : ℕ)
    → lo < word
    → div < word
    → hi < div
    → ((wdiv128 lo hi div).quot * div + (wdiv128 lo hi div).rhat ≡ hi * word + lo)
      × ((wdiv128 lo hi div).rhat < div)
      × ((wdiv128 lo hi div).quot < word)
      × ((wdiv128 lo hi div).overflowed ≡ 0)
unfolding wdiv128
wdiv128_exact lo hi div l d h =
    ground (
      arith,
      loop_exact div d hi lo h l,
      div-add-mod lo div,
      mod-lt lo {m = div},
      div-le_self lo div,
    )

-- With `hi` not below the divisor, a zero divisor included, the overflow is reported with the
-- quotient 2 ^ 64 - 1.
pub wdiv128_overflow :
    (lo hi div : ℕ)
    → div ≤ hi
    → ((wdiv128 lo hi div).overflowed ≡ 1) × ((wdiv128 lo hi div).quot ≡ word - 1)
unfolding wdiv128
wdiv128_overflow lo hi div h = ground arith
