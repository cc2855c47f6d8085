-- ===== src/Intrin/Crt/Wide.antt =====
-- The division without branches: exact where it can be, and the overflow reported.
use dynamol.Base.{◌-◌, ℕ, zero, suc, ◌+◌, ◌*◌, ◌≤◌, ◌<◌, ◌≡◌, inl, inr, refl, arith, ap, ◌∙◌}
use dynamol.Base.{true, false, leb, ◌==◌, word, u64_max, ==-cases}
use dynamol.Base.Bits.Fields.{bit_or-zero, zero-bit_or, bit_and-zero, bit_and-mask}
use dynamol.Intrin.Arith.{wdiv_round, wdiv_loop, wdiv128}
use dynamol.Intrin.Arith.Wide.{loop_exact, wdiv128_overflow}
use dynamol.Intrin.Crt.{crt_wdiv_loop, crt_wdiv128, crt_select}
use dynamol.Intrin.Crt.Compare.{crt_geq-leb}
use dynamol.Intrin.Crt.Same.{round-same, test_rem-lt}

round-lt : (div q hi lo : ℕ) → (wdiv_round div (q, hi, lo)).1 < word
unfolding wdiv_round
round-lt div q hi lo = ground (arith, test_rem-lt hi lo)

loop-same :
    (k div q hi lo : ℕ)
    → div < word
    → hi < word
    → crt_wdiv_loop k div (q, hi, lo) ≡ wdiv_loop k div (q, hi, lo)
unfolding crt_wdiv_loop wdiv_loop
loop-same zero div q hi lo hd hh = refl
loop-same (suc k) div q hi lo hd hh =
    let st = wdiv_round div (q, hi, lo) in
    ap (crt_wdiv_loop k div) (round-same div q hi lo hd hh)
    ∙ loop-same k div st.0 st.1 st.2 hd (round-lt div q hi lo)

select-one : (a b : ℕ) → a < word → crt_select 1 a b ≡ a
unfolding crt_select
select-one a b h = rw (bit_and-mask 64 a, bit_and-zero b, bit_or-zero) (omega arith)

select-zero : (a b : ℕ) → b < word → crt_select 0 a b ≡ b
unfolding crt_select
select-zero a b h = rw (bit_and-mask 64 b, bit_and-zero a, zero-bit_or) (omega arith)

-- `crt_wdiv128` when `hi` is below `div`.
exact_run :
    (lo hi div : ℕ)
    → lo < word
    → div < word
    → hi < div
    → crt_wdiv128 lo hi div ≡ record {
      quot = (wdiv_loop 64 div (0, hi, lo)).0;
      rhat = (wdiv_loop 64 div (0, hi, lo)).1;
      overflowed = 0;
    }
unfolding crt_wdiv128
exact_run lo hi div hl hd h =
    let (balance, rem, quo) = loop_exact div hd hi lo h hl in
    rw
      (
        crt_geq-leb hi div (omega arith) hd,
        not_zero div (omega arith),
        below,
        select-zero 1 hi (omega arith),
        select-zero 0x1928356720912386 lo hl,
        loop-same 64 div 0 hi lo hd (omega arith),
        select-zero u64_max _ quo,
        select-zero 0 (wdiv_loop 64 div (0, hi, lo)).1 (omega arith),
      )
      refl
  where
    not_zero : (n : ℕ) → 0 < n → (n == 0) ≡ false
    not_zero n h = ground arith

    below : leb div hi ≡ false
    below = ground arith

-- With `hi` below the divisor the division without branches is exact, as the one with branches.
pub crt_wdiv128_exact :
    (lo hi div : ℕ)
    → lo < word
    → div < word
    → hi < div
    → ((crt_wdiv128 lo hi div).quot * div + (crt_wdiv128 lo hi div).rhat ≡ hi * word + lo)
      × ((crt_wdiv128 lo hi div).rhat < div)
      × ((crt_wdiv128 lo hi div).quot < word)
      × ((crt_wdiv128 lo hi div).overflowed ≡ 0)
crt_wdiv128_exact lo hi div hl hd h =
    let (balance, rem, quo) = loop_exact div hd hi lo h hl in
    rw (exact_run lo hi div hl hd h) (balance, rem, quo, refl)

-- With `hi` not below the divisor, a zero divisor included, it writes the overflow, the quotient
-- 2 ^ 64 - 1 and the remainder 0.
pub crt_wdiv128_overflow :
    (lo hi div : ℕ)
    → hi < word
    → div ≤ hi
    → crt_wdiv128 lo hi div ≡ record { quot = u64_max; rhat = 0; overflowed = 1 }
unfolding crt_wdiv128
crt_wdiv128_overflow lo hi div hh h = elim (==-cases div 0) [
  | inl (p, e) ↦
      rw
        (
          crt_geq-leb hi div hh (omega arith),
          p,
          above,
          select-one u64_max _ (omega arith),
          select-one 0 _ (omega arith),
        )
        refl
  | inr (p, e) ↦
      rw
        (
          crt_geq-leb hi div hh (omega arith),
          p,
          above,
          select-one u64_max _ (omega arith),
          select-one 0 _ (omega arith),
        )
        refl
]
  where
    above : leb div hi ≡ true
    above = ground arith

-- With `hi` a limb not below the divisor, a zero divisor included, both divisions report the
-- overflow with the quotient 2 ^ 64 - 1, and the one without branches writes the remainder 0.
pub overflows_lem :
    (lo hi div : ℕ)
    → hi < word
    → div ≤ hi
    → ((wdiv128 lo hi div).overflowed ≡ 1)
      × ((wdiv128 lo hi div).quot ≡ word - 1)
      × (crt_wdiv128 lo hi div ≡ record { quot = u64_max; rhat = 0; overflowed = 1 })
overflows_lem lo hi div hh h =
    let (flagged, quot) = wdiv128_overflow lo hi div h in
    (flagged, quot, crt_wdiv128_overflow lo hi div hh h)
