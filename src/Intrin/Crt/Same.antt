-- ===== src/Intrin/Crt/Same.antt =====
-- The limb operations without branches against those with branches.
use dynamol.Base.{ℕ, ◌+◌, ◌*◌, ◌-◌, ◌/◌, ◌%◌, ◌^◌, ◌<◌, ◌≡◌, ◌⊎◌, inl, inr, refl, arith, ap, ◌∙◌}
use dynamol.Base.{
  leb, ltb, flag, ◌==◌, if◌then◌else◌, word, sub64, u64, u64_max, ◌>>>◌, ◌<<<◌, Bool-cases,
}
use dynamol.Base.{bit_and, bit_or}
use dynamol.Base.Bits.Fields.{bit_or-zero, bit_and-zero, bit_and-mask, bit_or-fields}
use dynamol.Intrin.Arith.{add64c, sub64b, wmul_join, wmul128, wdiv_round}
use dynamol.Intrin.Crt.{crt_add64c, crt_sub64b, crt_wmul_join, crt_wmul128, crt_wdiv_round}
use dynamol.Intrin.Crt.{crt_lt, crt_gt, crt_leq, crt_geq, crt_select}
use dynamol.Intrin.Crt.Compare.{crt_lt-ltb, crt_geq-leb, crt_select-if, crt_comparisons_lem}

-- For a limb `a`, the addition without branches gives the sum and the carry of the plain one.
crt_add64c-add64c : (a b carry : ℕ) → a < word → crt_add64c a b carry ≡ add64c a b carry
unfolding crt_add64c add64c
crt_add64c-add64c a b carry ha =
    let sum = u64 (a + b) in
    rw
      (
        crt_lt-ltb sum a (omega arith) ha,
        crt_lt-ltb (u64 (sum + carry)) sum (omega arith) (omega arith),
      )
      refl

-- For a limb `a`, the subtraction without branches gives the difference and borrow of the plain one.
crt_sub64b-sub64b : (a b borrow : ℕ) → a < word → crt_sub64b a b borrow ≡ sub64b a b borrow
unfolding crt_sub64b sub64b crt_gt
crt_sub64b-sub64b a b borrow ha =
    let diff = sub64 a b in
    rw
      (
        crt_lt-ltb a diff ha (omega arith),
        crt_lt-ltb diff (sub64 diff borrow) (omega arith) (omega arith),
      )
      refl

join-same : (p q r s : ℕ) → p < word → q < word → crt_wmul_join p q r s ≡ wmul_join p q r s
unfolding crt_wmul_join wmul_join
join-same p q r s hp hq =
    let mid = u64 (q + r) in
    let res = u64 (p + (bit_and mid (2 ^ 32 - 1) <<< 32)) in
    rw (crt_lt-ltb mid q (omega arith) hq, crt_lt-ltb res p (omega arith) hp) refl

-- The multiplication without branches gives both halves of the plain one.
crt_wmul128-wmul128 : (a b : ℕ) → crt_wmul128 a b ≡ wmul128 a b
unfolding crt_wmul128 wmul128
crt_wmul128-wmul128 a b = join-same _ _ _ _ (omega arith) (omega arith)

-- For two limbs, the four comparisons without branches are `<`, `>`, `<=` and `>=`, the selection
-- without branches is the conditional, and the addition, the subtraction and the multiplication
-- without branches give both parts of the plain ones' results.
pub crt_limbs_lem :
    (cond x y carry : ℕ)
    → x < word
    → y < word
    → (crt_lt x y ≡ flag (ltb x y))
      × (crt_gt x y ≡ flag (ltb y x))
      × (crt_leq x y ≡ flag (leb x y))
      × (crt_geq x y ≡ flag (leb y x))
      × (crt_select cond x y ≡ (if cond == 0 then y else x))
      × (crt_add64c x y carry ≡ add64c x y carry)
      × (crt_sub64b x y carry ≡ sub64b x y carry)
      × (crt_wmul128 x y ≡ wmul128 x y)
crt_limbs_lem cond x y carry hx hy =
    let (lt, gt, leq, geq) = crt_comparisons_lem x y hx hy in
    (
      lt,
      gt,
      leq,
      geq,
      crt_select-if cond x y hx hy,
      crt_add64c-add64c x y carry hx,
      crt_sub64b-sub64b x y carry hx,
      crt_wmul128-wmul128 x y,
    )

-- What a round does once its test is decided.
taken :
    (div q t : ℕ)
    → div < word
    → ◌≡◌ {A = ℕ × ℕ}
        (
          bit_or q (bit_and 1 (crt_select 1 u64_max 0)),
          sub64 t (bit_and div (crt_select 1 u64_max 0)),
        )
        (bit_or q 1, sub64 t div)
unfolding crt_select
taken div q t h = rw (bit_and-mask 64 div) (ap (λ (d : ℕ). (bit_or q 1, sub64 t d)) (omega arith))

skipped :
    (div q t : ℕ)
    → t < word
    → ◌≡◌ {A = ℕ × ℕ}
        (
          bit_or q (bit_and 1 (crt_select 0 u64_max 0)),
          sub64 t (bit_and div (crt_select 0 u64_max 0)),
        )
        (q, t)
unfolding crt_select
skipped div q t h = rw (bit_and-zero div, bit_or-zero) (ap (λ (r : ℕ). (q, r)) (omega arith))

pub test_rem-lt : (hi lo : ℕ) → bit_or (hi <<< 1) (bit_and (lo >>> 63) 1) < word
test_rem-lt hi lo =
    let low = lo / 2 ^ 63 % 2 in
    let shifted : hi * 2 % 2 ^ 64 ≡ hi % 2 ^ 63 * 2 ^ 1 = omega arith in
    let joined : bit_or (hi * 2 % 2 ^ 64) low ≡ hi % 2 ^ 63 * 2 ^ 1 + low =
      ap (λ (t : ℕ). bit_or t low) shifted ∙ bit_or-fields 1 (hi % 2 ^ 63) low (omega arith) in
    rw (bit_and-mask 1 (lo / 2 ^ 63), joined) (omega arith)

pub round-same :
    (div q hi lo : ℕ)
    → div < word
    → hi < word
    → crt_wdiv_round div (q, hi, lo) ≡ wdiv_round div (q, hi, lo)
unfolding crt_wdiv_round wdiv_round
round-same div q hi lo hd hh =
    let test = bit_or (hi <<< 1) (bit_and (lo >>> 63) 1) in
    let small = test_rem-lt hi lo in
    let bit : bit_and (hi / 2 ^ 63) 1 ≡ hi / 2 ^ 63 = bit_and-mask 1 (hi / 2 ^ 63) ∙ omega arith in
    rw (bit, crt_geq-leb test div small hd)
      (elim (top_cases hi hh) [
        | inl p ↦ elim (Bool-cases (leb div test)) [
          | inl c ↦
              rw (p, c) (ap (λ (t : ℕ × ℕ). (t.0, t.1, lo <<< 1)) (taken div (q <<< 1) test hd))
          | inr c ↦
              rw (p, c)
                (ap (λ (t : ℕ × ℕ). (t.0, t.1, lo <<< 1)) (skipped div (q <<< 1) test small))
        ]
        | inr p ↦ elim (Bool-cases (leb div test)) [
          | inl c ↦
              rw (p, c) (ap (λ (t : ℕ × ℕ). (t.0, t.1, lo <<< 1)) (taken div (q <<< 1) test hd))
          | inr c ↦
              rw (p, c) (ap (λ (t : ℕ × ℕ). (t.0, t.1, lo <<< 1)) (taken div (q <<< 1) test hd))
        ]
      ])
  where
    top_cases : (x : ℕ) → x < word → (x / 2 ^ 63 ≡ 0) ⊎ (x / 2 ^ 63 ≡ 1)
    top_cases x h = ground arith
