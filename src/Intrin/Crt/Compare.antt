-- ===== src/Intrin/Crt/Compare.antt =====
-- The comparisons and the selection give what branches would give.
use dynamol.Base.{ℕ, ◌+◌, ◌-◌, ◌/◌, ◌%◌, ◌^◌, ◌<◌, ◌≡◌, ◌⊎◌, inl, inr, arith}
use dynamol.Base.{if◌then◌else◌, flag, ltb, leb, ◌==◌, word, ==-cases}
use dynamol.Base.Bits.Fields.{bit_or-zero, zero-bit_or, bit_and-zero, bit_and-mask}
use dynamol.Intrin.Crt.{crt_lt, crt_gt, crt_leq, crt_geq, crt_select}

msb_cases : (x : ℕ) → x < word → (x / 2 ^ 63 ≡ 0) ⊎ (x / 2 ^ 63 ≡ 1)
msb_cases x h = ground arith

pub crt_lt-ltb : (x y : ℕ) → x < word → y < word → crt_lt x y ≡ flag (ltb x y)
unfolding crt_lt
crt_lt-ltb x y hx hy =
    let d = (x + 2 ^ 64 - y) % 2 ^ 64 in
    elim (msb_cases x hx) [
      | inl p ↦ elim (msb_cases y hy) [
        | inl q ↦ elim (msb_cases d (omega arith)) [
          | inl r ↦ rw (p, q, r) (ground arith)
          | inr r ↦ rw (p, q, r) (ground arith)
        ]
        | inr q ↦ elim (msb_cases d (omega arith)) [
          | inl r ↦ rw (p, q, r) (ground arith)
          | inr r ↦ rw (p, q, r) (ground arith)
        ]
      ]
      | inr p ↦ elim (msb_cases y hy) [
        | inl q ↦ elim (msb_cases d (omega arith)) [
          | inl r ↦ rw (p, q, r) (ground arith)
          | inr r ↦ rw (p, q, r) (ground arith)
        ]
        | inr q ↦ elim (msb_cases d (omega arith)) [
          | inl r ↦ rw (p, q, r) (ground arith)
          | inr r ↦ rw (p, q, r) (ground arith)
        ]
      ]
    ]

-- The selection without branches is `cond ? a : b` on uint64_t.
pub crt_select-if :
    (cond a b : ℕ) → a < word → b < word → crt_select cond a b ≡ (if cond == 0 then b else a)
unfolding crt_select
crt_select-if cond a b ha hb = elim (==-cases cond 0) [
  | inl (q, e) ↦ rw (q, bit_and-zero a, bit_and-mask 64 b, zero-bit_or) (omega arith)
  | inr (q, e) ↦ rw (q, bit_and-mask 64 a, bit_and-zero b, bit_or-zero) (omega arith)
]

pub crt_geq-leb : (x y : ℕ) → x < word → y < word → crt_geq x y ≡ flag (leb y x)
unfolding crt_geq
crt_geq-leb x y hx hy = rw (crt_lt-ltb x y hx hy) (ground arith)

-- On uint64_t the four comparisons without branches are `<`, `>`, `<=` and `>=`.
pub crt_comparisons_lem :
    (x y : ℕ)
    → x < word
    → y < word
    → (crt_lt x y ≡ flag (ltb x y))
      × (crt_gt x y ≡ flag (ltb y x))
      × (crt_leq x y ≡ flag (leb x y))
      × (crt_geq x y ≡ flag (leb y x))
unfolding crt_gt crt_leq crt_geq
crt_comparisons_lem x y hx hy = rw (crt_lt-ltb x y hx hy, crt_lt-ltb y x hy hx) (ground arith)
