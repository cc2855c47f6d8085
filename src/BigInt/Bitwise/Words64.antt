-- ===== src/BigInt/Bitwise/Words64.antt =====
-- The bitwise operations on a bigInt and a uint64_t as operations on the magnitude.
use dynamol.Base.{ℕ, zero, suc, ◌+◌, ◌-◌, ◌<◌, ◌≡◌, ◌≢◌, refl, arith, ap, ◌∙◌}
use dynamol.Base.{true, false, ◌==◌, none, word, weight, not64}
use dynamol.Base.{bit_or, bit_xor}
use dynamol.Base.Bits.Split.{IsDigitwise, digitwise-lt}
use dynamol.Base.Bits.Split.{bit_or-IsDigitwise, bit_xor-IsDigitwise}
use dynamol.BigInt.{BigInt, IsValid, limb_at}
use dynamol.BigInt.Value.{value, seg, seg-zero, seg-suc}
use dynamol.BigInt.Order.{validate}
use dynamol.BigInt.Bitwise.{computed, first_only, noru64, xoru64, xnoru64}
use dynamol.BigInt.Bitwise.Fill.{computed-IsValid}
use dynamol.BigInt.Bitwise.Values.{seg-digitwise, seg-not64}

pub first_only-lt : (val : ℕ) → val < word → (j : ℕ) → first_only val j < word
unfolding first_only
first_only-lt val h j = ground arith

seg-first_only_zero : (val i k : ℕ) → seg (first_only val) (suc i) k ≡ 0
unfolding first_only
seg-first_only_zero val i zero = seg-zero (first_only val) (suc i)
seg-first_only_zero val i (suc k) =
    ground (arith, seg-suc (first_only val) (suc i) k, seg-first_only_zero val (suc i) k)

pub seg-first_only : (val k : ℕ) → seg (first_only val) 0 (suc k) ≡ val
unfolding first_only
seg-first_only val k = omega (arith, seg-suc (first_only val) 0 k, seg-first_only_zero val 0 k)

module _ (stray : ℕ) (x : BigInt) (val : ℕ) (vx : IsValid x) (live : x.n ≢ 0) (hv : val < word)
    (ok : validate stray x ≡ true) where
  not_empty : (x.n == 0) ≡ false
  not_empty = ground arith

  seg-operand :
      {native op : ℕ → ℕ → ℕ}
      → IsDigitwise native op
      → seg (λ j. native (limb_at x j) (first_only val j)) 0 x.n ≡ native (value x) val
  unfolding value
  seg-operand {native} d =
      seg-digitwise d (limb_at x) (first_only val) 0 x.n vx.words (first_only-lt val hv)
      ∙ ap (native (seg (limb_at x) 0 x.n))
          (ap (seg (first_only val) 0) last ∙ seg-first_only val (x.n - 1))
    where
      last : x.n ≡ suc (x.n - 1)
      last = omega arith

  complemented :
      {native op : ℕ → ℕ → ℕ}
      → IsDigitwise native op
      → IsValid (computed (λ j. not64 (native (limb_at x j) (first_only val j))) x.n)
        × (value (computed (λ j. not64 (native (limb_at x j) (first_only val j))) x.n)
              + native (value x) val
              + 1
            ≡ weight x.n)
  complemented {native} d =
      let f : ℕ → ℕ = λ j. native (limb_at x j) (first_only val j) in
      let small : (j : ℕ) → f j < word =
        λ j. digitwise-lt d 64 _ _ (vx.words j) (first_only-lt val hv j) in
      let (v, e) = computed-IsValid (λ j. not64 (f j)) x.n (λ j. omega (arith, small j)) in
      (v, omega (arith, e, seg-operand d, seg-not64 f 0 x.n small))

  -- On a valid bigInt other than zero that passes the guard, with memory, `bigInt_xoru64` gives `^` of
  -- the magnitude and the word, and `bigInt_noru64` and `bigInt_xnoru64` give the complements of
  -- `|` and `^` within the limbs of the bigInt; the results are valid and no error is written.
  pub bitwise_u64_lem :
      (IsValid (xoru64 stray true x val).0
        × (value (xoru64 stray true x val).0 ≡ bit_xor (value x) val)
        × ((xoru64 stray true x val).1 ≡ none))
      × (IsValid (noru64 stray true x val).0
          × (value (noru64 stray true x val).0 + bit_or (value x) val + 1 ≡ weight x.n)
          × ((noru64 stray true x val).1 ≡ none))
      × (IsValid (xnoru64 stray true x val).0
          × (value (xnoru64 stray true x val).0 + bit_xor (value x) val + 1 ≡ weight x.n)
          × ((xnoru64 stray true x val).1 ≡ none))
  unfolding xoru64 noru64 xnoru64
  bitwise_u64_lem =
      let f : ℕ → ℕ = λ j. bit_xor (limb_at x j) (first_only val j) in
      let (v, e) =
        computed-IsValid f x.n
          (λ j. digitwise-lt bit_xor-IsDigitwise 64 _ _ (vx.words j) (first_only-lt val hv j)) in
      let nors = complemented bit_or-IsDigitwise in
      let xnors = complemented bit_xor-IsDigitwise in
      rw (ok, not_empty)
        ((
          (v, e ∙ seg-operand bit_xor-IsDigitwise, refl),
          (nors.0, nors.1, refl),
          (xnors.0, xnors.1, refl),
        ))
