-- ===== src/BigInt/Mutate/Words/Results.antt =====
-- The changing operations with a uint64_t on all limbs, on the magnitude.
use dynamol.Base.{
  ℕ, suc, ◌-◌, ◌*◌, ◌/◌, ◌%◌, ◌<◌, ◌≡◌, ◌≢◌, inl, inr, refl, arith, ap, sym, ◌∙◌, true, some,
}
use dynamol.Base.{
  word, weight, weight-zero, weight-suc, bit_and, bit_or, bit_xor, not64, ==-cases, ◌==◌,
  if◌then◌else◌,
}
use dynamol.Base.Bits.Fields.{bit_or-zero}
use dynamol.Base.Bits.Split.{IsDigitwise, digitwise-lt, bit_or-IsDigitwise, bit_xor-IsDigitwise}
use native.Mathlib.Nat.{div-eq_of_lt, mul-zero}
use dynamol.BigInt.{BigInt, IsValid, limb_at, set_limb}
use dynamol.BigInt.Status.{success}
use dynamol.BigInt.Value.{value, seg, seg-lt}
use dynamol.BigInt.AddSub.Operands.{value-empty}
use dynamol.BigInt.Bitwise.{fill, first_only, normalize}
use dynamol.BigInt.Bitwise.Fill.{fill-SameHeader}
use dynamol.BigInt.Bitwise.Values.{seg-digitwise, seg-not64}
use dynamol.BigInt.Bitwise.Words64.{first_only-lt, seg-first_only}
use dynamol.BigInt.Mutate.{larger, pvalidate, store_word}
use dynamol.BigInt.Mutate.Sweep.{
  limb_at-IsLocal, sweep-fill, rewritten, rewritten-IsValid, rewritten-value,
}
use dynamol.BigInt.Mutate.Partial.{IsChanged}
use dynamol.BigInt.Mutate.Store.{store_word-IsChanged}
use dynamol.BigInt.Mutate.Ranged.Outcome.{Becomes}
use dynamol.BigInt.Mutate.Ranged.Words.{and_word-IsChanged, or_word-IsChanged}
use dynamol.BigInt.Mutate.Words.{
  each_limb, mut_not, mut_andu64, mut_oru64, mut_noru64, mut_xoru64, mut_xnoru64,
}

module _ (x : BigInt) (vx : IsValid x) where
  larger_same : larger x.n x.n ≡ x.n
  larger_same = ground arith

  nothing_above : value x / weight x.n ≡ 0
  unfolding value
  nothing_above = div-eq_of_lt (seg-lt (limb_at x) 0 x.n vx.words)

  module _ (f : ℕ → ℕ → ℕ) (h : (i : ℕ) → f i (limb_at x i) < word) where
    g : ℕ → ℕ
    g i = f i (limb_at x i)

    each_limb-rewritten : each_limb f x ≡ rewritten (λ i. f i (limb_at x i)) x.n x vx h vx.n_cap
    each_limb-rewritten =
        ap normalize (sweep-fill limb_at-IsLocal f x x.n)
        ∙ ap (λ (t : ℕ). normalize (record (fill (λ i. f i (limb_at x i)) x.n 0 x) { n = t }))
            ((fill-SameHeader (λ i. f i (limb_at x i)) x.n 0 x).same_n ∙ sym larger_same)

    pub each_limb-IsChanged : IsChanged (each_limb f x) x (seg (λ i. f i (limb_at x i)) 0 x.n)
    each_limb-IsChanged =
        let n : ℕ = x.n in
        rw each_limb-rewritten (
          (rewritten-IsValid (λ i. f i (limb_at x i)) n x vx h vx.n_cap).0,
          rewritten-value (λ i. f i (limb_at x i)) n x vx h vx.n_cap
              ∙ omega (arith, ap (λ (t : ℕ). weight n * t) nothing_above, mul-zero (weight n)),
          (rewritten-IsValid (λ i. f i (limb_at x i)) n x vx h vx.n_cap).1,
        )

-- How many limbs the complement of a bigInt and a word has.
abbrev pub width_of : BigInt → ℕ
width_of x = if x.n == 0 then 1 else x.n

module _ (stray : ℕ) (x : BigInt) (val : ℕ) (vx : IsValid x) (hv : val < word)
    (good : pvalidate stray x ≡ true) where
  whole :
      {native op : ℕ → ℕ → ℕ}
      → IsDigitwise native op
      → x.n ≢ 0
      → seg (λ j. native (limb_at x j) (first_only val j)) 0 x.n ≡ native (value x) val
  unfolding value
  whole {native} d live =
      let count : x.n ≡ suc (x.n - 1) = omega arith in
      seg-digitwise d (limb_at x) (first_only val) 0 x.n vx.words (first_only-lt val hv)
      ∙ ap (native (seg (limb_at x) 0 x.n))
          (ap (seg (first_only val) 0) count ∙ seg-first_only val (x.n - 1))

  small :
      {native op : ℕ → ℕ → ℕ}
      → IsDigitwise native op
      → (j : ℕ) → native (limb_at x j) (first_only val j) < word
  small d j = digitwise-lt d 64 _ _ (vx.words j) (first_only-lt val hv j)

  plain :
      {native op : ℕ → ℕ → ℕ}
      → IsDigitwise native op
      → IsChanged
          (if x.n == 0
            then store_word (native 0 val) x
            else each_limb (λ i a. native a (first_only val i)) x)
          x
          (native (value x) val)
  plain {native} d = elim (==-cases x.n 0) [
    | inl (q, e) ↦
        rw (q, value-empty x e)
          (store_word-IsChanged (native 0 val) x vx (digitwise-lt d 64 0 val (omega arith) hv))
    | inr (q, e) ↦
        rw (q, sym (whole d e))
          (each_limb-IsChanged x vx (λ i a. native a (first_only val i)) (small d))
  ]

  turned :
      {native op : ℕ → ℕ → ℕ}
      → IsDigitwise native op
      → IsChanged
          (if x.n == 0
            then store_word (not64 (native 0 val)) x
            else each_limb (λ i a. not64 (native a (first_only val i))) x)
          x
          (weight (width_of x) - 1 - native (value x) val)
  turned {native} d = elim (==-cases x.n 0) [
    | inl (q, e) ↦
        let small0 : native 0 val < word = digitwise-lt d 64 0 val (omega arith) hv in
        let one : weight 1 - 1 - native 0 val ≡ not64 (native 0 val) =
          omega (arith, weight-suc 0, weight-zero) in
        rw (q, value-empty x e, one)
          (store_word-IsChanged (not64 (native 0 val)) x vx (omega (arith, small0)))
    | inr (q, e) ↦
        let f : ℕ → ℕ = λ j. native (limb_at x j) (first_only val j) in
        let sum : seg (λ j. not64 (f j)) 0 x.n ≡ weight x.n - 1 - native (value x) val =
          omega (arith, whole d e, seg-not64 f 0 x.n (small d)) in
        rw (q, sym sum)
          (each_limb-IsChanged x vx (λ i a. not64 (native a (first_only val i)))
            (λ j. omega (arith, small d j)))
  ]

  inverted : IsChanged (each_limb (λ i a. not64 a) x) x (weight x.n - 1 - value x)
  unfolding value
  inverted =
      let sum : seg (λ j. not64 (limb_at x j)) 0 x.n ≡ weight x.n - 1 - seg (limb_at x) 0 x.n =
        omega (arith, seg-not64 (limb_at x) 0 x.n vx.words) in
      rw (sym sum) (each_limb-IsChanged x vx (λ i a. not64 a) (λ j. omega (arith, vx.words j)))

  or_fixed :
      IsChanged
        (if x.n == 0
          then store_word (bit_or 0 val) x
          else if val == 0
          then x
          else set_limb x 0 (bit_or (limb_at x 0) val))
        x
        (bit_or (value x) val)
  or_fixed = elim (==-cases val 0) [
    | inl (q, e) ↦ elim (==-cases x.n 0) [
      | inl (p, empty) ↦
          rw (p, value-empty x empty)
            (store_word-IsChanged (bit_or 0 val) x vx
              (digitwise-lt bit_or-IsDigitwise 64 0 val (omega arith) hv))
      | inr (p, live) ↦
          rw (p, q) (vx, sym (ap (bit_or (value x)) e ∙ bit_or-zero (value x)), λ ne. refl)
    ]
    | inr (q, e) ↦ rw q (or_word-IsChanged x val vx hv)
  ]

  reached : (r : BigInt) (v : ℕ) → IsChanged r x v → Becomes (some r, success) x v
  reached r v h = (r, refl, h)

  -- For a valid bigInt that passes the guard and a uint64_t, the operations succeed and leave
  -- behind the pointer a valid bigInt with the sign of `x` unless it is zero: `bigInt_mut_andu64`
  -- has `&` of the lowest limb and the word, `bigInt_mut_oru64` and `bigInt_mut_xoru64` have `|` and `^` of
  -- the magnitude and the word, `bigInt_mut_noru64` and `bigInt_mut_xnoru64` their complements within
  -- the limbs of `x`, one limb for zero, and `bigInt_mut_not` the complement of the magnitude.
  pub mut_u64_lem :
      Becomes (mut_andu64 stray (some x) val) x (bit_and (value x % word) val)
      × Becomes (mut_oru64 stray (some x) val) x (bit_or (value x) val)
      × Becomes (mut_xoru64 stray (some x) val) x (bit_xor (value x) val)
      × Becomes (mut_noru64 stray (some x) val) x (weight (width_of x) - 1 - bit_or (value x) val)
      × Becomes (mut_xnoru64 stray (some x) val) x (weight (width_of x) - 1 - bit_xor (value x) val)
      × Becomes (mut_not stray (some x)) x (weight x.n - 1 - value x)
  unfolding mut_andu64 mut_oru64 mut_xoru64 mut_noru64 mut_xnoru64 mut_not
  mut_u64_lem = rw good (
      (
        reached _ _ (and_word-IsChanged x val vx hv),
        reached _ _ or_fixed,
        reached _ _ (plain bit_xor-IsDigitwise),
        reached _ _ (turned bit_or-IsDigitwise),
        reached _ _ (turned bit_xor-IsDigitwise),
        reached _ _ inverted,
      ))
