-- ===== src/BigInt/Mutate/Partial.antt =====
-- The loop in place over any count of limbs, as an operation on the magnitude.
use dynamol.Base.{
  ℕ, ◌+◌, ◌-◌, ◌*◌, ◌/◌, ◌%◌, ◌≤◌, ◌<◌, ◌≡◌, ◌≢◌, arith, ap, ap₂, ◌∙◌, word, weight, not64,
}
use dynamol.Base.Bits.Split.{IsDigitwise, digitwise-lt}
use dynamol.BigInt.{BigInt, IsValid}
use dynamol.BigInt.Value.{value, seg}
use dynamol.BigInt.Bitwise.{fill, padded, normalize}
use dynamol.BigInt.Bitwise.Fill.{fill-SameHeader}
use dynamol.BigInt.Bitwise.Values.{seg-digitwise, seg-not64, padded-lt}
use dynamol.BigInt.Bitwise.Ranged.Results.{seg-padded_mod}
use dynamol.BigInt.Mutate.{larger}
use dynamol.BigInt.Mutate.Ranged.{partial}
use dynamol.BigInt.Mutate.Sweep.{
  padded-IsLocal, sweep-fill, rewritten, rewritten-IsValid, rewritten-value,
}

-- A valid bigInt of magnitude `v` with the sign of `x`, unless it is zero.
abbrev pub IsChanged : BigInt → BigInt → ℕ → Type 0
IsChanged r x v = IsValid r × (value r ≡ v) × (r.n ≢ 0 → r.sign ≡ x.sign)

module _ (x : BigInt) (vx : IsValid x) (k : ℕ) (b : k ≤ x.cap) where
  partial-rewritten :
      (f : ℕ → ℕ → ℕ) (h : (i : ℕ) → f i (padded x i) < word)
      → partial f k x ≡ rewritten (λ i. f i (padded x i)) k x vx h b
  partial-rewritten f h =
      ap (λ (t : BigInt). normalize (record t { n = larger t.n k }))
        (sweep-fill padded-IsLocal f x k)
      ∙ ap (λ (t : ℕ). normalize (record (fill (λ i. f i (padded x i)) k 0 x) { n = larger t k }))
          (fill-SameHeader (λ i. f i (padded x i)) k 0 x).same_n

  pub partial-IsChanged :
      (f : ℕ → ℕ → ℕ) (h : (i : ℕ) → f i (padded x i) < word)
      → IsChanged
          (partial f k x)
          x
          (seg (λ i. f i (padded x i)) 0 k + weight k * (value x / weight k))
  partial-IsChanged f h = rw (partial-rewritten f h) (
    (rewritten-IsValid (λ i. f i (padded x i)) k x vx h b).0,
    rewritten-value (λ i. f i (padded x i)) k x vx h b,
    (rewritten-IsValid (λ i. f i (padded x i)) k x vx h b).1,
  )

  -- A second operand of words, of which `k` stand for `w`.
  module _ (g : ℕ → ℕ) (w : ℕ) (hg : (j : ℕ) → g j < word) (sg : seg g 0 k ≡ w) where
    low :
        {native op : ℕ → ℕ → ℕ}
        → IsDigitwise native op
        → seg (λ j. native (padded x j) (g j)) 0 k ≡ native (value x % weight k) w
    low {native} d =
        seg-digitwise d (padded x) g 0 k (padded-lt x vx) hg ∙ ap₂ native (seg-padded_mod x k vx) sg

    small :
        {native op : ℕ → ℕ → ℕ} → IsDigitwise native op → (j : ℕ) → native (padded x j) (g j) < word
    small d j = digitwise-lt d 64 _ _ (padded-lt x vx j) (hg j)

    pub partial_lem :
        {native op : ℕ → ℕ → ℕ}
        → IsDigitwise native op
        → IsChanged
            (partial (λ i a. native a (g i)) k x)
            x
            (native (value x % weight k) w + weight k * (value x / weight k))
    partial_lem {native} d =
        let (valid, e, sign) = partial-IsChanged (λ i a. native a (g i)) (small d) in
        (valid, e ∙ ap (λ (t : ℕ). t + weight k * (value x / weight k)) (low d), sign)

    pub partial_complement_lem :
        {native op : ℕ → ℕ → ℕ}
        → IsDigitwise native op
        → IsChanged
            (partial (λ i a. not64 (native a (g i))) k x)
            x
            (weight k - 1 - native (value x % weight k) w + weight k * (value x / weight k))
    partial_complement_lem {native} d =
        let f : ℕ → ℕ = λ j. native (padded x j) (g j) in
        let (valid, e, sign) =
          partial-IsChanged (λ i a. not64 (native a (g i))) (λ j. omega (arith, small d j)) in
        (
          valid,
          e
              ∙ ap (λ (t : ℕ). t + weight k * (value x / weight k))
                  (omega (arith, low d, seg-not64 f 0 k (small d))),
          sign,
        )
