-- ===== src/BigInt/Bitwise/Ranged/Operand.antt =====
-- A bigInt and any sequence of limbs, with an explicit count of limbs.
use dynamol.Base.{ℕ, suc, ◌-◌, ◌%◌, ◌<◌, ◌≡◌, arith, ap₂, ◌∙◌, true, word, weight, not64}
use dynamol.Base.Bits.Split.{IsDigitwise, digitwise-lt}
use dynamol.BigInt.{BigInt, IsValid}
use dynamol.BigInt.Value.{value, seg}
use dynamol.BigInt.Bitwise.{padded}
use dynamol.BigInt.Bitwise.Values.{seg-digitwise, seg-not64, padded-lt}
use dynamol.BigInt.Bitwise.Ranged.{ranged}
use dynamol.BigInt.Bitwise.Ranged.Results.{Gives, ranged-Gives, seg-padded_mod}

module _ (x : BigInt) (g : ℕ → ℕ) (k w : ℕ) (vx : IsValid x) (hg : (j : ℕ) → g j < word)
    (sg : seg g 0 (suc k) ≡ w) where
  low_seg :
      {native op : ℕ → ℕ → ℕ}
      → IsDigitwise native op
      → seg (λ j. native (padded x j) (g j)) 0 (suc k) ≡ native (value x % weight (suc k)) w
  low_seg {native} d =
      seg-digitwise d (padded x) g 0 (suc k) (padded-lt x vx) hg
      ∙ ap₂ native (seg-padded_mod x (suc k) vx) sg

  pub word-Gives :
      {native op : ℕ → ℕ → ℕ}
      → IsDigitwise native op
      → Gives
          (ranged true true x (λ j. native (padded x j) (g j)) (suc k))
          x
          (native (value x % weight (suc k)) w)
  word-Gives {native} d =
      let (valid, e, sign, err) =
        ranged-Gives x (λ j. native (padded x j) (g j)) (suc k) vx
          (λ j. digitwise-lt d 64 _ _ (padded-lt x vx j) (hg j)) in
      (valid, e ∙ low_seg d, sign, err)

  pub turned_word-Gives :
      {native op : ℕ → ℕ → ℕ}
      → IsDigitwise native op
      → Gives
          (ranged true true x (λ j. not64 (native (padded x j) (g j))) (suc k))
          x
          (weight (suc k) - 1 - native (value x % weight (suc k)) w)
  turned_word-Gives {native} d =
      let f : ℕ → ℕ = λ j. native (padded x j) (g j) in
      let small : (j : ℕ) → f j < word = λ j. digitwise-lt d 64 _ _ (padded-lt x vx j) (hg j) in
      let (valid, e, sign, err) =
        ranged-Gives x (λ j. not64 (f j)) (suc k) vx (λ j. omega (arith, small j)) in
      (valid, e ∙ omega (arith, low_seg d, seg-not64 f 0 (suc k) small), sign, err)
