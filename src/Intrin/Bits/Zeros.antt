-- ===== src/Intrin/Bits/Zeros.antt =====
-- Trailing zeros, and the test for a power of two.
use dynamol.Base.{
  ℕ, zero, suc, ◌-◌, ◌/◌, ◌%◌, ◌^◌, ◌<◌, ◌≡◌, ◌≢◌, refl, arith, ap, sym, ◌∙◌, inl, inr, Bool, true,
  false, ◌&&◌, not, ◌==◌, ==-cases, sub64, bit_and, word,
}
use mathlib.Core.Path.{subst}
use dynamol.Base.Bits.{bit_and-mask}
use dynamol.Intrin.Bits.{debruijn, debruijn_ctz_table, ctz64, is_2pow}
use dynamol.Intrin.Bits.Isolate.{LowestBit, isolate, power_of_two}

-- A test that holds below `n`.
abbrev pub below : ℕ → (ℕ → Bool) → Bool
below zero p = true
below (suc n) p = p n && below n p

and_both : (a b : Bool) → (a && b) ≡ true → (a ≡ true) × (b ≡ true)
and_both a b e = ground (arith, e)

pub below_lem : (n k : ℕ) (p : ℕ → Bool) → below n p ≡ true → k < n → p k ≡ true
below_lem zero k p e h = absurd (omega arith)
below_lem (suc n) k p e h =
    let (here, rest) = and_both (p n) (below n p) e in
    elim (==-cases k n) [
      | inl (q, same) ↦ ap p same ∙ here
      | inr (q, ne) ↦ below_lem n k p rest (omega arith)
    ]

pub equal_test : (a b : ℕ) → (a == b) ≡ true → a ≡ b
equal_test a b h = ground arith

ctz_table : (k : ℕ) → k < 64 → debruijn debruijn_ctz_table (2 ^ k) ≡ k
ctz_table k h =
    equal_test _ _ (below_lem 64 k (λ k. debruijn debruijn_ctz_table (2 ^ k) == k) refl h)

-- The number of trailing zeros is the place of the lowest set bit.
pub ctz64_lem : (x : ℕ) → x ≢ 0 → x < word → LowestBit 64 x (ctz64 x)
unfolding ctz64
ctz64_lem x ne h =
    let masked : bit_and x 1 ≡ x % 2 = bit_and-mask 1 x in
    elim (==-cases x 0) [
      | inl (q, e) ↦ absurd (ne e)
      | inr (q, _) ↦ elim (==-cases (bit_and x 1) 0) [
        | inl (even, e) ↦
            let (k, b, isolated) = isolate 64 x (omega arith) h in
            let negated : sub64 0 x ≡ 2 ^ 64 - x = omega arith in
            rw (q, even)
              (subst (LowestBit 64 x)
                (sym (
                  ap (λ (t : ℕ). debruijn debruijn_ctz_table (bit_and x t)) negated
                  ∙ ap (debruijn debruijn_ctz_table) isolated
                  ∙ ctz_table k b.place))
                b)
        | inr (odd, e) ↦
            rw (q, odd)
              (record {
                place = omega arith;
                odd_part = x / 2;
                odd_multiple = omega (arith, masked, e);
              })
      ]
    ]

pub is_2pow_lem : (x : ℕ) → is_2pow x ≡ true → x < word → (k : ℕ) × (k < 64) × (x ≡ 2 ^ k)
unfolding is_2pow
is_2pow_lem x t h = elim (==-cases x 0) [
  | inl (q, e) ↦ absurd (no (sym t ∙ ap is_2pow e))
  | inr (q, ne) ↦
      let less : sub64 x 1 ≡ x - 1 = omega (arith, h) in
      let (_, none) = and_both (not (x == 0)) (bit_and x (sub64 x 1) == 0) t in
      power_of_two 64 x (omega arith) h
        (ap (bit_and x) (sym less) ∙ equal_test (bit_and x (sub64 x 1)) 0 none)
]
  where
    no : true ≢ false
    no e = ground (arith, e)

pub ctz64-power : (k : ℕ) → k < 64 → ctz64 (2 ^ k) ≡ k
unfolding ctz64
ctz64-power k h = equal_test _ _ (below_lem 64 k (λ k. ctz64 (2 ^ k) == k) refl h)
