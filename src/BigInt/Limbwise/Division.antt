-- ===== src/BigInt/Limbwise/Division.antt =====
-- The division by a limb.
use dynamol.Base.{
  ℕ, suc, ◌+◌, ◌-◌, ◌*◌, ◌/◌, ◌%◌, ◌^◌, ◌≤◌, ◌<◌, ◌≡◌, ◌≢◌, inl, inr, arith, ap, sym, ◌∙◌, word,
  two-pow-add, ==-cases, Bool-cases, bit_and, ◌<<<◌,
}
use dynamol.Base.Bits.{bit_and-mask}
use native.Mathlib.Nat.{
  add-mul-mod_self_left, mod-eq_of_lt, div-eq_of_lt, pow-le-pow_right, one-le-pow, mul_assoc,
}
use dynamol.Intrin.Bits.{ctz64, is_2pow}
use dynamol.Intrin.Bits.Zeros.{ctz64-power, is_2pow_lem}
use dynamol.BigInt.{BigInt, IsValid, limb_at}
use dynamol.BigInt.Value.{value, seg, seg-suc}
use dynamol.BigInt.Mutate.Partial.{IsChanged}
use dynamol.BigInt.Limbwise.{div_step, divmod_ui64, div3, rshift}
use dynamol.BigInt.Limbwise.Steps.{div_step-IsDividing}
use dynamol.BigInt.Limbwise.Results.{value-seg, divided-IsChanged}
use dynamol.BigInt.Limbwise.Shifts.{
  IsChanged-to, unchanged, value-none, rshift-IsChanged, div3-IsChanged,
}

module _ (x : BigInt) (v : IsValid x) where
  -- The low bits of the lowest limb are those of the magnitude.
  low_bits : (k : ℕ) → k < 64 → x.n ≢ 0 → bit_and (limb_at x 0) ((1 <<< k) - 1) ≡ value x % 2 ^ k
  low_bits k h ne =
      let smaller : 2 ^ k * 2 ≤ 2 ^ 64 = power_bound k h in
      let bit : 1 <<< k ≡ 2 ^ k = omega (arith, smaller, one-le-pow k 2 (omega arith)) in
      let words : 2 ^ 64 ≡ 2 ^ k * 2 ^ (64 - k) =
        ap (λ (t : ℕ). 2 ^ t) (parts k h) ∙ two-pow-add k (64 - k) in
      let above : ℕ = seg (limb_at x) 1 (x.n - 1) in
      let split : value x ≡ limb_at x 0 + 2 ^ k * (2 ^ (64 - k) * above) =
        value-seg x
        ∙ ap (seg (limb_at x) 0) (count x.n ne)
        ∙ seg-suc (limb_at x) 0 (x.n - 1)
        ∙ ap (λ (t : ℕ). limb_at x 0 + t * above) words
        ∙ ap (λ (t : ℕ). limb_at x 0 + t) (mul_assoc (2 ^ k) (2 ^ (64 - k)) above) in
      ap (λ (t : ℕ). bit_and (limb_at x 0) (t - 1)) bit
      ∙ bit_and-mask k (limb_at x 0)
      ∙ sym (
          ap (λ (t : ℕ). t % 2 ^ k) split
          ∙ add-mul-mod_self_left (limb_at x 0) (2 ^ k) (2 ^ (64 - k) * above))
    where
      parts : (k : ℕ) → k < 64 → 64 ≡ k + (64 - k)
      parts k h = omega (arith, h)

      count : (n : ℕ) → n ≢ 0 → n ≡ suc (n - 1)
      count n h = omega (arith, h)

      power_bound : (k : ℕ) → k < 64 → 2 ^ k * 2 ≤ 2 ^ 64
      power_bound k h =
          let most : 2 ^ k ≤ 2 ^ 63 =
            pow-le-pow_right {n = 2} (omega arith) {i = k} {j = 63} (omega arith) in
          omega (arith, most)

  divmod_ui64-IsChanged :
      (val : ℕ)
      → val ≢ 0
      → val < word
      → IsChanged (divmod_ui64 x val).0 x (value x / val) × ((divmod_ui64 x val).1 ≡ value x % val)
  unfolding divmod_ui64
  divmod_ui64-IsChanged val pos h = elim (==-cases val 1) [
    | inl (one, e) ↦
        let same : value x / val ≡ value x = ap (λ (t : ℕ). value x / t) e ∙ omega arith in
        let rest : value x % val ≡ 0 = ap (λ (t : ℕ). value x % t) e ∙ omega arith in
        rw one (unchanged x (value x / val) v (sym same), sym rest)
    | inr (one, ne1) ↦ elim (==-cases x.n 0) [
      | inl (empty, e) ↦
          let none : value x / val ≡ 0 =
            ap (λ (t : ℕ). t / val) (value-none x e) ∙ div-eq_of_lt (omega (arith, pos)) in
          let rest : value x % val ≡ 0 =
            ap (λ (t : ℕ). t % val) (value-none x e) ∙ mod-eq_of_lt (omega (arith, pos)) in
          rw (one, empty) (unchanged x (value x / val) v (value-none x e ∙ sym none), sym rest)
      | inr (empty, full) ↦ elim (==-cases val 2) [
        | inl (two, e) ↦
            rw (one, empty, two)
              (
                IsChanged-to _ x (ap (λ (t : ℕ). value x / t) (sym e))
                    (rshift-IsChanged x v 1 (omega arith)),
                low_bits 1 (omega arith) full ∙ ap (λ (t : ℕ). value x % t) (sym e),
              )
        | inr (two, ne2) ↦ elim (Bool-cases (is_2pow val)) [
          | inl power ↦
              let (k, b, e) = is_2pow_lem val power h in
              let count : ctz64 val ≡ k = ap ctz64 e ∙ ctz64-power k b in
              rw (one, empty, two, power, count)
                (
                  IsChanged-to _ x (ap (λ (t : ℕ). value x / t) (sym e)) (rshift-IsChanged x v k b),
                  low_bits k b full ∙ ap (λ (t : ℕ). value x % t) (sym e),
                )
          | inr other ↦
              rw (one, empty, two, other)
                (divided-IsChanged x v (div_step val) val (div_step-IsDividing val h) (omega arith))
        ]
      ]
    ]
  ]

  -- On a valid bigInt, with a limb `val` other than zero and a shift `k` below 64: the division by
  -- `val` leaves the quotient of the magnitude and returns the remainder, for each of the branches
  -- on `val`, the division by 3 leaves the third and the right shift divides by 2 ^ k. The results
  -- are valid and, unless zero, have the sign of `x`.
  pub quotients_lem :
      (val k : ℕ)
      → val ≢ 0
      → val < word
      → k < 64
      → (IsChanged (divmod_ui64 x val).0 x (value x / val)
          × ((divmod_ui64 x val).1 ≡ value x % val))
        × IsChanged (div3 x) x (value x / 3)
        × IsChanged (rshift x k) x (value x / 2 ^ k)
  quotients_lem val k pos h b =
      (divmod_ui64-IsChanged val pos h, div3-IsChanged x v, rshift-IsChanged x v k b)
