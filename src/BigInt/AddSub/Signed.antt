-- ===== src/BigInt/AddSub/Signed.antt =====
-- `__BIGINT_ADD_SAW__` and `__BIGINT_SUB_SAW__` add and subtract signed integers.
use dynamol.Base.{ℕ, ◌+◌, ◌≤◌, ◌≡◌, ◌≢◌, inl, inr, refl, arith, ◌∙◌, ap, ap₂, sym}
use mathlib.Core.Path.{subst}
use dynamol.Base.{true, false, not, ==-cases, Bool-cases}
use dynamol.Base.Int.{◌+ℤ◌, ◌-ℤ◌}
use dynamol.BigInt.{Store, update, room, IsValid, negate}
use dynamol.BigInt.Util.{sign_eq, copy}
use dynamol.BigInt.Value.{value}
use dynamol.BigInt.AddSub.{set_sign, add_wc, add_saw, sub_saw}
use dynamol.BigInt.AddSub.Operands.{value-pos}
use dynamol.BigInt.AddSub.Prepare.{prepare}
use dynamol.BigInt.AddSub.Outcome.{IsBlock, IsPrepared, prepare-IsPrepared}
use dynamol.BigInt.AddSub.Outcome.{copy-IsResult}
use dynamol.BigInt.AddSub.SignedOutcome.{IsSignedResult, sign-IsSignedResult}
use dynamol.BigInt.AddSub.SignedOutcome.{copy-IsSignedResult}
use dynamol.BigInt.AddSub.Signs.{signed_of, signed}
use dynamol.BigInt.AddSub.Signs.{signed_of-add}
use dynamol.BigInt.AddSub.Signs.{signed_of-negate, negate-IsUnitSign, sign_eq-negate}
use dynamol.BigInt.AddSub.Signs.{+ℤ-zero, zero-+ℤ, -ℤ-zero}
use dynamol.BigInt.AddSub.SignCases.{
  sum_signed, opposite_signed, same_signed, earlier, prepared-IsBlock, Agrees-signed, signed-empty,
  copied-sign, negated-sign,
}

module _ (res x y : ℕ) where
  sum_case :
      (s : Store)
      → IsValid (s x)
      → IsValid (s y)
      → IsBlock (s res)
      → (s x).n + 1 ≤ room (s res)
      → (s y).n + 1 ≤ room (s res)
      → (s x).n ≢ 0
      → (s y).n ≢ 0
      → sign_eq (s x).sign (s y).sign ≡ true
      → IsSignedResult res
          (signed (s x) +ℤ signed (s y))
          s
          (set_sign res (add_wc res x y s x).sign (add_wc res x y s))
  unfolding signed
  sum_case s vx vy block hx hy nx ny e =
      subst
        (λ z. IsSignedResult res z s (set_sign res (add_wc res x y s x).sign (add_wc res x y s)))
        (signed_of-add (s x).sign (s y).sign (value (s x)) (value (s y)) vx.sign_unit vy.sign_unit
          e)
        (sum_signed res x y s vx vy block hx hy nx ny)

  -- `add_saw` leaves at `res` a valid bigInt with the sum of the two integers, and changes no other
  -- bigInt. The operands are valid, and `res` has room for one limb more than each; any of the
  -- three pointers may be equal.
  pub add_saw-sum :
      (s : Store)
      → IsValid (s x)
      → IsValid (s y)
      → IsBlock (s res)
      → (s x).n + 1 ≤ room (s res)
      → (s y).n + 1 ≤ room (s res)
      → IsSignedResult res (signed (s x) +ℤ signed (s y)) s (add_saw res x y s)
  unfolding add_saw
  add_saw-sum s0 vx vy block hx hy =
      let s = prepare res x y s0 in
      let p = prepare-IsPrepared res x y s0 vx vy block in
      let block1 = prepared-IsBlock p block in
      let roomy_x : (s x).n + 1 ≤ room (s res) =
        omega (arith, p.agrees_a.agree_n, p.same_block.block_room) in
      let roomy_y : (s y).n + 1 ≤ room (s res) =
        omega (arith, p.agrees_b.agree_n, p.same_block.block_room) in
      let total = ap₂ ◌+ℤ◌ (Agrees-signed p.agrees_a) (Agrees-signed p.agrees_b) in
      earlier p.others (
        subst (λ z. IsSignedResult res z s (add_saw res x y s0)) total
          (elim (==-cases (s y).n 0) [
            | inl (q, e) ↦ rw q (
                subst (λ z. IsSignedResult res z s (update res (copy (s res) (s x)) s))
                  (sym (+ℤ-zero (signed (s x)))
                    ∙ ap (λ t. signed (s x) +ℤ t) (sym (signed-empty (s y) e)))
                  (copy-IsSignedResult res x s block1 p.valid_a (omega arith)))
            | inr (q, ny) ↦ elim (==-cases (s x).n 0) [
              | inl (r, e) ↦
                  rw (q, r)
                    (subst (λ z. IsSignedResult res z s (update res (copy (s res) (s y)) s))
                      (sym (zero-+ℤ (signed (s y)))
                        ∙ ap (λ t. t +ℤ signed (s y)) (sym (signed-empty (s x) e)))
                      (copy-IsSignedResult res y s block1 p.valid_b (omega arith)))
              | inr (r, nx) ↦ elim (Bool-cases (sign_eq (s x).sign (s y).sign)) [
                | inl e ↦
                    rw (q, r, e) (sum_case s p.valid_a p.valid_b block1 roomy_x roomy_y nx ny e)
                | inr e ↦
                    rw (q, r, e)
                      (opposite_signed res x y s p.valid_a p.valid_b block1 roomy_x roomy_y nx ny e)
              ]
            ]
          ]))

  difference_case :
      (s : Store)
      → IsValid (s x)
      → IsValid (s y)
      → IsBlock (s res)
      → (s x).n + 1 ≤ room (s res)
      → (s y).n + 1 ≤ room (s res)
      → (s x).n ≢ 0
      → (s y).n ≢ 0
      → sign_eq (s x).sign (s y).sign ≡ false
      → IsSignedResult res
          (signed (s x) -ℤ signed (s y))
          s
          (set_sign res (add_wc res x y s x).sign (add_wc res x y s))
  unfolding signed
  difference_case s vx vy block hx hy nx ny e =
      let uy = vy.sign_unit in
      let un = negate-IsUnitSign (s y).sign uy in
      let same : sign_eq (s x).sign (negate (s y).sign) ≡ true =
        sign_eq-negate (s x).sign (s y).sign vx.sign_unit uy ∙ ap not e in
      subst
        (λ z. IsSignedResult res z s (set_sign res (add_wc res x y s x).sign (add_wc res x y s)))
        (signed_of-add (s x).sign (negate (s y).sign) (value (s x)) (value (s y)) vx.sign_unit un
            same
          ∙ sym (signed_of-negate (s y).sign (signed_of (s x).sign (value (s x))) (value (s y)) uy))
        (sum_signed res x y s vx vy block hx hy nx ny)

  -- The branch of `sub_saw` where the first operand is zero.
  negate_case :
      (s0 s : Store)
      → IsPrepared res x y s0 s
      → IsBlock (s res)
      → (s y).n ≤ room (s res)
      → (s y).n ≢ 0
      → let s' = update res (copy (s res) (s y)) s in
        IsSignedResult res
          (signed_of (negate (s y).sign) (value (s y)))
          s
          (set_sign res (negate (s' y).sign) s')
  negate_case s0 s p block h ny =
      let r =
        copy-IsResult res (value (s y)) y s s p.valid_b refl
          (record { block_cap = refl; block_room = refl; block_limbs = λ i. refl }) p.res_words
          (λ q g. refl) block.block_pos h in
      rw (copied-sign s y block p.valid_b h) (
        sign-IsSignedResult (negate (s y).sign) r block
          (negate-IsUnitSign (s y).sign p.valid_b.sign_unit) (value-pos (s y) p.valid_b ny))

  -- `sub_saw` leaves at `res` a valid bigInt with the difference of the two integers, and changes
  -- no other bigInt, under the conditions of `add_saw-sum`.
  pub sub_saw-difference :
      (s : Store)
      → IsValid (s x)
      → IsValid (s y)
      → IsBlock (s res)
      → (s x).n + 1 ≤ room (s res)
      → (s y).n + 1 ≤ room (s res)
      → IsSignedResult res (signed (s x) -ℤ signed (s y)) s (sub_saw res x y s)
  unfolding sub_saw
  sub_saw-difference s0 vx vy block hx hy =
      let s = prepare res x y s0 in
      let p = prepare-IsPrepared res x y s0 vx vy block in
      let block1 = prepared-IsBlock p block in
      let roomy_x : (s x).n + 1 ≤ room (s res) =
        omega (arith, p.agrees_a.agree_n, p.same_block.block_room) in
      let roomy_y : (s y).n + 1 ≤ room (s res) =
        omega (arith, p.agrees_b.agree_n, p.same_block.block_room) in
      let total = ap₂ ◌-ℤ◌ (Agrees-signed p.agrees_a) (Agrees-signed p.agrees_b) in
      earlier p.others (
        subst (λ z. IsSignedResult res z s (sub_saw res x y s0)) total
          (elim (==-cases (s y).n 0) [
            | inl (q, e) ↦ rw q (
                subst (λ z. IsSignedResult res z s (update res (copy (s res) (s x)) s))
                  (sym (-ℤ-zero (signed (s x)))
                    ∙ ap (λ t. signed (s x) -ℤ t) (sym (signed-empty (s y) e)))
                  (copy-IsSignedResult res x s block1 p.valid_a (omega arith)))
            | inr (q, ny) ↦ elim (==-cases (s x).n 0) [
              | inl (r, e) ↦
                  rw (q, r)
                    (subst
                      (λ z. IsSignedResult res z s (
                        let s' = update res (copy (s res) (s y)) s in
                        set_sign res (negate (s' y).sign) s'))
                      (negated-sign s x y e p.valid_b) (negate_case s0 s p block1 (omega arith) ny))
              | inr (r, nx) ↦ elim (Bool-cases (sign_eq (s x).sign (s y).sign)) [
                | inl e ↦
                    rw (q, r, e)
                      (same_signed res x y s p.valid_a p.valid_b block1 roomy_x roomy_y nx ny e)
                | inr e ↦
                    rw (q, r, e)
                      (difference_case s p.valid_a p.valid_b block1 roomy_x roomy_y nx ny e)
              ]
            ]
          ]))
