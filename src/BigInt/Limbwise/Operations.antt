-- ===== src/BigInt/Limbwise/Operations.antt =====
-- The sum and the product with a limb, and the division by one.
use dynamol.Base.{
  ℕ, zero, suc, ◌+◌, ◌*◌, ◌%◌, ◌^◌, ◌≤◌, ◌<◌, ◌≡◌, refl, inl, inr, arith, ap, sym, ◌∙◌, word,
  weight, weight-zero, weight-suc, ==-cases, Bool-cases,
}
use native.Mathlib.Nat.{mul-le-mul, mul-zero}
use dynamol.Intrin.Arith.{add64c}
use dynamol.Intrin.Arith.Carry.{add64c_lem}
use dynamol.Intrin.Bits.{ctz64, is_2pow}
use dynamol.Intrin.Bits.Zeros.{ctz64-power, is_2pow_lem}
use dynamol.BigInt.{BigInt, IsValid, limb_at, set_limb, room}
use dynamol.BigInt.Memory.{
  limb_at-set_self, limb_at-set_ne, SameHeader-refl, SameHeader-trans, set_limb-SameHeader,
}
use dynamol.BigInt.Value.{value, seg, seg-zero, seg-suc, seg_ext}
use dynamol.BigInt.Mutate.Partial.{IsChanged}
use dynamol.BigInt.Multiply.Row.{set-words, RowDone}
use dynamol.BigInt.Limbwise.{upward, add_carry, add_ui64, mul_step, mul_ui64, lshift, llshift}
use dynamol.BigInt.Limbwise.Passes.{upward-Scaled}
use dynamol.BigInt.Limbwise.Steps.{mul_step-IsScaling}
use dynamol.BigInt.Limbwise.Results.{value-seg}
use dynamol.BigInt.Limbwise.Sums.{push-IsChanged}
use dynamol.BigInt.Limbwise.Shifts.{
  IsChanged-to, unchanged, zset-IsChanged, llshift-IsChanged, lshift-IsChanged,
}

-- The rounds of the sum, and the carry that they leave.
add_carry-RowDone :
    (left i carry : ℕ) (x : BigInt)
    → carry < word
    → ((m : ℕ) → limb_at x m < word)
    → i + left ≤ room x
    → RowDone i left carry x (add_carry left i carry x)
unfolding add_carry
add_carry-RowDone zero i carry x hc words fits = record {
  row_sum = omega (arith, seg-zero (limb_at x) i, ap (λ (t : ℕ). t * carry) weight-zero);
  row_carry = hc;
  row_words = words;
  row_below = λ m h. refl;
  row_above = λ m h. refl;
  row_header = SameHeader-refl x;
}
add_carry-RowDone (suc left) i carry x hc words fits = elim (==-cases carry 0) [
  | inl (q, e) ↦ rw q (record {
    row_sum =
        ap (λ (t : ℕ). seg (limb_at x) i (suc left) + weight (suc left) * t) e
        ∙ omega (arith, mul-zero (weight (suc left)), e);
    row_carry = hc;
    row_words = words;
    row_below = λ m h. refl;
    row_above = λ m h. refl;
    row_header = SameHeader-refl x;
  })
  | inr (q, ne) ↦
      let out = add64c (limb_at x i) carry 0 in
      let (sum, low, one) = add64c_lem (limb_at x i) carry 0 (words i) hc (omega arith) in
      let x' = set_limb x i out.0 in
      let inside : i < room x = omega arith in
      let header = set_limb-SameHeader x i out.0 in
      let ih =
        add_carry-RowDone left (suc i) out.1 x' (omega (arith, one))
          (set-words x i out.0 inside low words) (omega (arith, header.same_room)) in
      let end = add_carry left (suc i) out.1 x' in
      let here : limb_at end.0 i ≡ out.0 =
        ih.row_below i (omega arith) ∙ limb_at-set_self x i out.0 inside in
      let rest : seg (limb_at x') (suc i) left ≡ seg (limb_at x) (suc i) left =
        seg_ext (limb_at x') (limb_at x) (suc i) left
          (λ m p q. limb_at-set_ne x i m out.0 (λ e. omega (arith, e))) in
      rw q (record {
        row_sum = omega (
          arith,
          seg-suc (limb_at end.0) i left,
          seg-suc (limb_at x) i left,
          here,
          sum,
          ih.row_sum,
          rest,
          ap (λ (t : ℕ). t * end.1) (weight-suc left),
        );
        row_carry = ih.row_carry;
        row_words = ih.row_words;
        row_below = λ m h.
            ih.row_below m (omega arith) ∙ limb_at-set_ne x i m out.0 (λ e. omega (arith, e));
        row_above = λ m h.
            ih.row_above m (omega arith) ∙ limb_at-set_ne x i m out.0 (λ e. omega (arith, e));
        row_header = SameHeader-trans header ih.row_header;
      })
]

module _ (x : BigInt) (v : IsValid x) (val : ℕ) (h : val < word) where
  add_ui64-IsChanged : x.n < x.cap → IsChanged (add_ui64 x val) x (value x + val)
  unfolding add_ui64
  add_ui64-IsChanged fits = elim (==-cases val 0) [
    | inl (q, e) ↦ rw q (unchanged x (value x + val) v (omega (arith, e)))
    | inr (q, ne) ↦
        let done = add_carry-RowDone x.n 0 val x h v.words (omega (arith, v.room_cap, fits)) in
        rw q (
          push-IsChanged x (add_carry x.n 0 val x) (value x + val) v done.row_header fits
            done.row_carry done.row_words
            (done.row_sum ∙ ap (λ (t : ℕ). t + val) (sym (value-seg x))) (omega arith))
  ]

  mul_ui64-IsChanged : x.n < x.cap → IsChanged (mul_ui64 x val) x (val * value x)
  unfolding mul_ui64
  mul_ui64-IsChanged fits = elim (==-cases val 1) [
    | inl (one, e) ↦
        rw one (unchanged x (val * value x) v (omega (arith, ap (λ (t : ℕ). t * value x) e)))
    | inr (one, ne1) ↦ elim (==-cases val 0) [
      | inl (none, e) ↦
          rw (one, none)
            (IsChanged-to _ x (omega (arith, ap (λ (t : ℕ). t * value x) e)) (zset-IsChanged x v))
      | inr (none, ne0) ↦ elim (==-cases val 2) [
        | inl (two, e) ↦
            rw (one, none, two)
              (IsChanged-to _ x (ap (λ (t : ℕ). t * value x) (sym e))
                (lshift-IsChanged x v 1 (omega arith) fits))
        | inr (two, ne2) ↦ elim (Bool-cases (is_2pow val)) [
          | inl power ↦
              let (k, b, e) = is_2pow_lem val power h in
              let count : ctz64 val ≡ k = ap ctz64 e ∙ ctz64-power k b in
              rw (one, none, two, power, count)
                (IsChanged-to _ x (ap (λ (t : ℕ). t * value x) (sym e))
                  (lshift-IsChanged x v k b fits))
          | inr other ↦
              let done =
                upward-Scaled (mul_step val) val (mul_step-IsScaling val h) x.n 0 0 x (omega arith)
                  v.words (omega (arith, v.room_cap, fits)) in
              let grown : 1 * value x ≤ val * value x =
                mul-le-mul {n₂ = val} {m₂ = value x} (omega arith) (omega arith) in
              rw (one, none, two, other)
                (push-IsChanged x (upward (mul_step val) x.n 0 0 x) (val * value x) v done.header
                  fits (omega (arith, done.last_carry, h)) done.words
                  (done.total ∙ omega (arith, ap (λ (t : ℕ). val * t) (value-seg x)))
                  (omega (arith, grown)))
        ]
      ]
    ]
  ]

  -- On a valid bigInt with room for one limb more, a limb `val`, a shift `k` below 64 and a shift
  -- by `j` limbs: the addition of `val` adds it to the magnitude, the multiplication multiplies the
  -- magnitude by it, for each of the branches on `val`, and the left shift multiplies by 2 ^ k. The
  -- shift by limbs multiplies by 2 ^ (64 * j) and keeps what is below the weight of the capacity.
  -- The results are valid and, unless zero, have the sign of `x`.
  pub growing_lem :
      (k j : ℕ)
      → k < 64
      → x.n < x.cap
      → IsChanged (add_ui64 x val) x (value x + val)
        × IsChanged (mul_ui64 x val) x (val * value x)
        × IsChanged (lshift x k) x (2 ^ k * value x)
        × IsChanged (llshift x j) x (weight j * value x % weight x.cap)
  growing_lem k j b fits = (
    add_ui64-IsChanged fits,
    mul_ui64-IsChanged fits,
    lshift-IsChanged x v k b fits,
    llshift-IsChanged x v j,
  )
