-- ===== src/BigInt/Limbwise/Sums.antt =====
-- Passes whose result is valid without trimming: the sum and the product with a limb.
use dynamol.Base.{
  ℕ, suc, ◌+◌, ◌*◌, ◌≤◌, ◌<◌, ◌≡◌, refl, inl, inr, arith, ap, sym, ◌∙◌, word, weight,
}
use dynamol.Base.{==-cases, ◌==◌, ◌⊎◌, true, false}
use native.Mathlib.Nat.{suc_inj, mul-le-mul_left}
use dynamol.BigInt.{BigInt, IsValid, limb_at, set_limb}
use dynamol.BigInt.Memory.{SameHeader}
use dynamol.BigInt.Value.{value, seg, seg-lt}
use dynamol.BigInt.Util.Compare.{seg-last0}
use dynamol.BigInt.AddSub.Operands.{value-le}
use dynamol.BigInt.AddSub.Outcome.{live_top}
use dynamol.BigInt.Mutate.Partial.{IsChanged}
use dynamol.BigInt.Limbwise.{push}
use dynamol.BigInt.Limbwise.Results.{push-Pushed, value-seg}

-- A magnitude that reaches the weight of the top limb gives it a nonzero value.
top_of_value :
    (r : BigInt) (k : ℕ)
    → ((m : ℕ) → limb_at r m < word)
    → r.n ≡ suc k
    → weight k ≤ value r
    → 0 < limb_at r k
top_of_value r k words e h =
    live_top (weight k) (value r) (seg (limb_at r) 0 k) (limb_at r k) h
      (value-seg r ∙ ap (seg (limb_at r) 0) e ∙ seg-last0 (limb_at r) k)
      (seg-lt (limb_at r) 0 k words)

push_count :
    (out : BigInt × ℕ)
    → ((out.1 ≡ 0) × ((push out).n ≡ out.0.n)) ⊎ ((0 < out.1) × ((push out).n ≡ suc out.0.n))
push_count out = elim (==-cases out.1 0) [
  | inl (q, e) ↦ inl (e, ap (λ (t : BigInt). t.n) (pushed_zero out q))
  | inr (q, e) ↦ inr (omega arith, ap (λ (t : BigInt). t.n) (pushed_more out q))
]
  where
    pushed_zero : (out : BigInt × ℕ) → (out.1 == 0) ≡ true → push out ≡ out.0
    pushed_zero out q = rw q refl

    pushed_more :
        (out : BigInt × ℕ)
        → (out.1 == 0) ≡ false
        → push out ≡ record (set_limb out.0 out.0.n out.1) { n = suc out.0.n }
    pushed_more out q = rw q refl

-- With a magnitude not below that of `x`.
pub push-IsChanged :
    (x : BigInt) (out : BigInt × ℕ) (total : ℕ)
    → IsValid x
    → SameHeader x out.0
    → x.n < x.cap
    → out.1 < word
    → ((m : ℕ) → limb_at out.0 m < word)
    → seg (limb_at out.0) 0 x.n + weight x.n * out.1 ≡ total
    → value x ≤ total
    → IsChanged (push out) x total
push-IsChanged x out total v h fits small words e grown =
    let p = push-Pushed x out h (omega (arith, v.room_cap, fits)) small words in
    let top : (k : ℕ) → (push out).n ≡ suc k → 0 < limb_at (push out) k = λ k n.
      top_of_value (push out) k p.pushed_words n (elim (push_count out) [
        | inl (z, same) ↦
            omega (arith, p.pushed_value, e, grown, value-le x k v (sym h.same_n ∙ sym same ∙ n))
        | inr (c, more) ↦
            let last : k ≡ x.n = suc_inj (sym n ∙ more) ∙ h.same_n in
            let one : weight x.n * 1 ≤ weight x.n * out.1 = mul-le-mul_left (weight x.n) c in
            omega (arith, p.pushed_value, ap weight last, one)
      ]) in
    (
      record {
        room_cap = p.pushed_room ∙ v.room_cap ∙ sym p.pushed_cap;
        cap_pos = omega (arith, p.pushed_cap, v.cap_pos);
        n_cap = omega (arith, p.pushed_cap, p.pushed_n, fits);
        sign_unit = rw (p.pushed_sign) v.sign_unit;
        zero_sign = λ z. p.pushed_sign ∙ elim (push_count out) [
          | inl (c, same) ↦ v.zero_sign (sym h.same_n ∙ sym same ∙ z)
          | inr (c, more) ↦ absurd (omega (arith, z, more))
        ];
        words = p.pushed_words;
        top = top;
      },
      p.pushed_value ∙ e,
      λ ne. p.pushed_sign,
    )
