-- ===== src/BigInt/Limbwise/Results.antt =====
-- The operations with one limb and the shifts as operations on the magnitude.
use dynamol.Base.{
  ℕ, suc, ◌+◌, ◌*◌, ◌/◌, ◌%◌, ◌≤◌, ◌<◌, ◌≡◌, refl, inl, inr, arith, ap, ap₂, sym, ◌∙◌, word, weight,
}
use dynamol.Base.{==-cases}
use mathlib.Core.Path.{subst}
use native.Mathlib.Nat.{
  zero-mul, mul-zero, add-mul-mod_self_left, add-mul-div_left, mod-eq_of_lt, div-eq_of_lt,
}
use dynamol.BigInt.{BigInt, IsValid, limb_at, set_limb, room}
use dynamol.BigInt.Memory.{limb_at-set_self, limb_at-set_ne, set_limb-SameHeader, SameHeader}
use dynamol.BigInt.Value.{value, seg, seg_ext}
use dynamol.BigInt.Util.{trim_lz}
use dynamol.BigInt.Util.Compare.{seg-last0}
use dynamol.BigInt.Util.Copy.{trim_lz-IsTrimmed}
use dynamol.BigInt.Multiply.Row.{set-words}
use dynamol.BigInt.Mutate.Partial.{IsChanged}
use dynamol.BigInt.Limbwise.{upward, downward, push}
use dynamol.BigInt.Limbwise.Passes.{IsScaling, IsDividing, upward-Scaled, downward-Divided}

-- What a trimming leaves of a bigInt whose header still is that of a valid `x`, but for the count.
pub trimmed-IsChanged :
    (x r : BigInt)
    → IsValid x
    → r.cap ≡ x.cap
    → r.sign ≡ x.sign
    → room r ≡ room x
    → r.n ≤ x.cap
    → ((i : ℕ) → limb_at r i < word)
    → IsChanged (trim_lz r) x (value r)
trimmed-IsChanged x r v cap sign rooms n words =
    let t = trim_lz-IsTrimmed r in
    (
      record {
        room_cap = t.trim_room ∙ rooms ∙ v.room_cap ∙ sym (t.trim_cap ∙ cap);
        cap_pos = omega (arith, t.trim_cap, cap, v.cap_pos);
        n_cap = omega (arith, t.trim_cap, cap, t.trim_n, n);
        sign_unit = elim (==-cases (trim_lz r).n 0) [
          | inl (q, e) ↦ inl (t.trim_zero_sign e)
          | inr (q, e) ↦ rw (t.trim_sign e ∙ sign) v.sign_unit
        ];
        zero_sign = t.trim_zero_sign;
        words = λ i. subst (λ t. t < word) (sym (t.trim_limbs i)) (words i);
        top = t.trim_top;
      },
      t.trim_value,
      λ ne. t.trim_sign ne ∙ sign,
    )

-- The carry becomes the top limb, unless it is zero.
pub record Pushed (x r : BigInt) (v : ℕ) : Type 0 where
  pub pushed_value : value r ≡ v
  pub pushed_cap : r.cap ≡ x.cap
  pub pushed_sign : r.sign ≡ x.sign
  pub pushed_room : room r ≡ room x
  pub pushed_n : r.n ≤ suc x.n
  pub pushed_words : (m : ℕ) → limb_at r m < word

value-set_top :
    (r : BigInt) (c : ℕ)
    → r.n < room r
    → value (record (set_limb r r.n c) { n = suc r.n }) ≡ seg (limb_at r) 0 r.n + weight r.n * c
unfolding value limb_at set_limb
value-set_top r c h =
    seg-last0 (limb_at (set_limb r r.n c)) r.n
    ∙ ap₂ (λ (s t : ℕ). s + weight r.n * t)
        (seg_ext (limb_at (set_limb r r.n c)) (limb_at r) 0 r.n
          (λ m p q. limb_at-set_ne r r.n m c (λ e. omega (arith, e))))
        (limb_at-set_self r r.n c h)

pub value-seg : (r : BigInt) → value r ≡ seg (limb_at r) 0 r.n
unfolding value
value-seg r = refl

pub push-Pushed :
    (x : BigInt) (out : BigInt × ℕ)
    → SameHeader x out.0
    → x.n < room x
    → out.1 < word
    → ((m : ℕ) → limb_at out.0 m < word)
    → Pushed x (push out) (seg (limb_at out.0) 0 x.n + weight x.n * out.1)
unfolding limb_at set_limb
push-Pushed x out h fits small words =
    let inside : out.0.n < room out.0 = omega (arith, h.same_n, h.same_room, fits) in
    let s = set_limb-SameHeader out.0 out.0.n out.1 in
    elim (==-cases out.1 0) [
      | inl (q, e) ↦
          let nothing : weight x.n * out.1 ≡ 0 = ap (λ (t : ℕ). weight x.n * t) e ∙ mul-zero _ in
          rw q (record {
            pushed_value =
                value-seg out.0 ∙ ap (seg (limb_at out.0) 0) h.same_n ∙ omega (arith, nothing);
            pushed_cap = h.same_cap;
            pushed_sign = h.same_sign;
            pushed_room = h.same_room;
            pushed_n = omega (arith, h.same_n);
            pushed_words = words;
          })
      | inr (q, e) ↦ rw q (record {
        pushed_value =
            value-set_top out.0 out.1 inside
            ∙ ap (λ (t : ℕ). seg (limb_at out.0) 0 t + weight t * out.1) h.same_n;
        pushed_cap = s.same_cap ∙ h.same_cap;
        pushed_sign = s.same_sign ∙ h.same_sign;
        pushed_room = s.same_room ∙ h.same_room;
        pushed_n = omega (arith, h.same_n);
        pushed_words = set-words out.0 out.0.n out.1 inside small words;
      })
    ]

-- The quotient and the remainder are unique.
division : (d q r n : ℕ) → d * q + r ≡ n → r < d → (q ≡ n / d) × (r ≡ n % d)
division d q r n e l =
    let turned : n ≡ r + d * q = omega (arith, e) in
    (
      sym (
          ap (λ (t : ℕ). t / d) turned
          ∙ add-mul-div_left r q (omega arith)
          ∙ omega (arith, div-eq_of_lt l)),
      sym (ap (λ (t : ℕ). t % d) turned ∙ add-mul-mod_self_left r d q ∙ mod-eq_of_lt l),
    )

module _ (x : BigInt) (v : IsValid x) where
  -- A scaling pass over all limbs, the carry pushed, and the trimming.
  pub scaled-IsChanged :
      (step : ℕ → ℕ → ℕ × ℕ) (factor carry : ℕ)
      → IsScaling step factor
      → carry < factor
      → factor ≤ word
      → x.n < x.cap
      → IsChanged (trim_lz (push (upward step x.n 0 carry x))) x (factor * value x + carry)
  scaled-IsChanged step factor carry h hc hf fits =
      let done =
        upward-Scaled step factor h x.n 0 carry x hc v.words (omega (arith, v.room_cap, fits)) in
      let p =
        push-Pushed x (upward step x.n 0 carry x) done.header (omega (arith, v.room_cap, fits))
          (omega (arith, done.last_carry, hf)) done.words in
      let e : value (push (upward step x.n 0 carry x)) ≡ factor * value x + carry =
        p.pushed_value ∙ done.total ∙ ap (λ (t : ℕ). factor * t + carry) (sym (value-seg x)) in
      let (valid, same, sign) =
        trimmed-IsChanged x (push (upward step x.n 0 carry x)) v p.pushed_cap p.pushed_sign
          p.pushed_room (omega (arith, p.pushed_n, fits)) p.pushed_words in
      (valid, same ∙ e, sign)

  -- A dividing pass over all limbs, and the trimming.
  pub divided-IsChanged :
      (step : ℕ → ℕ → ℕ × ℕ) (factor : ℕ)
      → IsDividing step factor
      → 0 < factor
      → IsChanged (trim_lz (downward step x.n 0 x).0) x (value x / factor)
        × ((downward step x.n 0 x).1 ≡ value x % factor)
  divided-IsChanged step factor h hf =
      let out = downward step x.n 0 x in
      let done =
        downward-Divided step factor h x.n 0 x hf v.words (omega (arith, v.room_cap, v.n_cap)) in
      let whole : factor * value out.0 + out.1 ≡ value x =
        ap (λ (t : ℕ). factor * t + out.1)
          (value-seg out.0 ∙ ap (seg (limb_at out.0) 0) done.header.same_n)
        ∙ done.balance
        ∙ omega (arith, value-seg x, zero-mul (weight x.n)) in
      let (quotient, rest) = division factor (value out.0) out.1 (value x) whole done.remainder in
      let (valid, same, sign) =
        trimmed-IsChanged x out.0 v done.header.same_cap done.header.same_sign done.header.same_room
          (omega (arith, done.header.same_n, v.n_cap)) done.words in
      ((valid, same ∙ quotient, sign), rest)
