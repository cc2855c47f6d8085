-- ===== src/BigInt/Mutate/Store.antt =====
-- Changes of the lowest limb.
use dynamol.Base.{
  ℕ, zero, suc, ◌+◌, ◌-◌, ◌*◌, ◌/◌, ◌≤◌, ◌<◌, ◌≡◌, ◌≢◌, refl, inl, inr, arith, ap, ap₂, sym, ◌∙◌,
}
use dynamol.Base.{word, bit_or, ==-cases, ◌==◌, flag, not}
use dynamol.Base.Bits.{bit_or_step}
use dynamol.Base.Bits.Fields.{bit_or-zero}
use dynamol.Base.Bits.Split.{digitwise-lt, digitwise-join, bit_or-IsDigitwise}
use mathlib.Core.Path.{subst}
use native.Mathlib.Decide.{ℕ_discrete}
use dynamol.BigInt.{BigInt, IsValid, limb_at, set_limb}
use dynamol.BigInt.Memory.{limb_at-set_self, limb_at-set_ne, set_limb-SameHeader}
use dynamol.BigInt.Value.{value, seg, seg-zero, seg-suc, seg_ext}
use dynamol.BigInt.Mutate.{store_word}
use dynamol.BigInt.Mutate.Partial.{IsChanged}

set_limb-words :
    (x : BigInt) (v : ℕ) → IsValid x → v < word → (i : ℕ) → limb_at (set_limb x 0 v) i < word
set_limb-words x v vx h i = elim (ℕ_discrete 0 i) [
  | yes e ↦
      subst (λ (t : ℕ). limb_at (set_limb x 0 v) t < word) e
        (subst (λ t. t < word)
          (sym (limb_at-set_self x 0 v (omega (arith, vx.room_cap, vx.cap_pos)))) h)
  | no e ↦ subst (λ t. t < word) (sym (limb_at-set_ne x 0 i v e)) (vx.words i)
]

flag_cases : (v k : ℕ) → flag (not (v == 0)) ≡ suc k → (k ≡ 0) × (0 < v)
flag_cases v k h = ground (arith, h)

-- The bigInt becomes the word.
pub store_word-IsChanged :
    (v : ℕ) (x : BigInt) → IsValid x → v < word → IsChanged (store_word v x) x v
unfolding store_word value limb_at set_limb
store_word-IsChanged v x vx h =
    let s = set_limb-SameHeader x 0 v in
    let first = limb_at-set_self x 0 v (omega (arith, vx.room_cap, vx.cap_pos)) in
    (
      record {
        room_cap = s.same_room ∙ vx.room_cap;
        cap_pos = vx.cap_pos;
        n_cap = ground (arith, vx.cap_pos);
        sign_unit = ground (arith, vx.sign_unit);
        zero_sign = ground arith;
        words = set_limb-words x v vx h;
        top = λ k e.
            subst (λ (t : ℕ). 0 < limb_at (set_limb x 0 v) t) (sym (flag_cases v k e).0)
              (subst (λ t. 0 < t) (sym first) (flag_cases v k e).1);
      },
      elim (==-cases v 0) [
        | inl (q, e) ↦ rw q (omega (arith, seg-zero (limb_at (set_limb x 0 v)) 0, e))
        | inr (q, e) ↦ rw q (
            omega (
              arith,
              seg-suc (limb_at (set_limb x 0 v)) 0 0,
              seg-zero (limb_at (set_limb x 0 v)) 1,
              first,
            ))
      ],
      ground arith,
    )

or_grows_below : (k a b : ℕ) → a ≤ k → a ≤ bit_or a b
or_grows_below k zero b h = omega arith
or_grows_below zero (suc a) b h = absurd (omega arith)
or_grows_below (suc k) (suc a) b h =
    omega (arith, bit_or_step (suc a) b, or_grows_below k (suc a / 2) (b / 2) (omega arith))

or_grows : (a b : ℕ) → a ≤ bit_or a b
or_grows a b = or_grows_below a a b (omega arith)

module _ (x : BigInt) (vx : IsValid x) (live : x.n ≢ 0) where
  rest : ℕ
  rest = seg (limb_at x) 1 (x.n - 1)

  value-first : value x ≡ limb_at x 0 + word * rest
  unfolding value rest
  value-first =
      let count : x.n ≡ suc (x.n - 1) = omega arith in
      ap (seg (limb_at x) 0) count ∙ seg-suc (limb_at x) 0 (x.n - 1)

  -- `x->limbs[0] |= val` on a bigInt with limbs.
  pub or_low-IsChanged :
      (val : ℕ)
      → val < word
      → IsChanged (set_limb x 0 (bit_or (limb_at x 0) val)) x (bit_or (value x) val)
  unfolding value rest set_limb
  or_low-IsChanged val h =
      let v : ℕ = bit_or (limb_at x 0) val in
      let small : v < word = digitwise-lt bit_or-IsDigitwise 64 _ _ (vx.words 0) h in
      let s = set_limb-SameHeader x 0 v in
      let first = limb_at-set_self x 0 v (omega (arith, vx.room_cap, vx.cap_pos)) in
      let count : x.n ≡ suc (x.n - 1) = omega arith in
      let grown : limb_at x 0 ≤ v = or_grows (limb_at x 0) val in
      (
        record {
          room_cap = s.same_room ∙ vx.room_cap;
          cap_pos = vx.cap_pos;
          n_cap = vx.n_cap;
          sign_unit = vx.sign_unit;
          zero_sign = vx.zero_sign;
          words = set_limb-words x v vx small;
          top = λ k e. elim (ℕ_discrete 0 k) [
            | yes z ↦
                subst (λ (t : ℕ). 0 < limb_at (set_limb x 0 v) t) z
                  (omega (arith, first, grown, vx.top 0 (e ∙ ap suc (sym z))))
            | no z ↦ subst (λ t. 0 < t) (sym (limb_at-set_ne x 0 k v z)) (vx.top k e)
          ];
        },
        ap (seg (limb_at (set_limb x 0 v)) 0) count
            ∙ seg-suc (limb_at (set_limb x 0 v)) 0 (x.n - 1)
            ∙ ap₂ (λ (a b : ℕ). a + word * b) first
                (seg_ext (limb_at (set_limb x 0 v)) (limb_at x) 1 (x.n - 1)
                  (λ j p q. limb_at-set_ne x 0 j v (λ z. omega arith)))
            ∙ ap (λ (t : ℕ). v + word * t) (sym (bit_or-zero rest))
            ∙ sym (digitwise-join bit_or-IsDigitwise 64 (limb_at x 0) rest val 0 (vx.words 0) h)
            ∙ ap₂ bit_or (sym value-first) (omega arith),
        λ ne. refl,
      )
