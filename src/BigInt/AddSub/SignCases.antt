-- ===== src/BigInt/AddSub/SignCases.antt =====
-- The cases of `add_saw` and `sub_saw` by the signs and the magnitudes of the operands.
use dynamol.Base.{ℕ, ◌+◌, ◌-◌, ◌≤◌, ◌<◌, ◌≡◌, ◌≢◌, inl, inr, refl, arith, ◌∙◌, ap, ap₂, sym}
use mathlib.Core.Path.{subst}
use native.Mathlib.Decide.{ℕ_discrete}
use dynamol.Base.{true, false, not}
use dynamol.Base.Int.{ℤ, pos, ◌+ℤ◌, ◌-ℤ◌}
use dynamol.BigInt.{BigInt, Store, update, room, IsValid, negate}
use dynamol.BigInt.Memory.{update_self, update_ne}
use dynamol.BigInt.Util.{sign_eq, copy, zset}
use dynamol.BigInt.Util.Compare.{comp-Compares}
use dynamol.BigInt.Util.Copy.{copy-IsCopy}
use dynamol.BigInt.Value.{value}
use dynamol.BigInt.AddSub.{set_sign, add_wc, sub_wb, add_opposite, sub_same}
use dynamol.BigInt.AddSub.Operands.{value-empty, value-pos}
use dynamol.BigInt.AddSub.Prepare.{Agrees-value, Agrees}
use dynamol.BigInt.AddSub.Outcome.{IsBlock, IsPrepared}
use dynamol.BigInt.AddSub.SignedOutcome.{IsSignedResult, sign-IsSignedResult, zset-IsSignedResult}
use dynamol.BigInt.AddSub.Sum.{add_wc-IsResult}
use dynamol.BigInt.AddSub.Difference.{sub_wb-IsResult}
use dynamol.BigInt.AddSub.Signs.{signed_of, signed, IsUnitSign, add_wc-sign, sub_wb-sign}
use dynamol.BigInt.AddSub.Signs.{signed_of-add_left, signed_of-add_right}
use dynamol.BigInt.AddSub.Signs.{
  signed_of-negate, negate-IsUnitSign, sign_eq-negate, signed_of-zero, sign_eq→eq,
}
use dynamol.BigInt.AddSub.Signs.{zero-sub}

module _ (res x y : ℕ) (s : Store) (vx : IsValid (s x)) (vy : IsValid (s y))
    (block : IsBlock (s res)) (hx : (s x).n + 1 ≤ room (s res)) (hy : (s y).n + 1 ≤ room (s res))
    (nx : (s x).n ≢ 0) (ny : (s y).n ≢ 0) where
  -- The magnitudes added, under the first sign.
  pub sum_signed :
      IsSignedResult res
        (signed_of (s x).sign (value (s x) + value (s y)))
        s
        (set_sign res (add_wc res x y s x).sign (add_wc res x y s))
  sum_signed = rw (add_wc-sign res x y s vx vy nx ny) (
      sign-IsSignedResult (s x).sign (add_wc-IsResult res x y s vx vy block hx hy) block
        vx.sign_unit (omega (arith, value-pos (s x) vx nx)))

  -- The second magnitude taken from the first, under any sign.
  pub left_signed :
      (sign : ℤ)
      → IsUnitSign sign
      → value (s y) < value (s x)
      → IsSignedResult res
          (signed_of sign (value (s x) - value (s y)))
          s
          (set_sign res sign (sub_wb res x y s))
  left_signed sign unit h =
      sign-IsSignedResult sign (sub_wb-IsResult res x y s vx vy block (omega arith) (omega arith))
        block unit (omega arith)

  pub right_signed :
      (sign : ℤ)
      → IsUnitSign sign
      → value (s x) < value (s y)
      → IsSignedResult res
          (signed_of sign (value (s y) - value (s x)))
          s
          (set_sign res sign (sub_wb res y x s))
  right_signed sign unit h =
      sign-IsSignedResult sign (sub_wb-IsResult res y x s vy vx block (omega arith) (omega arith))
        block unit (omega arith)

  pub opposite_signed :
      sign_eq (s x).sign (s y).sign ≡ false
      → IsSignedResult res (signed (s x) +ℤ signed (s y)) s (add_opposite res x y s)
  unfolding add_opposite signed sign_eq
  opposite_signed e =
      let ux = vx.sign_unit in
      let uy = vy.sign_unit in
      let left = signed_of-add_left (s x).sign (s y).sign (value (s x)) (value (s y)) ux uy e in
      let right = signed_of-add_right (s x).sign (s y).sign (value (s x)) (value (s y)) ux uy e in
      elim (comp-Compares (s x) (s y) vx vy) [
        | inl (c, h) ↦
            rw (c, sub_wb-sign res x y s x (inl refl) vx vy ny)
              (subst (λ z. IsSignedResult res z s (set_sign res (s x).sign (sub_wb res x y s)))
                (left (omega arith)) (left_signed (s x).sign ux h))
        | inr (inl (c, h)) ↦
            let none_left : 0 ≡ value (s x) - value (s y) = omega arith in
            rw c (
              subst (λ z. IsSignedResult res z s (update res (zset (s res)) s))
                (sym (signed_of-zero (s x).sign)
                  ∙ ap (signed_of (s x).sign) none_left
                  ∙ left (omega arith))
                (zset-IsSignedResult res s block))
        | inr (inr (c, h)) ↦
            rw (c, sub_wb-sign res y x s y (inl refl) vy vx nx)
              (subst (λ z. IsSignedResult res z s (set_sign res (s y).sign (sub_wb res y x s)))
                (right (omega arith)) (right_signed (s y).sign uy h))
      ]

  pub same_signed :
      sign_eq (s x).sign (s y).sign ≡ true
      → IsSignedResult res (signed (s x) -ℤ signed (s y)) s (sub_same res x y s)
  unfolding sub_same signed sign_eq
  same_signed e =
      let ux = vx.sign_unit in
      let uy = vy.sign_unit in
      let un = negate-IsUnitSign (s y).sign uy in
      let differ : sign_eq (s x).sign (negate (s y).sign) ≡ false =
        sign_eq-negate (s x).sign (s y).sign ux uy ∙ ap not e in
      let one_sign = sign_eq→eq (s x).sign (s y).sign ux uy e in
      let minus =
        signed_of-negate (s y).sign (signed_of (s x).sign (value (s x))) (value (s y)) uy in
      let left =
        signed_of-add_left (s x).sign (negate (s y).sign) (value (s x)) (value (s y)) ux un
          differ in
      let right =
        signed_of-add_right (s x).sign (negate (s y).sign) (value (s x)) (value (s y)) ux un
          differ in
      rw minus (elim (comp-Compares (s x) (s y) vx vy) [
        | inl (c, h) ↦
            rw (c, sub_wb-sign res x y s x (inl refl) vx vy ny)
              (subst (λ z. IsSignedResult res z s (set_sign res (s x).sign (sub_wb res x y s)))
                (left (omega arith)) (left_signed (s x).sign ux h))
        | inr (inl (c, h)) ↦
            let none_left : 0 ≡ value (s x) - value (s y) = omega arith in
            rw c (
              subst (λ z. IsSignedResult res z s (update res (zset (s res)) s))
                (sym (signed_of-zero (s x).sign)
                  ∙ ap (signed_of (s x).sign) none_left
                  ∙ left (omega arith))
                (zset-IsSignedResult res s block))
        | inr (inr (c, h)) ↦
            rw (c, sub_wb-sign res y x s x (inr refl) vx vx nx)
              (subst
                (λ z. IsSignedResult res z s (set_sign res (negate (s x).sign) (sub_wb res y x s)))
                (ap (λ t. signed_of (negate t) (value (s y) - value (s x))) one_sign
                  ∙ right (omega arith))
                (right_signed (negate (s x).sign) (negate-IsUnitSign (s x).sign ux) h))
      ])

-- The same block at `res`, seen from the store before.
pub earlier :
    {res : ℕ} {z : ℤ} {s0 s s' : Store}
    → ((p : ℕ) → res ≢ p → s p ≡ s0 p)
    → IsSignedResult res z s s'
    → IsSignedResult res z s0 s'
earlier others r = record {
  result_valid = r.result_valid;
  result_signed = r.result_signed;
  result_kept = λ p h. r.result_kept p h ∙ others p h;
}

pub prepared-IsBlock :
    {res a b : ℕ} {s0 s : Store} → IsPrepared res a b s0 s → IsBlock (s0 res) → IsBlock (s res)
prepared-IsBlock p block = record {
  block_words = p.res_words;
  block_cap_room = p.same_block.block_room ∙ block.block_cap_room ∙ sym p.same_block.block_cap;
  block_pos = p.res_room;
}

pub Agrees-signed : {x y : BigInt} → Agrees x y → signed y ≡ signed x
unfolding signed
Agrees-signed h = ap₂ signed_of h.agree_sign (Agrees-value h)

pub signed-empty : (x : BigInt) → x.n ≡ 0 → signed x ≡ pos 0
unfolding signed
signed-empty x e = ap (signed_of x.sign) (value-empty x e) ∙ signed_of-zero x.sign

-- The copied operand keeps its sign where `res` is that operand too.
pub copied-sign :
    {res : ℕ} (s : Store) (p : ℕ)
    → IsBlock (s res)
    → IsValid (s p)
    → (s p).n ≤ room (s res)
    → (update res (copy (s res) (s p)) s p).sign ≡ (s p).sign
copied-sign {res} s p block v h = elim (ℕ_discrete res p) [
  | yes e ↦
      subst (λ t. (update res (copy (s res) (s p)) s t).sign ≡ (s p).sign) e
        (rw update_self (copy-IsCopy (s res) (s p) v block.block_pos h).copy_sign)
  | no g ↦ ap (λ t. t.sign) (update_ne res p _ s g)
]

pub negated-sign :
    (s : Store) (x y : ℕ)
    → (s x).n ≡ 0
    → IsValid (s y)
    → signed_of (negate (s y).sign) (value (s y)) ≡ signed (s x) -ℤ signed (s y)
unfolding signed
negated-sign s x y e v =
    sym (zero-sub (s y).sign (value (s y)) v.sign_unit)
    ∙ ap (λ t. t -ℤ signed_of (s y).sign (value (s y))) (sym (signed-empty (s x) e))
