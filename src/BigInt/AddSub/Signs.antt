-- ===== src/BigInt/AddSub/Signs.antt =====
-- The loops leave every sign alone, and the laws of signed values.
use dynamol.Base.{ℕ, zero, suc, ◌+◌, ◌-◌, ◌≤◌, ◌≡◌, ◌≢◌, ◌⊎◌, inl, inr, refl, arith, ◌∙◌, sym}
use dynamol.Base.{true, false, not, if◌then◌else◌, ◌==◌}
use dynamol.Base.Int.{ℤ, pos, negsuc, ◌+ℤ◌, ◌-ℤ◌, sub_ℕ}
use dynamol.Intrin.Arith.{add64c, sub64b}
use dynamol.BigInt.{BigInt, Store, update, set_limb, limb_at, IsValid, negate}
use dynamol.BigInt.Util.{sign_eq}
use dynamol.BigInt.Value.{value}
use dynamol.BigInt.AddSub.{operand, add_step, add_loop, add_finish, add_wc, sub_step, sub_loop}
use dynamol.BigInt.AddSub.{sub_finish, sub_wb}
use dynamol.BigInt.AddSub.Prepare.{prepare, prepare-operand}

not_zero : (n : ℕ) → n ≢ 0 → (n == 0) ≡ false
not_zero n h = ground arith

module _ (res a b : ℕ) where
  add_loop-sign : (k i c p : ℕ) (s : Store) → ((add_loop res a b k i (s, c)).0 p).sign ≡ (s p).sign
  unfolding add_loop add_step update set_limb
  add_loop-sign zero i c p s = refl
  add_loop-sign (suc k) i c p s =
      let sum = add64c (operand (s a) i) (operand (s b) i) c in
      add_loop-sign k (suc i) sum.1 p (update res (set_limb (s res) i sum.0) s) ∙ ground arith

  sub_loop-sign :
      (k i c top p : ℕ) (s : Store) → ((sub_loop res a b k i (s, c, top)).0 p).sign ≡ (s p).sign
  unfolding sub_loop sub_step update set_limb
  sub_loop-sign zero i c top p s = refl
  sub_loop-sign (suc k) i c top p s =
      let diff = sub64b (limb_at (s a) i) (operand (s b) i) c in
      sub_loop-sign k (suc i) diff.1 _ p (update res (set_limb (s res) i diff.0) s) ∙ ground arith

  add_finish-sign : (m p : ℕ) (out : Store × ℕ) → (add_finish res a b m out p).sign ≡ (out.0 p).sign
  unfolding add_finish update set_limb
  add_finish-sign m p out = ground arith

  sub_finish-sign : (p : ℕ) (out : Store × ℕ × ℕ) → (sub_finish res a b out p).sign ≡ (out.0 p).sign
  unfolding sub_finish update
  sub_finish-sign p out = ground arith

  -- The first operand keeps its sign, also where the result overwrites it.
  pub add_wc-sign :
      (s : Store)
      → IsValid (s a)
      → IsValid (s b)
      → (s a).n ≢ 0
      → (s b).n ≢ 0
      → (add_wc res a b s a).sign ≡ (s a).sign
  unfolding add_wc
  add_wc-sign s va vb ha hb =
      let agree_a = prepare-operand res a b s a (inl refl) va in
      let agree_b = prepare-operand res a b s b (inr refl) vb in
      let live_a = not_zero (prepare res a b s a).n (λ e. ha (sym agree_a.agree_n ∙ e)) in
      let live_b = not_zero (prepare res a b s b).n (λ e. hb (sym agree_b.agree_n ∙ e)) in
      rw (live_a, live_b) (add_finish-sign _ a _ ∙ add_loop-sign _ 0 0 a _ ∙ agree_a.agree_sign)

  -- Both operands of a subtraction do.
  pub sub_wb-sign :
      (s : Store) (p : ℕ)
      → (p ≡ a) ⊎ (p ≡ b)
      → IsValid (s p)
      → IsValid (s b)
      → (s b).n ≢ 0
      → (sub_wb res a b s p).sign ≡ (s p).sign
  unfolding sub_wb
  sub_wb-sign s p h vp vb hb =
      let agree_p = prepare-operand res a b s p h vp in
      let agree_b = prepare-operand res a b s b (inr refl) vb in
      let live_b = not_zero (prepare res a b s b).n (λ e. hb (sym agree_b.agree_n ∙ e)) in
      rw live_b (sub_finish-sign p _ ∙ sub_loop-sign _ 0 0 0 p _ ∙ agree_p.agree_sign)

-- The integer with a sign and a magnitude.
unfoldable pub signed_of : ℤ → ℕ → ℤ
unfolding sign_eq
signed_of sign v = if sign_eq sign (pos 1) then pos v else sub_ℕ 0 v

pub signed_of-zero : (sign : ℤ) → signed_of sign 0 ≡ pos 0
unfolding signed_of sign_eq
signed_of-zero sign = ground arith

-- The integer that a bigInt stands for.
unfoldable pub signed : BigInt → ℤ
signed x = signed_of x.sign (value x)

abbrev pub IsUnitSign : ℤ → Type 0
IsUnitSign s = (s ≡ pos 1) ⊎ (s ≡ negsuc 0)

-- Equal signs: the magnitudes are added.
pub signed_of-add :
    (s t : ℤ) (v w : ℕ)
    → IsUnitSign s
    → IsUnitSign t
    → sign_eq s t ≡ true
    → signed_of s (v + w) ≡ signed_of s v +ℤ signed_of t w
unfolding signed_of sign_eq ◌+ℤ◌
signed_of-add s t v w hs ht e = ground arith

-- Opposite signs: the larger magnitude gives the sign.
pub signed_of-add_left :
    (s t : ℤ) (v w : ℕ)
    → IsUnitSign s
    → IsUnitSign t
    → sign_eq s t ≡ false
    → w ≤ v
    → signed_of s (v - w) ≡ signed_of s v +ℤ signed_of t w
unfolding signed_of sign_eq ◌+ℤ◌
signed_of-add_left s t v w hs ht e h = ground arith

pub signed_of-add_right :
    (s t : ℤ) (v w : ℕ)
    → IsUnitSign s
    → IsUnitSign t
    → sign_eq s t ≡ false
    → v ≤ w
    → signed_of t (w - v) ≡ signed_of s v +ℤ signed_of t w
unfolding signed_of sign_eq ◌+ℤ◌
signed_of-add_right s t v w hs ht e h = ground arith

-- Subtraction is addition of the negated sign.
pub signed_of-negate :
    (t u : ℤ) (w : ℕ) → IsUnitSign t → u -ℤ signed_of t w ≡ u +ℤ signed_of (negate t) w
unfolding signed_of sign_eq ◌+ℤ◌ ◌-ℤ◌ negate
signed_of-negate t u w ht = ground arith

pub negate-IsUnitSign : (t : ℤ) → IsUnitSign t → IsUnitSign (negate t)
unfolding negate
negate-IsUnitSign t h = ground arith

pub sign_eq-negate :
    (s t : ℤ) → IsUnitSign s → IsUnitSign t → sign_eq s (negate t) ≡ not (sign_eq s t)
unfolding negate sign_eq
sign_eq-negate s t hs ht = ground arith

pub sign_eq→eq : (s t : ℤ) → IsUnitSign s → IsUnitSign t → sign_eq s t ≡ true → s ≡ t
unfolding sign_eq
sign_eq→eq s t hs ht e = ground arith

pub +ℤ-zero : (z : ℤ) → z +ℤ pos 0 ≡ z
unfolding ◌+ℤ◌
+ℤ-zero z = ground arith

pub zero-+ℤ : (z : ℤ) → pos 0 +ℤ z ≡ z
unfolding ◌+ℤ◌
zero-+ℤ z = ground arith

pub -ℤ-zero : (z : ℤ) → z -ℤ pos 0 ≡ z
unfolding ◌-ℤ◌
-ℤ-zero z = ground arith

pub zero-sub : (t : ℤ) (w : ℕ) → IsUnitSign t → pos 0 -ℤ signed_of t w ≡ signed_of (negate t) w
unfolding signed_of sign_eq negate ◌-ℤ◌
zero-sub t w h = ground arith
