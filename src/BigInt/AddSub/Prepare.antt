-- ===== src/BigInt/AddSub/Prepare.antt =====
-- The first lines of each operation: `res` is cleared where it is no operand, and set to zero where
-- both operands are zero. The operands stay as they were.
use dynamol.Base.{ℕ, ◌≡◌, ◌≢◌, ◌⊎◌, arith, sym, ap, ◌∙◌}
use dynamol.BigInt.{BigInt, limb_at, room, Store, update, IsValid}
use dynamol.BigInt.AddSub.{clear_result, zero_result}
use dynamol.BigInt.Util.{zset}
use dynamol.Base.Int.{pos}
use mathlib.Core.Path.{subst}
use dynamol.BigInt.Value.{seg, value, seg_ext}

-- Equal but for limbs, which are compared one by one.
pub record Agrees (x y : BigInt) : Type 0 where
  pub agree_n : y.n ≡ x.n
  pub agree_cap : y.cap ≡ x.cap
  pub agree_sign : y.sign ≡ x.sign
  pub agree_room : room y ≡ room x
  pub agree_limbs : (i : ℕ) → limb_at y i ≡ limb_at x i

Agrees-of_eq : {x y : BigInt} → y ≡ x → Agrees x y
Agrees-of_eq e = record {
  agree_n = ap (λ (t : BigInt). t.n) e;
  agree_cap = ap (λ (t : BigInt). t.cap) e;
  agree_sign = ap (λ (t : BigInt). t.sign) e;
  agree_room = ap (λ (t : BigInt). room t) e;
  agree_limbs = λ i. ap (λ (t : BigInt). limb_at t i) e;
}

-- `res` once it is cleared: the block is the same.
pub record SameBlock (x y : BigInt) : Type 0 where
  pub block_cap : y.cap ≡ x.cap
  pub block_room : room y ≡ room x
  pub block_limbs : (i : ℕ) → limb_at y i ≡ limb_at x i

module _ (res a b : ℕ) (s : Store) where
  clear-operand : (p : ℕ) → (p ≡ a) ⊎ (p ≡ b) → clear_result res a b s p ≡ s p
  unfolding clear_result update
  clear-operand p h = ground arith

  clear-other : (p : ℕ) → res ≢ p → clear_result res a b s p ≡ s p
  unfolding clear_result update
  clear-other p h = ground arith

  clear-SameBlock : SameBlock (s res) (clear_result res a b s res)
  unfolding clear_result update limb_at
  clear-SameBlock = record {
    block_cap = ground arith;
    block_room = ground arith;
    block_limbs = λ i. ground arith;
  }

  zero-operand :
      (p : ℕ)
      → (p ≡ a) ⊎ (p ≡ b)
      → ((s p).n ≡ 0 → (s p).sign ≡ pos 1)
      → Agrees (s p) (zero_result res a b s p)
  unfolding zero_result update zset limb_at
  zero-operand p h z = record {
    agree_n = ground arith;
    agree_cap = ground arith;
    agree_sign = ground arith;
    agree_room = ground arith;
    agree_limbs = λ i. ground arith;
  }

  zero-other : (p : ℕ) → res ≢ p → zero_result res a b s p ≡ s p
  unfolding zero_result update
  zero-other p h = ground arith

  zero-SameBlock : SameBlock (s res) (zero_result res a b s res)
  unfolding zero_result update limb_at zset
  zero-SameBlock = record {
    block_cap = ground arith;
    block_room = ground arith;
    block_limbs = λ i. ground arith;
  }

-- Both lines together.
abbrev pub prepare : ℕ → ℕ → ℕ → Store → Store
prepare res a b s = zero_result res a b (clear_result res a b s)

module _ (res a b : ℕ) (s : Store) where
  pub prepare-operand :
      (p : ℕ) → (p ≡ a) ⊎ (p ≡ b) → IsValid (s p) → Agrees (s p) (prepare res a b s p)
  prepare-operand p h v =
      let e = clear-operand res a b s p h in
      let z = zero-operand res a b (clear_result res a b s) p h (rw e v.zero_sign) in
      subst (λ x. Agrees x (prepare res a b s p)) e z

  pub prepare-other : (p : ℕ) → res ≢ p → prepare res a b s p ≡ s p
  prepare-other p h = zero-other res a b (clear_result res a b s) p h ∙ clear-other res a b s p h

  pub prepare-SameBlock : SameBlock (s res) (prepare res a b s res)
  prepare-SameBlock =
      let one = clear-SameBlock res a b s in
      let two = zero-SameBlock res a b (clear_result res a b s) in
      record {
        block_cap = two.block_cap ∙ one.block_cap;
        block_room = two.block_room ∙ one.block_room;
        block_limbs = λ i. two.block_limbs i ∙ one.block_limbs i;
      }

pub Agrees-value : {x y : BigInt} → Agrees x y → value y ≡ value x
unfolding value
Agrees-value {x} {y} h =
    ap (seg (limb_at y) 0) h.agree_n
    ∙ seg_ext (limb_at y) (limb_at x) 0 x.n (λ j p q. h.agree_limbs j)

pub Agrees-IsValid : {x y : BigInt} → Agrees x y → IsValid x → IsValid y
Agrees-IsValid {x} {y} h v = record {
  room_cap = h.agree_room ∙ v.room_cap ∙ sym h.agree_cap;
  cap_pos = omega (arith, h.agree_cap, v.cap_pos);
  n_cap = omega (arith, h.agree_cap, h.agree_n, v.n_cap);
  sign_unit = rw h.agree_sign v.sign_unit;
  zero_sign = λ e. h.agree_sign ∙ v.zero_sign (sym h.agree_n ∙ e);
  words = λ i. rw (h.agree_limbs i) (v.words i);
  top = λ k e. rw (h.agree_limbs k) (v.top k (sym h.agree_n ∙ e));
}
