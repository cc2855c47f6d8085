-- ===== src/BigInt/AddSub/Operands.antt =====
-- Operands as digits: a bigInt is read as if zero limbs followed it.
use dynamol.Base.{ℕ, suc, ◌*◌, ◌≤◌, ◌<◌, ◌≡◌, arith, ap, ◌∙◌}
use dynamol.Base.{word, weight, weight-pos, ◌-◌, ◌≢◌}
use dynamol.BigInt.{BigInt, limb_at, IsValid}
use dynamol.BigInt.Value.{seg, value, seg-zero, seg_ext, seg-pad}
use native.Mathlib.Nat.{mul-le-mul_left}
use dynamol.BigInt.Util.Compare.{seg-last0}
use dynamol.BigInt.AddSub.{operand}

pub operand-below : (x : BigInt) (j : ℕ) → j < x.n → operand x j ≡ limb_at x j
unfolding operand
operand-below x j h = ground arith

pub operand-above : (x : BigInt) (j : ℕ) → x.n ≤ j → operand x j ≡ 0
unfolding operand
operand-above x j h = ground arith

pub operand-word : (x : BigInt) → IsValid x → (j : ℕ) → operand x j < word
unfolding operand
operand-word x v j = ground (arith, v.words j)

-- Read as an operand, a bigInt is followed by zero limbs.
pub seg-operand : (x : BigInt) (k : ℕ) → x.n ≤ k → seg (operand x) 0 k ≡ value x
unfolding value
seg-operand x k h =
    seg-pad (operand x) 0 x.n k h (λ m p q. operand-above x m (omega arith))
    ∙ seg_ext (operand x) (limb_at x) 0 x.n (λ j p q. operand-below x j (omega arith))

pub value-empty : (x : BigInt) → x.n ≡ 0 → value x ≡ 0
unfolding value
value-empty x e = ap (seg (limb_at x) 0) e ∙ seg-zero (limb_at x) 0

-- A top limb bounds the magnitude from below.
pub value-le : (x : BigInt) (k : ℕ) → IsValid x → x.n ≡ suc k → weight k ≤ value x
unfolding value
value-le x k v e =
    let grown : weight k * 1 ≤ weight k * limb_at x k = mul-le-mul_left (weight k) (v.top k e) in
    omega (arith, ap (seg (limb_at x) 0) e, seg-last0 (limb_at x) k, grown)

-- A bigInt with limbs is not zero.
pub value-pos : (x : BigInt) → IsValid x → x.n ≢ 0 → 0 < value x
value-pos x v h =
    let e : x.n ≡ suc (x.n - 1) = omega arith in
    omega (arith, value-le x (x.n - 1) v e, weight-pos (x.n - 1))
