-- ===== src/BigInt/Bitwise/Ranged/Results.antt =====
-- The operations with an explicit count of limbs, on the magnitudes modulo their weight.
use dynamol.Base.{ℕ, zero, suc, ◌+◌, ◌-◌, ◌%◌, ◌<◌, ◌≡◌, ◌≢◌, refl, arith, ap, ap₂, sym, ◌∙◌}
use dynamol.Base.{true, false, if◌then◌else◌, ◌==◌, some, word, weight, not64}
use dynamol.Base.{bit_and, bit_or, bit_xor}
use native.Mathlib.Nat.{add-mul-mod_self_left, mod-eq_of_lt}
use dynamol.Base.Int.{ℤ, pos}
use dynamol.Base.Bits.Split.{IsDigitwise, digitwise-lt}
use dynamol.Base.Bits.Split.{bit_and-IsDigitwise, bit_or-IsDigitwise, bit_xor-IsDigitwise}
use dynamol.BigInt.{BigInt, IsValid, limb_at}
use dynamol.BigInt.Status.{success}
use dynamol.BigInt.AddSub.Signs.{IsUnitSign}
use dynamol.BigInt.Value.{value, seg, seg-zero, seg-add, seg-lt}
use dynamol.BigInt.Bitwise.{Outcome, linit, padded}
use dynamol.BigInt.Bitwise.Fill.{computed-IsValid}
use dynamol.BigInt.Bitwise.Values.{seg-digitwise, seg-not64, padded-lt, seg-padded, empty-IsValid}
use dynamol.BigInt.Bitwise.Ranged.{ranged, ok, ex_and, ex_nand, ex_or, ex_nor, ex_xor, ex_xnor}

-- The low limbs of a bigInt are the remainder of its magnitude.
pub seg-padded_mod : (x : BigInt) (k : ℕ) → IsValid x → seg (padded x) 0 k ≡ value x % weight k
seg-padded_mod x k v = sym (
    ap (λ (t : ℕ). t % weight k)
      (sym (seg-padded x (k + x.n) (omega arith)) ∙ seg-add (padded x) 0 k x.n)
    ∙ add-mul-mod_self_left (seg (padded x) 0 k) (weight k) _
    ∙ mod-eq_of_lt (seg-lt (padded x) 0 k (padded-lt x v)))

-- A result that is valid, has the value `v`, the sign of `x` unless it is zero, and no error.
abbrev pub Gives : Outcome → BigInt → ℕ → Type 0
Gives out x v =
    IsValid out.0 × (value out.0 ≡ v) × (out.0.n ≢ 0 → out.0.sign ≡ x.sign) × (out.1 ≡ some success)

pub with_sign :
    (r : BigInt) (s : ℤ)
    → IsValid r
    → IsUnitSign s
    → IsValid (record r { sign = if r.n == 0 then pos 1 else s })
unfolding limb_at
with_sign r s v u = record {
  room_cap = v.room_cap;
  cap_pos = v.cap_pos;
  n_cap = v.n_cap;
  sign_unit = ground arith;
  zero_sign = λ e. ground arith;
  words = v.words;
  top = v.top;
}

pub ranged-Gives :
    (x : BigInt) (f : ℕ → ℕ) (k : ℕ)
    → IsValid x
    → ((i : ℕ) → f i < word)
    → Gives (ranged true true x f k) x (seg f 0 k)
unfolding value limb_at linit
ranged-Gives x f zero v h =
    (empty-IsValid.0, empty-IsValid.1 ∙ sym (seg-zero f 0), λ e. absurd (e refl), refl)
ranged-Gives x f (suc k) v h =
    let (valid, e) = computed-IsValid f (suc k) h in
    let q : (suc k == 0) ≡ false = ground arith in
    rw q (with_sign _ x.sign valid v.sign_unit, e, λ ne. ground arith, refl)

module _ (stray_x stray_y : ℕ) (x y : BigInt) (k : ℕ) (vx : IsValid x) (vy : IsValid y)
    (good : ok stray_x stray_y true x y k ≡ true) where
  seg-both :
      {native op : ℕ → ℕ → ℕ}
      → IsDigitwise native op
      → seg (λ j. native (padded x j) (padded y j)) 0 k
        ≡ native (value x % weight k) (value y % weight k)
  seg-both {native} d =
      seg-digitwise d (padded x) (padded y) 0 k (padded-lt x vx) (padded-lt y vy)
      ∙ ap₂ native (seg-padded_mod x k vx) (seg-padded_mod y k vy)

  plain :
      {native op : ℕ → ℕ → ℕ}
      → IsDigitwise native op
      → Gives
          (ranged true true x (λ j. native (padded x j) (padded y j)) k)
          x
          (native (value x % weight k) (value y % weight k))
  plain {native} d =
      let (valid, e, sign, err) =
        ranged-Gives x (λ j. native (padded x j) (padded y j)) k vx
          (λ j. digitwise-lt d 64 _ _ (padded-lt x vx j) (padded-lt y vy j)) in
      (valid, e ∙ seg-both d, sign, err)

  turned :
      {native op : ℕ → ℕ → ℕ}
      → IsDigitwise native op
      → Gives
          (ranged true true x (λ j. not64 (native (padded x j) (padded y j))) k)
          x
          (weight k - 1 - native (value x % weight k) (value y % weight k))
  turned {native} d =
      let f : ℕ → ℕ = λ j. native (padded x j) (padded y j) in
      let small : (j : ℕ) → f j < word =
        λ j. digitwise-lt d 64 _ _ (padded-lt x vx j) (padded-lt y vy j) in
      let (valid, e, sign, err) =
        ranged-Gives x (λ j. not64 (f j)) k vx (λ j. omega (arith, small j)) in
      (valid, e ∙ omega (arith, seg-both d, seg-not64 f 0 k small), sign, err)

  -- For valid bigInts that pass the guard, with memory, and every count of limbs `k`, 0 included:
  -- `bigInt_ex_and`, `bigInt_ex_or` and `bigInt_ex_xor` give the operation on the magnitudes modulo
  -- 2 ^ (64 * k), the other three its complement to that width; each result is valid, has the sign
  -- of `x` unless it is zero, and success is written.
  pub ranged_lem :
      Gives
        (ex_and stray_x stray_y true x y k)
        x
        (bit_and (value x % weight k) (value y % weight k))
      × Gives
          (ex_or stray_x stray_y true x y k)
          x
          (bit_or (value x % weight k) (value y % weight k))
      × Gives
          (ex_xor stray_x stray_y true x y k)
          x
          (bit_xor (value x % weight k) (value y % weight k))
      × Gives
          (ex_nand stray_x stray_y true x y k)
          x
          (weight k - 1 - bit_and (value x % weight k) (value y % weight k))
      × Gives
          (ex_nor stray_x stray_y true x y k)
          x
          (weight k - 1 - bit_or (value x % weight k) (value y % weight k))
      × Gives
          (ex_xnor stray_x stray_y true x y k)
          x
          (weight k - 1 - bit_xor (value x % weight k) (value y % weight k))
  unfolding ex_and ex_or ex_xor ex_nand ex_nor ex_xnor
  ranged_lem = rw good (
      (
        plain bit_and-IsDigitwise,
        plain bit_or-IsDigitwise,
        plain bit_xor-IsDigitwise,
        turned bit_and-IsDigitwise,
        turned bit_or-IsDigitwise,
        turned bit_xor-IsDigitwise,
      ))
