-- ===== src/BigInt/Mutate/Ranged/Words.antt =====
-- The changing operations with a uint64_t and an explicit count of limbs, on the magnitude.
use dynamol.Base.{
  ℕ, suc, ◌%◌, ◌<◌, ◌≡◌, ◌≢◌, inl, inr, refl, arith, ap, sym, ◌∙◌, true, false, some, weight,
}
use dynamol.Base.{word, bit_and, bit_or, bit_xor, ==-cases, ◌==◌, if◌then◌else◌}
use dynamol.Base.Bits.Fields.{zero-bit_and, bit_or-zero}
use dynamol.Base.Bits.Split.{
  digitwise-lt, bit_and-IsDigitwise, bit_or-IsDigitwise, bit_xor-IsDigitwise,
}
use native.Mathlib.Nat.{zero-mod, zero-div, mul-zero, add-zero}
use dynamol.BigInt.{BigInt, IsValid, limb_at, set_limb}
use dynamol.BigInt.Value.{value}
use dynamol.BigInt.AddSub.Operands.{value-empty}
use dynamol.BigInt.Room.{Realloc}
use dynamol.BigInt.Bitwise.{first_only}
use dynamol.BigInt.Bitwise.Words64.{first_only-lt, seg-first_only}
use dynamol.BigInt.Convert.Words.{low_limb-value}
use dynamol.BigInt.Mutate.{pvalidate, store_word}
use dynamol.BigInt.Mutate.Partial.{IsChanged, partial_lem}
use dynamol.BigInt.Mutate.Store.{store_word-IsChanged, or_low-IsChanged}
use dynamol.BigInt.Mutate.Ranged.Outcome.{Becomes, GetsRoom, kept, kept-IsValid, ranging-Becomes}
use dynamol.BigInt.Mutate.Ranged.Loop.{signed-IsChanged, lower_limbs, complement, turned-Becomes}
use dynamol.BigInt.Mutate.Ranged.{
  partial_signed, mutex_andu64, mutex_nandu64, mutex_oru64, mutex_noru64, mutex_xoru64,
  mutex_xnoru64,
}

pub lower_limbs_zero : (op : ℕ → ℕ → ℕ) (k w : ℕ) → lower_limbs op k w 0 ≡ op 0 w
lower_limbs_zero op k w =
    rw (zero-mod (weight k), zero-div (weight k), mul-zero (weight k)) (add-zero (op 0 w))

limb-value : (x : BigInt) → IsValid x → x.n ≢ 0 → limb_at x 0 ≡ value x % word
limb-value x vx live =
    let q : (x.n == 0) ≡ false = ground arith in
    ap (λ t. if t then 0 else limb_at x 0) (sym q) ∙ low_limb-value 0 x vx

-- `x->limbs[0] & val`, which becomes the whole bigInt.
pub and_word-IsChanged :
    (x : BigInt) (val : ℕ)
    → IsValid x
    → val < word
    → IsChanged
        (if x.n == 0 then x else store_word (bit_and (limb_at x 0) val) x)
        x
        (bit_and (value x % word) val)
and_word-IsChanged x val vx h = elim (==-cases x.n 0) [
  | inl (q, e) ↦ rw q (
    vx,
    value-empty x e
        ∙ sym (ap (λ (t : ℕ). bit_and (t % word) val) (value-empty x e) ∙ zero-bit_and val),
    λ ne. refl,
  )
  | inr (q, e) ↦
      rw (q, sym (limb-value x vx e))
        (store_word-IsChanged (bit_and (limb_at x 0) val) x vx
          (digitwise-lt bit_and-IsDigitwise 64 _ _ (vx.words 0) h))
]

-- `x->limbs[0] |= val`, on zero `x->limbs[0] = 0 | val`.
pub or_word-IsChanged :
    (x : BigInt) (val : ℕ)
    → IsValid x
    → val < word
    → IsChanged
        (if x.n == 0 then store_word (bit_or 0 val) x else set_limb x 0 (bit_or (limb_at x 0) val))
        x
        (bit_or (value x) val)
or_word-IsChanged x val vx h = elim (==-cases x.n 0) [
  | inl (q, e) ↦
      rw (q, value-empty x e)
        (store_word-IsChanged (bit_or 0 val) x vx
          (digitwise-lt bit_or-IsDigitwise 64 0 val (omega arith) h))
  | inr (q, e) ↦ rw q (or_low-IsChanged x vx e val h)
]

or_any-IsChanged :
    (x : BigInt) (val : ℕ)
    → IsValid x
    → val < word
    → IsChanged
        (if val == 0
          then x
          else if x.n == 0
          then store_word (bit_or 0 val) x
          else set_limb x 0 (bit_or (limb_at x 0) val))
        x
        (bit_or (value x) val)
or_any-IsChanged x val vx h = elim (==-cases val 0) [
  | inl (q, e) ↦ rw q (vx, sym (ap (bit_or (value x)) e ∙ bit_or-zero (value x)), λ ne. refl)
  | inr (q, e) ↦ rw q (or_word-IsChanged x val vx h)
]

module _ {realloc : Realloc} {x z : BigInt} (stray val k : ℕ) (vx : IsValid x) (hv : val < word)
    (good : pvalidate stray x ≡ true) (room : GetsRoom realloc x (suc k) z) where
  xor_word-IsChanged :
      IsChanged
        (if z.n == 0
          then store_word (bit_xor 0 val) z
          else partial_signed (λ i a. bit_xor a (first_only val i)) (suc k) z)
        z
        (lower_limbs bit_xor (suc k) val (value z))
  xor_word-IsChanged =
      let (vz, same) = kept-IsValid vx room in
      elim (==-cases z.n 0) [
        | inl (q, e) ↦
            rw (q, value-empty z e, lower_limbs_zero bit_xor (suc k) val)
              (store_word-IsChanged (bit_xor 0 val) z vz
                (digitwise-lt bit_xor-IsDigitwise 64 0 val (omega arith) hv))
        | inr (q, e) ↦ rw q (
            signed-IsChanged _ z _ (
              partial_lem z vz (suc k) (kept vx room).1 (first_only val) val (first_only-lt val hv)
                (seg-first_only val k) bit_xor-IsDigitwise))
      ]

  -- For a valid bigInt that passes the guard, a uint64_t and a count of `k + 1` limbs for which there
  -- is room, the six operations `bigInt_mutex_…u64` succeed and leave behind the pointer a valid bigInt with the
  -- sign of `x` unless it is zero. `andu64` leaves `&` of the lowest limb alone, `oru64` leaves `|` of
  -- the whole; the other four leave `^`, or a complement, of the low `k + 1` limbs and the word,
  -- below the limbs of `x` above those.
  pub mutex_u64_lem :
      Becomes (mutex_andu64 realloc stray (some x) val (suc k)) x (bit_and (value x % word) val)
      × Becomes (mutex_oru64 realloc stray (some x) val (suc k)) x (bit_or (value x) val)
      × Becomes
          (mutex_xoru64 realloc stray (some x) val (suc k))
          x
          (lower_limbs bit_xor (suc k) val (value x))
      × Becomes
          (mutex_nandu64 realloc stray (some x) val (suc k))
          x
          (lower_limbs (complement bit_and (suc k)) (suc k) val (value x))
      × Becomes
          (mutex_noru64 realloc stray (some x) val (suc k))
          x
          (lower_limbs (complement bit_or (suc k)) (suc k) val (value x))
      × Becomes
          (mutex_xnoru64 realloc stray (some x) val (suc k))
          x
          (lower_limbs (complement bit_xor (suc k)) (suc k) val (value x))
  unfolding mutex_andu64 mutex_oru64 mutex_xoru64 mutex_nandu64 mutex_noru64 mutex_xnoru64
  mutex_u64_lem =
      let vz = (kept-IsValid vx room).0 in
      let small = first_only-lt val hv in
      let whole = seg-first_only val k in
      rw good (
        (
          ranging-Becomes vx room _ (λ v. bit_and (v % word) val) (and_word-IsChanged z val vz hv),
          ranging-Becomes vx room _ (λ v. bit_or v val) (or_any-IsChanged z val vz hv),
          ranging-Becomes vx room _ (lower_limbs bit_xor (suc k) val) xor_word-IsChanged,
          turned-Becomes k vx room (first_only val) val small whole bit_and-IsDigitwise,
          turned-Becomes k vx room (first_only val) val small whole bit_or-IsDigitwise,
          turned-Becomes k vx room (first_only val) val small whole bit_xor-IsDigitwise,
        ))
