-- ===== src/BigInt/Order/Verdicts.antt =====
-- The comparisons of two bigInts.
use dynamol.Base.{ℕ, ◌≡◌, arith, Option, List, get_or, ap₂, Bool, true, not, none}
use dynamol.Base.Int.{ltb_ℤ}
use dynamol.BigInt.{BigInt, IsValid, limb_at, cells_of}
use dynamol.BigInt.Util.{sign_eq}
use dynamol.BigInt.Util.Compare.{comp-Compares, value-lt_of_n}
use dynamol.BigInt.Value.{value, seg}
use dynamol.BigInt.AddSub.Signs.{signed, signed_of}
use dynamol.BigInt.Order.{i64_eq, equal, less, more}
use dynamol.BigInt.Order.{lequal, mequal, both}
use dynamol.BigInt.Order.Facts.{value-ByCount}

module _ (stray_a stray_b : ℕ) (shared : Bool) (a b : BigInt) (va : IsValid a) (vb : IsValid b)
    (ok : both stray_a stray_b shared a b ≡ true)
    (same_limbs : shared ≡ true → a.limbs ≡ b.limbs) where
  same : shared ≡ true → a.n ≡ b.n → value a ≡ value b
  unfolding value limb_at
  same e h =
      ap₂ (λ (l : Option (List ℕ)) (n : ℕ). seg (λ i. get_or (cells_of l) i 0) 0 n) (same_limbs e) h

  equal_lem : equal stray_a stray_b shared a b ≡ (i64_eq (signed a) (signed b), none)
  unfolding equal sign_eq signed signed_of
  equal_lem = rw ok (
      ground (
        arith,
        value-ByCount a va,
        value-ByCount b vb,
        va.sign_unit,
        vb.sign_unit,
        comp-Compares a b va vb,
        value-lt_of_n a b va vb,
        value-lt_of_n b a vb va,
        same,
      ))

  less_lem : less stray_a stray_b shared a b ≡ (ltb_ℤ (signed a) (signed b), none)
  unfolding less sign_eq signed signed_of
  less_lem = rw ok (
      ground (
        arith,
        value-ByCount a va,
        value-ByCount b vb,
        va.sign_unit,
        vb.sign_unit,
        comp-Compares a b va vb,
        value-lt_of_n a b va vb,
        value-lt_of_n b a vb va,
        same,
      ))

  more_lem : more stray_a stray_b shared a b ≡ (ltb_ℤ (signed b) (signed a), none)
  unfolding more sign_eq signed signed_of
  more_lem = rw ok (
      ground (
        arith,
        value-ByCount a va,
        value-ByCount b vb,
        va.sign_unit,
        vb.sign_unit,
        comp-Compares a b va vb,
        value-lt_of_n a b va vb,
        value-lt_of_n b a vb va,
        same,
      ))

  lequal_lem : lequal stray_a stray_b shared a b ≡ (not (ltb_ℤ (signed b) (signed a)), none)
  unfolding lequal sign_eq signed signed_of
  lequal_lem = rw ok (
      ground (
        arith,
        value-ByCount a va,
        value-ByCount b vb,
        va.sign_unit,
        vb.sign_unit,
        comp-Compares a b va vb,
        value-lt_of_n a b va vb,
        value-lt_of_n b a vb va,
        same,
      ))

  mequal_lem : mequal stray_a stray_b shared a b ≡ (not (ltb_ℤ (signed a) (signed b)), none)
  unfolding mequal sign_eq signed signed_of
  mequal_lem = rw ok (
      ground (
        arith,
        value-ByCount a va,
        value-ByCount b vb,
        va.sign_unit,
        vb.sign_unit,
        comp-Compares a b va vb,
        value-lt_of_n a b va vb,
        value-lt_of_n b a vb va,
        same,
      ))

  -- For valid bigInts that pass the guard, `bigInt_equal`, `bigInt_less`, `bigInt_more`,
  -- `bigInt_lequal` and `bigInt_mequal` answer by the order of the signed values and write no
  -- error, also when both point to one buffer.
  pub comparisons_lem :
      (equal stray_a stray_b shared a b ≡ (i64_eq (signed a) (signed b), none))
      × (less stray_a stray_b shared a b ≡ (ltb_ℤ (signed a) (signed b), none))
      × (more stray_a stray_b shared a b ≡ (ltb_ℤ (signed b) (signed a), none))
      × (lequal stray_a stray_b shared a b ≡ (not (ltb_ℤ (signed b) (signed a)), none))
      × (mequal stray_a stray_b shared a b ≡ (not (ltb_ℤ (signed a) (signed b)), none))
  comparisons_lem = (equal_lem, less_lem, more_lem, lequal_lem, mequal_lem)
