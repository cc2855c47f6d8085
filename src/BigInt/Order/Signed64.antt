-- ===== src/BigInt/Order/Signed64.antt =====
-- The comparisons with an int64_t.
use dynamol.Base.{ℕ, ◌≤◌, ◌<◌, ◌≡◌, ◌^◌, ◌&&◌, ◌||◌, arith, true, not, word, none, leb}
use dynamol.Base.Int.{ℤ, pos, ltb_ℤ, pos_part, neg_part, ◌+ℤ◌}
use dynamol.BigInt.{BigInt, IsValid}
use dynamol.BigInt.Util.{sign_eq}
use dynamol.BigInt.AddSub.Signs.{signed, signed_of}
use dynamol.BigInt.Order.{validate, i64_eq}
use dynamol.BigInt.Order.Facts.{value-ByCount}
use dynamol.BigInt.Order.Mixed.{abs, mag_i64, equal_i64, less_i64, more_i64, lequal_i64, mequal_i64}

-- The values of an int64_t.
abbrev pub IsI64 : ℤ → Type 0
IsI64 v = (pos_part v < 2 ^ 63) × (neg_part v ≤ 2 ^ 63)

-- For every int64_t, INT64_MIN included, `__MAG_I64__` gives the magnitude.
pub mag_i64-abs : (v : ℤ) → IsI64 v → mag_i64 v ≡ abs v
unfolding mag_i64 ◌+ℤ◌
mag_i64-abs v h = ground arith

module _ (stray : ℕ) (x : BigInt) (val : ℤ) (vx : IsValid x) (ok : validate stray x ≡ true)
    (h : IsI64 val) where
  equal_i64_lem : equal_i64 stray x val ≡ (i64_eq (signed x) val, none)
  unfolding equal_i64 sign_eq signed signed_of
  equal_i64_lem =
      rw ok (ground (arith, value-ByCount x vx, vx.sign_unit, vx.words 0, mag_i64-abs val h))

  less_i64_lem : less_i64 stray x val ≡ (ltb_ℤ (signed x) val, none)
  unfolding less_i64 sign_eq signed signed_of
  less_i64_lem =
      rw ok (ground (arith, value-ByCount x vx, vx.sign_unit, vx.words 0, mag_i64-abs val h))

  more_i64_lem :
      more_i64 stray x val
      ≡ (ltb_ℤ val (signed x) || (ltb_ℤ val (pos 0) && leb word (neg_part (signed x))), none)
  unfolding more_i64 sign_eq signed signed_of
  more_i64_lem =
      rw ok (ground (arith, value-ByCount x vx, vx.sign_unit, vx.words 0, mag_i64-abs val h))

  lequal_i64_lem :
      lequal_i64 stray x val
      ≡ (not (ltb_ℤ val (signed x)) && not (i64_eq (signed x) val && ltb_ℤ val (pos 0)), none)
  unfolding lequal_i64 sign_eq signed signed_of
  lequal_i64_lem =
      rw ok (ground (arith, value-ByCount x vx, vx.sign_unit, vx.words 0, mag_i64-abs val h))

  mequal_i64_lem :
      mequal_i64 stray x val
      ≡ (not (ltb_ℤ (signed x) val) && not (i64_eq (signed x) val && ltb_ℤ (pos 0) val), none)
  unfolding mequal_i64 sign_eq signed signed_of
  mequal_i64_lem =
      rw ok (ground (arith, value-ByCount x vx, vx.sign_unit, vx.words 0, mag_i64-abs val h))

  -- For a valid bigInt that passes the guard and every int64_t, `bigInt_equal_i64` and
  -- `bigInt_less_i64` answer by the order of the values. The other three do so except that
  -- `bigInt_more_i64` also accepts a bigInt of -2 ^ 64 or less against any negative number,
  -- `bigInt_lequal_i64` refuses two equal negative numbers, and `bigInt_mequal_i64` refuses two
  -- equal positive ones.
  pub comparisons_i64_lem :
      (equal_i64 stray x val ≡ (i64_eq (signed x) val, none))
      × (less_i64 stray x val ≡ (ltb_ℤ (signed x) val, none))
      × (more_i64 stray x val
          ≡ (ltb_ℤ val (signed x) || (ltb_ℤ val (pos 0) && leb word (neg_part (signed x))), none))
      × (lequal_i64 stray x val
          ≡ (not (ltb_ℤ val (signed x)) && not (i64_eq (signed x) val && ltb_ℤ val (pos 0)), none))
      × (mequal_i64 stray x val
          ≡ (not (ltb_ℤ (signed x) val) && not (i64_eq (signed x) val && ltb_ℤ (pos 0) val), none))
  comparisons_i64_lem = (equal_i64_lem, less_i64_lem, more_i64_lem, lequal_i64_lem, mequal_i64_lem)
