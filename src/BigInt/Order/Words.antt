-- ===== src/BigInt/Order/Words.antt =====
-- The comparisons with a uint64_t.
use dynamol.Base.{ℕ, ◌<◌, ◌≡◌, ◌==◌, ◌||◌, ◌&&◌, arith, true, not, word, none}
use dynamol.Base.Int.{pos, ltb_ℤ}
use dynamol.BigInt.{BigInt, IsValid}
use dynamol.BigInt.Util.{sign_eq}
use dynamol.BigInt.AddSub.Signs.{signed, signed_of}
use dynamol.BigInt.Order.{validate, i64_eq}
use dynamol.BigInt.Order.Facts.{value-ByCount}
use dynamol.BigInt.Order.Mixed.{equal_u64, less_u64, more_u64, lequal_u64, mequal_u64}

module _ (stray : ℕ) (x : BigInt) (val : ℕ) (vx : IsValid x) (ok : validate stray x ≡ true)
    (h : val < word) where
  equal_u64_lem : equal_u64 stray x val ≡ (i64_eq (signed x) (pos val), none)
  unfolding equal_u64 sign_eq signed signed_of
  equal_u64_lem = rw ok (ground (arith, value-ByCount x vx, vx.sign_unit, vx.words 0))

  less_u64_lem : less_u64 stray x val ≡ (ltb_ℤ (signed x) (pos val), none)
  unfolding less_u64 sign_eq signed signed_of
  less_u64_lem = rw ok (ground (arith, value-ByCount x vx, vx.sign_unit, vx.words 0))

  more_u64_lem :
      more_u64 stray x val
      ≡ (ltb_ℤ (pos val) (signed x) || (i64_eq (signed x) (pos 0) && (val == 0)), none)
  unfolding more_u64 sign_eq signed signed_of
  more_u64_lem = rw ok (ground (arith, value-ByCount x vx, vx.sign_unit, vx.words 0))

  lequal_u64_lem : lequal_u64 stray x val ≡ (not (ltb_ℤ (pos val) (signed x)), none)
  unfolding lequal_u64 sign_eq signed signed_of
  lequal_u64_lem = rw ok (ground (arith, value-ByCount x vx, vx.sign_unit, vx.words 0))

  mequal_u64_lem : mequal_u64 stray x val ≡ (not (ltb_ℤ (signed x) (pos val)), none)
  unfolding mequal_u64 sign_eq signed signed_of
  mequal_u64_lem = rw ok (ground (arith, value-ByCount x vx, vx.sign_unit, vx.words 0))

  -- For a valid bigInt that passes the guard, the five comparisons with a uint64_t answer by the
  -- order of the values and write no error, except that `bigInt_more_u64` also says that 0 is
  -- more than 0.
  pub comparisons_u64_lem :
      (equal_u64 stray x val ≡ (i64_eq (signed x) (pos val), none))
      × (less_u64 stray x val ≡ (ltb_ℤ (signed x) (pos val), none))
      × (more_u64 stray x val
          ≡ (ltb_ℤ (pos val) (signed x) || (i64_eq (signed x) (pos 0) && (val == 0)), none))
      × (lequal_u64 stray x val ≡ (not (ltb_ℤ (pos val) (signed x)), none))
      × (mequal_u64 stray x val ≡ (not (ltb_ℤ (signed x) (pos val)), none))
  comparisons_u64_lem = (equal_u64_lem, less_u64_lem, more_u64_lem, lequal_u64_lem, mequal_u64_lem)
