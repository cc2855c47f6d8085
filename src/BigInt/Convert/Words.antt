-- ===== src/BigInt/Convert/Words.antt =====
-- Conversions between bigInts and machine integers.
use dynamol.Base.{ℕ, suc, ◌-◌, ◌^◌, ◌<◌, ◌≡◌, ◌⊎◌, inl, inr, refl, arith, [], ◌∷◌}
use dynamol.Base.{
  none, some, true, not, ◌&&◌, if◌then◌else◌, ◌==◌, ◌%◌, ap, sym, ◌∙◌, zero, flag, ==-cases, word,
}
use dynamol.Base.Int.{ℤ, pos, ltb_ℤ, pos_part}
use dynamol.BigInt.{BigInt, IsValid, limb_at, set_limb}
use dynamol.BigInt.Status.{success, err_range, alloc_oom}
use dynamol.BigInt.Util.{sign_eq, pvalid}
use dynamol.BigInt.Value.{value, seg, seg-zero, seg-suc}
use dynamol.BigInt.AddSub.Signs.{signed, signed_of, IsUnitSign}
use dynamol.BigInt.AddSub.Outcome.{IsBlock}
use mathlib.Core.Path.{subst}
use dynamol.BigInt.Build.{words_of_cells}
use dynamol.BigInt.Memory.{set_limb-SameHeader, limb_at-set_self, limb_at-set_ne}
use dynamol.BigInt.Order.{validate, i64_eq}
use dynamol.BigInt.Order.Facts.{value-ByCount}
use dynamol.BigInt.Order.Signed64.{IsI64, mag_i64-abs}
use dynamol.BigInt.Order.Mixed.{mag_i64, abs, sign_of, i64_min}
use dynamol.BigInt.Convert.{seti64_safe, tou64_safe, toi64_safe, geti64, newi64, low_limb, one_limb}

module _ (stray : ℕ) (x : BigInt) (vx : IsValid x) (ok : validate stray x ≡ true) where
  -- `bigInt_tou64_safe` returns the value with success when it is from 0 to 2 ^ 64 - 1, and else
  -- the range error with 0.
  tou64_safe_lem : tou64_safe stray x ≡ (
      if not (ltb_ℤ (signed x) (pos 0)) && ltb_ℤ (signed x) (pos word)
      then (success, pos_part (signed x))
      else (err_range, 0))
  unfolding tou64_safe sign_eq signed signed_of
  tou64_safe_lem = rw ok (ground (arith, value-ByCount x vx, vx.sign_unit, vx.words 0))

  -- `bigInt_toi64_safe` returns the value with success when it is above INT64_MIN and an int64_t holds
  -- it, is undefined at INT64_MIN, and else gives the range error with INT64_MIN.
  toi64_safe_lem : toi64_safe stray x ≡ (
      if i64_eq (signed x) i64_min
      then none
      else if not (ltb_ℤ (signed x) i64_min) && ltb_ℤ (signed x) (pos (2 ^ 63))
      then some (success, signed x)
      else some (err_range, i64_min))
  unfolding toi64_safe sign_eq signed signed_of
  toi64_safe_lem = rw ok (ground (arith, value-ByCount x vx, vx.sign_unit, vx.words 0))

pub low_limb-value : (stray : ℕ) (x : BigInt) → IsValid x → low_limb stray x ≡ value x % word
unfolding value
low_limb-value stray x vx = elim (n_cases x.n) [
  | inl e ↦ ground (arith, ap (seg (limb_at x) 0) e, seg-zero (limb_at x) 0)
  | inr e ↦ ground (arith, ap (seg (limb_at x) 0) e, seg-suc (limb_at x) 0 (x.n - 1), vx.words 0)
]
  where
    n_cases : (n : ℕ) → (n ≡ 0) ⊎ (n ≡ suc (n - 1))
    n_cases n = ground arith

seti64_safe_lem :
    (stray : ℕ) (x : BigInt) (old : ℤ)
    → IsValid x
    → validate stray x ≡ true
    → seti64_safe stray x (some old) ≡ (
        let low = signed_of x.sign (value x % word) in
        if i64_eq low i64_min
        then none
        else if not (ltb_ℤ low i64_min) && ltb_ℤ low (pos (2 ^ 63))
        then some (success, some low)
        else some (err_range, some old))
unfolding seti64_safe sign_eq signed_of
seti64_safe_lem stray x old vx ok =
    rw (ok, sym (low_limb-value stray x vx)) (ground (arith, vx.sign_unit, vx.words 0))

-- On a valid bigInt that passes the guard: `bigInt_tou64_safe` returns the value when a uint64_t
-- holds it, and else the range error with 0; `bigInt_toi64_safe` returns it when an int64_t other than
-- INT64_MIN holds it, has undefined behaviour (`none`) when it is INT64_MIN, and else returns the range
-- error with INT64_MIN; `bigInt_seti64_safe` decides in the same way on the lowest limb with the sign
-- of the bigInt, whatever the higher limbs are, stores that number, and on the range error keeps the
-- old integer.
pub checked_conversions_lem :
    (stray : ℕ) (x : BigInt) (old : ℤ)
    → IsValid x
    → validate stray x ≡ true
    → (tou64_safe stray x ≡ (
        if not (ltb_ℤ (signed x) (pos 0)) && ltb_ℤ (signed x) (pos word)
        then (success, pos_part (signed x))
        else (err_range, 0)))
      × (toi64_safe stray x ≡ (
          if i64_eq (signed x) i64_min
          then none
          else if not (ltb_ℤ (signed x) i64_min) && ltb_ℤ (signed x) (pos (2 ^ 63))
          then some (success, signed x)
          else some (err_range, i64_min)))
      × (seti64_safe stray x (some old) ≡ (
          let low = signed_of x.sign (value x % word) in
          if i64_eq low i64_min
          then none
          else if not (ltb_ℤ low i64_min) && ltb_ℤ low (pos (2 ^ 63))
          then some (success, some low)
          else some (err_range, some old)))
checked_conversions_lem stray x old vx ok =
    (tou64_safe_lem stray x vx ok, toi64_safe_lem stray x vx ok, seti64_safe_lem stray x old vx ok)

written-lt :
    (x : BigInt) (v : ℕ) → IsBlock x → v < word → (j : ℕ) → limb_at (set_limb x 0 v) j < word
written-lt x v b h zero = subst (λ t. t < word) (sym (limb_at-set_self x 0 v b.block_pos)) h
written-lt x v b h (suc j) =
    subst (λ t. t < word) (sym (limb_at-set_ne x 0 (suc j) v (λ e. absurd (omega arith))))
      (b.block_words (suc j))

-- A header with one limb written into a good block.
one_limb-IsValid :
    (x : BigInt) (v : ℕ) (sign : ℤ)
    → IsBlock x
    → v < word
    → IsUnitSign sign
    → (v ≡ 0 → sign ≡ pos 1)
    → IsValid (one_limb x v (not (v == 0)) sign)
unfolding limb_at set_limb
one_limb-IsValid x v sign b h u z =
    let same = set_limb-SameHeader x 0 v in
    record {
      room_cap = same.same_room ∙ b.block_cap_room;
      cap_pos = omega (arith, b.block_pos, b.block_cap_room);
      n_cap = ground (arith, b.block_pos, b.block_cap_room);
      sign_unit = u;
      zero_sign = λ e. z (ground arith);
      words = written-lt x v b h;
      top = λ k e. only_limb k e;
    }
  where
    only_limb : (k : ℕ) → flag (not (v == 0)) ≡ suc k → 0 < limb_at (set_limb x 0 v) k
    only_limb k e =
        let first : k ≡ 0 = ground arith in
        let live : 0 < v = ground arith in
        subst (λ t. 0 < limb_at (set_limb x 0 v) t) (sym first)
          (subst (λ t. 0 < t) (sym (limb_at-set_self x 0 v b.block_pos)) live)

one_limb-value :
    (x : BigInt) (v : ℕ) (sign : ℤ) → IsBlock x → value (one_limb x v (not (v == 0)) sign) ≡ v
unfolding value limb_at set_limb
one_limb-value x v sign b = elim (==-cases v 0) [
  | inl (q, e) ↦ rw q (seg-zero _ 0 ∙ sym e)
  | inr (q, e) ↦ rw q (
      let f = limb_at (set_limb x 0 v) in
      seg-suc f 0 0 ∙ omega (arith, seg-zero f 1, limb_at-set_self x 0 v b.block_pos))
]

-- The header that stands for an int64_t.
pub i64_image :
    (r : BigInt) (v : ℤ)
    → IsBlock r
    → IsI64 v
    → IsValid (one_limb r (mag_i64 v) (not (i64_eq v (pos 0))) (sign_of v))
      × (signed (one_limb r (mag_i64 v) (not (i64_eq v (pos 0))) (sign_of v)) ≡ v)
unfolding signed signed_of sign_eq
i64_image r v b h =
    let m = mag_i64 v in
    let size = mag_i64-abs v h in
    rw (live m size) (
      (
        one_limb-IsValid r m (sign_of v) b (omega arith) (ground arith) (λ e. ground arith),
        ap (signed_of (sign_of v)) (one_limb-value r m (sign_of v) b) ∙ ground arith,
      ))
  where
    live : (m : ℕ) → m ≡ abs v → (not (i64_eq v (pos 0))) ≡ (not (m == 0))
    live m e = ground arith

-- `bigInt_geti64` of any int64_t leaves in a receiver that passes the state check and whose block
-- has the cells it claims a valid bigInt that stands for that integer.
geti64_lem :
    (r : BigInt) (v : ℤ)
    → IsBlock r
    → pvalid (some r) ≡ true
    → IsI64 v
    → (out : BigInt) × (geti64 v (some r) ≡ (success, some out)) × IsValid out × (signed out ≡ v)
unfolding geti64
geti64_lem r v b ok h =
    let (valid, same) = i64_image r v b h in
    (one_limb r (mag_i64 v) (not (i64_eq v (pos 0))) (sign_of v), rw ok refl, valid, same)

fresh-IsBlock :
    (cell : ℕ)
    → cell < word
    → IsBlock (record { n = 0; cap = 1; limbs = some (cell ∷ []); sign = pos 1 })
unfolding limb_at
fresh-IsBlock cell c = record {
  block_words = words_of_cells (cell ∷ []) (omega (arith, c));
  block_cap_room = refl;
  block_pos = omega arith;
}

-- `bigInt_newi64` on a non-null pointer is OOM and changes nothing when malloc fails; with a
-- block of one cell it leaves a valid bigInt that stands for the int64_t.
newi64_lem :
    (r : BigInt) (v : ℤ) (cell : ℕ)
    → cell < word
    → IsI64 v
    → (newi64 none (some r) v ≡ (alloc_oom, some r))
      × ((out : BigInt) × (newi64 (some (cell ∷ [])) (some r) v ≡ (success, some out))
          × IsValid out
          × (signed out ≡ v))
unfolding newi64
newi64_lem r v cell c h =
    let x : BigInt = record { n = 0; cap = 1; limbs = some (cell ∷ []); sign = pos 1 } in
    let (valid, same) = i64_image x v (fresh-IsBlock cell c) h in (refl, (_, refl, valid, same))

-- Of any int64_t: `bigInt_geti64` leaves in a receiver that passes the state check and whose block
-- has the cells it claims a valid bigInt that stands for that integer; `bigInt_newi64` on a
-- non-null pointer is OOM and changes nothing when malloc fails, and with a block of one cell
-- leaves a valid bigInt that stands for it.
pub from_i64_lem :
    (r : BigInt) (v : ℤ) (cell : ℕ)
    → IsBlock r
    → pvalid (some r) ≡ true
    → cell < word
    → IsI64 v
    → ((out : BigInt) × (geti64 v (some r) ≡ (success, some out)) × IsValid out × (signed out ≡ v))
      × (newi64 none (some r) v ≡ (alloc_oom, some r))
      × ((out : BigInt) × (newi64 (some (cell ∷ [])) (some r) v ≡ (success, some out))
          × IsValid out
          × (signed out ≡ v))
from_i64_lem r v cell b ok c h =
    let (oom, made) = newi64_lem r v cell c h in (geti64_lem r v b ok h, oom, made)
