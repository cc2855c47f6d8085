-- ===== src/BigInt/Convert/Examples.antt =====
-- The conversions at concrete bigInts.
use dynamol.Base.{◌^◌, ◌%◌, ◌≡◌, refl, arith, inr, [], ◌∷◌, true, not, none, some, if◌then◌else◌}
use dynamol.Base.{◌&&◌, word}
use dynamol.Base.Int.{pos, negsuc, ltb_ℤ, pos_part}
use dynamol.BigInt.{BigInt, IsValid, limb_at}
use dynamol.BigInt.Build.{build, build-IsValid, words_of_cells}
use dynamol.BigInt.Status.{success, err_range, alloc_oom}
use dynamol.BigInt.Util.{sign_eq, is_unit_sign, pvalid}
use dynamol.BigInt.Value.{value}
use dynamol.BigInt.AddSub.Outcome.{IsBlock}
use dynamol.BigInt.AddSub.Signs.{signed, signed_of}
use dynamol.BigInt.Order.{validate, i64_eq}
use dynamol.BigInt.Order.Mixed.{i64_min}
use dynamol.BigInt.Convert.{tou64_safe, toi64_safe, seti64_safe, geti64, newi64}
use dynamol.BigInt.Convert.Words.{checked_conversions_lem, from_i64_lem}

-- -(2 ^ 64 + 5)
abbrev large : BigInt
large = build 2 (5 ∷ 1 ∷ 0 ∷ []) (negsuc 0)

large-IsValid : IsValid large
large-IsValid = build-IsValid 1 _ _ (omega arith) (omega arith) (inr refl) (omega arith)

large-validate : validate 0 large ≡ true
unfolding validate sign_eq is_unit_sign limb_at
large-validate = refl

large-pvalid : pvalid (some large) ≡ true
unfolding pvalid sign_eq is_unit_sign
large-pvalid = refl

large-IsBlock : IsBlock large
unfolding limb_at
large-IsBlock = record {
  block_words = words_of_cells (5 ∷ 1 ∷ 0 ∷ []) (omega arith);
  block_cap_room = refl;
  block_pos = omega arith;
}

from_i64_lem_example :
    ((out : BigInt) × (geti64 (negsuc 6) (some large) ≡ (success, some out))
      × IsValid out
      × (signed out ≡ negsuc 6))
    × (newi64 none (some large) (negsuc 6) ≡ (alloc_oom, some large))
    × ((out : BigInt) × (newi64 (some (8 ∷ [])) (some large) (negsuc 6) ≡ (success, some out))
        × IsValid out
        × (signed out ≡ negsuc 6))
from_i64_lem_example =
    from_i64_lem large (negsuc 6) 8 large-IsBlock large-pvalid (omega arith) (omega arith)

checked_conversions_lem_example :
    (tou64_safe 0 large ≡ (
      if not (ltb_ℤ (signed large) (pos 0)) && ltb_ℤ (signed large) (pos word)
      then (success, pos_part (signed large))
      else (err_range, 0)))
    × (toi64_safe 0 large ≡ (
        if i64_eq (signed large) i64_min
        then none
        else if not (ltb_ℤ (signed large) i64_min) && ltb_ℤ (signed large) (pos (2 ^ 63))
        then some (success, signed large)
        else some (err_range, i64_min)))
    × (seti64_safe 0 large (some (pos 3)) ≡ (
        let low = signed_of large.sign (value large % word) in
        if i64_eq low i64_min
        then none
        else if not (ltb_ℤ low i64_min) && ltb_ℤ low (pos (2 ^ 63))
        then some (success, some low)
        else some (err_range, some (pos 3))))
checked_conversions_lem_example =
    checked_conversions_lem 0 large (pos 3) large-IsValid large-validate

-- -(2 ^ 63)
abbrev least : BigInt
least = build 1 (9223372036854775808 ∷ []) (negsuc 0)

toi64_safe-least : toi64_safe 0 least ≡ none
unfolding toi64_safe validate sign_eq is_unit_sign limb_at
toi64_safe-least = refl
