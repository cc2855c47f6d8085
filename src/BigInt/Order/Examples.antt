-- ===== src/BigInt/Order/Examples.antt =====
-- The comparisons at concrete bigInts.
use dynamol.Base.{◌≡◌, refl, arith, inl, inr, [], ◌∷◌, true, false, not, none}
use dynamol.Base.{◌↔◌, some, ◌==◌, ◌&&◌, ◌||◌, leb, word}
use dynamol.Base.Int.{pos, negsuc, ltb_ℤ, neg_part}
use dynamol.BigInt.{BigInt, IsValid, limb_at}
use dynamol.BigInt.Build.{build, build-IsValid, words_of_cells}
use dynamol.BigInt.Util.{sign_eq, is_unit_sign, valid}
use dynamol.BigInt.AddSub.Signs.{signed}
use dynamol.BigInt.Order.{validate, i64_eq, equal, less, more, both}
use dynamol.BigInt.Order.{lequal, mequal}
use dynamol.BigInt.Order.Facts.{InMemory, IsAccepted, validate_lem}
use dynamol.BigInt.Order.Words.{comparisons_u64_lem}
use dynamol.BigInt.Order.Signed64.{comparisons_i64_lem}
use dynamol.BigInt.Order.Verdicts.{comparisons_lem}
use dynamol.BigInt.Order.Mixed.{
  equal_u64, less_u64, more_u64, lequal_u64, mequal_u64, equal_i64, less_i64, more_i64, lequal_i64,
  mequal_i64,
}

-- -(2 ^ 64 + 5)
abbrev low : BigInt
low = build 2 (5 ∷ 1 ∷ 0 ∷ []) (negsuc 0)

abbrev nine : BigInt
nine = build 1 (9 ∷ []) (pos 1)

low-IsValid : IsValid low
low-IsValid = build-IsValid 1 _ _ (omega arith) (omega arith) (inr refl) (omega arith)

nine-IsValid : IsValid nine
nine-IsValid = build-IsValid 0 _ _ (omega arith) (omega arith) (inl refl) (omega arith)

low-validate : validate 0 low ≡ true
unfolding validate sign_eq is_unit_sign limb_at
low-validate = refl

pair-validate : both 0 0 false low nine ≡ true
unfolding validate sign_eq is_unit_sign limb_at
pair-validate = refl

-- The limb on top is 0.
abbrev untrimmed : BigInt
untrimmed = build 2 (5 ∷ 0 ∷ []) (pos 1)

untrimmed-InMemory : InMemory untrimmed
unfolding limb_at
untrimmed-InMemory = record {
  memory_words = words_of_cells (5 ∷ 0 ∷ []) (omega arith);
  memory_room = λ buffer. refl;
}

validate_lem_example :
    ((valid (some untrimmed) ≡ true) ↔ IsValid untrimmed)
    × ((validate 7 untrimmed ≡ true) ↔ IsAccepted 7 untrimmed)
validate_lem_example = validate_lem untrimmed untrimmed-InMemory 7

comparisons_lem_example :
    (equal 0 0 false low nine ≡ (i64_eq (signed low) (signed nine), none))
    × (less 0 0 false low nine ≡ (ltb_ℤ (signed low) (signed nine), none))
    × (more 0 0 false low nine ≡ (ltb_ℤ (signed nine) (signed low), none))
    × (lequal 0 0 false low nine ≡ (not (ltb_ℤ (signed nine) (signed low)), none))
    × (mequal 0 0 false low nine ≡ (not (ltb_ℤ (signed low) (signed nine)), none))
comparisons_lem_example =
    comparisons_lem 0 0 false low nine low-IsValid nine-IsValid pair-validate (λ e. ground arith)

comparisons_u64_lem_example :
    (equal_u64 0 low 7 ≡ (i64_eq (signed low) (pos 7), none))
    × (less_u64 0 low 7 ≡ (ltb_ℤ (signed low) (pos 7), none))
    × (more_u64 0 low 7
        ≡ (ltb_ℤ (pos 7) (signed low) || (i64_eq (signed low) (pos 0) && (7 == 0)), none))
    × (lequal_u64 0 low 7 ≡ (not (ltb_ℤ (pos 7) (signed low)), none))
    × (mequal_u64 0 low 7 ≡ (not (ltb_ℤ (signed low) (pos 7)), none))
comparisons_u64_lem_example = comparisons_u64_lem 0 low 7 low-IsValid low-validate (omega arith)

comparisons_i64_lem_example :
    (equal_i64 0 low (negsuc 2) ≡ (i64_eq (signed low) (negsuc 2), none))
    × (less_i64 0 low (negsuc 2) ≡ (ltb_ℤ (signed low) (negsuc 2), none))
    × (more_i64 0 low (negsuc 2) ≡ (
      ltb_ℤ (negsuc 2) (signed low)
          || (ltb_ℤ (negsuc 2) (pos 0) && leb word (neg_part (signed low))),
      none,
    ))
    × (lequal_i64 0 low (negsuc 2) ≡ (
      not (ltb_ℤ (negsuc 2) (signed low))
          && not (i64_eq (signed low) (negsuc 2) && ltb_ℤ (negsuc 2) (pos 0)),
      none,
    ))
    × (mequal_i64 0 low (negsuc 2) ≡ (
      not (ltb_ℤ (signed low) (negsuc 2))
          && not (i64_eq (signed low) (negsuc 2) && ltb_ℤ (pos 0) (negsuc 2)),
      none,
    ))
comparisons_i64_lem_example =
    comparisons_i64_lem 0 low (negsuc 2) low-IsValid low-validate (omega arith)
