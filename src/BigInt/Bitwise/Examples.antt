-- ===== src/BigInt/Bitwise/Examples.antt =====
-- The bitwise operations at concrete bigInts.
use dynamol.Base.{
  ◌+◌, ◌≡◌, refl, arith, inl, inr, [], ◌∷◌, true, none, weight, bit_and, bit_or, bit_xor,
}
use dynamol.Base.Int.{pos, negsuc}
use dynamol.BigInt.{BigInt, IsValid, limb_at}
use dynamol.BigInt.Build.{build, build-IsValid}
use dynamol.BigInt.Util.{sign_eq, is_unit_sign}
use dynamol.BigInt.Value.{value}
use dynamol.BigInt.Order.{validate}
use dynamol.BigInt.Bitwise.Words64.{bitwise_u64_lem}
use dynamol.BigInt.Bitwise.{noru64, xoru64, xnoru64, and, nor, xor, xnor, both_valid}
use dynamol.BigInt.Bitwise.Values.{bitwise_pair_lem, width}

abbrev longer : BigInt
longer = build 2 (5 ∷ 1 ∷ 0 ∷ []) (negsuc 0)

abbrev shorter : BigInt
shorter = build 1 (9 ∷ []) (pos 1)

longer-IsValid : IsValid longer
longer-IsValid = build-IsValid 1 _ _ (omega arith) (omega arith) (inr refl) (omega arith)

shorter-IsValid : IsValid shorter
shorter-IsValid = build-IsValid 0 _ _ (omega arith) (omega arith) (inl refl) (omega arith)

accepted : both_valid 0 0 true longer shorter ≡ true
unfolding validate sign_eq is_unit_sign limb_at
accepted = refl

longer-validate : validate 0 longer ≡ true
unfolding validate sign_eq is_unit_sign limb_at
longer-validate = refl

bitwise_u64_lem_example :
    (IsValid (xoru64 0 true longer 6).0
      × (value (xoru64 0 true longer 6).0 ≡ bit_xor (value longer) 6)
      × ((xoru64 0 true longer 6).1 ≡ none))
    × (IsValid (noru64 0 true longer 6).0
        × (value (noru64 0 true longer 6).0 + bit_or (value longer) 6 + 1 ≡ weight longer.n)
        × ((noru64 0 true longer 6).1 ≡ none))
    × (IsValid (xnoru64 0 true longer 6).0
        × (value (xnoru64 0 true longer 6).0 + bit_xor (value longer) 6 + 1 ≡ weight longer.n)
        × ((xnoru64 0 true longer 6).1 ≡ none))
bitwise_u64_lem_example =
    bitwise_u64_lem 0 longer 6 longer-IsValid (λ e. absurd (omega arith)) (omega arith)
      longer-validate

bitwise_pair_lem_example :
    (IsValid (and 0 0 true longer shorter).0
      × (value (and 0 0 true longer shorter).0 ≡ bit_and (value longer) (value shorter))
      × ((and 0 0 true longer shorter).1 ≡ none))
    × (IsValid (xor 0 0 true longer shorter).0
        × (value (xor 0 0 true longer shorter).0 ≡ bit_xor (value longer) (value shorter))
        × ((xor 0 0 true longer shorter).1 ≡ none))
    × (IsValid (nor 0 0 true longer shorter).0
        × (value (nor 0 0 true longer shorter).0 + bit_or (value longer) (value shorter) + 1
            ≡ weight (width longer shorter))
        × ((nor 0 0 true longer shorter).1 ≡ none))
    × (IsValid (xnor 0 0 true longer shorter).0
        × (value (xnor 0 0 true longer shorter).0 + bit_xor (value longer) (value shorter) + 1
            ≡ weight (width longer shorter))
        × ((xnor 0 0 true longer shorter).1 ≡ none))
bitwise_pair_lem_example =
    bitwise_pair_lem 0 0 longer shorter longer-IsValid shorter-IsValid accepted
