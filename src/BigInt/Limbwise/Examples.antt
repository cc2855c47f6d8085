-- ===== src/BigInt/Limbwise/Examples.antt =====
-- The operations with one limb at a concrete bigInt.
use dynamol.Base.{◌+◌, ◌*◌, ◌/◌, ◌%◌, ◌^◌, ◌≡◌, refl, arith, inr, [], ◌∷◌, u64_max, weight}
use dynamol.Base.Int.{negsuc}
use dynamol.BigInt.{BigInt, IsValid}
use dynamol.BigInt.Build.{build, build-IsValid}
use dynamol.BigInt.Value.{value}
use dynamol.BigInt.Mutate.Partial.{IsChanged}
use dynamol.BigInt.Limbwise.{add_ui64, mul_ui64, lshift, llshift, divmod_ui64, div3, rshift}
use dynamol.BigInt.Limbwise.Operations.{growing_lem}
use dynamol.BigInt.Limbwise.Division.{quotients_lem}

-- Two full limbs of three.
abbrev full : BigInt
full = build 2 (u64_max ∷ u64_max ∷ 0 ∷ []) (negsuc 0)

full-IsValid : IsValid full
full-IsValid = build-IsValid 1 _ _ (omega arith) (omega arith) (inr refl) (omega arith)

growing_lem_example :
    IsChanged (add_ui64 full 5) full (value full + 5)
    × IsChanged (mul_ui64 full 5) full (5 * value full)
    × IsChanged (lshift full 9) full (2 ^ 9 * value full)
    × IsChanged (llshift full 2) full (weight 2 * value full % weight full.cap)
growing_lem_example = growing_lem full full-IsValid 5 (omega arith) 9 2 (omega arith) (omega arith)

quotients_lem_example :
    (IsChanged (divmod_ui64 full 10).0 full (value full / 10)
      × ((divmod_ui64 full 10).1 ≡ value full % 10))
    × IsChanged (div3 full) full (value full / 3)
    × IsChanged (rshift full 9) full (value full / 2 ^ 9)
quotients_lem_example =
    quotients_lem full full-IsValid 10 9 (λ e. absurd (omega (arith, e))) (omega arith)
      (omega arith)
