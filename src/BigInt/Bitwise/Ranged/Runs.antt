-- ===== src/BigInt/Bitwise/Ranged/Runs.antt =====
-- The operations with an explicit count of limbs at concrete bigInts.
use dynamol.Base.{
  ◌-◌, ◌%◌, ◌≡◌, refl, arith, inl, inr, [], ◌∷◌, true, weight, bit_and, bit_or, bit_xor,
}
use dynamol.Base.Int.{pos, negsuc}
use dynamol.BigInt.{BigInt, IsValid, limb_at}
use dynamol.BigInt.Build.{build, build-IsValid}
use dynamol.BigInt.Util.{sign_eq, is_unit_sign}
use dynamol.BigInt.Value.{value}
use dynamol.BigInt.Order.{validate}
use dynamol.BigInt.Bitwise.Ranged.{ok, ex_and, ex_or, ex_xor, ex_nand, ex_nor, ex_xnor}
use dynamol.BigInt.Bitwise.Ranged.{ex_oru64, ex_xoru64, ex_noru64, ex_xnoru64}
use dynamol.BigInt.Bitwise.Ranged.{
  ex_andi64, ex_ori64, ex_xori64, ex_nandi64, ex_nori64, ex_xnori64,
}
use dynamol.BigInt.Bitwise.Ranged.Integer.{extension, ranged_i64_lem}
use dynamol.BigInt.Bitwise.Ranged.Word.{ranged_u64_lem}
use dynamol.BigInt.Bitwise.Ranged.Results.{Gives, ranged_lem}

abbrev many : BigInt
many = build 2 (5 ∷ 1 ∷ 0 ∷ []) (negsuc 0)

abbrev few : BigInt
few = build 1 (9 ∷ []) (pos 1)

many-IsValid : IsValid many
many-IsValid = build-IsValid 1 _ _ (omega arith) (omega arith) (inr refl) (omega arith)

few-IsValid : IsValid few
few-IsValid = build-IsValid 0 _ _ (omega arith) (omega arith) (inl refl) (omega arith)

pair-ok : ok 0 0 true many few 1 ≡ true
unfolding validate sign_eq is_unit_sign limb_at
pair-ok = refl

ranged_lem_example :
    Gives (ex_and 0 0 true many few 1) many (bit_and (value many % weight 1) (value few % weight 1))
    × Gives (ex_or 0 0 true many few 1) many (bit_or (value many % weight 1) (value few % weight 1))
    × Gives
        (ex_xor 0 0 true many few 1)
        many
        (bit_xor (value many % weight 1) (value few % weight 1))
    × Gives
        (ex_nand 0 0 true many few 1)
        many
        (weight 1 - 1 - bit_and (value many % weight 1) (value few % weight 1))
    × Gives
        (ex_nor 0 0 true many few 1)
        many
        (weight 1 - 1 - bit_or (value many % weight 1) (value few % weight 1))
    × Gives
        (ex_xnor 0 0 true many few 1)
        many
        (weight 1 - 1 - bit_xor (value many % weight 1) (value few % weight 1))
ranged_lem_example = ranged_lem 0 0 many few 1 many-IsValid few-IsValid pair-ok

many-ok : validate 0 many ≡ true
unfolding validate sign_eq is_unit_sign limb_at
many-ok = refl

ranged_u64_lem_example :
    Gives (ex_oru64 0 true many 6 1) many (bit_or (value many % weight 1) 6)
    × Gives (ex_xoru64 0 true many 6 1) many (bit_xor (value many % weight 1) 6)
    × Gives (ex_noru64 0 true many 6 1) many (weight 1 - 1 - bit_or (value many % weight 1) 6)
    × Gives (ex_xnoru64 0 true many 6 1) many (weight 1 - 1 - bit_xor (value many % weight 1) 6)
ranged_u64_lem_example = ranged_u64_lem 0 many 6 0 many-IsValid (omega arith) many-ok

ranged_i64_lem_example :
    Gives
      (ex_andi64 0 true many (negsuc 6) 1)
      many
      (bit_and (value many % weight 1) (extension (negsuc 6) 1))
    × Gives
        (ex_ori64 0 true many (negsuc 6) 1)
        many
        (bit_or (value many % weight 1) (extension (negsuc 6) 1))
    × Gives
        (ex_xori64 0 true many (negsuc 6) 1)
        many
        (bit_xor (value many % weight 1) (extension (negsuc 6) 1))
    × Gives
        (ex_nandi64 0 true many (negsuc 6) 1)
        many
        (weight 1 - 1 - bit_and (value many % weight 1) (extension (negsuc 6) 1))
    × Gives
        (ex_nori64 0 true many (negsuc 6) 1)
        many
        (weight 1 - 1 - bit_or (value many % weight 1) (extension (negsuc 6) 1))
    × Gives
        (ex_xnori64 0 true many (negsuc 6) 1)
        many
        (weight 1 - 1 - bit_xor (value many % weight 1) (extension (negsuc 6) 1))
ranged_i64_lem_example = ranged_i64_lem 0 many (negsuc 6) 0 many-IsValid (omega arith) many-ok
