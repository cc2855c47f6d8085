-- ===== src/BigInt/Mutate/Runs.antt =====
-- The changing operations at concrete bigInts.
use dynamol.Base.{
  ◌-◌, ◌%◌, ◌≡◌, refl, arith, inl, [], ◌∷◌, true, false, some, word, weight, bit_and, bit_or,
  bit_xor, ◌&&◌, Option,
}
use dynamol.Base.Int.{pos, negsuc}
use dynamol.BigInt.{BigInt, IsValid, limb_at}
use dynamol.BigInt.Build.{build, build-IsValid}
use dynamol.BigInt.Value.{value}
use dynamol.BigInt.Util.{sign_eq, is_unit_sign}
use dynamol.BigInt.Order.{validate}
use dynamol.BigInt.Room.Examples.{
  zeroing, zeroing-IsRealloc, tight, wide, tight-IsValid, tight-wide,
}
use dynamol.BigInt.Bitwise.{span}
use dynamol.BigInt.Bitwise.Values.{width}
use dynamol.BigInt.Bitwise.Ranged.Integer.{extension}
use dynamol.BigInt.Copies.{Reply}
use dynamol.BigInt.Mutate.{pvalidate}
use dynamol.BigInt.Mutate.Guards.{IsGuarded}
use dynamol.BigInt.Mutate.Words.{
  mut_not, mut_andu64, mut_oru64, mut_noru64, mut_xoru64, mut_xnoru64,
}
use dynamol.BigInt.Mutate.Words.Results.{width_of, mut_u64_lem}
use dynamol.BigInt.Mutate.Pairs.{mut_and, mut_nand, mut_or, mut_nor, mut_xor, mut_xnor}
use dynamol.BigInt.Mutate.Pairs.Results.{mut_pair_lem, mut_live_lem}
use dynamol.BigInt.Mutate.Ranged.{
  mutex_andu64, mutex_nandu64, mutex_oru64, mutex_noru64, mutex_xoru64, mutex_xnoru64, mutex_andi64,
  mutex_nandi64, mutex_ori64, mutex_nori64, mutex_xori64, mutex_xnori64, mutex_and, mutex_or,
  mutex_nor, mutex_xor, mutex_xnor,
}
use dynamol.BigInt.Mutate.Ranged.Outcome.{Becomes, GetsRoom}
use dynamol.BigInt.Mutate.Ranged.Loop.{lower_limbs, complement}
use dynamol.BigInt.Mutate.Ranged.Words.{mutex_u64_lem}
use dynamol.BigInt.Mutate.Ranged.Integers.{mutex_i64_lem}
use dynamol.BigInt.Mutate.Ranged.Pairs.{and_result, mutex_pair_lem}

-- Four limbs, one more than `tight` has room for.
abbrev long : BigInt
long = build 4 (9 ∷ 0 ∷ 0 ∷ 7 ∷ []) (pos 1)

long-IsValid : IsValid long
long-IsValid = build-IsValid 3 _ _ (omega arith) (omega arith) (inl refl) (omega arith)

four : GetsRoom zeroing tight 4 wide
four = record { library = zeroing-IsRealloc; bounded = omega arith; got = tight-wide }

accepted : pvalidate 0 tight ≡ true
unfolding validate sign_eq is_unit_sign limb_at
accepted = refl

both_accepted : (pvalidate 0 tight && validate 0 long) ≡ true
unfolding validate sign_eq is_unit_sign limb_at
both_accepted = refl

mut_u64_lem_example :
    Becomes (mut_andu64 0 (some tight) 6) tight (bit_and (value tight % word) 6)
    × Becomes (mut_oru64 0 (some tight) 6) tight (bit_or (value tight) 6)
    × Becomes (mut_xoru64 0 (some tight) 6) tight (bit_xor (value tight) 6)
    × Becomes
        (mut_noru64 0 (some tight) 6)
        tight
        (weight (width_of tight) - 1 - bit_or (value tight) 6)
    × Becomes
        (mut_xnoru64 0 (some tight) 6)
        tight
        (weight (width_of tight) - 1 - bit_xor (value tight) 6)
    × Becomes (mut_not 0 (some tight)) tight (weight tight.n - 1 - value tight)
mut_u64_lem_example = mut_u64_lem 0 tight 6 tight-IsValid (omega arith) accepted

mut_pair_lem_example :
    Becomes (mut_and zeroing 0 0 false (some tight) long) tight (bit_and (value tight) (value long))
    × Becomes
        (mut_xor zeroing 0 0 false (some tight) long)
        tight
        (bit_xor (value tight) (value long))
    × Becomes
        (mut_nor zeroing 0 0 false (some tight) long)
        tight
        (weight (width tight long) - 1 - bit_or (value tight) (value long))
    × Becomes
        (mut_xnor zeroing 0 0 false (some tight) long)
        tight
        (weight (width tight long) - 1 - bit_xor (value tight) (value long))
mut_pair_lem_example = mut_pair_lem 0 0 long tight-IsValid long-IsValid both_accepted four

mut_live_lem_example :
    Becomes (mut_or zeroing 0 0 false (some tight) long) tight (bit_or (value tight) (value long))
    × Becomes
        (mut_nand zeroing 0 0 false (some tight) long)
        tight
        (weight (span tight long) - 1 - bit_and (value tight) (value long))
mut_live_lem_example =
    mut_live_lem 0 0 long tight-IsValid long-IsValid both_accepted four
      (λ e. absurd (omega (arith, e))) (λ e. absurd (omega (arith, e)))

mutex_u64_lem_example :
    Becomes (mutex_andu64 zeroing 0 (some tight) 6 4) tight (bit_and (value tight % word) 6)
    × Becomes (mutex_oru64 zeroing 0 (some tight) 6 4) tight (bit_or (value tight) 6)
    × Becomes
        (mutex_xoru64 zeroing 0 (some tight) 6 4)
        tight
        (lower_limbs bit_xor 4 6 (value tight))
    × Becomes
        (mutex_nandu64 zeroing 0 (some tight) 6 4)
        tight
        (lower_limbs (complement bit_and 4) 4 6 (value tight))
    × Becomes
        (mutex_noru64 zeroing 0 (some tight) 6 4)
        tight
        (lower_limbs (complement bit_or 4) 4 6 (value tight))
    × Becomes
        (mutex_xnoru64 zeroing 0 (some tight) 6 4)
        tight
        (lower_limbs (complement bit_xor 4) 4 6 (value tight))
mutex_u64_lem_example = mutex_u64_lem 0 6 3 tight-IsValid (omega arith) accepted four

mutex_i64_lem_example :
    Becomes
      (mutex_andi64 zeroing 0 (some tight) (negsuc 6) 4)
      tight
      (lower_limbs bit_and 4 (extension (negsuc 6) 4) (value tight))
    × Becomes
        (mutex_ori64 zeroing 0 (some tight) (negsuc 6) 4)
        tight
        (lower_limbs bit_or 4 (extension (negsuc 6) 4) (value tight))
    × Becomes
        (mutex_xori64 zeroing 0 (some tight) (negsuc 6) 4)
        tight
        (lower_limbs bit_xor 4 (extension (negsuc 6) 4) (value tight))
    × Becomes
        (mutex_nandi64 zeroing 0 (some tight) (negsuc 6) 4)
        tight
        (lower_limbs (complement bit_and 4) 4 (extension (negsuc 6) 4) (value tight))
    × Becomes
        (mutex_nori64 zeroing 0 (some tight) (negsuc 6) 4)
        tight
        (lower_limbs (complement bit_or 4) 4 (extension (negsuc 6) 4) (value tight))
    × Becomes
        (mutex_xnori64 zeroing 0 (some tight) (negsuc 6) 4)
        tight
        (lower_limbs (complement bit_xor 4) 4 (extension (negsuc 6) 4) (value tight))
mutex_i64_lem_example = mutex_i64_lem 0 (negsuc 6) 3 tight-IsValid (omega arith) accepted four

mutex_pair_lem_example :
    Becomes
      (mutex_and zeroing 0 0 false (some tight) long 4)
      tight
      (and_result long 4 (value tight))
    × Becomes
        (mutex_or zeroing 0 0 false (some tight) long 4)
        tight
        (lower_limbs bit_or 4 (value long % weight 4) (value tight))
    × Becomes
        (mutex_xor zeroing 0 0 false (some tight) long 4)
        tight
        (lower_limbs bit_xor 4 (value long % weight 4) (value tight))
    × Becomes
        (mutex_nor zeroing 0 0 false (some tight) long 4)
        tight
        (lower_limbs (complement bit_or 4) 4 (value long % weight 4) (value tight))
    × Becomes
        (mutex_xnor zeroing 0 0 false (some tight) long 4)
        tight
        (lower_limbs (complement bit_xor 4) 4 (value long % weight 4) (value tight))
mutex_pair_lem_example = mutex_pair_lem 0 0 long 3 tight-IsValid long-IsValid both_accepted four

abbrev Refuses : (Option BigInt → Reply) → Type 0
Refuses = IsGuarded 0 0 true tight long
