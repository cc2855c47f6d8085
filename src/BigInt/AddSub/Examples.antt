-- ===== src/BigInt/AddSub/Examples.antt =====
-- Runs of the additions and subtractions, and their theorems at concrete bigInts.
use dynamol.Base.{◌+◌, ◌-◌, refl, arith, inl, inr, [], ◌∷◌, if◌then◌else◌, ◌==◌}
use dynamol.Base.Int.{pos, negsuc, ◌+ℤ◌, ◌-ℤ◌}
use dynamol.BigInt.{BigInt, IsValid, Store, limb_at}
use dynamol.BigInt.Build.{build, build-IsValid, words_of_cells}
use dynamol.BigInt.AddSub.{add_saw, sub_saw, add_wc, sub_wb}
use dynamol.BigInt.AddSub.Outcome.{IsBlock, IsResult}
use dynamol.BigInt.AddSub.Sum.{add_wc-IsResult}
use dynamol.BigInt.AddSub.Difference.{sub_wb-IsResult}
use dynamol.BigInt.Value.{value}
use dynamol.BigInt.Util.Compare.{value-lt_of_n}
use dynamol.BigInt.AddSub.Signs.{signed}
use dynamol.BigInt.AddSub.SignedOutcome.{IsSignedResult}
use dynamol.BigInt.AddSub.Signed.{add_saw-sum, sub_saw-difference}

-- -(2 ^ 64 + 5), with room for a third limb.
abbrev two_limbs : BigInt
two_limbs = build 2 (5 ∷ 1 ∷ 0 ∷ []) (negsuc 0)

abbrev one_limb : BigInt
one_limb = build 1 (9 ∷ []) (pos 1)

-- The pointer 0 to the first, every other pointer to the second.
abbrev memory : Store
memory p = if p == 0 then two_limbs else one_limb

two_limbs-IsValid : IsValid two_limbs
two_limbs-IsValid = build-IsValid 1 _ _ (omega arith) (omega arith) (inr refl) (omega arith)

one_limb-IsValid : IsValid one_limb
one_limb-IsValid = build-IsValid 0 _ _ (omega arith) (omega arith) (inl refl) (omega arith)

two_limbs-IsBlock : IsBlock two_limbs
unfolding limb_at
two_limbs-IsBlock = record {
  block_words = words_of_cells (5 ∷ 1 ∷ 0 ∷ []) (omega arith);
  block_cap_room = refl;
  block_pos = omega arith;
}

-- `add_saw(&a, &a, &b)`, the result over the first operand.
add_saw-sum_example :
    IsSignedResult 0 (signed (memory 0) +ℤ signed (memory 1)) memory (add_saw 0 0 1 memory)
add_saw-sum_example =
    add_saw-sum 0 0 1 memory two_limbs-IsValid one_limb-IsValid two_limbs-IsBlock (omega arith)
      (omega arith)

-- `sub_saw(&a, &b, &a)`, the result over the second operand.
sub_saw-difference_example :
    IsSignedResult 0 (signed (memory 1) -ℤ signed (memory 0)) memory (sub_saw 0 1 0 memory)
sub_saw-difference_example =
    sub_saw-difference 0 1 0 memory one_limb-IsValid two_limbs-IsValid two_limbs-IsBlock
      (omega arith) (omega arith)

-- `add_wc(&b, &a, &b)` at a block of three limbs.
abbrev spread : Store
spread p = if p == 0 then one_limb else two_limbs

add_wc-IsResult_example :
    IsResult 1 (value (spread 0) + value (spread 1)) spread (add_wc 1 0 1 spread)
add_wc-IsResult_example =
    add_wc-IsResult 1 0 1 spread one_limb-IsValid two_limbs-IsValid two_limbs-IsBlock (omega arith)
      (omega arith)

sub_wb-IsResult_example :
    IsResult 0 (value (memory 0) - value (memory 1)) memory (sub_wb 0 0 1 memory)
sub_wb-IsResult_example =
    sub_wb-IsResult 0 0 1 memory two_limbs-IsValid one_limb-IsValid two_limbs-IsBlock (omega arith)
      (omega
        (arith, value-lt_of_n one_limb two_limbs one_limb-IsValid two_limbs-IsValid (omega arith)))
