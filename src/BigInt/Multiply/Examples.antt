-- ===== src/BigInt/Multiply/Examples.antt =====
-- The schoolbook product at concrete bigInts.
use dynamol.Base.{◌*◌, ◌≡◌, ◌≢◌, refl, arith, inl, inr, [], ◌∷◌, u64_max}
use dynamol.Base.Int.{pos, negsuc}
use dynamol.BigInt.{BigInt, IsValid, limb_at}
use dynamol.BigInt.Build.{build, build-IsValid, words_of_cells}
use dynamol.BigInt.Value.{value}
use dynamol.BigInt.AddSub.Outcome.{IsBlock}
use dynamol.BigInt.Multiply.{schoolbook}
use dynamol.BigInt.Multiply.Schoolbook.{schoolbook-product}

abbrev left : BigInt
left = build 2 (u64_max ∷ u64_max ∷ []) (negsuc 0)

abbrev right : BigInt
right = build 1 (u64_max ∷ []) (pos 1)

-- The cells of the block are cleared first.
abbrev block : BigInt
block = build 1 (3 ∷ 8 ∷ 8 ∷ 8 ∷ []) (pos 1)

left-IsValid : IsValid left
left-IsValid = build-IsValid 1 _ _ (omega arith) (omega arith) (inr refl) (omega arith)

right-IsValid : IsValid right
right-IsValid = build-IsValid 0 _ _ (omega arith) (omega arith) (inl refl) (omega arith)

block-IsBlock : IsBlock block
unfolding limb_at
block-IsBlock = record {
  block_words = words_of_cells (3 ∷ 8 ∷ 8 ∷ 8 ∷ []) (omega arith);
  block_cap_room = refl;
  block_pos = omega arith;
}

schoolbook-product_example :
    IsValid (schoolbook left right block)
    × (value (schoolbook left right block) ≡ value left * value right)
    × ((schoolbook left right block).n ≢ 0 → (schoolbook left right block).sign ≡ block.sign)
schoolbook-product_example =
    schoolbook-product left right left-IsValid right-IsValid block block-IsBlock (inl refl)
      (omega arith)
