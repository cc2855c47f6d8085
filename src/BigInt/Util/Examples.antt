-- ===== src/BigInt/Util/Examples.antt =====
-- The copy, the trim and the comparison at concrete bigInts.
use dynamol.Base.{refl, arith, inl, inr, [], ◌∷◌}
use dynamol.Base.Int.{pos, negsuc}
use dynamol.BigInt.{BigInt, IsValid}
use dynamol.BigInt.Build.{build, build-IsValid}
use dynamol.BigInt.Value.{value}
use dynamol.BigInt.Util.{copy, trim_lz, comp}
use dynamol.BigInt.Util.Compare.{Compares, comp-Compares}
use dynamol.BigInt.Util.Copy.{IsCopy, copy-IsCopy, IsTrimmed, trim_lz-IsTrimmed}

abbrev wide : BigInt
wide = build 2 (5 ∷ 1 ∷ 0 ∷ []) (negsuc 0)

abbrev narrow : BigInt
narrow = build 1 (9 ∷ []) (pos 1)

wide-IsValid : IsValid wide
wide-IsValid = build-IsValid 1 _ _ (omega arith) (omega arith) (inr refl) (omega arith)

narrow-IsValid : IsValid narrow
narrow-IsValid = build-IsValid 0 _ _ (omega arith) (omega arith) (inl refl) (omega arith)

comp-Compares_example : Compares (comp wide narrow) (value wide) (value narrow)
comp-Compares_example = comp-Compares wide narrow wide-IsValid narrow-IsValid

copy-IsCopy_example : IsCopy wide narrow (copy wide narrow)
copy-IsCopy_example = copy-IsCopy wide narrow narrow-IsValid (omega arith) (omega arith)

-- A bigInt with two zero limbs on top.
abbrev untrimmed : BigInt
untrimmed = build 3 (9 ∷ 0 ∷ 0 ∷ []) (negsuc 0)

trim_lz-IsTrimmed_example : IsTrimmed untrimmed (trim_lz untrimmed)
trim_lz-IsTrimmed_example = trim_lz-IsTrimmed untrimmed
