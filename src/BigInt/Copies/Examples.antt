-- ===== src/BigInt/Copies/Examples.antt =====
-- The copies at concrete bigInts.
use dynamol.Base.{◌≡◌, refl, arith, inl, inr, [], ◌∷◌, true, false, some, none}
use dynamol.Base.Int.{pos, negsuc}
use dynamol.BigInt.{BigInt, IsValid, limb_at}
use dynamol.BigInt.Build.{build, build-IsValid}
use dynamol.BigInt.Status.{success}
use dynamol.BigInt.Util.{sign_eq, is_unit_sign}
use dynamol.BigInt.Order.{validate}
use dynamol.BigInt.Copies.{new_copy, ocopy, tover_copy, mut_ocopy, mut_tover_copy}
use dynamol.BigInt.Copies.Results.{Copied, fresh_copies_lem}
use dynamol.BigInt.Copies.Receiver.{Receives, receivers_lem}

abbrev source : BigInt
source = build 2 (5 ∷ 1 ∷ 0 ∷ []) (negsuc 0)

abbrev receiver : BigInt
receiver = build 1 (9 ∷ 0 ∷ 0 ∷ 0 ∷ []) (pos 1)

source-IsValid : IsValid source
source-IsValid = build-IsValid 1 _ _ (omega arith) (omega arith) (inr refl) (omega arith)

receiver-IsValid : IsValid receiver
receiver-IsValid = build-IsValid 0 _ _ (omega arith) (omega arith) (inl refl) (omega arith)

accepted : validate 0 source ≡ true
unfolding validate sign_eq is_unit_sign limb_at
accepted = refl

fresh_copies_lem_example :
    (Copied (new_copy 0 true source).0 source × ((new_copy 0 true source).1 ≡ none))
    × (Copied (ocopy 0 true source 5).0 source × ((ocopy 0 true source 5).1 ≡ some success))
    × (Copied (tover_copy 0 true source 5).0 source × ((tover_copy 0 true source 5).1 ≡ none))
fresh_copies_lem_example = fresh_copies_lem source source-IsValid 0 5 accepted (omega arith)

receivers_lem_example :
    Receives (mut_ocopy 0 false (some receiver) source) source
    × Receives (mut_tover_copy 0 false (some receiver) source) source
receivers_lem_example =
    receivers_lem receiver source receiver-IsValid source-IsValid 0 accepted (omega arith)
