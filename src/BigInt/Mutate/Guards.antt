-- ===== src/BigInt/Mutate/Guards.antt =====
-- How the changing operations refuse their arguments.
use dynamol.Base.{ℕ, Option, none, some, Bool, true, false, ◌≡◌, ◌⊎◌}
use dynamol.BigInt.{BigInt}
use dynamol.BigInt.Status.{null, err_inval, err_aliased}
use dynamol.BigInt.Order.Facts.{IsAccepted}
use dynamol.BigInt.Copies.{Reply}
use dynamol.BigInt.Mutate.Attempts.{IsAttempt}

module _ (stray_x stray_y : ℕ) (shared : Bool) (x y : BigInt) where
  abbrev pub AreAccepted : Type 0
  AreAccepted = IsAccepted stray_x x × IsAccepted stray_y y

  -- The replies to NULL and to `x`. NULL is refused; else an operand is refused, or both are accepted
  -- and refused for a shared buffer, or the operation is attempted.
  abbrev pub AreGuarded : Bool → Reply → Reply → Type 0
  AreGuarded one_buffer to_null reply =
      (to_null ≡ (none, null))
      × (((¬ AreAccepted) × (reply ≡ (some x, err_inval)))
          ⊎ (AreAccepted × (one_buffer ≡ true) × (reply ≡ (some x, err_aliased)))
          ⊎ (AreAccepted × (one_buffer ≡ false) × IsAttempt x reply))

  abbrev pub IsGuarded : (Option BigInt → Reply) → Type 0
  IsGuarded op = AreGuarded shared (op none) (op (some x))
