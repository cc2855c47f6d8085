-- ===== src/BigInt/Bitwise/Ranged/Word.antt =====
-- The operations of a bigInt and a uint64_t with an explicit count of limbs.
use dynamol.Base.{ℕ, suc, ◌-◌, ◌%◌, ◌<◌, ◌≡◌, true, word, weight}
use dynamol.Base.{bit_or, bit_xor}
use dynamol.Base.Bits.Split.{bit_or-IsDigitwise, bit_xor-IsDigitwise}
use dynamol.BigInt.{BigInt, IsValid}
use dynamol.BigInt.Value.{value}
use dynamol.BigInt.Order.{validate}
use dynamol.BigInt.Bitwise.{first_only}
use dynamol.BigInt.Bitwise.Words64.{first_only-lt, seg-first_only}
use dynamol.BigInt.Bitwise.Ranged.{ex_oru64, ex_noru64, ex_xoru64, ex_xnoru64}
use dynamol.BigInt.Bitwise.Ranged.Results.{Gives}
use dynamol.BigInt.Bitwise.Ranged.Operand.{word-Gives, turned_word-Gives}

module _ (stray : ℕ) (x : BigInt) (val k : ℕ) (vx : IsValid x) (hv : val < word)
    (good : validate stray x ≡ true) where
  -- For a valid bigInt that passes the guard, with memory, and a count of `k + 1` limbs:
  -- `bigInt_ex_oru64` and `bigInt_ex_xoru64` give the operation of the magnitude modulo
  -- 2 ^ (64 * (k + 1)) and the word, `bigInt_ex_noru64` and `bigInt_ex_xnoru64` its complement to
  -- that width; each result is valid, has the sign of `x` unless it is zero, and success is written.
  pub ranged_u64_lem :
      Gives (ex_oru64 stray true x val (suc k)) x (bit_or (value x % weight (suc k)) val)
      × Gives (ex_xoru64 stray true x val (suc k)) x (bit_xor (value x % weight (suc k)) val)
      × Gives
          (ex_noru64 stray true x val (suc k))
          x
          (weight (suc k) - 1 - bit_or (value x % weight (suc k)) val)
      × Gives
          (ex_xnoru64 stray true x val (suc k))
          x
          (weight (suc k) - 1 - bit_xor (value x % weight (suc k)) val)
  unfolding ex_oru64 ex_xoru64 ex_noru64 ex_xnoru64
  ranged_u64_lem = rw good (
      (
        word-Gives x (first_only val) k val vx (first_only-lt val hv) (seg-first_only val k)
            bit_or-IsDigitwise,
        word-Gives x (first_only val) k val vx (first_only-lt val hv) (seg-first_only val k)
            bit_xor-IsDigitwise,
        turned_word-Gives x (first_only val) k val vx (first_only-lt val hv) (seg-first_only val k)
            bit_or-IsDigitwise,
        turned_word-Gives x (first_only val) k val vx (first_only-lt val hv) (seg-first_only val k)
            bit_xor-IsDigitwise,
      ))
