-- ===== src/BigInt/Mutate/Words.antt =====
-- dynamol/bigint/bigInt.c: the changing operations with a uint64_t on all limbs.
pub mod Results
use dynamol.Base.{ℕ, ◌-◌, Option, Bool, true, not, if◌then◌else◌, ltb, ◌==◌, u64_max, not64}
use dynamol.Base.{bit_and, bit_or, bit_xor}
use dynamol.BigInt.{BigInt, limb_at, set_limb}
use dynamol.BigInt.Status.{success}
use dynamol.BigInt.Bitwise.{first_only, normalize}
use dynamol.BigInt.Copies.{Reply}
use dynamol.BigInt.Mutate.{on_valid, sweep, store_word, memset_ones}

-- The loop over the limbs of `x`, and the trimming.
abbrev pub each_limb : (ℕ → ℕ → ℕ) → BigInt → BigInt
each_limb f x = normalize (sweep limb_at f x.n 0 x)

module _ (stray : ℕ) (px : Option BigInt) where
  unfoldable pub mut_not : Reply
  mut_not = on_valid stray px (λ x. (each_limb (λ i a. not64 a) x, success))

module _ (stray : ℕ) (px : Option BigInt) (val : ℕ) where
  unfoldable pub mut_andu64 : Reply
  mut_andu64 =
      on_valid stray px
        (λ x. (if x.n == 0 then x else store_word (bit_and (limb_at x 0) val) x, success))

  unfoldable pub mut_nandu64 : Reply
  mut_nandu64 = on_valid stray px (λ x.
      if x.n == 0
      then (record (set_limb x 0 u64_max) { n = 1 }, success)
      else let y = set_limb x 0 (not64 (bit_and (limb_at x 0) val)) in
        (if ltb 1 y.n then memset_ones 1 (y.n - 1) y else y, success))

  unfoldable pub mut_oru64 : Reply
  mut_oru64 = on_valid stray px (λ x. (
    if x.n == 0
        then store_word (bit_or 0 val) x
        else if val == 0
        then x
        else set_limb x 0 (bit_or (limb_at x 0) val),
    success,
  ))

  unfoldable pub mut_noru64 : Reply
  mut_noru64 = on_valid stray px (λ x. (
    if x.n == 0
        then store_word (not64 (bit_or 0 val)) x
        else each_limb (λ i a. not64 (bit_or a (first_only val i))) x,
    success,
  ))

  unfoldable pub mut_xoru64 : Reply
  mut_xoru64 = on_valid stray px (λ x. (
    if x.n == 0
        then store_word (bit_xor 0 val) x
        else each_limb (λ i a. bit_xor a (first_only val i)) x,
    success,
  ))

  unfoldable pub mut_xnoru64 : Reply
  mut_xnoru64 = on_valid stray px (λ x. (
    if x.n == 0
        then store_word (not64 (bit_xor 0 val)) x
        else each_limb (λ i a. not64 (bit_xor a (first_only val i))) x,
    success,
  ))
