-- ===== src/BigInt/Mutate/Pairs.antt =====
-- dynamol/bigint/bigInt.c: the changing operations with a bigInt on all limbs.
pub mod Results
use dynamol.Base.{
  ℕ, Option, some, Bool, true, false, ◌&&◌, if◌then◌else◌, ltb, ◌==◌, u64_max, not64,
}
use dynamol.Base.{bit_and, bit_or, bit_xor}
use dynamol.BigInt.{BigInt, set_limb}
use dynamol.BigInt.Status.{Status, success, alloc_oom}
use dynamol.BigInt.Room.{Realloc}
use dynamol.BigInt.Bitwise.{padded, normalize, span}
use dynamol.BigInt.Copies.{Reply, mut_copy}
use dynamol.BigInt.Mutate.{on_pair, with_room, sweep, memset_ones, reset}

-- The loop over `range` limbs, which the result counts, and the trimming.
abbrev pub combine : (ℕ → ℕ → ℕ) → ℕ → BigInt → BigInt
combine f range x = normalize (record (sweep padded f range 0 x) { n = range })

-- What `bigInt_mut_or` does with the reply of `bigInt_mut_copy`: only DNML_ALLOC_OOM counts.
abbrev pub from_copy : BigInt → Reply → BigInt × Status
from_copy x (some y, alloc_oom) = (y, alloc_oom)
from_copy x (some y, s) = (y, success)
from_copy x (p, s) = (x, success)

module _ (realloc : Realloc) (stray_x stray_y : ℕ) (shared : Bool) (px : Option BigInt)
    (y : BigInt) where
  abbrev in_place : BigInt → (ℕ → ℕ → ℕ) → BigInt × Status
  in_place x f = with_room realloc x (span x y) (combine f (span x y))

  unfoldable pub mut_and : Reply
  mut_and = on_pair stray_x stray_y shared px y (λ x.
      if y.n == 0
      then (reset x, success)
      else if x.n == 0
      then (x, success)
      else in_place x (λ i a. bit_and a (padded y i)))

  unfoldable pub mut_nand : Reply
  mut_nand = on_pair stray_x stray_y shared px y (λ x.
      if x.n == 0
      then (let expanded_cap = if y.n == 0 then 1 else y.n in
          with_room realloc x expanded_cap (λ z. record z { n = expanded_cap }))
      else if y.n == 0
      then (memset_ones 0 x.n x, success)
      else in_place x (λ i a. not64 (bit_and a (padded y i))))

  unfoldable pub mut_or : Reply
  mut_or = on_pair stray_x stray_y shared px y (λ x.
      if y.n == 0
      then (x, success)
      else if x.n == 0
      then from_copy x (mut_copy stray_y false (some x) y realloc)
      else in_place x (λ i a. bit_or a (padded y i)))

  unfoldable pub mut_nor : Reply
  mut_nor = on_pair stray_x stray_y shared px y (λ x.
      if (x.n == 0) && (y.n == 0)
      then (record (set_limb x 0 u64_max) { n = 1 }, success)
      else in_place x (λ i a. not64 (bit_or a (padded y i))))

  unfoldable pub mut_xor : Reply
  mut_xor = on_pair stray_x stray_y shared px y (λ x.
      if (x.n == 0) && (y.n == 0) then (x, success) else in_place x (λ i a. bit_xor a (padded y i)))

  unfoldable pub mut_xnor : Reply
  mut_xnor = on_pair stray_x stray_y shared px y (λ x.
      if (x.n == 0) && (y.n == 0)
      then (record (set_limb x 0 u64_max) { n = 1 }, success)
      else in_place x (λ i a. not64 (bit_xor a (padded y i))))
