-- ===== src/BigInt/Mutate/Ranged.antt =====
-- dynamol/bigint/bigInt.c: the changing operations with an explicit count of limbs.
pub mod Outcome
pub mod Loop
pub mod Words
pub mod Ones
pub mod Integers
pub mod Pairs
use dynamol.Base.{
  ℕ, ◌*◌, Option, Bool, ◌&&◌, ◌||◌, if◌then◌else◌, ltb, ◌==◌, u64, not64, bit_and, bit_or, bit_xor,
}
use dynamol.Base.Int.{ℤ, pos}
use dynamol.BigInt.{BigInt, limb_at, set_limb}
use dynamol.BigInt.Status.{Status, success}
use dynamol.BigInt.Room.{Realloc}
use dynamol.BigInt.Bitwise.{padded, first_only, normalize}
use dynamol.BigInt.Bitwise.Ranged.{extended}
use dynamol.BigInt.Copies.{Reply, memcpy_limbs}
use dynamol.BigInt.Mutate.{
  on_valid, on_pair, with_room, sweep, store_word, memset_ones, larger, reset,
}

-- The loop over `op_range` limbs; the limbs above stay.
abbrev pub partial : (ℕ → ℕ → ℕ) → ℕ → BigInt → BigInt
partial f op_range x =
    let y = sweep padded f op_range 0 x in normalize (record y { n = larger y.n op_range })

-- The same, and `x->sign = (x->n) ? x->sign : 1;`.
abbrev pub partial_signed : (ℕ → ℕ → ℕ) → ℕ → BigInt → BigInt
partial_signed f op_range x =
    let z = partial f op_range x in record z { sign = if z.n == 0 then pos 1 else z.sign }

-- The count 0 ends the operation, any other asks for room.
abbrev pub ranging : Realloc → ℕ → BigInt → (BigInt → BigInt) → BigInt × Status
ranging realloc op_range x body =
    if op_range == 0 then (x, success) else with_room realloc x op_range body

module _ (realloc : Realloc) (stray : ℕ) (px : Option BigInt) (val op_range : ℕ) where
  abbrev with_word : (BigInt → BigInt) → Reply
  with_word body = on_valid stray px (λ x. ranging realloc op_range x body)

  unfoldable pub mutex_andu64 : Reply
  mutex_andu64 = with_word (λ x. if x.n == 0 then x else store_word (bit_and (limb_at x 0) val) x)

  unfoldable pub mutex_nandu64 : Reply
  mutex_nandu64 = with_word (partial_signed (λ i a. not64 (bit_and a (first_only val i))) op_range)

  unfoldable pub mutex_oru64 : Reply
  mutex_oru64 = with_word (λ x.
      if val == 0
      then x
      else if x.n == 0
      then store_word (bit_or 0 val) x
      else set_limb x 0 (bit_or (limb_at x 0) val))

  unfoldable pub mutex_noru64 : Reply
  mutex_noru64 = with_word (partial_signed (λ i a. not64 (bit_or a (first_only val i))) op_range)

  unfoldable pub mutex_xoru64 : Reply
  mutex_xoru64 = with_word (λ x.
      if x.n == 0
      then store_word (bit_xor 0 val) x
      else partial_signed (λ i a. bit_xor a (first_only val i)) op_range x)

  unfoldable pub mutex_xnoru64 : Reply
  mutex_xnoru64 = with_word (partial_signed (λ i a. not64 (bit_xor a (first_only val i))) op_range)

module _ (realloc : Realloc) (stray : ℕ) (px : Option BigInt) (val : ℤ) (op_range : ℕ) where
  abbrev with_int : (BigInt → BigInt) → Reply
  with_int body = on_valid stray px (λ x. ranging realloc op_range x body)

  unfoldable pub mutex_andi64 : Reply
  mutex_andi64 =
      with_int
        (λ x. if x.n == 0 then x else partial_signed (λ i a. bit_and a (extended val i)) op_range x)

  unfoldable pub mutex_nandi64 : Reply
  mutex_nandi64 = with_int (partial_signed (λ i a. not64 (bit_and a (extended val i))) op_range)

  unfoldable pub mutex_ori64 : Reply
  mutex_ori64 = with_int (partial_signed (λ i a. bit_or a (extended val i)) op_range)

  unfoldable pub mutex_nori64 : Reply
  mutex_nori64 = with_int (partial_signed (λ i a. not64 (bit_or a (extended val i))) op_range)

  unfoldable pub mutex_xori64 : Reply
  mutex_xori64 = with_int (partial_signed (λ i a. bit_xor a (extended val i)) op_range)

  unfoldable pub mutex_xnori64 : Reply
  mutex_xnori64 = with_int (partial_signed (λ i a. not64 (bit_xor a (extended val i))) op_range)

module _ (realloc : Realloc) (stray_x stray_y : ℕ) (shared : Bool) (px : Option BigInt) (y : BigInt)
    (op_range : ℕ) where
  abbrev with_bigint : (BigInt → BigInt) → Reply
  with_bigint body = on_pair stray_x stray_y shared px y (λ x. ranging realloc op_range x body)

  abbrev ones : BigInt → BigInt
  ones x = record (memset_ones 0 (u64 (op_range * 8)) x) { n = op_range }

  unfoldable pub mutex_and : Reply
  mutex_and = with_bigint (λ x.
      if x.n == 0
      then x
      else if y.n == 0
      then reset x
      else partial (λ i a. bit_and a (padded y i)) op_range x)

  unfoldable pub mutex_nand : Reply
  mutex_nand = with_bigint (λ x.
      if (x.n == 0) || (y.n == 0)
      then memset_ones 0 op_range x
      else partial (λ i a. not64 (bit_and a (padded y i))) op_range x)

  unfoldable pub mutex_or : Reply
  mutex_or = with_bigint (λ x.
      if x.n == 0
      then (let copy_range = if ltb y.n op_range then y.n else op_range in
          normalize (record (memcpy_limbs copy_range x y) { n = copy_range }))
      else if y.n == 0
      then x
      else partial (λ i a. bit_or a (padded y i)) op_range x)

  unfoldable pub mutex_nor : Reply
  mutex_nor = with_bigint (λ x.
      if (x.n == 0) && (y.n == 0)
      then ones x
      else partial (λ i a. not64 (bit_or a (padded y i))) op_range x)

  unfoldable pub mutex_xor : Reply
  mutex_xor = with_bigint (λ x.
      if (x.n == 0) && (y.n == 0) then x else partial (λ i a. bit_xor a (padded y i)) op_range x)

  unfoldable pub mutex_xnor : Reply
  mutex_xnor = with_bigint (λ x.
      if (x.n == 0) && (y.n == 0)
      then ones x
      else partial (λ i a. not64 (bit_xor a (padded y i))) op_range x)
