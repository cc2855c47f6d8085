-- ===== src/BigInt/Mutate/Attempts.antt =====
-- How the changing operations with a second bigInt end, once both operands are accepted.
use dynamol.Base.{
  ℕ, Option, none, some, Bool, true, false, ◌&&◌, ◌≡◌, ◌⊎◌, ◌≢◌, refl, inl, inr, arith,
  if◌then◌else◌, ◌==◌, ltb, not,
}
use dynamol.BigInt.{BigInt}
use dynamol.BigInt.Status.{Status, success, alloc_oom, err_inval, err_store_in}
use dynamol.BigInt.Util.{svalid}
use dynamol.BigInt.Order.{validate}
use dynamol.BigInt.Room.{Realloc, enscap}
use dynamol.BigInt.Copies.{
  Reply, mut_copy, roomy, canonicalize, copy_bytes, same_bytes, take_header,
}
use dynamol.BigInt.Mutate.Pairs.{from_copy, mut_and, mut_nand, mut_or, mut_nor, mut_xor, mut_xnor}
use dynamol.BigInt.Mutate.Ranged.{mutex_and, mutex_nand, mutex_or, mutex_nor, mutex_xor, mutex_xnor}

-- Success, or out of memory with `x` as it was.
abbrev pub IsAttempt : BigInt → Reply → Type 0
IsAttempt x r = (r.1 ≡ success) ⊎ (r ≡ (some x, alloc_oom))

-- Not out of memory, or so with `x` as it was.
abbrev IsRead : BigInt → Reply → Type 0
IsRead x r = (r.1 ≢ alloc_oom) ⊎ (r ≡ (some x, alloc_oom))

body_lem :
    (x : BigInt) (c d : Bool) (r q : BigInt) (f : BigInt → BigInt) (o : Option BigInt)
    → ((if c then (r, success) else if d then (q, success) else roomy f x o).1 ≡ success)
      ⊎ ((if c then (r, success) else if d then (q, success) else roomy f x o) ≡ (x, alloc_oom))
body_lem x true d r q f o = inl refl
body_lem x false true r q f o = inl refl
body_lem x false false r q f none = inr refl
body_lem x false false r q f (some y) = inl refl

guards_lem :
    (c d : Bool) (x : BigInt) (out : BigInt × Status)
    → (out.1 ≡ success) ⊎ (out ≡ (x, alloc_oom))
    → IsRead x (
        if not c
        then (some x, err_store_in)
        else if not d
        then (some x, err_inval)
        else (some out.0, out.1))
guards_lem false d x out h = inl (λ e. ground (arith, e))
guards_lem true false x out h = inl (λ e. ground (arith, e))
guards_lem true true x out h = ground (arith, h)

module _ (realloc : Realloc) (stray_x stray_y : ℕ) (x y : BigInt)
    (ok : (validate stray_x x && validate stray_y y) ≡ true) where
  pub mut_and-IsAttempt : IsAttempt x (mut_and realloc stray_x stray_y false (some x) y)
  unfolding mut_and
  mut_and-IsAttempt = rw ok (ground arith)

  pub mut_nand-IsAttempt : IsAttempt x (mut_nand realloc stray_x stray_y false (some x) y)
  unfolding mut_nand
  mut_nand-IsAttempt = rw ok (ground arith)

  mut_copy-ends : canonicalize x ≡ x → IsRead x (mut_copy stray_y false (some x) y realloc)
  unfolding mut_copy
  mut_copy-ends same = rw same (
      guards_lem (svalid (some x)) (validate stray_y y) x _ (
        body_lem x ((x.n == 0) && (y.n == 0)) ((x.n == y.n) && same_bytes y.n x y) x
          (record x { sign = y.sign }) (λ z. take_header (copy_bytes y.n z y) y)
          (if ltb x.cap y.n then enscap realloc x y.n else some x)))

  from_copy_lem :
      (r : Reply) → IsRead x r → ((from_copy x r).1 ≡ success) ⊎ (from_copy x r ≡ (x, alloc_oom))
  from_copy_lem (p, s) h = ground (arith, h)

  pub mut_or-IsAttempt :
      canonicalize x ≡ x → IsAttempt x (mut_or realloc stray_x stray_y false (some x) y)
  unfolding mut_or
  mut_or-IsAttempt same =
      let copied = from_copy_lem (mut_copy stray_y false (some x) y realloc) (mut_copy-ends same) in
      rw ok (ground (arith, copied))

  pub mut_nor-IsAttempt : IsAttempt x (mut_nor realloc stray_x stray_y false (some x) y)
  unfolding mut_nor
  mut_nor-IsAttempt = rw ok (ground arith)

  pub mut_xor-IsAttempt : IsAttempt x (mut_xor realloc stray_x stray_y false (some x) y)
  unfolding mut_xor
  mut_xor-IsAttempt = rw ok (ground arith)

  pub mut_xnor-IsAttempt : IsAttempt x (mut_xnor realloc stray_x stray_y false (some x) y)
  unfolding mut_xnor
  mut_xnor-IsAttempt = rw ok (ground arith)

  pub mutex_and-IsAttempt :
      (k : ℕ) → IsAttempt x (mutex_and realloc stray_x stray_y false (some x) y k)
  unfolding mutex_and
  mutex_and-IsAttempt k = rw ok (ground arith)

  pub mutex_nand-IsAttempt :
      (k : ℕ) → IsAttempt x (mutex_nand realloc stray_x stray_y false (some x) y k)
  unfolding mutex_nand
  mutex_nand-IsAttempt k = rw ok (ground arith)

  pub mutex_or-IsAttempt :
      (k : ℕ) → IsAttempt x (mutex_or realloc stray_x stray_y false (some x) y k)
  unfolding mutex_or
  mutex_or-IsAttempt k = rw ok (ground arith)

  pub mutex_nor-IsAttempt :
      (k : ℕ) → IsAttempt x (mutex_nor realloc stray_x stray_y false (some x) y k)
  unfolding mutex_nor
  mutex_nor-IsAttempt k = rw ok (ground arith)

  pub mutex_xor-IsAttempt :
      (k : ℕ) → IsAttempt x (mutex_xor realloc stray_x stray_y false (some x) y k)
  unfolding mutex_xor
  mutex_xor-IsAttempt k = rw ok (ground arith)

  pub mutex_xnor-IsAttempt :
      (k : ℕ) → IsAttempt x (mutex_xnor realloc stray_x stray_y false (some x) y k)
  unfolding mutex_xnor
  mutex_xnor-IsAttempt k = rw ok (ground arith)
