-- ===== src/BigInt/Copies.antt =====
-- dynamol/bigint/bigInt.c: the copies of a bigInt into a receiver or into a fresh one, as they
-- stand outside the debug mode, on a little-endian machine. `shared` says whether the two `limbs`
-- pointers are equal. An operation with a receiver returns what the pointer to it reaches.
pub mod Copied
pub mod Examples
pub mod Results
pub mod Receiver
use dynamol.Base.{
  ℕ, zero, suc, ◌+◌, ◌*◌, ◌/◌, ◌%◌, ◌^◌, List, Option, none, some, Bool, true, false, not, ◌&&◌,
  ◌||◌,
}
use dynamol.Base.{if◌then◌else◌, ltb, leb, ◌==◌, get_or, set, memcpy}
use dynamol.Base.Int.{pos}
use dynamol.BigInt.{BigInt, cells, cells_of, limb_at}
use dynamol.BigInt.Status.{Status, success, null, err_inval, err_store_in, err_range, alloc_oom}
use dynamol.BigInt.Util.{svalid, is_unit_sign}
use dynamol.BigInt.Order.{validate}
use dynamol.BigInt.Room.{Realloc, enscap}
use dynamol.BigInt.Bitwise.{Outcome, error_value, linit}

-- A bigInt behind a pointer, which may be NULL, and the status.
abbrev pub Reply : Type 0
Reply = Option BigInt × Status

unfoldable pub canonicalize : BigInt → BigInt
unfolding is_unit_sign
canonicalize x =
    let y = if ltb x.cap 1 then record x { n = 0; sign = pos 1; cap = 1 } else x in
    let z = if ltb y.cap y.n then record y { n = y.cap } else y in
    if is_unit_sign z.sign then z else record z { n = 0; sign = pos 1 }

abbrev pub on_cells : (List ℕ → List ℕ) → Option (List ℕ) → Option (List ℕ)
on_cells f none = none
on_cells f (some xs) = some (f xs)

-- `memcpy(dst->limbs, src.limbs, k * sizeof(uint64_t))`
abbrev pub memcpy_limbs : ℕ → BigInt → BigInt → BigInt
memcpy_limbs k dst src = record dst { limbs = on_cells (λ xs. memcpy k xs (cells src)) dst.limbs }

-- The low `r` bytes of `s` below the other bytes of `d`.
abbrev splice : ℕ → ℕ → ℕ → ℕ
splice r d s = d / 2 ^ (8 * r) * 2 ^ (8 * r) + s % 2 ^ (8 * r)

-- `memcpy(dst->limbs, src.limbs, bytes)`
unfoldable pub copy_bytes : ℕ → BigInt → BigInt → BigInt
copy_bytes bytes dst src = record dst {
  limbs =
      on_cells
        (λ xs.
          set (memcpy (bytes / 8) xs (cells src)) (bytes / 8)
            (splice (bytes % 8) (get_or xs (bytes / 8) 0) (limb_at src (bytes / 8))))
        dst.limbs;
}

-- `!memcmp(x.limbs, y.limbs, k * sizeof(uint64_t))`
pub same_limbs : ℕ → BigInt → BigInt → Bool
same_limbs zero x y = true
same_limbs (suc k) x y = (limb_at x k == limb_at y k) && same_limbs k x y

-- `!memcmp(x.limbs, y.limbs, bytes)`
unfoldable pub same_bytes : ℕ → BigInt → BigInt → Bool
same_bytes bytes x y =
    same_limbs (bytes / 8) x y
    && (limb_at x (bytes / 8) % 2 ^ (8 * (bytes % 8))
        == limb_at y (bytes / 8) % 2 ^ (8 * (bytes % 8)))

-- The guards of a copy into `dst`, and the branch for a receiver that shares its buffer.
abbrev pub receiving : ℕ → Bool → Option BigInt → BigInt → (BigInt → BigInt × Status) → Reply
receiving stray shared none src body = (none, null)
receiving stray shared (some dst) src body =
    if not (svalid (some dst))
    then (some dst, err_store_in)
    else if not (validate stray src)
    then (some dst, err_inval)
    else if shared
    then (some (record dst { n = src.n; cap = src.n; sign = src.sign }), success)
    else let out = body (canonicalize dst) in (some out.0, out.1)

abbrev pub take_header : BigInt → BigInt → BigInt
take_header dst src = record dst { n = src.n; sign = src.sign }

abbrev pub roomy : (BigInt → BigInt) → BigInt → Option BigInt → BigInt × Status
roomy body x none = (x, alloc_oom)
roomy body x (some y) = (body y, success)

module _ (stray : ℕ) (shared : Bool) (dst : Option BigInt) (src : BigInt) where
  unfoldable pub mut_copy : Realloc → Reply
  unfolding enscap
  mut_copy realloc = receiving stray shared dst src (λ x.
      if (x.n == 0) && (src.n == 0)
      then (x, success)
      else if (x.n == src.n) && same_bytes src.n x src
      then (record x { sign = src.sign }, success)
      else roomy (λ y. take_header (copy_bytes src.n y src) src) x
          (if ltb x.cap src.n then enscap realloc x src.n else some x))

  unfoldable pub mut_ocopy : Reply
  mut_ocopy = receiving stray shared dst src (λ x.
      if (x.n == 0) && (src.n == 0)
      then (x, success)
      else if (x.n == src.n) && same_limbs src.n x src
      then (record x { sign = src.sign }, success)
      else if ltb x.cap src.n
      then (x, err_range)
      else (take_header (memcpy_limbs src.n x src) src, success))

  unfoldable pub mut_tover_copy : Reply
  mut_tover_copy = receiving stray shared dst src (λ x.
      if (x.n == 0) && (src.n == 0)
      then (x, success)
      else if (x.n == src.n) && same_limbs src.n x src
      then (record x { sign = src.sign }, success)
      else let operation_range = if ltb x.cap src.n then x.cap else src.n in
        (
          record (memcpy_limbs operation_range x src) { n = operation_range; sign = src.sign },
          success,
        ))

-- A fresh copy; `granted` says whether calloc succeeds.
module _ (stray : ℕ) (granted : Bool) (src : BigInt) where
  unfoldable pub new_copy : Outcome
  new_copy =
      if not (validate stray src)
      then (error_value, some err_inval)
      else if not granted
      then (error_value, some alloc_oom)
      else if src.n == 0
      then (linit 0, none)
      else (take_header (memcpy_limbs src.n (linit src.n) src) src, none)

  unfoldable pub ocopy : ℕ → Outcome
  ocopy output_cap =
      if not (validate stray src)
      then (error_value, some err_inval)
      else if ltb output_cap src.n
      then (error_value, some err_range)
      else if not granted
      then (error_value, some alloc_oom)
      else (take_header (memcpy_limbs src.n (linit output_cap) src) src, some success)

  unfoldable pub tover_copy : ℕ → Outcome
  tover_copy output_cap =
      if not (validate stray src)
      then (error_value, some err_inval)
      else if not granted
      then (error_value, some alloc_oom)
      else if output_cap == 0
      then (linit 0, none)
      else let operation_range = if ltb output_cap src.n then output_cap else src.n in
        (
          record (memcpy_limbs operation_range (linit output_cap) src) {
            n = operation_range;
            sign = src.sign;
          },
          none,
        )
