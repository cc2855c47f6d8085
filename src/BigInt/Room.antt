-- ===== src/BigInt/Room.antt =====
-- util/perf_util/bigNum_utils.c: `__BIGINT_INTERNAL_ENSCAP__`, which makes room for k limbs.
pub mod Grow
pub mod Examples
use dynamol.Base.{ℕ, zero, suc, ◌+◌, ◌*◌, ◌/◌, ◌%◌, ◌<◌, ◌≡◌, List, Option, none, some, u64, word}
use dynamol.Base.{if◌then◌else◌, ltb, leb, length, get_or}
use dynamol.BigInt.{BigInt, cells}

-- `realloc` of the C library: the old cells and a count of bytes, and the new block unless it is
-- NULL. What stands in the new cells is not known, but it is a word.
abbrev pub Realloc : Type 0
Realloc = List ℕ → ℕ → Option (List ℕ)

pub record IsRealloc (realloc : Realloc) : Type 0 where
  pub size : (xs ys : List ℕ) (k : ℕ) → realloc xs (8 * k) ≡ some ys → length ys ≡ k
  pub keeps :
      (xs ys : List ℕ) (k i : ℕ)
      → realloc xs (8 * k) ≡ some ys
      → i < length xs
      → i < k
      → get_or ys i 0 ≡ get_or xs i 0
  pub words :
      (xs ys : List ℕ) (k : ℕ)
      → realloc xs (8 * k) ≡ some ys
      → ((i : ℕ) → get_or xs i 0 < word)
      → (i : ℕ) → get_or ys i 0 < word

-- `while (new_cap < k) new_cap += new_cap;`, at most `fuel` rounds.
pub grow : ℕ → ℕ → ℕ → ℕ
grow zero k new_cap = new_cap
grow (suc fuel) k new_cap =
    let rest = grow fuel k (u64 (new_cap + new_cap)) in if ltb new_cap k then rest else new_cap

abbrev pub with_buffer : BigInt → ℕ → Option (List ℕ) → Option BigInt
with_buffer x new_cap none = none
with_buffer x new_cap (some buffer) = some (record x { limbs = some buffer; cap = new_cap })

-- The bigInt with room for `k` limbs, or `none` for `DNML_ALLOC_OOM`, which leaves it unchanged.
unfoldable pub enscap : Realloc → BigInt → ℕ → Option BigInt
unfolding grow
enscap realloc x k =
    if leb k x.cap
    then some x
    else let new_cap = grow 64 k x.cap in
      with_buffer x new_cap (realloc (cells x) (u64 (new_cap * 8)))
