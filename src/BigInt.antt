-- ===== src/BigInt.antt =====
-- The bigInt of include/libdnml_types.h, its buffer and the memory in which bigInts stand.
-- `limbs` is `none` for a NULL pointer, else the cells that it points to. An index outside the
-- cells is undefined in C; here such a read gives 0 and such a write is dropped.
pub mod Value
pub mod Memory
pub mod Build
pub mod Util
pub mod AddSub
pub mod Order
pub mod Status
pub mod Convert
pub mod Bitwise
pub mod Room
pub mod Copies
pub mod Mutate
pub mod Multiply
pub mod Limbwise
use dynamol.Base.{ℕ, zero, suc, ◌+◌, ◌<◌, ◌≤◌, List, [], ◌∷◌, Option, none, some, Bool, true, false}
use dynamol.Base.{if◌then◌else◌, ltb, ◌==◌, get_or, set, length, ◌≡◌, ◌⊎◌, word}
use dynamol.Base.Int.{ℤ, pos, negsuc}

pub record BigInt : Type 0 where
  pub n : ℕ
  pub cap : ℕ
  pub limbs : Option (List ℕ)
  pub sign : ℤ

abbrev pub cells_of : Option (List ℕ) → List ℕ
cells_of none = []
cells_of (some cells) = cells

abbrev pub is_null : Option (List ℕ) → Bool
is_null none = true
is_null (some cells) = false

abbrev pub cells : BigInt → List ℕ
cells x = cells_of x.limbs

-- How many cells stand behind `limbs`.
abbrev pub room : BigInt → ℕ
room x = length (cells x)

-- `x->limbs[i]`, read.
unfoldable pub limb_at : BigInt → ℕ → ℕ
limb_at x i = get_or (cells x) i 0

abbrev pub write : Option (List ℕ) → ℕ → ℕ → Option (List ℕ)
write none i v = none
write (some xs) i v = some (set xs i v)

-- `x->limbs[i] = v`.
unfoldable pub set_limb : BigInt → ℕ → ℕ → BigInt
set_limb x i v = record x { limbs = write x.limbs i v }

-- `-sign`
unfoldable pub negate : ℤ → ℤ
negate (pos zero) = pos 0
negate (pos (suc k)) = negsuc k
negate (negsuc k) = pos (suc k)

-- What a function sees of the bigInts that its pointers reach: pointers are numbers, and equal
-- pointers are aliases.
abbrev pub Store : Type 0
Store = ℕ → BigInt

unfoldable pub update : ℕ → BigInt → Store → Store
update p x s q = if p == q then x else s q

-- The contract of `__BIGINT_INTERNAL_VALID__`, and that every limb is a uint64_t.
pub record IsValid (x : BigInt) : Type 0 where
  pub room_cap : room x ≡ x.cap
  pub cap_pos : 1 ≤ x.cap
  pub n_cap : x.n ≤ x.cap
  pub sign_unit : (x.sign ≡ pos 1) ⊎ (x.sign ≡ negsuc 0)
  pub zero_sign : x.n ≡ 0 → x.sign ≡ pos 1
  pub words : (i : ℕ) → limb_at x i < word
  pub top : (k : ℕ) → x.n ≡ suc k → 0 < limb_at x k
