-- ===== src/Base/Lists.antt =====
-- C arrays as lists. A read out of range gives the default, a write out of range is dropped: C
-- leaves both undefined, and the theorems assume the lengths that keep the indices in range.
use Prim.Native.Nat.{ℕ, zero, suc, ◌<◌, ◌≤◌}
use mathlib.Core.Path.{◌≡◌, refl, ap}
use mathlib.Core.Logic.{◌≢◌}
use mathlib.Core.List.{List, [], ◌∷◌}
use native.Mathlib.Omega.{arith}

module _ {ℓ} {A : Type ℓ} where
  abbrev pub length : List A → ℕ
  length [] = 0
  length (x ∷ xs) = suc (length xs)

  abbrev pub get_or : List A → ℕ → A → A
  get_or [] i d = d
  get_or (x ∷ xs) zero d = x
  get_or (x ∷ xs) (suc i) d = get_or xs i d

  abbrev pub set : List A → ℕ → A → List A
  set [] i v = []
  set (x ∷ xs) zero v = v ∷ xs
  set (x ∷ xs) (suc i) v = x ∷ set xs i v

  abbrev pub replicate : ℕ → A → List A
  replicate zero a = []
  replicate (suc n) a = a ∷ replicate n a

module _ {ℓ} {A : Type ℓ} where
  pub length-set : (xs : List A) (i : ℕ) (v : A) → length (set xs i v) ≡ length xs
  length-set [] i v = refl
  length-set (x ∷ xs) zero v = refl
  length-set (x ∷ xs) (suc i) v = ap suc (length-set xs i v)

  pub get_or-set_self :
      (xs : List A) (i : ℕ) (v d : A) → i < length xs → get_or (set xs i v) i d ≡ v
  get_or-set_self [] i v d h = elim h [ ]
  get_or-set_self (x ∷ xs) zero v d h = refl
  get_or-set_self (x ∷ xs) (suc i) v d h = get_or-set_self xs i v d (omega arith)

  pub get_or-set_ne :
      (xs : List A) (i j : ℕ) (v d : A) → i ≢ j → get_or (set xs i v) j d ≡ get_or xs j d
  get_or-set_ne [] i j v d ne = refl
  get_or-set_ne (x ∷ xs) zero zero v d ne = absurd (ne refl)
  get_or-set_ne (x ∷ xs) zero (suc j) v d ne = refl
  get_or-set_ne (x ∷ xs) (suc i) zero v d ne = refl
  get_or-set_ne (x ∷ xs) (suc i) (suc j) v d ne = get_or-set_ne xs i j v d (λ e. ne (ap suc e))

  pub length-replicate : (n : ℕ) (a : A) → length (replicate n a) ≡ n
  length-replicate zero a = refl
  length-replicate (suc n) a = ap suc (length-replicate n a)

  pub get_or-replicate : (n i : ℕ) (a : A) → get_or (replicate n a) i a ≡ a
  get_or-replicate zero i a = refl
  get_or-replicate (suc n) zero a = refl
  get_or-replicate (suc n) (suc i) a = get_or-replicate n i a

-- `memcpy` of `n` cells, onto the front of a block from the front of another.
abbrev pub memcpy {ℓ} : {A : Type ℓ} → ℕ → List A → List A → List A
memcpy zero dst src = dst
memcpy (suc n) [] src = []
memcpy (suc n) (x ∷ dst) [] = x ∷ dst
memcpy (suc n) (x ∷ dst) (y ∷ src) = y ∷ memcpy n dst src

module _ {ℓ} {A : Type ℓ} where
  pub length-memcpy : (n : ℕ) (dst src : List A) → length (memcpy n dst src) ≡ length dst
  length-memcpy zero dst src = refl
  length-memcpy (suc n) [] src = refl
  length-memcpy (suc n) (x ∷ dst) [] = refl
  length-memcpy (suc n) (x ∷ dst) (y ∷ src) = ap suc (length-memcpy n dst src)

  pub get_or-memcpy_below :
      (n i : ℕ) (dst src : List A) (d : A)
      → i < n
      → n ≤ length dst
      → n ≤ length src
      → get_or (memcpy n dst src) i d ≡ get_or src i d
  get_or-memcpy_below zero i dst src d h p q = elim h [ ]
  get_or-memcpy_below (suc n) i [] src d h p q = elim p [ ]
  get_or-memcpy_below (suc n) i (x ∷ dst) [] d h p q = elim q [ ]
  get_or-memcpy_below (suc n) zero (x ∷ dst) (y ∷ src) d h p q = refl
  get_or-memcpy_below (suc n) (suc i) (x ∷ dst) (y ∷ src) d h p q =
      get_or-memcpy_below n i dst src d (omega arith) (omega arith) (omega arith)

  pub get_or-memcpy_above :
      (n i : ℕ) (dst src : List A) (d : A) → n ≤ i → get_or (memcpy n dst src) i d ≡ get_or dst i d
  get_or-memcpy_above zero i dst src d h = refl
  get_or-memcpy_above (suc n) i [] src d h = refl
  get_or-memcpy_above (suc n) i (x ∷ dst) [] d h = refl
  get_or-memcpy_above (suc n) zero (x ∷ dst) (y ∷ src) d h = elim h [ ]
  get_or-memcpy_above (suc n) (suc i) (x ∷ dst) (y ∷ src) d h =
      get_or-memcpy_above n i dst src d (omega arith)

-- A predicate of every element.
abbrev pub All {ℓ κ} : {A : Type ℓ} → (A → Type κ) → List A → Type κ
All P [] = Unit {κ}
All P (x ∷ xs) = P x × All P xs
