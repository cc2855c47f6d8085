-- ===== src/BigInt/Build.antt =====
-- Valid bigInts from their cells.
use dynamol.Base.{
  ℕ, zero, suc, ◌<◌, ◌≡◌, ◌⊎◌, List, [], ◌∷◌, some, All, get_or, length, refl, arith, word,
}
use mathlib.Core.Path.{subst}
use native.Mathlib.Nat.{suc_inj}
use dynamol.Base.Int.{ℤ, pos, negsuc}
use dynamol.BigInt.{BigInt, IsValid, limb_at}

pub words_of_cells : (xs : List ℕ) → All (λ x. x < word) xs → (i : ℕ) → get_or xs i 0 < word
words_of_cells [] h i = omega arith
words_of_cells (x ∷ xs) h zero = h.0
words_of_cells (x ∷ xs) h (suc i) = words_of_cells xs h.1 i

-- A bigInt with at least one limb.
abbrev pub build : ℕ → List ℕ → ℤ → BigInt
build n xs sign = record { n = n; cap = length xs; limbs = some xs; sign = sign }

pub build-IsValid :
    (k : ℕ) (xs : List ℕ) (sign : ℤ)
    → All (λ x. x < word) xs
    → k < length xs
    → (sign ≡ pos 1) ⊎ (sign ≡ negsuc 0)
    → 0 < get_or xs k 0
    → IsValid (build (suc k) xs sign)
unfolding limb_at
build-IsValid k xs sign words h unit live = record {
  room_cap = refl;
  cap_pos = omega arith;
  n_cap = h;
  sign_unit = unit;
  zero_sign = λ e. absurd (omega arith);
  words = words_of_cells xs words;
  top = λ m e. subst (λ t. 0 < get_or xs t 0) (suc_inj e) live;
}
