-- ===== src/BigInt/Room/Examples.antt =====
-- A `realloc` that fills the new cells with zeros, and the growth of a buffer with it.
use dynamol.Base.{
  ℕ, zero, suc, ◌*◌, ◌/◌, ◌≤◌, ◌<◌, ◌≡◌, refl, inr, arith, ap, sym, ◌∙◌, List, [], ◌∷◌, some, word,
  length, get_or,
}
use mathlib.Core.Path.{subst}
use mathlib.Core.Option.{some-injective}
use dynamol.Base.Int.{negsuc}
use dynamol.BigInt.{BigInt, IsValid}
use dynamol.BigInt.Build.{build, build-IsValid}
use dynamol.BigInt.Room.{Realloc, IsRealloc, grow, enscap}
use dynamol.BigInt.Room.Grow.{Keeps, grow-enough, enscap-Keeps}

abbrev pub resize : ℕ → List ℕ → List ℕ
resize zero xs = []
resize (suc k) [] = 0 ∷ resize k []
resize (suc k) (x ∷ xs) = x ∷ resize k xs

length-resize : (k : ℕ) (xs : List ℕ) → length (resize k xs) ≡ k
length-resize zero xs = refl
length-resize (suc k) [] = ap suc (length-resize k [])
length-resize (suc k) (x ∷ xs) = ap suc (length-resize k xs)

get_or-resize :
    (k i : ℕ) (xs : List ℕ) → i < length xs → i < k → get_or (resize k xs) i 0 ≡ get_or xs i 0
get_or-resize zero i xs h g = absurd (omega arith)
get_or-resize (suc k) i [] h g = absurd (omega arith)
get_or-resize (suc k) zero (x ∷ xs) h g = refl
get_or-resize (suc k) (suc i) (x ∷ xs) h g = get_or-resize k i xs (omega arith) (omega arith)

resize-words :
    (k : ℕ) (xs : List ℕ)
    → ((i : ℕ) → get_or xs i 0 < word)
    → (i : ℕ) → get_or (resize k xs) i 0 < word
resize-words zero xs h i = omega arith
resize-words (suc k) [] h zero = omega arith
resize-words (suc k) [] h (suc i) = resize-words k [] h i
resize-words (suc k) (x ∷ xs) h zero = h 0
resize-words (suc k) (x ∷ xs) h (suc i) = resize-words k xs (λ j. h (suc j)) i

abbrev pub zeroing : Realloc
zeroing xs bytes = some (resize (bytes / 8) xs)

limbs_of_bytes : (k : ℕ) → 8 * k / 8 ≡ k
limbs_of_bytes k = omega arith

zeroing-resize : (xs ys : List ℕ) (k : ℕ) → zeroing xs (8 * k) ≡ some ys → resize k xs ≡ ys
zeroing-resize xs ys k e =
    ap (λ (t : ℕ). resize t xs) (sym (limbs_of_bytes k)) ∙ some-injective _ _ e

pub zeroing-IsRealloc : IsRealloc zeroing
zeroing-IsRealloc = record {
  size = λ xs ys k e. subst (λ t. length t ≡ k) (zeroing-resize xs ys k e) (length-resize k xs);
  keeps = λ xs ys k i e h g.
      subst (λ t. get_or t i 0 ≡ get_or xs i 0) (zeroing-resize xs ys k e)
        (get_or-resize k i xs h g);
  words = λ xs ys k e h i.
      subst (λ t. get_or t i 0 < word) (zeroing-resize xs ys k e) (resize-words k xs h i);
}

-- -(2 ^ 64 + 5), with room for a third limb, and after it got room for a fourth.
abbrev pub tight : BigInt
tight = build 2 (5 ∷ 1 ∷ 0 ∷ []) (negsuc 0)

abbrev pub wide : BigInt
wide = build 2 (5 ∷ 1 ∷ 0 ∷ 0 ∷ 0 ∷ 0 ∷ []) (negsuc 0)

pub tight-IsValid : IsValid tight
tight-IsValid = build-IsValid 1 _ _ (omega arith) (omega arith) (inr refl) (omega arith)

pub tight-wide : enscap zeroing tight 4 ≡ some wide
unfolding enscap grow
tight-wide = refl

grow-enough_example :
    (grow 70 100 3 ≡ grow 64 100 3) × (100 ≤ grow 64 100 3) × (grow 64 100 3 < 2 * 100)
grow-enough_example = grow-enough 70 100 3 (omega arith) (omega arith) (omega arith) (omega arith)

enscap-Keeps_example : Keeps tight wide × (4 ≤ wide.cap)
enscap-Keeps_example =
    enscap-Keeps zeroing zeroing-IsRealloc tight 4 tight-IsValid (omega arith) wide tight-wide
