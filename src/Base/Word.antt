-- ===== src/Base/Word.antt =====
-- Machine words: casts, shifts and the powers of two that go with them.
use Prim.Native.Nat.{ℕ, zero, suc, ◌+◌, ◌-◌, ◌*◌, ◌/◌, ◌%◌, ◌^◌, ◌<◌}
use Prim.Native.Nat.add
use mathlib.Core.Path.{◌≡◌, refl, ◌∙◌, ap}
use native.Mathlib.Nat.{pow-succ'}
use native.Mathlib.Omega.{arith}

abbrev pub word : ℕ
word = 2 ^ 64

abbrev pub u64_max : ℕ
u64_max = 2 ^ 64 - 1

abbrev pub u64 : ℕ → ℕ
u64 n = n % 2 ^ 64

abbrev pub u8 : ℕ → ℕ
u8 n = n % 2 ^ 8

abbrev pub u16 : ℕ → ℕ
u16 n = n % 2 ^ 16

-- `a - b` on uint64_t: the modulus is added first, since `-` on ℕ stops at 0.
abbrev pub sub64 : ℕ → ℕ → ℕ
sub64 a b = (a + 2 ^ 64 - b) % 2 ^ 64

-- `~x` on uint64_t.
abbrev pub not64 : ℕ → ℕ
not64 x = 2 ^ 64 - 1 - x

infixl 75 ◌<<<◌ ◌>>>◌
-- `x << k` on uint64_t.
abbrev pub ◌<<<◌ : ℕ → ℕ → ℕ
x <<< k = x * 2 ^ k % 2 ^ 64

abbrev pub ◌>>>◌ : ℕ → ℕ → ℕ
x >>> k = x / 2 ^ k

-- 2 ^ 64 to the k-th, the weight of limb k.
pub weight : ℕ → ℕ
weight zero = 1
weight (suc k) = 2 ^ 64 * weight k

pub weight-zero : weight zero ≡ 1
unfolding weight
weight-zero = refl

pub weight-suc : (k : ℕ) → weight (suc k) ≡ 2 ^ 64 * weight k
unfolding weight
weight-suc k = refl

pub weight-pos : (k : ℕ) → 0 < weight k
unfolding weight
weight-pos zero = omega arith
weight-pos (suc k) = omega (arith, weight-pos k)

pub weight-add : (j k : ℕ) → weight (j + k) ≡ weight j * weight k
weight-add zero k = ap weight (add.zero k) ∙ omega (arith, ap (λ (t : ℕ). t * weight k) weight-zero)
weight-add (suc j) k =
    ap weight (add.suc j k)
    ∙ omega (arith, weight-suc (j + k), ap (λ (t : ℕ). t * weight k) (weight-suc j), weight-add j k)

pub two-pow-suc : (k : ℕ) → 2 ^ suc k ≡ 2 * 2 ^ k
two-pow-suc k = pow-succ' 2 k

pub two-pow-add : (j k : ℕ) → 2 ^ (j + k) ≡ 2 ^ j * 2 ^ k
two-pow-add zero k = ap (λ (t : ℕ). 2 ^ t) (add.zero k) ∙ omega arith
two-pow-add (suc j) k =
    ap (λ (t : ℕ). 2 ^ t) (add.suc j k)
    ∙ omega (arith, two-pow-suc (j + k), two-pow-add j k, ap (λ (t : ℕ). t * 2 ^ k) (two-pow-suc j))
