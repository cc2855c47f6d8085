-- ===== src/BigInt/Value.antt =====
-- The number that limbs stand for, lowest limb first.
use dynamol.Base.{ℕ, zero, suc, ◌+◌, ◌*◌, ◌<◌, ◌≤◌, ◌≡◌, refl, arith, word, weight, ap, ◌∙◌}
use dynamol.Base.{weight-zero, weight-suc, weight-pos, weight-add, ◌-◌}
use Prim.Native.Nat.add
use native.Mathlib.Nat.{add-zero, mul-le-mul_left}
use dynamol.BigInt.{BigInt, limb_at}

-- `f i + 2 ^ 64 * f (i + 1) + …`, k terms.
pub seg : (ℕ → ℕ) → ℕ → ℕ → ℕ
seg f i zero = 0
seg f i (suc k) = f i + word * seg f (suc i) k

-- The magnitude of a bigInt.
unfoldable pub value : BigInt → ℕ
value x = seg (limb_at x) 0 x.n

pub seg-zero : (f : ℕ → ℕ) (i : ℕ) → seg f i zero ≡ 0
unfolding seg
seg-zero f i = refl

pub seg-suc : (f : ℕ → ℕ) (i k : ℕ) → seg f i (suc k) ≡ f i + word * seg f (suc i) k
unfolding seg
seg-suc f i k = refl

pub seg_ext :
    (f g : ℕ → ℕ) (i k : ℕ) → ((j : ℕ) → i ≤ j → j < i + k → f j ≡ g j) → seg f i k ≡ seg g i k
unfolding seg
seg_ext f g i zero h = refl
seg_ext f g i (suc k) h =
    let rest = seg_ext f g (suc i) k (λ j p q. h j (omega arith) (omega arith)) in
    omega (arith, rest, h i (omega arith) (omega arith))

next : (i j : ℕ) → i + suc j ≡ suc i + j
next i j = omega arith

next_count : (k : ℕ) → suc k ≡ k + 1
next_count k = omega arith

pub seg-add : (f : ℕ → ℕ) (i j k : ℕ) → seg f i (j + k) ≡ seg f i j + weight j * seg f (i + j) k
seg-add f i zero k =
    ap (seg f i) (add.zero k)
    ∙ omega (
      arith,
      seg-zero f i,
      ap (λ (t : ℕ). t * seg f (i + 0) k) weight-zero,
      ap (λ (t : ℕ). seg f t k) (add-zero i),
    )
seg-add f i (suc j) k =
    ap (seg f i) (add.suc j k)
    ∙ omega (
      arith,
      seg-suc f i (j + k),
      seg-suc f i j,
      seg-add f (suc i) j k,
      ap (λ (t : ℕ). t * seg f (i + suc j) k) (weight-suc j),
      ap (λ (t : ℕ). weight j * seg f t k) (next i j),
    )

pub seg_zeros : (f : ℕ → ℕ) (i k : ℕ) → ((m : ℕ) → i ≤ m → m < i + k → f m ≡ 0) → seg f i k ≡ 0
unfolding seg
seg_zeros f i zero z = refl
seg_zeros f i (suc k) z = omega (
  arith,
  z i (omega arith) (omega arith),
  seg_zeros f (suc i) k (λ m h g. z m (omega arith) (omega arith)),
)

pub seg-lt : (f : ℕ → ℕ) (i k : ℕ) → ((j : ℕ) → f j < word) → seg f i k < weight k
unfolding seg
seg-lt f i zero h = omega (arith, weight-zero)
seg-lt f i (suc k) h = omega (arith, weight-suc k, h i, seg-lt f (suc i) k h)

-- The last limb of a segment.
pub seg-last : (f : ℕ → ℕ) (i k : ℕ) → seg f i (suc k) ≡ seg f i k + weight k * f (i + k)
unfolding seg
seg-last f i k =
    ap (seg f i) (next_count k)
    ∙ omega (
      arith,
      seg-add f i k 1,
      ap (λ (t : ℕ). weight k * t) (seg-suc f (i + k) 0),
      seg-zero f (suc (i + k)),
    )

-- With a larger last digit, what stands below does not matter.
pub lt_of_last : (w a b s t : ℕ) → a < b → s < w → s + w * a < t + w * b
lt_of_last w a b s t h g = grind arith

pub weight_mono : (j k : ℕ) → j ≤ k → weight j ≤ weight k
weight_mono j k h =
    let split : k ≡ j + (k - j) = omega arith in
    let grow : weight j * 1 ≤ weight j * weight (k - j) =
      mul-le-mul_left (weight j) (weight-pos (k - j)) in
    omega (arith, ap weight split, weight-add j (k - j), grow)

pub seg-pad :
    (f : ℕ → ℕ) (i j k : ℕ)
    → j ≤ k
    → ((m : ℕ) → i + j ≤ m → m < i + k → f m ≡ 0)
    → seg f i k ≡ seg f i j
seg-pad f i j k h z =
    let split : k ≡ j + (k - j) = omega arith in
    let zeros : seg f (i + j) (k - j) ≡ 0 =
      seg_zeros f (i + j) (k - j) (λ m p q. z m p (omega arith)) in
    ap (seg f i) split ∙ seg-add f i j (k - j) ∙ omega (arith, ap (λ (t : ℕ). weight j * t) zeros)
