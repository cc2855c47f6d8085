-- ===== src/BigInt/Util/Compare.antt =====
-- `comp` orders magnitudes.
use Prim.Native.Nat.add
use dynamol.Base.{ℕ, zero, suc, ◌+◌, ◌-◌, ◌*◌, ◌<◌, ◌≡◌, ◌⊎◌, inl, inr, refl, arith, weight, ap}
use dynamol.Base.Int.{ℤ, pos, negsuc}
use dynamol.BigInt.{BigInt, limb_at, IsValid}
use dynamol.BigInt.Value.{seg, value, seg-zero, seg-last, seg-lt, lt_of_last, weight_mono}
use dynamol.BigInt.Util.{comp, comp_loop}

-- `c` is the three-way comparison of `a` and `b`.
abbrev pub Compares : ℤ → ℕ → ℕ → Type 0
Compares c a b = ((c ≡ pos 1) × (b < a)) ⊎ ((c ≡ pos 0) × (a ≡ b)) ⊎ ((c ≡ negsuc 0) × (a < b))

pub seg-last0 : (f : ℕ → ℕ) (k : ℕ) → seg f 0 (suc k) ≡ seg f 0 k + weight k * f k
seg-last0 f k = omega (arith, seg-last f 0 k, ap (λ (t : ℕ). weight k * f t) (add.zero k))

module _ (x y : BigInt) (vx : IsValid x) (vy : IsValid y) where
  comp_loop-Compares :
      (k : ℕ) → Compares (comp_loop x y k) (seg (limb_at x) 0 k) (seg (limb_at y) 0 k)
  unfolding comp_loop
  comp_loop-Compares zero = inr (inl (refl, omega (arith, seg-zero)))
  comp_loop-Compares (suc k) = ground (
    arith,
    seg-last0 (limb_at x) k,
    seg-last0 (limb_at y) k,
    seg-lt (limb_at x) 0 k vx.words,
    seg-lt (limb_at y) 0 k vy.words,
    lt_of_last (weight k) (limb_at x k) (limb_at y k) (seg (limb_at x) 0 k) (seg (limb_at y) 0 k),
    lt_of_last (weight k) (limb_at y k) (limb_at x k) (seg (limb_at y) 0 k) (seg (limb_at x) 0 k),
    comp_loop-Compares k,
  )

grown : (w l t s : ℕ) → 0 < l → s < w → s < t + w * l
grown w l t s h g = grind arith

-- A bigInt with more limbs is larger.
pub value-lt_of_n : (x y : BigInt) → IsValid x → IsValid y → x.n < y.n → value x < value y
unfolding value
value-lt_of_n x y vx vy h =
    let k = y.n - 1 in
    let e : y.n ≡ suc k = omega arith in
    let below : seg (limb_at x) 0 x.n < weight k =
      omega (arith, seg-lt (limb_at x) 0 x.n vx.words, weight_mono x.n k (omega arith)) in
    let big = grown (weight k) (limb_at y k) (seg (limb_at y) 0 k) _ (vy.top k e) below in
    omega (arith, big, seg-last0 (limb_at y) k, ap (seg (limb_at y) 0) e)

-- On valid bigInts the result is the comparison of the magnitudes.
pub comp-Compares : (x y : BigInt) → IsValid x → IsValid y → Compares (comp x y) (value x) (value y)
unfolding comp value
comp-Compares x y vx vy = ground (
  arith,
  value-lt_of_n x y vx vy,
  value-lt_of_n y x vy vx,
  comp_loop-Compares x y vx vy x.n,
  ap (λ (k : ℕ). seg (limb_at y) 0 k),
)
