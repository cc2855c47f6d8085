-- ===== src/BigInt/Limbwise/Shifts.antt =====
-- The shifts multiply and divide by a power of two; the division by 3.
use dynamol.Base.{
  ℕ, ◌+◌, ◌-◌, ◌*◌, ◌/◌, ◌%◌, ◌^◌, ◌≤◌, ◌<◌, ◌≡◌, ◌⊎◌, true, false, refl, inl, inr, arith, ap, ap₂,
  sym, ◌∙◌, ==-cases, ltb-cases, leb, weight, weight-zero, weight-pos, weight-add,
}
use mathlib.Core.Path.{subst}
use native.Mathlib.Nat.{
  one-le-pow, pow-le-pow_right, mod-eq_of_lt, mul-zero, mul-mod_right, mul_assoc,
}
use dynamol.BigInt.{BigInt, IsValid, limb_at}
use dynamol.BigInt.Value.{value, seg, seg-zero, seg-add, seg-lt}
use dynamol.BigInt.Util.{zset}
use dynamol.BigInt.Limbwise.Raise.{kept_fits, kept_cut, shifted-IsChanged}
use dynamol.BigInt.Mutate.Partial.{IsChanged}
use dynamol.BigInt.Limbwise.{lshift, llshift, rshift, left_step, right_step, div3, div3_step}
use dynamol.BigInt.Limbwise.Bits.{left_step-IsScaling, right_step-IsDividing}
use dynamol.BigInt.Limbwise.Steps.{div3_step-IsDividing}
use dynamol.BigInt.Limbwise.Results.{scaled-IsChanged, divided-IsChanged, value-seg}

pub IsChanged-to : (r x : BigInt) {v w : ℕ} → v ≡ w → IsChanged r x v → IsChanged r x w
IsChanged-to r x e h = subst (IsChanged r x) e h

pub unchanged : (x : BigInt) (v : ℕ) → IsValid x → value x ≡ v → IsChanged x x v
unchanged x v h e = (h, e, λ ne. refl)

pub value-none : (x : BigInt) → x.n ≡ 0 → value x ≡ 0
value-none x e = value-seg x ∙ ap (seg (limb_at x) 0) e ∙ seg-zero (limb_at x) 0

kept_none : (v k cap : ℕ) → cap ≤ k → weight k * v % weight cap ≡ 0
kept_none v k cap h =
    let split : weight k ≡ weight cap * weight (k - cap) =
      ap weight (parts cap k h) ∙ weight-add cap (k - cap) in
    ap (λ (t : ℕ). t * v % weight cap) split
    ∙ ap (λ (t : ℕ). t % weight cap) (mul_assoc (weight cap) (weight (k - cap)) v)
    ∙ mul-mod_right (weight cap) (weight (k - cap) * v)
  where
    parts : (j k : ℕ) → j ≤ k → k ≡ j + (k - j)
    parts j k h = omega (arith, h)

leb-cases : (a b : ℕ) → ((leb a b ≡ true) × (a ≤ b)) ⊎ ((leb a b ≡ false) × (b < a))
leb-cases a b = ground arith

value-lt : (x : BigInt) → IsValid x → value x < weight x.n
unfolding value
value-lt x v = seg-lt (limb_at x) 0 x.n v.words

module _ (x : BigInt) (v : IsValid x) where
  pub lshift-IsChanged : (k : ℕ) → k < 64 → x.n < x.cap → IsChanged (lshift x k) x (2 ^ k * value x)
  unfolding lshift
  lshift-IsChanged k h fits = elim (==-cases k 0) [
    | inl (q, e) ↦
        let one : 2 ^ k ≡ 1 = ap (λ (t : ℕ). 2 ^ t) e in
        rw q (unchanged x (2 ^ k * value x) v (omega (arith, ap (λ (t : ℕ). t * value x) one)))
    | inr (q, ne) ↦
        let most : 2 ^ k ≤ 2 ^ 64 =
          pow-le-pow_right {n = 2} (omega arith) {i = k} {j = 64} (omega arith) in
        rw q (
          IsChanged-to _ x (omega arith) (
            scaled-IsChanged x v (left_step k) (2 ^ k) 0 (left_step-IsScaling k h)
              (one-le-pow k 2 (omega arith)) most fits))
  ]

  pub rshift-IsChanged : (k : ℕ) → k < 64 → IsChanged (rshift x k) x (value x / 2 ^ k)
  unfolding rshift
  rshift-IsChanged k h = elim (==-cases k 0) [
    | inl (q, e) ↦
        let one : value x / 2 ^ k ≡ value x / 1 = ap (λ (t : ℕ). value x / 2 ^ t) e in
        rw q (unchanged x (value x / 2 ^ k) v (omega (arith, one)))
    | inr (q, ne) ↦
        rw q
          (divided-IsChanged x v (right_step k) (2 ^ k) (right_step-IsDividing k h)
            (one-le-pow k 2 (omega arith))).0
  ]

  pub div3-IsChanged : IsChanged (div3 x) x (value x / 3)
  unfolding div3
  div3-IsChanged = elim (==-cases x.n 0) [
    | inl (q, e) ↦ rw q (unchanged x (value x / 3) v (omega (arith, value-none x e)))
    | inr (q, ne) ↦ rw q (divided-IsChanged x v div3_step 3 div3_step-IsDividing (omega arith)).0
  ]

  pub zset-IsChanged : IsChanged (zset x) x 0
  unfolding zset limb_at
  zset-IsChanged = (
    record {
      room_cap = v.room_cap;
      cap_pos = v.cap_pos;
      n_cap = omega arith;
      sign_unit = inl refl;
      zero_sign = λ e. refl;
      words = v.words;
      top = λ k e. absurd (omega (arith, e));
    },
    value-none (zset x) refl,
    λ ne. absurd (ne refl),
  )

  cut_value :
      (k : ℕ)
      → k < x.cap
      → x.cap < x.n + k
      → weight k * seg (limb_at x) 0 (x.cap - k) ≡ weight k * value x % weight x.cap
  cut_value k b l =
      let m : ℕ = x.cap - k in
      let count : x.n ≡ m + (x.n - m) = omega (arith, b, l, v.n_cap) in
      let cap : x.cap ≡ k + m = omega (arith, b) in
      let split : value x ≡ seg (limb_at x) 0 m + weight m * seg (limb_at x) (0 + m) (x.n - m) =
        value-seg x ∙ ap (seg (limb_at x) 0) count ∙ seg-add (limb_at x) 0 m (x.n - m) in
      sym (
        ap₂ (λ (s t : ℕ). weight k * s % weight t) split cap
        ∙ kept_cut (seg (limb_at x) 0 m) (seg (limb_at x) (0 + m) (x.n - m)) k m
            (seg-lt (limb_at x) 0 m v.words))

  fit_value :
      (k : ℕ)
      → x.n + k ≤ x.cap
      → weight k * seg (limb_at x) 0 x.n ≡ weight k * value x % weight x.cap
  fit_value k l =
      ap (λ (t : ℕ). weight k * t) (sym (value-seg x))
      ∙ sym (kept_fits (value x) k x.n x.cap (value-lt x v) (omega (arith, l)))

  -- By `k` limbs, with the limbs above the capacity dropped.
  pub llshift-IsChanged : (k : ℕ) → IsChanged (llshift x k) x (weight k * value x % weight x.cap)
  unfolding llshift
  llshift-IsChanged k = elim (==-cases k 0) [
    | inl (none, e) ↦
        let one : weight k * value x ≡ weight 0 * value x = ap (λ (t : ℕ). weight t * value x) e in
        rw none (
          unchanged x _ v (
            omega (arith, ap (λ (t : ℕ). t * value x) weight-zero, one)
            ∙ sym (kept_fits (value x) k x.n x.cap (value-lt x v) (omega (arith, e, v.n_cap)))))
    | inr (none, some_limbs) ↦ elim (==-cases x.n 0) [
      | inl (empty, e) ↦
          let nothing : weight k * value x ≡ 0 =
            ap (λ (t : ℕ). weight k * t) (value-none x e) ∙ mul-zero (weight k) in
          let none_left : weight k * value x % weight x.cap ≡ 0 =
            ap (λ (t : ℕ). t % weight x.cap) nothing ∙ mod-eq_of_lt (weight-pos x.cap) in
          rw (none, empty) (unchanged x _ v (value-none x e ∙ sym none_left))
      | inr (empty, full) ↦ elim (leb-cases x.cap k) [
        | inl (over, b) ↦
            rw (none, empty, over)
              (IsChanged-to _ x (sym (kept_none (value x) k x.cap b)) zset-IsChanged)
        | inr (over, b) ↦ elim (ltb-cases x.cap (x.n + k)) [
          | inl (cut, l) ↦
              rw (none, empty, over, cut)
                (shifted-IsChanged x v k (x.cap - k) (omega (arith, b, v.room_cap)) x.cap _
                  (omega (arith, b)) (omega arith) (cut_value k b l))
          | inr (cut, l) ↦
              rw (none, empty, over, cut)
                (shifted-IsChanged x v k x.n (omega (arith, l, v.room_cap)) (x.n + k) _
                  (omega arith) (omega (arith, l)) (fit_value k l))
        ]
      ]
    ]
  ]
