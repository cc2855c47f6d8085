-- ===== src/BigInt/Mutate/Sweep.antt =====
-- The loop that changes a bigInt in place, against the loop that fills: each cell is read before it
-- is written.
use dynamol.Base.{
  ℕ, zero, suc, ◌+◌, ◌-◌, ◌*◌, ◌/◌, ◌≤◌, ◌<◌, ◌≡◌, ◌≢◌, refl, inl, inr, arith, ap, sym, ◌∙◌,
}
use dynamol.Base.{true, ap₂, word, weight, weight-pos, ltb-cases, ==-cases, ltb, if◌then◌else◌}
use mathlib.Core.Path.{subst}
use native.Mathlib.Nat.{zero-add, add-mul-div_left, div-eq_of_lt}
use dynamol.BigInt.{BigInt, IsValid, limb_at, set_limb, room}
use dynamol.BigInt.Memory.{limb_at-set_ne}
use dynamol.BigInt.Value.{value, seg, seg_ext, seg-add, seg-lt}
use dynamol.BigInt.Util.Copy.{trim_lz-IsTrimmed}
use dynamol.BigInt.Bitwise.{fill, padded, normalize}
use dynamol.BigInt.Bitwise.Fill.{fill-SameHeader, fill-at, fill-above}
use dynamol.BigInt.Bitwise.Values.{padded-lt, seg-padded}
use dynamol.BigInt.Mutate.{sweep, larger}
use dynamol.BigInt.Room.Grow.{Keeps}

-- A way to read cell `i` that depends on that cell and the count only.
abbrev pub IsLocal : (BigInt → ℕ → ℕ) → Type 0
IsLocal read = (x y : BigInt) (i : ℕ) → y.n ≡ x.n → limb_at y i ≡ limb_at x i → read y i ≡ read x i

pub limb_at-IsLocal : IsLocal limb_at
limb_at-IsLocal x y i n e = e

pub padded-IsLocal : IsLocal padded
unfolding padded limb_at
padded-IsLocal x y i n e = ground (arith, n, e)

module _ {read : BigInt → ℕ → ℕ} (local : IsLocal read) (f : ℕ → ℕ → ℕ) (x : BigInt) where
  sweep-fill_from :
      (k i : ℕ) (y : BigInt)
      → y.n ≡ x.n
      → ((j : ℕ) → i ≤ j → limb_at y j ≡ limb_at x j)
      → sweep read f k i y ≡ fill (λ j. f j (read x j)) k i y
  unfolding sweep fill set_limb
  sweep-fill_from zero i y n h = refl
  sweep-fill_from (suc k) i y n h =
      sweep-fill_from k (suc i) (set_limb y i (f i (read y i))) n
        (λ j l. limb_at-set_ne y i j _ (λ e. omega arith) ∙ h j (omega arith))
      ∙ ap (λ (t : ℕ). fill (λ j. f j (read x j)) k (suc i) (set_limb y i (f i t)))
          (local x y i n (h i (omega arith)))

  -- Changing in place gives what filling by the old limbs gives.
  pub sweep-fill : (k : ℕ) → sweep read f k 0 x ≡ fill (λ j. f j (read x j)) k 0 x
  sweep-fill k = sweep-fill_from k 0 x refl (λ j l. refl)

pub fill-word :
    (g : ℕ → ℕ) (k : ℕ) (x : BigInt)
    → ((i : ℕ) → g i < word)
    → ((i : ℕ) → limb_at x i < word)
    → k ≤ room x
    → (j : ℕ) → limb_at (fill g k 0 x) j < word
fill-word g k x hg hx b j = elim (ltb-cases j k) [
  | inl (q, l) ↦
      subst (λ t. t < word) (sym (fill-at g k 0 j x (omega arith) (omega arith) (omega arith)))
        (hg j)
  | inr (q, l) ↦ subst (λ t. t < word) (sym (fill-above g k 0 j x (omega arith))) (hx j)
]

-- The trimmed result of `k` rounds on a valid bigInt with room for them.
module _ (g : ℕ → ℕ) (k : ℕ) (x : BigInt) (vx : IsValid x) (hg : (i : ℕ) → g i < word)
    (b : k ≤ x.cap) where
  abbrev pub rewritten : BigInt
  rewritten = normalize (record (fill g k 0 x) { n = larger x.n k })

  pub rewritten-IsValid : IsValid rewritten × (rewritten.n ≢ 0 → rewritten.sign ≡ x.sign)
  unfolding limb_at
  rewritten-IsValid =
      let r : BigInt = record (fill g k 0 x) { n = larger x.n k } in
      let t = trim_lz-IsTrimmed r in
      let s = fill-SameHeader g k 0 x in
      let kept : rewritten.n ≢ 0 → rewritten.sign ≡ x.sign = λ h. t.trim_sign h ∙ s.same_sign in
      (
        record {
          room_cap = t.trim_room ∙ s.same_room ∙ vx.room_cap ∙ sym (t.trim_cap ∙ s.same_cap);
          cap_pos = omega (arith, t.trim_cap, s.same_cap, vx.cap_pos);
          n_cap = ground (arith, t.trim_cap, s.same_cap, vx.n_cap, t.trim_n);
          sign_unit = elim (==-cases rewritten.n 0) [
            | inl (q, e) ↦ inl (t.trim_zero_sign e)
            | inr (q, e) ↦ rw (kept e) vx.sign_unit
          ];
          zero_sign = t.trim_zero_sign;
          words = λ i.
              subst (λ t. t < word) (sym (t.trim_limbs i))
                (fill-word g k x hg vx.words (omega (arith, vx.room_cap)) i);
          top = t.trim_top;
        },
        kept,
      )

  after : ℕ → ℕ
  after j = if ltb j k then g j else padded x j

  limb_at-after : (j : ℕ) → j < larger x.n k → limb_at (fill g k 0 x) j ≡ after j
  unfolding after padded
  limb_at-after j h = elim (ltb-cases j k) [
    | inl (q, l) ↦
        rw q (fill-at g k 0 j x (omega arith) (omega arith) (omega (arith, b, vx.room_cap)))
    | inr (q, l) ↦
        let below : ltb j x.n ≡ true = ground (arith, h) in
        rw (q, below) (fill-above g k 0 j x (omega arith))
  ]

  rest_count : larger x.n k ≡ k + (larger x.n k - k)
  rest_count = ground arith

  value-split : value rewritten ≡ seg g 0 k + weight k * seg (padded x) (0 + k) (larger x.n k - k)
  unfolding value after limb_at
  value-split =
      let r : BigInt = record (fill g k 0 x) { n = larger x.n k } in
      (trim_lz-IsTrimmed r).trim_value
      ∙ seg_ext (limb_at (fill g k 0 x)) after 0 (larger x.n k)
          (λ j p q. limb_at-after j (omega arith))
      ∙ ap (seg after 0) rest_count
      ∙ seg-add after 0 k (larger x.n k - k)
      ∙ ap₂ (λ (s t : ℕ). s + weight k * t) (seg_ext after g 0 k (λ j p q. ground arith))
          (seg_ext after (padded x) (0 + k) (larger x.n k - k) (λ j p q. ground arith))

  high_limbs : seg (padded x) (0 + k) (larger x.n k - k) ≡ value x / weight k
  high_limbs = sym (
      ap (λ (t : ℕ). t / weight k)
        (sym (seg-padded x (larger x.n k) (ground arith))
          ∙ ap (seg (padded x) 0) rest_count
          ∙ seg-add (padded x) 0 k (larger x.n k - k))
      ∙ add-mul-div_left (seg (padded x) 0 k) (seg (padded x) (0 + k) (larger x.n k - k))
          (weight-pos k)
      ∙ ap (λ (t : ℕ). t + seg (padded x) (0 + k) (larger x.n k - k))
          (div-eq_of_lt (seg-lt (padded x) 0 k (padded-lt x vx)))
      ∙ zero-add _)

  -- The low limbs are new, the limbs above stay.
  pub rewritten-value : value rewritten ≡ seg g 0 k + weight k * (value x / weight k)
  rewritten-value = value-split ∙ ap (λ (t : ℕ). seg g 0 k + weight k * t) high_limbs

-- `enscap` keeps a bigInt valid, and its value.
pub Keeps-IsValid : (x y : BigInt) → IsValid x → Keeps x y → IsValid y × (value y ≡ value x)
unfolding value
Keeps-IsValid x y v h = (
  record {
    room_cap = h.keeps_room;
    cap_pos = omega (arith, v.cap_pos, h.keeps_cap);
    n_cap = omega (arith, v.n_cap, h.keeps_cap, h.keeps_n);
    sign_unit = rw (h.keeps_sign) v.sign_unit;
    zero_sign = λ e. h.keeps_sign ∙ v.zero_sign (sym h.keeps_n ∙ e);
    words = h.keeps_words;
    top = λ k e.
        let e' : x.n ≡ suc k = sym h.keeps_n ∙ e in
        subst (λ t. 0 < t) (sym (h.keeps_limbs k (omega (arith, v.n_cap)))) (v.top k e');
  },
  ap (seg (limb_at y) 0) h.keeps_n
      ∙ seg_ext (limb_at y) (limb_at x) 0 x.n (λ j p q. h.keeps_limbs j (omega (arith, v.n_cap))),
)
