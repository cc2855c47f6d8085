-- ===== src/BigInt/Order/Facts.antt =====
-- What the comparisons rely on: the guard on valid bigInts, and how `n` bounds the value.
use dynamol.Base.{
  ℕ, suc, ◌-◌, ◌*◌, ◌≤◌, ◌<◌, ◌≡◌, ◌⊎◌, arith, true, not, false, some, ◌≢◌, word, weight-zero,
  weight-suc, ap,
}
use dynamol.Base.{◌↔◌, refl, ==-cases, ◌∙◌, if◌then◌else◌, ◌==◌, inl, inr, weight, ◌∙◌}
use dynamol.Base.Int.{pos, negsuc}
use dynamol.BigInt.{BigInt, IsValid, limb_at, room, is_null}
use dynamol.BigInt.Util.{sign_eq, is_unit_sign, valid}
use dynamol.BigInt.Util.Compare.{seg-last0}
use dynamol.BigInt.Value.{value, seg, seg-zero, seg-suc, weight_mono}
use dynamol.BigInt.Order.{validate}

-- The value of a valid bigInt by its count of limbs.
abbrev pub ByCount : BigInt → Type 0
ByCount x =
    ((x.n ≡ 0) × (value x ≡ 0) × (x.sign ≡ pos 1))
    ⊎ ((x.n ≡ 1) × (value x ≡ limb_at x 0) × (0 < limb_at x 0))
    ⊎ ((1 < x.n) × (word ≤ value x))

times_pos : (w l : ℕ) → 0 < l → w ≤ w * l
times_pos w l h = grind arith

pub value-ByCount : (x : BigInt) → IsValid x → ByCount x
unfolding value
value-ByCount x vx = elim (n_cases x.n) [
  | inl e ↦ inl (e, ap (seg (limb_at x) 0) e ∙ seg-zero (limb_at x) 0, vx.zero_sign e)
  | inr (inl e) ↦ inr (
      inl (
        e,
        omega (arith, ap (seg (limb_at x) 0) e, seg-suc (limb_at x) 0 0, seg-zero (limb_at x) 1),
        vx.top 0 e,
      ))
  | inr (inr h) ↦
      let k = x.n - 1 in
      let e : x.n ≡ suc k = omega arith in
      inr (
        inr (
          h,
          omega (
            arith,
            ap (seg (limb_at x) 0) e,
            seg-last0 (limb_at x) k,
            times_pos (weight k) (limb_at x k) (vx.top k e),
            weight_mono 1 k (omega arith),
            weight-suc 0,
            weight-zero,
          ),
        ))
]
  where
    n_cases : (n : ℕ) → (n ≡ 0) ⊎ (n ≡ 1) ⊎ (1 < n)
    n_cases n = ground arith

-- What holds of any header in memory: its cells are words and, if it has a buffer, that has room for
-- `cap` limbs.
pub record InMemory (x : BigInt) : Type 0 where
  pub memory_words : (i : ℕ) → limb_at x i < word
  pub memory_room : is_null x.limbs ≡ false → room x ≡ x.cap

pub IsValid-InMemory : (x : BigInt) → IsValid x → InMemory x
IsValid-InMemory x v = record { memory_words = v.words; memory_room = λ buffer. v.room_cap }

-- A bigInt that the guard lets pass.
abbrev pub IsAccepted : ℕ → BigInt → Type 0
IsAccepted stray x = IsValid x × ((x.n ≢ 0) ⊎ (stray ≢ 0))

-- What both guards test, the word on top aside.
abbrev Header : BigInt → Type 0
Header x =
    (is_null x.limbs ≡ false)
    × (1 ≤ x.cap)
    × (x.n ≤ x.cap)
    × ((x.sign ≡ pos 1) ⊎ (x.sign ≡ negsuc 0))
    × ((x.n ≡ 0) → x.sign ≡ pos 1)

-- On a valid bigInt the guard passes when `n` is not 0, and else just if the word before the buffer
-- is not 0.
validate-valid :
    (stray : ℕ) (x : BigInt)
    → IsValid x
    → validate stray x ≡ (if x.n == 0 then not (stray == 0) else true)
unfolding validate sign_eq is_unit_sign limb_at
validate-valid stray x vx =
    ground (arith, vx.cap_pos, vx.n_cap, vx.sign_unit, vx.room_cap, vx.zero_sign, vx.top (x.n - 1))

module _ (x : BigInt) (m : InMemory x) where
  from_Header : Header x → (x.n ≢ 0 → limb_at x (x.n - 1) ≢ 0) → IsValid x
  from_Header (buffer, cap, count, unit, zero_sign) top = record {
    room_cap = m.memory_room buffer;
    cap_pos = cap;
    n_cap = count;
    sign_unit = unit;
    zero_sign = zero_sign;
    words = m.memory_words;
    top = λ k e.
        let index : x.n - 1 ≡ k = omega (arith, e) in
        omega (arith, top (λ z. omega (arith, z, e)), ap (limb_at x) index);
  }

  validate-Header :
      (stray : ℕ)
      → validate stray x ≡ true
      → Header x × (x.n ≢ 0 → limb_at x (x.n - 1) ≢ 0) × ((x.n ≢ 0) ⊎ (stray ≢ 0))
  unfolding validate sign_eq is_unit_sign
  validate-Header stray h = ground (arith, h)

  valid-Header : valid (some x) ≡ true → Header x × (x.n ≢ 0 → limb_at x (x.n - 1) ≢ 0)
  unfolding valid sign_eq is_unit_sign
  valid-Header h = ground (arith, h)

  IsValid-valid : IsValid x → valid (some x) ≡ true
  unfolding valid sign_eq is_unit_sign
  IsValid-valid vx =
      ground
        (arith, vx.cap_pos, vx.n_cap, vx.sign_unit, vx.room_cap, vx.zero_sign, vx.top (x.n - 1))

  IsAccepted-validate : (stray : ℕ) → IsAccepted stray x → validate stray x ≡ true
  IsAccepted-validate stray (vx, live) = validate-valid stray x vx ∙ elim (==-cases x.n 0) [
    | inl (q, none_left) ↦ elim (==-cases stray 0) [
      | inl (r, e) ↦ absurd (elim live [ inl more ↦ more none_left | inr word ↦ word e ])
      | inr (r, e) ↦ rw (q, r) refl
    ]
    | inr (q, more) ↦ rw q refl
  ]

  -- For a header in memory, whose cells are words and whose buffer, if there is one, has room for
  -- `cap` limbs: `__BIGINT_INTERNAL_VALID__` accepts it just if it is a valid bigInt;
  -- `bigInt_validate` accepts it just if it is a valid bigInt and either has a limb or stands behind
  -- a word other than 0.
  pub validate_lem :
      (stray : ℕ)
      → ((valid (some x) ≡ true) ↔ IsValid x) × ((validate stray x ≡ true) ↔ IsAccepted stray x)
  validate_lem stray = (
    (λ h. let (header, top) = valid-Header h in from_Header header top, IsValid-valid),
    (
      λ h. let (header, top, live) = validate-Header stray h in (from_Header header top, live),
      IsAccepted-validate stray,
    ),
  )
