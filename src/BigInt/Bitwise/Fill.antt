-- ===== src/BigInt/Bitwise/Fill.antt =====
-- What the filling loop leaves, and that a computed result is valid.
use dynamol.Base.{ℕ, zero, suc, ◌+◌, ◌≤◌, ◌<◌, ◌≡◌, inl, inr, refl, arith, ap, sym, ◌∙◌, word}
use dynamol.Base.{length, get_or, replicate, ltb-cases, ==-cases}
use dynamol.Base.Int.{pos}
use mathlib.Core.Path.{subst}
use native.Mathlib.Decide.{ℕ_discrete}
use dynamol.BigInt.{BigInt, IsValid, limb_at, set_limb, room}
use dynamol.BigInt.Memory.{
  limb_at-set_self, limb_at-set_ne, set_limb-SameHeader, SameHeader, SameHeader-refl,
  SameHeader-trans,
}
use dynamol.BigInt.Value.{value, seg-zero, seg, seg_ext}
use dynamol.BigInt.Util.{trim_lz}
use dynamol.BigInt.Util.Copy.{trim_lz-IsTrimmed}
use dynamol.BigInt.Bitwise.{fill, linit, computed}

module _ (f : ℕ → ℕ) where
  pub fill-SameHeader : (k i : ℕ) (r : BigInt) → SameHeader r (fill f k i r)
  unfolding fill
  fill-SameHeader zero i r = SameHeader-refl r
  fill-SameHeader (suc k) i r =
      SameHeader-trans (set_limb-SameHeader r i (f i)) (fill-SameHeader k (suc i) _)

  pub fill-below : (k i j : ℕ) (r : BigInt) → j < i → limb_at (fill f k i r) j ≡ limb_at r j
  unfolding fill
  fill-below zero i j r h = refl
  fill-below (suc k) i j r h =
      fill-below k (suc i) j _ (omega arith) ∙ limb_at-set_ne r i j (f i) (λ e. omega arith)

  pub fill-at :
      (k i j : ℕ) (r : BigInt) → i ≤ j → j < i + k → i + k ≤ room r → limb_at (fill f k i r) j ≡ f j
  unfolding fill
  fill-at zero i j r h g b = absurd (omega arith)
  fill-at (suc k) i j r h g b =
      let same = (set_limb-SameHeader r i (f i)).same_room in
      elim (ℕ_discrete i j) [
        | yes e ↦
            fill-below k (suc i) j _ (omega arith)
            ∙ ap (limb_at (set_limb r i (f i))) (sym e)
            ∙ limb_at-set_self r i (f i) (omega arith)
            ∙ ap f e
        | no e ↦ fill-at k (suc i) j _ (omega arith) (omega arith) (omega arith)
      ]

  pub fill-above : (k i j : ℕ) (r : BigInt) → i + k ≤ j → limb_at (fill f k i r) j ≡ limb_at r j
  unfolding fill
  fill-above zero i j r h = refl
  fill-above (suc k) i j r h =
      fill-above k (suc i) j _ (omega arith) ∙ limb_at-set_ne r i j (f i) (λ e. omega arith)

length-replicate : (k : ℕ) → length (replicate {A = ℕ} k 0) ≡ k
length-replicate zero = refl
length-replicate (suc k) = ap suc (length-replicate k)

get_or-replicate : (k i : ℕ) → get_or (replicate {A = ℕ} k 0) i 0 ≡ 0
get_or-replicate zero i = refl
get_or-replicate (suc k) zero = refl
get_or-replicate (suc k) (suc i) = get_or-replicate k i

pub linit-room :
    (k : ℕ) → (room (linit k) ≡ (linit k).cap) × (1 ≤ (linit k).cap) × (k ≤ (linit k).cap)
unfolding linit
linit-room k = elim (==-cases k 0) [
  | inl (q, e) ↦ rw q (refl, omega arith, omega arith)
  | inr (q, e) ↦ rw q (length-replicate k, omega arith, omega arith)
]

pub limb_at-linit : (k i : ℕ) → limb_at (linit k) i ≡ 0
unfolding linit limb_at
limb_at-linit k i = get_or-replicate _ i

fill-lt :
    (f : ℕ → ℕ) (k : ℕ) → ((i : ℕ) → f i < word) → (j : ℕ) → limb_at (fill f k 0 (linit k)) j < word
fill-lt f k h j = elim (ltb-cases j k) [
  | inl (q, l) ↦
      let room = linit-room k in
      subst (λ t. t < word)
        (sym (fill-at f k 0 j (linit k) (omega arith) (omega arith) (omega arith))) (h j)
  | inr (q, l) ↦
      subst (λ t. t < word) (sym (fill-above f k 0 j (linit k) (omega arith) ∙ limb_at-linit k j))
        (omega arith)
]

linit-sign : (k : ℕ) → (linit k).sign ≡ pos 1
unfolding linit
linit-sign k = refl

-- A computed result is valid and has the value of the filled limbs.
pub computed-IsValid :
    (f : ℕ → ℕ) (k : ℕ)
    → ((i : ℕ) → f i < word)
    → IsValid (computed f k) × (value (computed f k) ≡ seg f 0 k)
unfolding computed value limb_at
computed-IsValid f k h =
    let r : BigInt = record (fill f k 0 (linit k)) { n = k } in
    let t = trim_lz-IsTrimmed r in
    let s = fill-SameHeader f k 0 (linit k) in
    let rooms = linit-room k in
    let positive = s.same_sign ∙ linit-sign k in
    let room_same = t.trim_room ∙ s.same_room in
    (
      record {
        room_cap = room_same ∙ rooms.0 ∙ sym (t.trim_cap ∙ s.same_cap);
        cap_pos = omega (arith, t.trim_cap, s.same_cap, rooms);
        n_cap = omega (arith, t.trim_cap, s.same_cap, rooms, t.trim_n);
        sign_unit = elim (==-cases (trim_lz r).n 0) [
          | inl (q, e) ↦ inl (t.trim_zero_sign e)
          | inr (q, e) ↦ inl (t.trim_sign e ∙ positive)
        ];
        zero_sign = t.trim_zero_sign;
        words = λ i. subst (λ t. t < word) (sym (t.trim_limbs i)) (fill-lt f k h i);
        top = t.trim_top;
      },
      t.trim_value
          ∙ seg_ext (limb_at r) f 0 k
              (λ j p q. fill-at f k 0 j (linit k) p q (omega (arith, rooms))),
    )

pub linit-n : (k : ℕ) → (linit k).n ≡ 0
unfolding linit
linit-n k = refl

-- A fresh bigInt is a valid zero.
pub linit-IsValid : (k : ℕ) → IsValid (linit k) × (value (linit k) ≡ 0)
unfolding value
linit-IsValid k =
    let rooms = linit-room k in
    (
      record {
        room_cap = rooms.0;
        cap_pos = rooms.1;
        n_cap = omega (arith, linit-n k);
        sign_unit = inl (linit-sign k);
        zero_sign = λ e. linit-sign k;
        words = λ i. subst (λ t. t < word) (sym (limb_at-linit k i)) (omega arith);
        top = λ m e. absurd (omega (arith, linit-n k, e));
      },
      ap (seg (limb_at (linit k)) 0) (linit-n k) ∙ seg-zero (limb_at (linit k)) 0,
    )
