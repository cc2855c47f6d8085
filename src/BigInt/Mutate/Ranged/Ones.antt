-- ===== src/BigInt/Mutate/Ranged/Ones.antt =====
-- The branches of the changing operations that do not run the loop.
use dynamol.Base.{
  ℕ, zero, suc, ◌+◌, ◌-◌, ◌*◌, ◌/◌, ◌%◌, ◌^◌, ◌≤◌, ◌<◌, ◌≡◌, refl, inl, inr, arith, sym, ◌∙◌, true,
  u64,
}
use dynamol.Base.{
  word, weight, weight-zero, weight-suc, u64_max, ltb-cases, ltb, if◌then◌else◌, ◌==◌,
}
use mathlib.Core.Path.{subst}
use native.Mathlib.Nat.{suc_inj}
use dynamol.BigInt.{BigInt, IsValid, limb_at}
use dynamol.BigInt.Value.{value, seg, seg-zero, seg-suc, seg_ext}
use dynamol.BigInt.Bitwise.{fill, padded, normalize}
use dynamol.BigInt.Bitwise.Fill.{fill-SameHeader, fill-at, fill-above}
use dynamol.BigInt.Bitwise.Values.{seg-padded}
use dynamol.BigInt.Bitwise.Ranged.Results.{seg-padded_mod}
use dynamol.BigInt.Copies.{memcpy_limbs}
use dynamol.BigInt.Copies.Copied.{trimmed_copy-IsValid}
use dynamol.BigInt.Mutate.{memset_ones}
use dynamol.BigInt.Mutate.Partial.{IsChanged}

seg-ones : (i k : ℕ) → seg (λ j. u64_max) i k + 1 ≡ weight k
seg-ones i zero = omega (arith, seg-zero (λ j. u64_max) i, weight-zero)
seg-ones i (suc k) = omega (arith, seg-suc (λ j. u64_max) i k, seg-ones (suc i) k, weight-suc k)

-- `memset` of whole limbs is the loop that fills them.
memset_ones-fill :
    (k : ℕ) (z : BigInt) → k ≤ 2 ^ 60 → memset_ones 0 (u64 (k * 8)) z ≡ fill (λ i. u64_max) k 0 z
unfolding memset_ones
memset_ones-fill k z h =
    let whole : u64 (k * 8) / 8 ≡ k = omega (arith, h) in
    let exact : (u64 (k * 8) % 8 == 0) ≡ true = ground (arith, h) in rw (exact, whole) refl

-- All ones in `k + 1` limbs of a zero bigInt.
pub ones-IsChanged :
    (k : ℕ) (z : BigInt)
    → IsValid z
    → z.n ≡ 0
    → suc k ≤ 2 ^ 60
    → suc k ≤ z.cap
    → IsChanged (record (memset_ones 0 (u64 (suc k * 8)) z) { n = suc k }) z (weight (suc k) - 1)
unfolding limb_at value
ones-IsChanged k z v e small fits =
    let s = fill-SameHeader (λ i. u64_max) (suc k) 0 z in
    let at : (j : ℕ) → j < suc k → limb_at (fill (λ i. u64_max) (suc k) 0 z) j ≡ u64_max = λ j h.
      fill-at (λ i. u64_max) (suc k) 0 j z (omega arith) (omega arith)
        (omega (arith, fits, v.room_cap)) in
    rw (memset_ones-fill (suc k) z small) (
      record {
        room_cap = s.same_room ∙ v.room_cap ∙ sym s.same_cap;
        cap_pos = omega (arith, v.cap_pos, s.same_cap);
        n_cap = omega (arith, fits, s.same_cap);
        sign_unit = rw (s.same_sign) v.sign_unit;
        zero_sign = λ z. absurd (omega (arith, z));
        words = λ i. elim (ltb-cases i (suc k)) [
          | inl (q, h) ↦ subst (λ t. t < word) (sym (at i h)) (omega arith)
          | inr (q, h) ↦
              subst (λ t. t < word) (sym (fill-above (λ i. u64_max) (suc k) 0 i z (omega arith)))
                (v.words i)
        ];
        top = λ m h.
            let last : k ≡ m = suc_inj h in
            subst (λ t. 0 < t) (sym (at m (omega arith))) (omega arith);
      },
      seg_ext _ (λ j. u64_max) 0 (suc k) (λ j p q. at j (omega arith))
          ∙ omega (arith, seg-ones 0 (suc k)),
      λ ne. s.same_sign,
    )

value-seg : (y : BigInt) → seg (limb_at y) 0 y.n ≡ value y
unfolding value
value-seg y = refl

-- The limbs that `bigInt_mutex_or` copies.
seg_min :
    (k : ℕ) (y : BigInt)
    → IsValid y
    → seg (limb_at y) 0 (if ltb y.n k then y.n else k) ≡ value y % weight k
unfolding padded
seg_min k y v = elim (ltb-cases y.n k) [
  | inl (q, h) ↦ rw q (value-seg y ∙ sym (seg-padded y k (omega arith)) ∙ seg-padded_mod y k v)
  | inr (q, h) ↦
      rw q (seg_ext (limb_at y) (padded y) 0 k (λ j p r. ground arith) ∙ seg-padded_mod y k v)
]

pub copied-IsChanged :
    (k : ℕ) (z y : BigInt)
    → IsValid z
    → IsValid y
    → k ≤ z.cap
    → IsChanged
        (normalize (record (memcpy_limbs (if ltb y.n k then y.n else k) z y) {
          n = if ltb y.n k then y.n else k;
        }))
        z
        (value y % weight k)
copied-IsChanged k z y vz vy fits =
    let m : ℕ = if ltb y.n k then y.n else k in
    let (valid, e, sign) =
      trimmed_copy-IsValid m z y vy (ground (arith, vz.room_cap, fits)) (ground (arith, vy.n_cap))
        vz.words z.sign vz.sign_unit vz.room_cap vz.cap_pos in
    (valid, e ∙ seg_min k y vy, sign)
