-- ===== src/BigInt/Mutate/Pairs/Results.antt =====
-- The changing operations with a bigInt on all limbs, on the magnitudes.
use dynamol.Base.{
  ℕ, ◌+◌, ◌-◌, ◌*◌, ◌/◌, ◌%◌, ◌≤◌, ◌<◌, ◌≡◌, ◌≢◌, inl, inr, refl, arith, ap, ap₂, sym, ◌∙◌, true,
  false, some, ◌&&◌,
}
use dynamol.Base.{
  weight, weight-zero, weight-suc, bit_and, bit_or, bit_xor, not64, ==-cases, ◌==◌, if◌then◌else◌,
  u64_max,
}
use dynamol.Base.Bits.Fields.{zero-bit_and, bit_and-zero}
use dynamol.Base.Bits.Split.{
  IsDigitwise, bit_and-IsDigitwise, bit_or-IsDigitwise, bit_xor-IsDigitwise,
}
use native.Mathlib.Nat.{div-eq_of_lt, mod-eq_of_lt, mul-zero, add-zero}
use mathlib.Core.Path.{subst}
use dynamol.BigInt.{BigInt, IsValid, limb_at, set_limb}
use dynamol.BigInt.Status.{success}
use dynamol.BigInt.Value.{value, seg-lt, seg-zero, weight_mono}
use dynamol.BigInt.AddSub.Operands.{value-empty}
use dynamol.BigInt.Order.{validate}
use dynamol.BigInt.Util.{pvalid, is_unit_sign, sign_eq}
use dynamol.BigInt.Room.{Realloc}
use dynamol.BigInt.Bitwise.{padded, normalize, span}
use dynamol.BigInt.Bitwise.Fill.{fill-SameHeader}
use dynamol.BigInt.Bitwise.Values.{padded-lt, seg-padded, both_cases, width}
use dynamol.BigInt.Mutate.{sweep, larger, pvalidate, store_word, reset, through, with_room}
use dynamol.BigInt.Mutate.Sweep.{padded-IsLocal, sweep-fill}
use dynamol.BigInt.Mutate.Partial.{IsChanged, partial_lem, partial_complement_lem}
use dynamol.BigInt.Mutate.Store.{store_word-IsChanged}
use dynamol.BigInt.Mutate.Ranged.{partial}
use dynamol.BigInt.Mutate.Ranged.Outcome.{Becomes, GetsRoom, kept, kept-IsValid, with_room-Becomes}
use dynamol.BigInt.Mutate.Pairs.{combine, mut_and, mut_nand, mut_or, mut_nor, mut_xor, mut_xnor}

combine-partial : (f : ℕ → ℕ → ℕ) (k : ℕ) (z : BigInt) → z.n ≤ k → combine f k z ≡ partial f k z
combine-partial f k z h =
    let same : (sweep padded f k 0 z).n ≡ z.n =
      ap (λ (t : BigInt). t.n) (sweep-fill padded-IsLocal f z k)
      ∙ (fill-SameHeader (λ j. f j (padded z j)) k 0 z).same_n in
    let count : larger (sweep padded f k 0 z).n k ≡ k =
      ap (λ (t : ℕ). larger t k) same ∙ ground (arith, h) in
    ap (λ (t : ℕ). normalize (record (sweep padded f k 0 z) { n = t })) (sym count)

-- A bigInt of at most `k` limbs lies below their weight.
fits_below : (z : BigInt) (k : ℕ) → IsValid z → z.n ≤ k → value z < weight k
unfolding value
fits_below z k vz h = omega (arith, seg-lt (limb_at z) 0 z.n vz.words, weight_mono z.n k h)

low_part :
    (op : ℕ → ℕ → ℕ) (w k v : ℕ)
    → v < weight k
    → op (v % weight k) w + weight k * (v / weight k) ≡ op v w
low_part op w k v h = rw (mod-eq_of_lt h, div-eq_of_lt h, mul-zero (weight k)) (add-zero (op v w))

module _ (z y : BigInt) (vz : IsValid z) (vy : IsValid y) (k : ℕ) (hz : z.n ≤ k) (hy : y.n ≤ k)
    (fits : k ≤ z.cap) where
  combined :
      {native op : ℕ → ℕ → ℕ}
      → IsDigitwise native op
      → IsChanged (combine (λ i a. native a (padded y i)) k z) z (native (value z) (value y))
  combined {native} d = rw (combine-partial (λ i a. native a (padded y i)) k z hz) (
      subst (λ (t : ℕ). IsChanged (partial (λ i a. native a (padded y i)) k z) z t)
        (low_part native (value y) k (value z) (fits_below z k vz hz))
        (partial_lem z vz k fits (padded y) (value y) (padded-lt y vy) (seg-padded y k hy) d))

  combined_complement :
      {native op : ℕ → ℕ → ℕ}
      → IsDigitwise native op
      → IsChanged
          (combine (λ i a. not64 (native a (padded y i))) k z)
          z
          (weight k - 1 - native (value z) (value y))
  combined_complement {native} d =
      rw (combine-partial (λ i a. not64 (native a (padded y i))) k z hz) (
        subst (λ (t : ℕ). IsChanged (partial (λ i a. not64 (native a (padded y i))) k z) z t)
          (low_part (λ v w. weight k - 1 - native v w) (value y) k (value z) (fits_below z k vz hz))
          (partial_complement_lem z vz k fits (padded y) (value y) (padded-lt y vy)
            (seg-padded y k hy) d))

pvalid-true : (x : BigInt) → IsValid x → pvalid (some x) ≡ true
unfolding pvalid is_unit_sign sign_eq
pvalid-true x v = ground (arith, v.room_cap, v.cap_pos, v.n_cap, v.sign_unit)

-- `bigInt_reset` leaves zero.
pub reset-IsChanged : (x : BigInt) → IsValid x → IsChanged (reset x) x 0
unfolding reset value store_word limb_at set_limb
reset-IsChanged x v = rw (pvalid-true x v) (elim (==-cases x.n 0) [
  | inl (q, e) ↦ rw q (
    record {
      room_cap = v.room_cap;
      cap_pos = v.cap_pos;
      n_cap = omega arith;
      sign_unit = inl refl;
      zero_sign = λ e'. refl;
      words = v.words;
      top = λ k e'. absurd (omega (arith, e'));
    },
    seg-zero (limb_at x) 0,
    λ ne. absurd (ne refl),
  )
  | inr (q, e) ↦ rw q (store_word-IsChanged 0 x v (omega arith))
])

module _ {realloc : Realloc} {x z : BigInt} (stray_x stray_y : ℕ) (y : BigInt) (vx : IsValid x)
    (vy : IsValid y) (good : (pvalidate stray_x x && validate stray_y y) ≡ true)
    (room : GetsRoom realloc x (span x y) z) where
  counts : (z.n ≤ span x y) × (y.n ≤ span x y)
  counts =
      let n = (kept vx room).0.keeps_n in
      (subst (λ t. t ≤ span x y) (sym n) (ground arith), ground arith)

  in_place-Becomes :
      {native op : ℕ → ℕ → ℕ}
      → IsDigitwise native op
      → Becomes
          (through
            (with_room realloc x (span x y) (combine (λ i a. native a (padded y i)) (span x y))))
          x
          (native (value x) (value y))
  in_place-Becomes {native} d =
      with_room-Becomes vx room _ (λ v. native v (value y))
        (combined z y (kept-IsValid vx room).0 vy (span x y) counts.0 counts.1 (kept vx room).1 d)

  in_place_complement-Becomes :
      {native op : ℕ → ℕ → ℕ}
      → IsDigitwise native op
      → Becomes
          (through (
            with_room realloc x
              (span x y)
              (combine (λ i a. not64 (native a (padded y i))) (span x y))))
          x
          (weight (span x y) - 1 - native (value x) (value y))
  in_place_complement-Becomes {native} d =
      with_room-Becomes vx room _ (λ v. weight (span x y) - 1 - native v (value y))
        (combined_complement z y (kept-IsValid vx room).0 vy (span x y) counts.0 counts.1
          (kept vx room).1 d)

  unchanged : (v : ℕ) → value x ≡ v → Becomes (some x, success) x v
  unchanged v e = (x, refl, (vx, e, λ ne. refl))

  ones-Becomes :
      (v : ℕ) → v ≡ u64_max → Becomes (some (record (set_limb x 0 u64_max) { n = 1 }), success) x v
  unfolding store_word set_limb
  ones-Becomes v e =
      (store_word u64_max x, refl, rw e (store_word-IsChanged u64_max x vx (omega arith)))

  and-Becomes :
      Becomes
        (through (
          if y.n == 0
          then (reset x, success)
          else if x.n == 0
          then (x, success)
          else with_room realloc x (span x y) (combine (λ i a. bit_and a (padded y i)) (span x y))))
        x
        (bit_and (value x) (value y))
  and-Becomes = elim (==-cases y.n 0) [
    | inl (q, ey) ↦
        rw (q, value-empty y ey, bit_and-zero (value x)) (reset x, refl, reset-IsChanged x vx)
    | inr (q, ly) ↦ elim (==-cases x.n 0) [
      | inl (p, ex) ↦
          rw (q, p)
            (unchanged _ (
              value-empty x ex
              ∙ sym (
                  ap (λ (t : ℕ). bit_and t (value y)) (value-empty x ex) ∙ zero-bit_and (value y))))
      | inr (p, lx) ↦ rw (q, p) (in_place-Becomes bit_and-IsDigitwise)
    ]
  ]

  -- For valid bigInts that pass the guards, do not share a buffer, and have room for the limbs of
  -- the longer one, the operations succeed and leave behind the pointer a valid bigInt with the sign
  -- of `x` unless it is zero: `bigInt_mut_and` and `bigInt_mut_xor` have `&` and `^` of the magnitudes,
  -- `bigInt_mut_nor` and `bigInt_mut_xnor` the complements of `|` and `^` within the limbs of the
  -- longer one, one limb for two zeros.
  pub mut_pair_lem :
      Becomes (mut_and realloc stray_x stray_y false (some x) y) x (bit_and (value x) (value y))
      × Becomes (mut_xor realloc stray_x stray_y false (some x) y) x (bit_xor (value x) (value y))
      × Becomes
          (mut_nor realloc stray_x stray_y false (some x) y)
          x
          (weight (width x y) - 1 - bit_or (value x) (value y))
      × Becomes
          (mut_xnor realloc stray_x stray_y false (some x) y)
          x
          (weight (width x y) - 1 - bit_xor (value x) (value y))
  unfolding mut_and mut_xor mut_nor mut_xnor
  mut_pair_lem =
      let zeros : x.n ≡ 0 → y.n ≡ 0 → (op : ℕ → ℕ → ℕ) → op (value x) (value y) ≡ op 0 0 =
        λ ex ey op. ap₂ op (value-empty x ex) (value-empty y ey) in
      rw good (
        (
          and-Becomes,
          elim (both_cases x.n y.n) [
            | inl (p, ex, ey) ↦ rw p (unchanged _ (value-empty x ex ∙ sym (zeros ex ey bit_xor)))
            | inr p ↦ rw p (in_place-Becomes bit_xor-IsDigitwise)
          ],
          elim (both_cases x.n y.n) [
            | inl (p, ex, ey) ↦
                rw p (ones-Becomes _ (omega (arith, zeros ex ey bit_or, weight-suc 0, weight-zero)))
            | inr p ↦ rw p (in_place_complement-Becomes bit_or-IsDigitwise)
          ],
          elim (both_cases x.n y.n) [
            | inl (p, ex, ey) ↦
                rw p
                  (ones-Becomes _ (omega (arith, zeros ex ey bit_xor, weight-suc 0, weight-zero)))
            | inr p ↦ rw p (in_place_complement-Becomes bit_xor-IsDigitwise)
          ],
        ))

  -- For valid bigInts other than zero that pass the guards, do not share a buffer, and have room for
  -- the limbs of the longer one, the operations succeed and leave behind the pointer a valid bigInt
  -- with the sign of `x` unless it is zero: `bigInt_mut_or` leaves `|` of the
  -- magnitudes and `bigInt_mut_nand` the complement of `&` within the limbs of the longer one.
  pub mut_live_lem :
      x.n ≢ 0
      → y.n ≢ 0
      → Becomes (mut_or realloc stray_x stray_y false (some x) y) x (bit_or (value x) (value y))
        × Becomes
            (mut_nand realloc stray_x stray_y false (some x) y)
            x
            (weight (span x y) - 1 - bit_and (value x) (value y))
  unfolding mut_or mut_nand
  mut_live_lem lx ly =
      let p : (x.n == 0) ≡ false = ground (arith, lx) in
      let q : (y.n == 0) ≡ false = ground (arith, ly) in
      rw (good, p, q)
        (in_place-Becomes bit_or-IsDigitwise, in_place_complement-Becomes bit_and-IsDigitwise)
