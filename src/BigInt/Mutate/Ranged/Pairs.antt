-- ===== src/BigInt/Mutate/Ranged/Pairs.antt =====
-- The changing operations with a bigInt and an explicit count of limbs, on the magnitudes.
use dynamol.Base.{
  ℕ, suc, ◌+◌, ◌-◌, ◌*◌, ◌/◌, ◌%◌, ◌≡◌, inl, inr, refl, arith, ap, ap₂, sym, ◌∙◌, true, false, some,
  ◌&&◌,
}
use dynamol.Base.{weight, bit_and, bit_or, bit_xor, not64, u64, ltb, ==-cases, ◌==◌, if◌then◌else◌}
use dynamol.Base.Bits.Fields.{bit_or-zero, zero-bit_or}
use dynamol.Base.Bits.Split.{
  IsDigitwise, bit_and-IsDigitwise, bit_or-IsDigitwise, bit_xor-IsDigitwise,
}
use native.Mathlib.Nat.{zero-mod, mod-add-div}
use dynamol.BigInt.{BigInt, IsValid}
use dynamol.BigInt.Value.{value}
use dynamol.BigInt.AddSub.Operands.{value-empty}
use dynamol.BigInt.Order.{validate}
use dynamol.BigInt.Room.{Realloc}
use dynamol.BigInt.Bitwise.{padded, normalize}
use dynamol.BigInt.Copies.{memcpy_limbs}
use dynamol.BigInt.Bitwise.Values.{padded-lt, both_cases}
use dynamol.BigInt.Bitwise.Ranged.Results.{seg-padded_mod}
use dynamol.BigInt.Mutate.{pvalidate, reset, memset_ones}
use dynamol.BigInt.Mutate.Partial.{IsChanged, partial_lem, partial_complement_lem}
use dynamol.BigInt.Mutate.Pairs.Results.{reset-IsChanged}
use dynamol.BigInt.Mutate.Ranged.Outcome.{Becomes, GetsRoom, kept, kept-IsValid, ranging-Becomes}
use dynamol.BigInt.Mutate.Ranged.Loop.{lower_limbs, complement, lower_limbs-and_zero}
use dynamol.BigInt.Mutate.Ranged.Words.{lower_limbs_zero}
use dynamol.BigInt.Mutate.Ranged.Ones.{ones-IsChanged, copied-IsChanged}
use dynamol.BigInt.Mutate.Ranged.{partial, mutex_and, mutex_or, mutex_nor, mutex_xor, mutex_xnor}

lower_limbs-or_zero : (k v : ℕ) → lower_limbs bit_or k 0 v ≡ v
lower_limbs-or_zero k v =
    ap (λ (t : ℕ). t + weight k * (v / weight k)) (bit_or-zero (v % weight k))
    ∙ mod-add-div v (weight k)

-- What `bigInt_mutex_and` makes of the magnitude `v`: a zero `y` clears the limbs above, too.
abbrev pub and_result : BigInt → ℕ → ℕ → ℕ
and_result y k v = if y.n == 0 then 0 else lower_limbs bit_and k (value y % weight k) v

module _ {realloc : Realloc} {x z : BigInt} (stray_x stray_y : ℕ) (y : BigInt) (k : ℕ)
    (vx : IsValid x) (vy : IsValid y) (good : (pvalidate stray_x x && validate stray_y y) ≡ true)
    (room : GetsRoom realloc x (suc k) z) where
  -- The low limbs of `y`.
  abbrev w : ℕ
  w = value y % weight (suc k)

  looped :
      {native op : ℕ → ℕ → ℕ}
      → IsDigitwise native op
      → IsChanged
          (partial (λ i a. native a (padded y i)) (suc k) z)
          z
          (lower_limbs native (suc k) w (value z))
  looped d =
      partial_lem z (kept-IsValid vx room).0 (suc k) (kept vx room).1 (padded y) w (padded-lt y vy)
        (seg-padded_mod y (suc k) vy) d

  turned :
      {native op : ℕ → ℕ → ℕ}
      → IsDigitwise native op
      → IsChanged
          (partial (λ i a. not64 (native a (padded y i))) (suc k) z)
          z
          (lower_limbs (complement native (suc k)) (suc k) w (value z))
  turned d =
      partial_complement_lem z (kept-IsValid vx room).0 (suc k) (kept vx room).1 (padded y) w
        (padded-lt y vy) (seg-padded_mod y (suc k) vy) d

  w_zero : y.n ≡ 0 → w ≡ 0
  w_zero e = ap (λ (t : ℕ). t % weight (suc k)) (value-empty y e) ∙ zero-mod (weight (suc k))

  zeros : (op : ℕ → ℕ → ℕ) → z.n ≡ 0 → y.n ≡ 0 → lower_limbs op (suc k) w (value z) ≡ op 0 0
  zeros op ez ey =
      ap₂ (lower_limbs op (suc k)) (w_zero ey) (value-empty z ez) ∙ lower_limbs_zero op (suc k) 0

  and_body :
      IsChanged
        (if z.n == 0
          then z
          else if y.n == 0
          then reset z
          else partial (λ i a. bit_and a (padded y i)) (suc k) z)
        z
        (and_result y (suc k) (value z))
  and_body =
      let vz = (kept-IsValid vx room).0 in
      elim (==-cases y.n 0) [
        | inl (q, ey) ↦ elim (==-cases z.n 0) [
          | inl (p, ez) ↦ rw (p, q) (vz, value-empty z ez, λ ne. refl)
          | inr (p, lz) ↦ rw (p, q) (reset-IsChanged z vz)
        ]
        | inr (q, ly) ↦ elim (==-cases z.n 0) [
          | inl (p, ez) ↦
              rw (p, q)
                (
                  vz,
                  value-empty z ez
                      ∙ sym (
                          ap (lower_limbs bit_and (suc k) w) (value-empty z ez)
                          ∙ lower_limbs-and_zero (suc k) w),
                  λ ne. refl,
                )
          | inr (p, lz) ↦ rw (p, q) (looped bit_and-IsDigitwise)
        ]
      ]

  or_body :
      IsChanged
        (if z.n == 0
          then normalize (record (memcpy_limbs (if ltb y.n (suc k) then y.n else suc k) z y) {
            n = if ltb y.n (suc k) then y.n else suc k;
          })
          else if y.n == 0
          then z
          else partial (λ i a. bit_or a (padded y i)) (suc k) z)
        z
        (lower_limbs bit_or (suc k) w (value z))
  or_body =
      let vz = (kept-IsValid vx room).0 in
      elim (==-cases z.n 0) [
        | inl (p, ez) ↦
            rw (p, value-empty z ez, lower_limbs_zero bit_or (suc k) w, zero-bit_or w)
              (copied-IsChanged (suc k) z y vz vy (kept vx room).1)
        | inr (p, lz) ↦ elim (==-cases y.n 0) [
          | inl (q, ey) ↦
              rw (p, q, w_zero ey, lower_limbs-or_zero (suc k) (value z)) (vz, refl, λ ne. refl)
          | inr (q, ly) ↦ rw (p, q) (looped bit_or-IsDigitwise)
        ]
      ]

  xor_body :
      IsChanged
        (if (z.n == 0) && (y.n == 0) then z else partial (λ i a. bit_xor a (padded y i)) (suc k) z)
        z
        (lower_limbs bit_xor (suc k) w (value z))
  xor_body = elim (both_cases z.n y.n) [
    | inl (p, ez, ey) ↦
        rw (p, zeros bit_xor ez ey) ((kept-IsValid vx room).0, value-empty z ez, λ ne. refl)
    | inr p ↦ rw p (looped bit_xor-IsDigitwise)
  ]

  complement_body :
      {native op : ℕ → ℕ → ℕ}
      → IsDigitwise native op
      → native 0 0 ≡ 0
      → IsChanged
          (if (z.n == 0) && (y.n == 0)
            then record (memset_ones 0 (u64 (suc k * 8)) z) { n = suc k }
            else partial (λ i a. not64 (native a (padded y i))) (suc k) z)
          z
          (lower_limbs (complement native (suc k)) (suc k) w (value z))
  complement_body {native} d base = elim (both_cases z.n y.n) [
    | inl (p, ez, ey) ↦
        let all : complement native (suc k) 0 0 ≡ weight (suc k) - 1 =
          omega (arith, ap (λ (t : ℕ). weight (suc k) - 1 - t) base) in
        rw (p, zeros (complement native (suc k)) ez ey, all)
          (ones-IsChanged k z (kept-IsValid vx room).0 ez room.bounded (kept vx room).1)
    | inr p ↦ rw p (turned d)
  ]

  -- For valid bigInts that pass the guards and do not share a buffer, and a count of `k + 1` limbs
  -- for which there is room, the operations succeed and leave behind the pointer a valid bigInt
  -- with the sign of `x` unless it is zero. `bigInt_mutex_or` and `bigInt_mutex_xor` have `|` and `^`,
  -- `bigInt_mutex_nor` and `bigInt_mutex_xnor` their complements, of the low `k + 1` limbs, below the
  -- limbs of `x` above those; so has `bigInt_mutex_and` `&`, except that with `y` zero it leaves zero.
  pub mutex_pair_lem :
      Becomes
        (mutex_and realloc stray_x stray_y false (some x) y (suc k))
        x
        (and_result y (suc k) (value x))
      × Becomes
          (mutex_or realloc stray_x stray_y false (some x) y (suc k))
          x
          (lower_limbs bit_or (suc k) (value y % weight (suc k)) (value x))
      × Becomes
          (mutex_xor realloc stray_x stray_y false (some x) y (suc k))
          x
          (lower_limbs bit_xor (suc k) (value y % weight (suc k)) (value x))
      × Becomes
          (mutex_nor realloc stray_x stray_y false (some x) y (suc k))
          x
          (lower_limbs (complement bit_or (suc k)) (suc k) (value y % weight (suc k)) (value x))
      × Becomes
          (mutex_xnor realloc stray_x stray_y false (some x) y (suc k))
          x
          (lower_limbs (complement bit_xor (suc k)) (suc k) (value y % weight (suc k)) (value x))
  unfolding mutex_and mutex_or mutex_xor mutex_nor mutex_xnor
  mutex_pair_lem = rw good (
      (
        ranging-Becomes vx room _ (and_result y (suc k)) and_body,
        ranging-Becomes vx room _ (lower_limbs bit_or (suc k) w) or_body,
        ranging-Becomes vx room _ (lower_limbs bit_xor (suc k) w) xor_body,
        ranging-Becomes vx room _ (lower_limbs (complement bit_or (suc k)) (suc k) w)
            (complement_body bit_or-IsDigitwise refl),
        ranging-Becomes vx room _ (lower_limbs (complement bit_xor (suc k)) (suc k) w)
            (complement_body bit_xor-IsDigitwise refl),
      ))
