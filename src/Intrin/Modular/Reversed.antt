-- ===== src/Intrin/Modular/Reversed.antt =====
-- The product modulo a limb without `__int128`.
use dynamol.Base.{
  ℕ, zero, suc, ◌+◌, ◌-◌, ◌*◌, ◌/◌, ◌%◌, ◌^◌, ◌≤◌, ◌<◌, ◌≡◌, arith, ap, sym, ◌∙◌, inl, inr, not,
  ◌&&◌, if◌then◌else◌, ◌==◌, leb, ==-cases, ltb-cases, bit_and, word, two-pow-suc,
}
use native.Mathlib.Nat.{
  mod-lt, mul-add-mod_self_left, pow-suc, div-div-eq-div-mul, mod-eq_of_lt, add-mul-mod_self_left,
  div-add-mod,
}
use dynamol.Base.Bits.{bit_and-mask}
use dynamol.Intrin.Arith.{wmul128}
use dynamol.Intrin.Arith.Wide.{wmul128_lem}
use dynamol.Intrin.Modular.{modmul_round, modmul_loop, modmul, modmul_wide, modexp}
use dynamol.Intrin.Modular.Power.{modmul_wide_lem, modexp_lem}

-- The low `n` bits of a number in the opposite order.
pub reversed : ℕ → ℕ → ℕ
reversed zero x = 0
reversed (suc n) x = x % 2 * 2 ^ n + reversed n (x / 2)

once : (m t : ℕ) → m ≤ t → t < m + m → t % m ≡ t - m
once m t l u =
    let split : t ≡ t - m + m * 1 = omega (arith, l) in
    ap (λ (v : ℕ). v % m) split ∙ add-mul-mod_self_left (t - m) m 1 ∙ mod-eq_of_lt (omega arith)

-- A round doubles the remainder and adds the bit.
round_lem : (m lo i rem : ℕ) → rem < m → modmul_round m lo i rem ≡ (2 * rem + lo / 2 ^ i % 2) % m
unfolding modmul_round
round_lem m lo i rem h =
    let masked : bit_and (lo / 2 ^ i) 1 ≡ lo / 2 ^ i % 2 = bit_and-mask 1 (lo / 2 ^ i) in
    let bit : ℕ = lo / 2 ^ i % 2 in rw masked (cases bit (omega arith))
  where
    cases :
        (b : ℕ)
        → b < 2
        → (if b == 0
            then (if leb (m - rem) rem then rem - (m - rem) else rem + rem)
            else (if leb m ((if leb (m - rem) rem then rem - (m - rem) else rem + rem) + 1)
                then (if leb (m - rem) rem then rem - (m - rem) else rem + rem) + 1 - m
                else (if leb (m - rem) rem then rem - (m - rem) else rem + rem) + 1))
          ≡ (2 * rem + b) % m
    cases b hb = elim (ltb-cases (2 * rem + b) m) [
      | inl (q, l) ↦
          let value : (2 * rem + b) % m ≡ 2 * rem + b = mod-eq_of_lt l in
          ground (arith, h, hb, value)
      | inr (q, l) ↦
          let value : (2 * rem + b) % m ≡ 2 * rem + b - m = once m (2 * rem + b) l (omega arith) in
          ground (arith, h, hb, value)
    ]

reduce : (x y z m : ℕ) → (x % m * y + z) % m ≡ (x * y + z) % m
reduce x y z m =
    let spread : (m * (x / m) + x % m) * y + z ≡ m * (x / m * y) + (x % m * y + z) = grind arith in
    sym (
      ap (λ (t : ℕ). (t * y + z) % m) (sym (div-add-mod x m))
      ∙ ap (λ (t : ℕ). t % m) spread
      ∙ mul-add-mod_self_left m (x / m * y) (x % m * y + z))

loop_lem :
    (m lo left i rem : ℕ)
    → rem < m
    → modmul_loop m lo left i rem ≡ (rem * 2 ^ left + reversed left (lo / 2 ^ i)) % m
unfolding modmul_loop reversed
loop_lem m lo zero i rem h = sym (mod-eq_of_lt h) ∙ ap (λ (t : ℕ). t % m) (omega arith)
loop_lem m lo (suc left) i rem h =
    let bit : ℕ = lo / 2 ^ i % 2 in
    let low : ℕ = reversed left (lo / 2 ^ i / 2) in
    let next : lo / 2 ^ suc i ≡ lo / 2 ^ i / 2 =
      ap (λ (t : ℕ). lo / t) (pow-suc 2 i) ∙ sym (div-div-eq-div-mul lo (2 ^ i) 2) in
    let spread : (2 * rem + bit) * 2 ^ left + low ≡ rem * (2 * 2 ^ left) + (bit * 2 ^ left + low) =
      grind arith in
    ap (modmul_loop m lo left (suc i)) (round_lem m lo i rem h)
    ∙ loop_lem m lo left (suc i) ((2 * rem + bit) % m) (mod-lt _ (omega (arith, h)))
    ∙ ap (λ (t : ℕ). ((2 * rem + bit) % m * 2 ^ left + reversed left t) % m) next
    ∙ reduce (2 * rem + bit) (2 ^ left) low m
    ∙ ap (λ (t : ℕ). t % m) spread
    ∙ ap (λ (t : ℕ). (rem * t + (bit * 2 ^ left + low)) % m) (sym (two-pow-suc left))

modmul_lem :
    (a b m : ℕ)
    → a < word
    → b < word
    → 0 < m
    → (modmul_wide a b m ≡ a * b % m)
      × (modmul a b m ≡ (
          if a * b / word == 0
          then a * b % m
          else (a * b / word * word + reversed 64 (a * b % word)) % m))
unfolding modmul
modmul_lem a b m ha hb pos =
    let (e, low, high) = wmul128_lem a b ha hb in
    let hi : (wmul128 a b).1 ≡ a * b / word = omega (arith, e, low) in
    let lo : (wmul128 a b).0 ≡ a * b % word = omega (arith, e, low) in
    (
      modmul_wide_lem a b m ha hb,
      elim (==-cases (a * b / word) 0) [
        | inl (q, none) ↦
            let small : a * b % word ≡ a * b = omega (arith, none) in
            rw (hi, lo, q) (ap (λ (t : ℕ). t % m) small)
        | inr (q, more) ↦
            rw (hi, lo, q)
              (loop_lem m (a * b % word) 64 0 (a * b / word % m) (mod-lt _ pos)
                ∙ ap (λ (t : ℕ). (a * b / word % m * 2 ^ 64 + reversed 64 t) % m) (omega arith)
                ∙ reduce (a * b / word) (2 ^ 64) (reversed 64 (a * b % word)) m)
      ],
    )

-- For limbs and a positive limb `m`: with `__int128` the product modulo `m` is `a * b % m`. Without
-- it, that holds when the product fits in a limb; else the low half of the product goes in with
-- its 64 bits in the opposite order. `modexp` is `a ^ b % m`, except that `a` to the first, with a
-- modulus other than 1, is returned without reducing it.
pub modular_lem :
    (a b m : ℕ)
    → a < word
    → b < word
    → 0 < m
    → m < word
    → (modmul_wide a b m ≡ a * b % m)
      × (modmul a b m ≡ (
          if a * b / word == 0
          then a * b % m
          else (a * b / word * word + reversed 64 (a * b % word)) % m))
      × (modexp a b m ≡ (if (b == 1) && not (m == 1) then a else a ^ b % m))
modular_lem a b m ha hb pos hm =
    let (wide, narrow) = modmul_lem a b m ha hb pos in (wide, narrow, modexp_lem m pos hm a b ha hb)
