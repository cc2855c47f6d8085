-- ===== src/Intrin/Modular/Power.antt =====
-- The power modulo a limb.
use dynamol.Base.{
  ℕ, zero, suc, ◌+◌, ◌*◌, ◌/◌, ◌%◌, ◌^◌, ◌<◌, ◌≡◌, refl, arith, ap, sym, ◌∙◌, inl, inr, false, not,
  ◌&&◌, if◌then◌else◌, ◌==◌, ==-cases, Bool-cases, bit_and, word, two-pow-suc,
}
use native.Mathlib.Nat.{
  mul-add-mod_self_left, div-add-mod, mod-lt, mod-eq_of_lt, pow-suc, pow-zero, mul_comm,
}
use dynamol.Base.Bits.{bit_and-mask, bit_or-fields}
use dynamol.Intrin.Arith.{wmul128}
use dynamol.Intrin.Arith.Wide.{wmul128_lem}
use dynamol.Intrin.Modular.{modmul_wide, modexp_loop, modexp}

pub modmul_wide_lem :
    (a b modulus : ℕ) → a < word → b < word → modmul_wide a b modulus ≡ a * b % modulus
unfolding modmul_wide
modmul_wide_lem a b modulus ha hb =
    let (e, low, high) = wmul128_lem a b ha hb in
    ap (λ (t : ℕ). t % modulus)
      (bit_or-fields 64 (wmul128 a b).1 (wmul128 a b).0 low ∙ omega (arith, e))

-- A factor can be reduced first.
mod-mul : (a b m : ℕ) → a % m * b % m ≡ a * b % m
mod-mul a b m =
    let spread : (m * (a / m) + a % m) * b ≡ m * (a / m * b) + a % m * b = grind arith in
    sym (
      ap (λ (t : ℕ). t * b % m) (sym (div-add-mod a m))
      ∙ ap (λ (t : ℕ). t % m) spread
      ∙ mul-add-mod_self_left m (a / m * b) (a % m * b))

mul-mod : (a b m : ℕ) → a * (b % m) % m ≡ a * b % m
mul-mod a b m =
    ap (λ (t : ℕ). t % m) (mul_comm a (b % m))
    ∙ mod-mul b a m
    ∙ ap (λ (t : ℕ). t % m) (mul_comm b a)

mod-pow : (b n m : ℕ) → (b % m) ^ n % m ≡ b ^ n % m
mod-pow b zero m = ap (λ (t : ℕ). t % m) (pow-zero (b % m) ∙ sym (pow-zero b))
mod-pow b (suc n) m =
    ap (λ (t : ℕ). t % m) (pow-suc (b % m) n)
    ∙ mul-mod ((b % m) ^ n) b m
    ∙ sym (mod-mul ((b % m) ^ n) b m)
    ∙ ap (λ (t : ℕ). t * b % m) (mod-pow b n m)
    ∙ mod-mul (b ^ n) b m
    ∙ ap (λ (t : ℕ). t % m) (sym (pow-suc b n))

square-pow : (b q : ℕ) → (b * b) ^ q ≡ b ^ (q + q)
square-pow b zero = pow-zero (b * b) ∙ sym (pow-zero b)
square-pow b (suc q) =
    let index : suc q + suc q ≡ suc (suc (q + q)) = omega arith in
    let regroup : b ^ (q + q) * (b * b) ≡ b ^ (q + q) * b * b = grind arith in
    pow-suc (b * b) q
    ∙ ap (λ (t : ℕ). t * (b * b)) (square-pow b q)
    ∙ regroup
    ∙ ap (λ (t : ℕ). t * b) (sym (pow-suc b (q + q)))
    ∙ sym (pow-suc b (suc (q + q)))
    ∙ ap (λ (t : ℕ). b ^ t) (sym index)

times_none : (r b : ℕ) → r * b ^ 0 ≡ r
times_none r b = ap (λ (t : ℕ). r * t) (pow-zero b) ∙ omega arith

-- What is left of the power after a round.
round_even : (b e r m : ℕ) → e % 2 ≡ 0 → r * (b * b % m) ^ (e / 2) % m ≡ r * b ^ e % m
round_even b e r m even =
    sym (mul-mod r ((b * b % m) ^ (e / 2)) m)
    ∙ ap (λ (t : ℕ). r * t % m) (mod-pow (b * b) (e / 2) m)
    ∙ mul-mod r ((b * b) ^ (e / 2)) m
    ∙ ap (λ (t : ℕ). r * t % m) (square-pow b (e / 2) ∙ ap (λ (t : ℕ). b ^ t) (omega (arith, even)))

round_odd : (b e r m : ℕ) → e % 2 ≡ 1 → r * b % m * (b * b % m) ^ (e / 2) % m ≡ r * b ^ e % m
round_odd b e r m odd =
    let index : e ≡ suc (e / 2 + e / 2) = omega (arith, odd) in
    let power : b ^ e ≡ b ^ (e / 2 + e / 2) * b =
      ap (λ (t : ℕ). b ^ t) index ∙ pow-suc b (e / 2 + e / 2) in
    let regroup : r * b * b ^ (e / 2 + e / 2) ≡ r * (b ^ (e / 2 + e / 2) * b) = grind arith in
    mod-mul (r * b) ((b * b % m) ^ (e / 2)) m
    ∙ sym (mul-mod (r * b) ((b * b % m) ^ (e / 2)) m)
    ∙ ap (λ (t : ℕ). r * b * t % m) (mod-pow (b * b) (e / 2) m)
    ∙ mul-mod (r * b) ((b * b) ^ (e / 2)) m
    ∙ ap (λ (t : ℕ). t % m)
        (ap (λ (t : ℕ). r * b * t) (square-pow b (e / 2))
          ∙ regroup
          ∙ ap (λ (t : ℕ). r * t) (sym power))

module _ (modulus : ℕ) (pos : 0 < modulus) (small : modulus < word) where
  reduced_lt : (n : ℕ) → n % modulus < word
  reduced_lt n = let l : n % modulus < modulus = mod-lt n pos in omega (arith, l, small)

  loop_lem :
      (fuel base exp res : ℕ)
      → exp < 2 ^ fuel
      → base < word
      → res < modulus
      → modexp_loop modulus fuel base exp res ≡ res * base ^ exp % modulus
  unfolding modexp_loop
  loop_lem zero base exp res h hb hr =
      let none : exp ≡ 0 = omega arith in
      sym (
        ap (λ (t : ℕ). res * base ^ t % modulus) none
        ∙ ap (λ (t : ℕ). t % modulus) (times_none res base)
        ∙ mod-eq_of_lt hr)
  loop_lem (suc fuel) base exp res h hb hr =
      let masked : bit_and exp 1 ≡ exp % 2 = bit_and-mask 1 exp in
      let square = modmul_wide_lem base base modulus hb hb in
      let shorter : exp / 2 < 2 ^ fuel = omega (arith, two-pow-suc fuel, h) in
      elim (==-cases exp 0) [
        | inl (q, none) ↦ rw q (
            sym (
              ap (λ (t : ℕ). res * base ^ t % modulus) none
              ∙ ap (λ (t : ℕ). t % modulus) (times_none res base)
              ∙ mod-eq_of_lt hr))
        | inr (q, some_bit) ↦ elim (==-cases (bit_and exp 1) 0) [
          | inl (even, e) ↦
              rw (q, even, square)
                (loop_lem fuel (base * base % modulus) (exp / 2) res shorter
                    (reduced_lt (base * base)) hr
                  ∙ round_even base exp res modulus (sym masked ∙ e))
          | inr (odd, e) ↦
              let product = modmul_wide_lem res base modulus (omega (arith, hr, small)) hb in
              rw (q, odd, square, product)
                (loop_lem fuel (base * base % modulus) (exp / 2) (res * base % modulus) shorter
                    (reduced_lt (base * base)) (mod-lt _ pos)
                  ∙ round_odd base exp res modulus (omega (arith, masked, e)))
        ]
      ]

  -- For a limb as base, exponent and positive modulus `modexp` is the power modulo `modulus`, except
  -- that a base to the first, with a modulus other than 1, is returned without reducing it.
  pub modexp_lem :
      (base exp : ℕ)
      → base < word
      → exp < word
      → modexp base exp modulus
        ≡ (if (exp == 1) && not (modulus == 1) then base else base ^ exp % modulus)
  unfolding modexp
  modexp_lem base exp hb he = elim (==-cases modulus 1) [
    | inl (one, e) ↦
        let zero_rest : base ^ exp % modulus ≡ 0 = ap (λ (t : ℕ). base ^ exp % t) e ∙ omega arith in
        elim (Bool-cases (exp == 1)) [
          | inl q ↦ rw (one, q) (sym zero_rest)
          | inr q ↦ rw (one, q) (sym zero_rest)
        ]
    | inr (one, ne) ↦ elim (==-cases exp 0) [
      | inl (none, e) ↦
          let other : (exp == 1) ≡ false = ap (λ (t : ℕ). t == 1) e in
          rw (one, none, other)
            (sym (
              ap (λ (t : ℕ). base ^ t % modulus) e
              ∙ ap (λ (t : ℕ). t % modulus) (pow-zero base)
              ∙ mod-eq_of_lt (omega (arith, pos, ne))))
      | inr (none, ne0) ↦ elim (==-cases exp 1) [
        | inl (first, e) ↦ rw (one, none, first) refl
        | inr (first, ne1) ↦
            rw (one, none, first)
              (loop_lem 64 (base % modulus) exp 1 he (reduced_lt base) (omega (arith, pos, ne))
                ∙ ap (λ (t : ℕ). t % modulus) (once ((base % modulus) ^ exp))
                ∙ mod-pow base exp modulus)
      ]
    ]
  ]
    where
      once : (n : ℕ) → 1 * n ≡ n
      once n = omega arith
