-- ===== src/Intrin/Crt/Zeros.antt =====
-- The counts without branches, intrinsics/crt_vanillc/_crt_vanillc_bitops.c, against the plain ones.
use dynamol.Base.{
  ℕ, ◌+◌, ◌-◌, ◌*◌, ◌/◌, ◌%◌, ◌^◌, ◌≤◌, ◌<◌, ◌≡◌, ◌≢◌, refl, arith, ap, ap₂, sym, ◌∙◌, inl, inr,
  ◌==◌, ==-cases, bit_and, word, u8, two-pow-add, if◌then◌else◌,
}
use mathlib.Core.Path.{subst}
use native.Mathlib.Nat.{div-add-mod, div-le_self, add-mul-mod_self_left, mod-eq_of_lt, one-le-pow}
use dynamol.Base.Bits.{bit_and-mask}
use dynamol.Intrin.Crt.{crt_skip, crt_ctz_round, crt_ctz64, lnot, crt_select}
use dynamol.Intrin.Crt.Compare.{crt_select-if}
use dynamol.Intrin.Bits.Isolate.{LowestBit}

-- `x` is the current value, shifted by the count, and one of its low `s` bits is set.
abbrev Counting : ℕ → ℕ → ℕ × ℕ → Type 0
Counting s x (y, c) = (x ≡ 2 ^ c * y) × (y % 2 ^ s ≢ 0) × (y < word) × (c + s ≤ 64)

pub skip_lem : (y m s : ℕ) → s < word → crt_skip y m s ≡ (if bit_and y m == 0 then s else 0)
unfolding crt_skip
skip_lem y m s h = crt_select-if (lnot (bit_and y m)) s 0 h (omega arith) ∙ ground arith

pub exact_u8 : (n : ℕ) → n ≤ 64 → u8 n ≡ n
exact_u8 n h = omega arith

pub grouped : (a b y : ℕ) → a * (b * y) ≡ a * b * y
grouped a b y = grind arith

doubled : (s y : ℕ) → y % 2 ^ s ≡ 0 → y / 2 ^ s % 2 ^ s ≡ 0 → y % 2 ^ (s + s) ≡ 0
doubled s y low high =
    let q : ℕ = y / 2 ^ s / 2 ^ s in
    let outer : 2 ^ s * (y / 2 ^ s) ≡ y = omega (arith, div-add-mod y (2 ^ s), low) in
    let inner : 2 ^ s * q ≡ y / 2 ^ s = omega (arith, div-add-mod (y / 2 ^ s) (2 ^ s), high) in
    let whole : y ≡ 0 + 2 ^ (s + s) * q =
      sym outer
      ∙ ap (λ (t : ℕ). 2 ^ s * t) (sym inner)
      ∙ grouped (2 ^ s) (2 ^ s) q
      ∙ ap (λ (t : ℕ). t * q) (sym (two-pow-add s s))
      ∙ omega arith in
    ap (λ (t : ℕ). t % 2 ^ (s + s)) whole
    ∙ add-mul-mod_self_left 0 (2 ^ (s + s)) q
    ∙ mod-eq_of_lt (one-le-pow (s + s) 2 (omega arith))

round_lem :
    (s x : ℕ) (r : ℕ × ℕ)
    → s ≤ 32
    → Counting (s + s) x r
    → Counting s x (crt_ctz_round s (2 ^ s - 1) r)
unfolding crt_ctz_round
round_lem s x (y, c) h (e, ne, l, b) =
    let masked : bit_and y (2 ^ s - 1) ≡ y % 2 ^ s = bit_and-mask s y in
    let chosen = skip_lem y (2 ^ s - 1) s (omega (arith, h)) in
    elim (==-cases (bit_and y (2 ^ s - 1)) 0) [
      | inr (q, set) ↦
          let skip : crt_skip y (2 ^ s - 1) s ≡ 0 = chosen ∙ rw q refl in
          let same : crt_ctz_round s (2 ^ s - 1) (y, c) ≡ (y, c) =
            ap (λ (t : ℕ). (y / 2 ^ t, u8 (c + t))) skip
            ∙ ap₂ (λ (u v : ℕ). (u, v)) (omega arith) (omega (arith, b)) in
          subst (Counting s x) (sym same) (e, λ z. set (masked ∙ z), l, omega (arith, b))
      | inl (q, none) ↦
          let skip : crt_skip y (2 ^ s - 1) s ≡ s = chosen ∙ rw q refl in
          let count : u8 (c + s) ≡ c + s = exact_u8 (c + s) (omega (arith, b)) in
          let same : crt_ctz_round s (2 ^ s - 1) (y, c) ≡ (y / 2 ^ s, c + s) =
            ap (λ (t : ℕ). (y / 2 ^ t, u8 (c + t))) skip ∙ ap (λ (v : ℕ). (y / 2 ^ s, v)) count in
          let whole : 2 ^ s * (y / 2 ^ s) ≡ y =
            omega (arith, div-add-mod y (2 ^ s), masked, none) in
          subst (Counting s x) (sym same) (
            e
                ∙ ap (λ (t : ℕ). 2 ^ c * t) (sym whole)
                ∙ grouped (2 ^ c) (2 ^ s) (y / 2 ^ s)
                ∙ ap (λ (t : ℕ). t * (y / 2 ^ s)) (sym (two-pow-add c s)),
            λ z. ne (doubled s y (omega (arith, div-add-mod y (2 ^ s), masked, none)) z),
            omega (arith, div-le_self y (2 ^ s), l),
            omega (arith, b),
          )
    ]

pub last_count : (x count : ℕ) → x ≢ 0 → count ≤ 64 → u8 (crt_select (lnot x) 64 (u8 count)) ≡ count
last_count x count ne h = elim (==-cases x 0) [
  | inl (q, e) ↦ absurd (ne e)
  | inr (q, _) ↦
      let chosen : crt_select (lnot x) 64 (u8 count) ≡ u8 count =
        crt_select-if (lnot x) 64 (u8 count) (omega arith) (omega arith) ∙ rw q refl in
      omega (arith, ap u8 chosen, h)
]

ctz_end :
    (x : ℕ) (r : ℕ × ℕ)
    → x ≢ 0
    → Counting 2 x r
    → LowestBit 64 x (u8 (crt_select (lnot x) 64 (u8 (r.1 + lnot (bit_and r.0 1)))))
ctz_end x (y, c) nz (e, ne, l, b) =
    let masked : bit_and y 1 ≡ y % 2 = bit_and-mask 1 y in
    elim (==-cases (bit_and y 1) 0) [
      | inl (q, even) ↦
          let bit : lnot (bit_and y 1) ≡ 1 = rw q refl in
          subst (LowestBit 64 x)
            (sym (
              last_count x (c + lnot (bit_and y 1)) nz (omega (arith, bit, b))
              ∙ ap (λ (t : ℕ). c + t) bit))
            (record {
              place = omega (arith, b);
              odd_part = y / 4;
              odd_multiple =
                  e
                  ∙ ap (λ (t : ℕ). 2 ^ c * t) (halves y (omega (arith, masked, even)) ne)
                  ∙ grouped (2 ^ c) (2 ^ 1) (2 * (y / 4) + 1)
                  ∙ ap (λ (t : ℕ). t * (2 * (y / 4) + 1)) (sym (two-pow-add c 1));
            })
      | inr (q, odd) ↦
          let bit : lnot (bit_and y 1) ≡ 0 = rw q refl in
          subst (LowestBit 64 x)
            (sym (
              last_count x (c + lnot (bit_and y 1)) nz (omega (arith, bit, b))
              ∙ ap (λ (t : ℕ). c + t) bit
              ∙ omega arith))
            (record {
              place = omega (arith, b);
              odd_part = y / 2;
              odd_multiple = e ∙ ap (λ (t : ℕ). 2 ^ c * t) (omega (arith, masked, odd));
            })
    ]
  where
    halves : (y : ℕ) → y % 2 ≡ 0 → y % 2 ^ 2 ≢ 0 → y ≡ 2 ^ 1 * (2 * (y / 4) + 1)
    halves y h ne = omega (arith, h, ne)

-- The same count without branches.
pub crt_ctz64_lem : (x : ℕ) → x ≢ 0 → x < word → LowestBit 64 x (crt_ctz64 x)
unfolding crt_ctz64
crt_ctz64_lem x ne h =
    let r1 =
      round_lem 32 x (x, 0) (omega arith)
        (omega arith, λ z. ne (omega (arith, z, h)), h, omega arith) in
    let r2 = round_lem 16 x _ (omega arith) r1 in
    let r3 = round_lem 8 x _ (omega arith) r2 in
    let r4 = round_lem 4 x _ (omega arith) r3 in ctz_end x _ ne (round_lem 2 x _ (omega arith) r4)
