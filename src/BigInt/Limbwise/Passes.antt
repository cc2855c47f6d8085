-- ===== src/BigInt/Limbwise/Passes.antt =====
-- What a pass over the limbs does to the number, from what its step does to a limb.
use dynamol.Base.{
  ℕ, zero, suc, ◌+◌, ◌*◌, ◌≤◌, ◌<◌, ◌≡◌, refl, arith, ap, ◌∙◌, word, weight, weight-zero,
  weight-suc,
}
use dynamol.BigInt.{BigInt, limb_at, set_limb, room}
use dynamol.BigInt.Memory.{
  limb_at-set_self, limb_at-set_ne, SameHeader, SameHeader-refl, SameHeader-trans,
  set_limb-SameHeader,
}
use dynamol.BigInt.Value.{seg, seg-zero, seg-suc, seg_ext}
use dynamol.BigInt.Util.Compare.{seg-last0}
use dynamol.BigInt.Multiply.Row.{set-words}
use dynamol.BigInt.Limbwise.{upward, downward}

-- A step that multiplies by `factor` and adds the carry.
pub record IsScaling (step : ℕ → ℕ → ℕ × ℕ) (factor : ℕ) : Type 0 where
  pub scales :
      (limb c : ℕ)
      → limb < word
      → c < factor
      → (step limb c).0 + word * (step limb c).1 ≡ factor * limb + c
  pub scaled_limb : (limb c : ℕ) → limb < word → c < factor → (step limb c).0 < word
  pub scaled_carry : (limb c : ℕ) → limb < word → c < factor → (step limb c).1 < factor

pub record Scaled (factor i left carry : ℕ) (x : BigInt) (out : BigInt × ℕ) : Type 0 where
  pub total :
      seg (limb_at out.0) i left + weight left * out.1 ≡ factor * seg (limb_at x) i left + carry
  pub last_carry : out.1 < factor
  pub words : (m : ℕ) → limb_at out.0 m < word
  pub below : (m : ℕ) → m < i → limb_at out.0 m ≡ limb_at x m
  pub header : SameHeader x out.0

distribute : (a b w s : ℕ) → a * (b + w * s) ≡ a * b + w * (a * s)
distribute a b w s = grind arith

pub upward-Scaled :
    (step : ℕ → ℕ → ℕ × ℕ) (factor : ℕ)
    → IsScaling step factor
    → (left i carry : ℕ) (x : BigInt) → carry < factor
    → ((m : ℕ) → limb_at x m < word)
    → i + left ≤ room x
    → Scaled factor i left carry x (upward step left i carry x)
unfolding upward
upward-Scaled step factor h zero i carry x hc words fits = record {
  total = omega (
    arith,
    seg-zero (limb_at x) i,
    ap (λ (t : ℕ). t * carry) weight-zero,
    ap (λ (t : ℕ). factor * t) (seg-zero (limb_at x) i),
  );
  last_carry = hc;
  words = words;
  below = λ m l. refl;
  header = SameHeader-refl x;
}
upward-Scaled step factor h (suc left) i carry x hc words fits =
    let out = step (limb_at x i) carry in
    let x' = set_limb x i out.0 in
    let inside : i < room x = omega arith in
    let header = set_limb-SameHeader x i out.0 in
    let ih =
      upward-Scaled step factor h left (suc i) out.1 x'
        (h.scaled_carry (limb_at x i) carry (words i) hc)
        (set-words x i out.0 inside (h.scaled_limb (limb_at x i) carry (words i) hc) words)
        (omega (arith, header.same_room)) in
    let end = upward step left (suc i) out.1 x' in
    let here : limb_at end.0 i ≡ out.0 =
      ih.below i (omega arith) ∙ limb_at-set_self x i out.0 inside in
    let rest : seg (limb_at x') (suc i) left ≡ seg (limb_at x) (suc i) left =
      seg_ext (limb_at x') (limb_at x) (suc i) left
        (λ m p q. limb_at-set_ne x i m out.0 (λ e. omega (arith, e))) in
    record {
      total = omega (
        arith,
        seg-suc (limb_at end.0) i left,
        here,
        h.scales (limb_at x i) carry (words i) hc,
        ih.total,
        ap (λ (t : ℕ). factor * t) rest,
        ap (λ (t : ℕ). t * end.1) (weight-suc left),
        ap (λ (t : ℕ). factor * t) (seg-suc (limb_at x) i left),
        distribute factor (limb_at x i) word (seg (limb_at x) (suc i) left),
      );
      last_carry = ih.last_carry;
      words = ih.words;
      below = λ m l. ih.below m (omega arith) ∙ limb_at-set_ne x i m out.0 (λ e. omega (arith, e));
      header = SameHeader-trans header ih.header;
    }

-- A step that divides the carry and the limb by `factor`.
pub record IsDividing (step : ℕ → ℕ → ℕ × ℕ) (factor : ℕ) : Type 0 where
  pub divides :
      (limb c : ℕ)
      → limb < word
      → c < factor
      → factor * (step limb c).0 + (step limb c).1 ≡ c * word + limb
  pub quotient_limb : (limb c : ℕ) → limb < word → c < factor → (step limb c).0 < word
  pub remainder_lt : (limb c : ℕ) → limb < word → c < factor → (step limb c).1 < factor

pub record Divided (factor i carry : ℕ) (x : BigInt) (out : BigInt × ℕ) : Type 0 where
  pub balance : factor * seg (limb_at out.0) 0 i + out.1 ≡ carry * weight i + seg (limb_at x) 0 i
  pub remainder : out.1 < factor
  pub words : (m : ℕ) → limb_at out.0 m < word
  pub above : (m : ℕ) → i ≤ m → limb_at out.0 m ≡ limb_at x m
  pub header : SameHeader x out.0

spread : (f s w q : ℕ) → f * (s + w * q) ≡ f * s + w * (f * q)
spread f s w q = grind arith

factor_out : (w r f q : ℕ) → r * w + w * (f * q) ≡ w * (f * q + r)
factor_out w r f q = grind arith

expand : (w c b l : ℕ) → w * (c * b + l) ≡ c * (b * w) + w * l
expand w c b l = grind arith

collect : (w r f q c b l : ℕ) → f * q + r ≡ c * b + l → r * w + w * (f * q) ≡ c * (b * w) + w * l
collect w r f q c b l h = factor_out w r f q ∙ ap (λ (t : ℕ). w * t) h ∙ expand w c b l

pub downward-Divided :
    (step : ℕ → ℕ → ℕ × ℕ) (factor : ℕ)
    → IsDividing step factor
    → (i carry : ℕ) (x : BigInt) → carry < factor
    → ((m : ℕ) → limb_at x m < word)
    → i ≤ room x
    → Divided factor i carry x (downward step i carry x)
unfolding downward
downward-Divided step factor h zero carry x hc words fits = record {
  balance = omega (
    arith,
    seg-zero (limb_at x) 0,
    ap (λ (t : ℕ). carry * t) weight-zero,
    ap (λ (t : ℕ). factor * t) (seg-zero (limb_at x) 0),
  );
  remainder = hc;
  words = words;
  above = λ m l. refl;
  header = SameHeader-refl x;
}
downward-Divided step factor h (suc i) carry x hc words fits =
    let out = step (limb_at x i) carry in
    let x' = set_limb x i out.0 in
    let inside : i < room x = omega arith in
    let header = set_limb-SameHeader x i out.0 in
    let ih =
      downward-Divided step factor h i out.1 x' (h.remainder_lt (limb_at x i) carry (words i) hc)
        (set-words x i out.0 inside (h.quotient_limb (limb_at x i) carry (words i) hc) words)
        (omega (arith, header.same_room)) in
    let end = downward step i out.1 x' in
    let here : limb_at end.0 i ≡ out.0 =
      ih.above i (omega arith) ∙ limb_at-set_self x i out.0 inside in
    let rest : seg (limb_at x') 0 i ≡ seg (limb_at x) 0 i =
      seg_ext (limb_at x') (limb_at x) 0 i
        (λ m p q. limb_at-set_ne x i m out.0 (λ e. omega (arith, e))) in
    record {
      balance = omega (
        arith,
        ih.balance,
        rest,
        ap (λ (t : ℕ). factor * t) (seg-last0 (limb_at end.0) i),
        ap (λ (t : ℕ). factor * (seg (limb_at end.0) 0 i + weight i * t)) here,
        spread factor (seg (limb_at end.0) 0 i) (weight i) out.0,
        seg-last0 (limb_at x) i,
        ap (λ (t : ℕ). carry * t) (weight-suc i),
        collect (weight i) out.1 factor out.0 carry word (limb_at x i)
            (h.divides (limb_at x i) carry (words i) hc),
      );
      remainder = ih.remainder;
      words = ih.words;
      above = λ m l. ih.above m (omega arith) ∙ limb_at-set_ne x i m out.0 (λ e. omega (arith, e));
      header = SameHeader-trans header ih.header;
    }
