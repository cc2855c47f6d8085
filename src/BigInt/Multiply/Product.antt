-- ===== src/BigInt/Multiply/Product.antt =====
-- The schoolbook product is the product of the magnitudes.
use dynamol.Base.{
  ℕ, suc, ◌+◌, ◌-◌, ◌*◌, ◌≤◌, ◌<◌, ◌≡◌, ◌≢◌, refl, inl, inr, arith, ap, sym, ◌∙◌, word, weight,
  ==-cases, ◌==◌, if◌then◌else◌,
}
use native.Mathlib.Nat.{zero-add, add-zero}
use dynamol.BigInt.{BigInt, IsValid, limb_at, set_limb, room}
use dynamol.BigInt.Memory.{
  limb_at-set_self, limb_at-set_ne, SameHeader, SameHeader-refl, SameHeader-trans,
  set_limb-SameHeader,
}
use dynamol.BigInt.Value.{value, seg, seg-add, seg-last, seg_ext}
use dynamol.BigInt.Util.Compare.{seg-last0}
use dynamol.BigInt.Multiply.{mul_row, ripple}
use dynamol.BigInt.Multiply.Row.{set-words, RowDone, mul_row-RowDone, ripple-once}

-- After `i` rounds of the outer loop the cells below `i + b.n` hold the product of the low `i`
-- limbs of `a` and `b`, and the other cells of the result are zero.
pub record RowsDone (a b : BigInt) (i : ℕ) (res : BigInt) : Type 0 where
  pub done_value : seg (limb_at res) 0 (i + b.n) ≡ seg (limb_at a) 0 i * value b
  pub done_zero : (m : ℕ) → i + b.n ≤ m → m < a.n + b.n → limb_at res m ≡ 0
  pub done_words : (m : ℕ) → limb_at res m < word

shift : (i n : ℕ) → suc i + n ≡ i + suc n
shift i n = omega arith

spread : (w s c v : ℕ) → w * (s + c * v) ≡ w * s + w * (c * v)
spread w s c v = grind arith

gather : (s w c v : ℕ) → (s + w * c) * v ≡ s * v + w * (c * v)
gather s w c v = grind arith

module _ (a b : BigInt) (va : IsValid a) (vb : IsValid b) where
  -- The carry of a row goes into one cell.
  carried : ℕ → ℕ → BigInt → BigInt
  carried k carry res = if carry == 0 then res else set_limb res k carry

  carried-at :
      (k carry : ℕ) (res : BigInt)
      → k < room res
      → limb_at res k ≡ 0
      → limb_at (carried k carry res) k ≡ carry
  unfolding carried
  carried-at k carry res h z = elim (==-cases carry 0) [
    | inl (q, e) ↦ rw q (z ∙ sym e)
    | inr (q, e) ↦ rw q (limb_at-set_self res k carry h)
  ]

  carried-ne :
      (k carry m : ℕ) (res : BigInt) → k ≢ m → limb_at (carried k carry res) m ≡ limb_at res m
  unfolding carried
  carried-ne k carry m res h = elim (==-cases carry 0) [
    | inl (q, e) ↦ rw q refl
    | inr (q, e) ↦ rw q (limb_at-set_ne res k m carry h)
  ]

  carried-words :
      (k carry : ℕ) (res : BigInt)
      → k < room res
      → carry < word
      → ((m : ℕ) → limb_at res m < word)
      → (m : ℕ) → limb_at (carried k carry res) m < word
  unfolding carried
  carried-words k carry res h c words m = elim (==-cases carry 0) [
    | inl (q, e) ↦ rw q (words m)
    | inr (q, e) ↦ rw q (set-words res k carry h c words m)
  ]

  carried-SameHeader : (k carry : ℕ) (res : BigInt) → SameHeader res (carried k carry res)
  unfolding carried
  carried-SameHeader k carry res = elim (==-cases carry 0) [
    | inl (q, e) ↦ rw q (SameHeader-refl res)
    | inr (q, e) ↦ rw q (set_limb-SameHeader res k carry)
  ]

  module _ (i : ℕ) (res : BigInt) (inside : i < a.n) (rooms : room res ≡ res.cap)
      (fits : a.n + b.n ≤ res.cap) (h : RowsDone a b i res) where
    abbrev row : BigInt × ℕ
    row = mul_row (limb_at a i) b i b.n 0 0 res

    row-done : RowDone (i + 0) b.n (0 + limb_at a i * seg (limb_at b) 0 b.n) res row
    row-done =
        mul_row-RowDone (limb_at a i) b i (va.words i) vb b.n 0 0 res (omega arith) h.done_words
          (omega (arith, rooms))

    pub after : BigInt
    after = carried (i + b.n) row.1 row.0

    pub ripple-after : ripple (res.cap - (i + b.n)) (i + b.n) row.1 row.0 ≡ after
    unfolding after carried
    ripple-after =
        let count : res.cap - (i + b.n) ≡ suc (res.cap - (i + b.n) - 1) = omega (arith, fits) in
        ap (λ (t : ℕ). ripple t (i + b.n) row.1 row.0) count
        ∙ ripple-once (res.cap - (i + b.n) - 1) (i + b.n) row.1 row.0
            (row-done.row_above (i + b.n) (omega arith)
              ∙ h.done_zero (i + b.n) (omega arith) (omega arith))
            row-done.row_carry

    pub after-SameHeader : SameHeader res after
    unfolding after
    after-SameHeader =
        SameHeader-trans row-done.row_header (carried-SameHeader (i + b.n) row.1 row.0)

    into : room row.0 ≡ res.cap
    into = row-done.row_header.same_room ∙ rooms

    -- The row adds its product to the cells from `i` on, with the carry on top.
    row_value : seg (limb_at after) i (suc b.n) ≡ seg (limb_at res) i b.n + limb_at a i * value b
    unfolding after value
    row_value =
        let k : ℕ = i + b.n in
        let top : limb_at (carried k row.1 row.0) k ≡ row.1 =
          carried-at k row.1 row.0 (omega (arith, into, fits))
            (row-done.row_above k (omega arith) ∙ h.done_zero k (omega arith) (omega arith)) in
        let low : seg (limb_at (carried k row.1 row.0)) i b.n ≡ seg (limb_at row.0) i b.n =
          seg_ext _ (limb_at row.0) i b.n
            (λ m p q. carried-ne k row.1 m row.0 (λ e. omega (arith, e))) in
        omega (
          arith,
          seg-last (limb_at (carried k row.1 row.0)) i b.n,
          low,
          ap (λ (t : ℕ). weight b.n * t) top,
          row-done.row_sum,
          ap (λ (t : ℕ). seg (limb_at row.0) t b.n) (add-zero i),
          ap (λ (t : ℕ). seg (limb_at res) t b.n) (add-zero i),
        )

    lower_value : seg (limb_at after) 0 i ≡ seg (limb_at res) 0 i
    unfolding after
    lower_value = seg_ext (limb_at after) (limb_at res) 0 i (λ m p q.
        carried-ne (i + b.n) row.1 m row.0 (λ e. omega (arith, e))
        ∙ row-done.row_below m (omega arith))

    pub after-RowsDone : RowsDone a b (suc i) after
    unfolding after
    after-RowsDone = record {
      done_value =
          ap (seg (limb_at after) 0) (shift i b.n)
          ∙ seg-add (limb_at after) 0 i (suc b.n)
          ∙ ap (λ (t : ℕ). seg (limb_at after) 0 i + weight i * seg (limb_at after) t (suc b.n))
              (zero-add i)
          ∙ omega (
            arith,
            lower_value,
            ap (λ (t : ℕ). weight i * t) row_value,
            h.done_value,
            seg-add (limb_at res) 0 i b.n,
            ap (λ (t : ℕ). weight i * seg (limb_at res) t b.n) (zero-add i),
            ap (λ (t : ℕ). t * value b) (seg-last0 (limb_at a) i),
            spread (weight i) (seg (limb_at res) i b.n) (limb_at a i) (value b),
            gather (seg (limb_at a) 0 i) (weight i) (limb_at a i) (value b),
          );
      done_zero = λ m p q.
          carried-ne (i + b.n) row.1 m row.0 (λ e. omega (arith, e))
          ∙ row-done.row_above m (omega arith)
          ∙ h.done_zero m (omega arith) q;
      done_words =
          carried-words (i + b.n) row.1 row.0 (omega (arith, into, fits)) row-done.row_carry
            row-done.row_words;
    }
