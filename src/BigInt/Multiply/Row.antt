-- ===== src/BigInt/Multiply/Row.antt =====
-- One row of the product.
use dynamol.Base.{
  ℕ, zero, suc, ◌+◌, ◌-◌, ◌*◌, ◌≤◌, ◌<◌, ◌≡◌, refl, inl, inr, arith, ap, ap₂, sym, ◌∙◌, word,
  weight, weight-zero, weight-suc,
}
use dynamol.Base.{flag, u64, ltb, ==-cases, ◌==◌, if◌then◌else◌}
use mathlib.Core.Path.{subst}
use native.Mathlib.Decide.{ℕ_discrete}
use native.Mathlib.Nat.{mul-le-mul}
use dynamol.Intrin.Arith.{wmul128}
use dynamol.Intrin.Arith.Wide.{wmul128_lem}
use dynamol.BigInt.{BigInt, IsValid, limb_at, set_limb, room}
use dynamol.BigInt.Memory.{
  limb_at-set_self, limb_at-set_ne, SameHeader, SameHeader-refl, SameHeader-trans,
  set_limb-SameHeader,
}
use dynamol.BigInt.Value.{seg, seg-zero, seg-suc, seg_ext}
use dynamol.BigInt.Multiply.{mul_cell, mul_row, ripple}

-- The largest product of two words, with two more words, fits in two words.
product_bound : (a b : ℕ) → a < word → b < word → a * b ≤ (word - 1) * (word - 1)
product_bound a b ha hb = mul-le-mul {n₂ = word - 1} {m₂ = word - 1} (omega arith) (omega arith)

-- The cell and the carry are the two digits of `cell + carry + a * b`.
pub mul_cell_lem :
    (a b cell carry : ℕ)
    → a < word
    → b < word
    → cell < word
    → carry < word
    → ((mul_cell a b cell carry).0 + word * (mul_cell a b cell carry).1 ≡ cell + carry + a * b)
      × ((mul_cell a b cell carry).0 < word)
      × ((mul_cell a b cell carry).1 < word)
unfolding mul_cell
mul_cell_lem a b cell carry ha hb hc hr =
    let (e, low, high) = wmul128_lem a b ha hb in
    let bound = product_bound a b ha hb in
    digits (wmul128 a b).0 (wmul128 a b).1 (a * b) e low high bound
  where
    digits :
        (lo hi p : ℕ)
        → lo + word * hi ≡ p
        → lo < word
        → hi < word
        → p ≤ (word - 1) * (word - 1)
        → (u64 (u64 (cell + lo) + carry)
              + word
                * u64 (
                    hi
                    + (flag (ltb (u64 (cell + lo)) lo)
                        + flag (ltb (u64 (u64 (cell + lo) + carry)) carry)))
            ≡ cell + carry + p)
          × (u64 (u64 (cell + lo) + carry) < word)
          × (u64 (
                hi
                + (flag (ltb (u64 (cell + lo)) lo)
                    + flag (ltb (u64 (u64 (cell + lo) + carry)) carry)))
              < word)
    digits lo hi p e hl hh bound = ground arith

-- Cells are words after a write of a word.
pub set-words :
    (x : BigInt) (i v : ℕ)
    → i < room x
    → v < word
    → ((m : ℕ) → limb_at x m < word)
    → (m : ℕ) → limb_at (set_limb x i v) m < word
set-words x i v b h words m = elim (ℕ_discrete i m) [
  | yes e ↦
      subst (λ (t : ℕ). limb_at (set_limb x i v) t < word) e
        (subst (λ t. t < word) (sym (limb_at-set_self x i v b)) h)
  | no e ↦ subst (λ t. t < word) (sym (limb_at-set_ne x i m v e)) (words m)
]

-- What the rounds of the inner loop over `left` cells from cell `p` do: `added` goes into them.
pub record RowDone (p left added : ℕ) (res : BigInt) (out : BigInt × ℕ) : Type 0 where
  pub row_sum : seg (limb_at out.0) p left + weight left * out.1 ≡ seg (limb_at res) p left + added
  pub row_carry : out.1 < word
  pub row_words : (m : ℕ) → limb_at out.0 m < word
  pub row_below : (m : ℕ) → m < p → limb_at out.0 m ≡ limb_at res m
  pub row_above : (m : ℕ) → p + left ≤ m → limb_at out.0 m ≡ limb_at res m
  pub row_header : SameHeader res out.0

next : (i j : ℕ) → i + suc j ≡ suc (i + j)
next i j = omega arith

distribute : (a b w s : ℕ) → a * (b + w * s) ≡ a * b + w * (a * s)
distribute a b w s = grind arith

module _ (a : ℕ) (b : BigInt) (i : ℕ) (ha : a < word) (vb : IsValid b) where
  pub mul_row-RowDone :
      (left j carry : ℕ) (res : BigInt)
      → carry < word
      → ((m : ℕ) → limb_at res m < word)
      → i + j + left ≤ room res
      → RowDone
          (i + j)
          left
          (carry + a * seg (limb_at b) j left)
          res
          (mul_row a b i left j carry res)
  unfolding mul_row
  mul_row-RowDone zero j carry res hc words fits = record {
    row_sum = omega (
      arith,
      seg-zero (limb_at res) (i + j),
      ap (λ (t : ℕ). t * carry) weight-zero,
      ap (λ (t : ℕ). a * t) (seg-zero (limb_at b) j),
    );
    row_carry = hc;
    row_words = words;
    row_below = λ m h. refl;
    row_above = λ m h. refl;
    row_header = SameHeader-refl res;
  }
  mul_row-RowDone (suc left) j carry res hc words fits =
      let p : ℕ = i + j in
      let cell = mul_cell a (limb_at b j) (limb_at res p) carry in
      let (sum, low, high) =
        mul_cell_lem a (limb_at b j) (limb_at res p) carry ha (vb.words j) (words p) hc in
      let res' = set_limb res p cell.0 in
      let inside : p < room res = omega arith in
      let header = set_limb-SameHeader res p cell.0 in
      let ih =
        mul_row-RowDone left (suc j) cell.1 res' high (set-words res p cell.0 inside low words)
          (omega (arith, header.same_room)) in
      let last = mul_row a b i left (suc j) cell.1 res' in
      let here : limb_at last.0 p ≡ cell.0 =
        ih.row_below p (omega arith) ∙ limb_at-set_self res p cell.0 inside in
      let rest : seg (limb_at res') (i + suc j) left ≡ seg (limb_at res) (suc p) left =
        ap (λ (t : ℕ). seg (limb_at res') t left) (next i j)
        ∙ seg_ext (limb_at res') (limb_at res) (suc p) left
            (λ m h g. limb_at-set_ne res p m cell.0 (λ e. omega arith)) in
      record {
        row_sum = omega (
          arith,
          seg-suc (limb_at last.0) p left,
          seg-suc (limb_at res) p left,
          here,
          sum,
          ih.row_sum,
          rest,
          ap (λ (t : ℕ). seg (limb_at last.0) t left) (next i j),
          ap (λ (t : ℕ). t * last.1) (weight-suc left),
          ap (λ (t : ℕ). a * t) (seg-suc (limb_at b) j left),
          distribute a (limb_at b j) word (seg (limb_at b) (suc j) left),
        );
        row_carry = ih.row_carry;
        row_words = ih.row_words;
        row_below =
            λ m h. ih.row_below m (omega arith) ∙ limb_at-set_ne res p m cell.0 (λ e. omega arith);
        row_above =
            λ m h. ih.row_above m (omega arith) ∙ limb_at-set_ne res p m cell.0 (λ e. omega arith);
        row_header = SameHeader-trans header ih.row_header;
      }

ripple-done : (left k : ℕ) (res : BigInt) → ripple left k 0 res ≡ res
unfolding ripple
ripple-done zero k res = refl
ripple-done (suc left) k res = refl

-- Into a cell that is zero the carry goes in one round.
pub ripple-once :
    (left k carry : ℕ) (res : BigInt)
    → limb_at res k ≡ 0
    → carry < word
    → ripple (suc left) k carry res ≡ (if carry == 0 then res else set_limb res k carry)
unfolding ripple
ripple-once left k carry res e h = elim (==-cases carry 0) [
  | inl (q, z) ↦ rw q refl
  | inr (q, z) ↦
      let exact : u64 (limb_at res k + carry) ≡ carry = omega (arith, e, h) in
      let none : flag (ltb (u64 (limb_at res k + carry)) carry) ≡ 0 = ground (arith, exact) in
      rw q (
        ap₂ (λ (c v : ℕ). ripple left (suc k) c (set_limb res k v)) none exact
        ∙ ripple-done left (suc k) (set_limb res k carry))
]
