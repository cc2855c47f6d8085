-- ===== src/BigInt/Multiply/Schoolbook.antt =====
-- All rows, and the whole product.
use dynamol.Base.{
  ℕ, zero, suc, ◌+◌, ◌*◌, ◌≤◌, ◌<◌, ◌≡◌, ◌≢◌, inl, inr, arith, ap, sym, ◌∙◌, word, ==-cases,
}
use mathlib.Core.Path.{subst}
use dynamol.BigInt.{BigInt, IsValid, limb_at, room}
use dynamol.BigInt.Memory.{SameHeader, SameHeader-refl, SameHeader-trans}
use dynamol.BigInt.Value.{value, seg-zero, seg_zeros}
use dynamol.BigInt.Util.{trim_lz}
use dynamol.BigInt.Util.Copy.{trim_lz-IsTrimmed}
use dynamol.BigInt.AddSub.Outcome.{IsBlock}
use dynamol.BigInt.AddSub.Signs.{IsUnitSign}
use dynamol.BigInt.Bitwise.{fill}
use dynamol.BigInt.Bitwise.Fill.{fill-SameHeader, fill-at}
use dynamol.BigInt.Mutate.Sweep.{fill-word}
use dynamol.BigInt.Multiply.{mul_rows, schoolbook}
use dynamol.BigInt.Multiply.Product.{
  RowsDone, after, ripple-after, after-SameHeader, after-RowsDone,
}

module _ (a b : BigInt) (va : IsValid a) (vb : IsValid b) where
  mul_rows-RowsDone :
      (left i : ℕ) (res : BigInt)
      → i + left ≡ a.n
      → room res ≡ res.cap
      → a.n + b.n ≤ res.cap
      → RowsDone a b i res
      → RowsDone a b a.n (mul_rows a b left i res) × SameHeader res (mul_rows a b left i res)
  unfolding mul_rows
  mul_rows-RowsDone zero i res e rooms fits h =
      let last : i ≡ a.n = omega (arith, e) in
      (subst (λ (t : ℕ). RowsDone a b t res) last h, SameHeader-refl res)
  mul_rows-RowsDone (suc left) i res e rooms fits h =
      let inside : i < a.n = omega (arith, e) in
      let next = after a b va vb i res inside rooms fits h in
      let header = after-SameHeader a b va vb i res inside rooms fits h in
      let (done, same) =
        mul_rows-RowsDone left (suc i) next (omega (arith, e))
          (header.same_room ∙ rooms ∙ sym header.same_cap) (omega (arith, fits, header.same_cap))
          (after-RowsDone a b va vb i res inside rooms fits h) in
      rw (ripple-after a b va vb i res inside rooms fits h) (done, SameHeader-trans header same)

  -- The cells that `memset` clears.
  cleared-RowsDone :
      (res : BigInt)
      → IsBlock res
      → a.n + b.n ≤ res.cap
      → RowsDone a b 0 (fill (λ i. 0) (a.n + b.n) 0 res)
  cleared-RowsDone res block fits =
      let k : ℕ = a.n + b.n in
      let inside : k ≤ room res = omega (arith, fits, block.block_cap_room) in
      let zero_at : (m : ℕ) → m < k → limb_at (fill (λ i. 0) k 0 res) m ≡ 0 =
        λ m h. fill-at (λ i. 0) k 0 m res (omega arith) (omega arith) (omega arith) in
      record {
        done_value =
            seg_zeros (limb_at (fill (λ i. 0) k 0 res)) 0 (0 + b.n)
              (λ m p q. zero_at m (omega arith))
            ∙ omega (arith, ap (λ (t : ℕ). t * value b) (seg-zero (limb_at a) 0));
        done_zero = λ m p q. zero_at m q;
        done_words = fill-word (λ i. 0) k res (λ i. omega arith) block.block_words inside;
      }

  -- For valid operands and another block with room for the limbs of both, `__BIGINT_SCHOOLBOOK__` leaves in it a
  -- valid bigInt whose magnitude is the product of the magnitudes, with the sign that the block had,
  -- unless it is zero.
  pub schoolbook-product :
      (res : BigInt)
      → IsBlock res
      → IsUnitSign res.sign
      → a.n + b.n ≤ res.cap
      → IsValid (schoolbook a b res)
        × (value (schoolbook a b res) ≡ value a * value b)
        × ((schoolbook a b res).n ≢ 0 → (schoolbook a b res).sign ≡ res.sign)
  unfolding schoolbook value limb_at
  schoolbook-product res block unit fits =
      let k : ℕ = a.n + b.n in
      let cleared : BigInt = fill (λ i. 0) k 0 res in
      let c = fill-SameHeader (λ i. 0) k 0 res in
      let (rows, s) =
        mul_rows-RowsDone a.n 0 cleared (omega arith)
          (c.same_room ∙ block.block_cap_room ∙ sym c.same_cap) (omega (arith, fits, c.same_cap))
          (cleared-RowsDone res block fits) in
      let r : BigInt = record (mul_rows a b a.n 0 cleared) { n = k } in
      let t = trim_lz-IsTrimmed r in
      let header = SameHeader-trans c s in
      (
        record {
          room_cap =
              t.trim_room
              ∙ header.same_room
              ∙ block.block_cap_room
              ∙ sym (t.trim_cap ∙ header.same_cap);
          cap_pos =
              omega (arith, t.trim_cap, header.same_cap, block.block_pos, block.block_cap_room);
          n_cap = omega (arith, t.trim_cap, t.trim_n, header.same_cap, fits);
          sign_unit = elim (==-cases (trim_lz r).n 0) [
            | inl (q, e) ↦ inl (t.trim_zero_sign e)
            | inr (q, e) ↦ subst IsUnitSign (sym (t.trim_sign e ∙ header.same_sign)) unit
          ];
          zero_sign = t.trim_zero_sign;
          words = λ i. subst (λ t. t < word) (sym (t.trim_limbs i)) (rows.done_words i);
          top = t.trim_top;
        },
        t.trim_value ∙ rows.done_value,
        λ ne. t.trim_sign ne ∙ header.same_sign,
      )
