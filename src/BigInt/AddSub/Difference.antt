-- ===== src/BigInt/AddSub/Difference.antt =====
-- `sub_wb` gives the difference of the magnitudes, whatever pointers are equal.
use dynamol.Base.{ℕ, zero, suc, ◌+◌, ◌-◌, ◌*◌, ◌≤◌, ◌<◌, ◌≡◌, inl, inr, refl, arith, sym, ap, ◌∙◌}
use dynamol.Base.{==-cases, ltb-cases, word, weight}
use dynamol.BigInt.{BigInt, limb_at, room, Store, IsValid}
use dynamol.BigInt.Value.{seg, value, seg-pad, seg-lt}
use mathlib.Core.Path.{subst}
use dynamol.BigInt.AddSub.{operand, sub_loop, sub_finish, sub_wb}
use dynamol.BigInt.AddSub.Subtracting.{IsTop, sub_loop-IsDifference, sub_loop-IsTop}
use dynamol.BigInt.AddSub.Prepare.{prepare}
use dynamol.BigInt.AddSub.Prepare.{Agrees-value}
use dynamol.BigInt.AddSub.Outcome.{IsOutcome, IsResult, IsBlock, put-IsResult}
use dynamol.BigInt.AddSub.Outcome.{IsPrepared, prepare-IsPrepared, copy-IsResult}
use Prim.Native.Nat.add
use mathlib.Core.Path.{subst, ap₂}
use dynamol.BigInt.Util.Compare.{value-lt_of_n}
use dynamol.BigInt.AddSub.Operands.{operand-word, seg-operand, value-empty}

no_borrow : (z y x w c : ℕ) → z + y + 0 ≡ x + w * c → y ≤ x → z < w → c ≤ 1 → z ≡ x - y
no_borrow z y x w zero e h g k = omega arith
no_borrow z y x w (suc c) e h g k =
    let one : c ≡ 0 = omega arith in omega (arith, ap (λ (t : ℕ). w * suc t) one)

seg-limbs : (x : BigInt) → seg (limb_at x) 0 x.n ≡ value x
unfolding value
seg-limbs x = refl

-- `r` cut to its last limb that is not zero.
topped-IsOutcome :
    (v k top : ℕ) (x r : BigInt)
    → seg (limb_at r) 0 k ≡ v
    → IsTop (limb_at r) k top
    → ((j : ℕ) → limb_at r j < word)
    → r.cap ≡ x.cap
    → room r ≡ room x
    → k ≤ room r
    → IsOutcome v x (record r { n = top })
unfolding value limb_at
topped-IsOutcome v k top x r e (small, zeros, live) w cap room_eq h = record {
  out_value =
      sym (seg-pad (limb_at r) 0 top k small (λ m p q. zeros m (omega arith) (omega arith))) ∙ e;
  out_words = w;
  out_top = live;
  out_n = omega arith;
  out_cap = cap;
  out_room = room_eq;
}

module _ (res a b : ℕ) where
  -- The branch with the loop, where `b` has limbs.
  difference-IsResult :
      (s0 s : Store)
      → IsPrepared res a b s0 s
      → value (s a) ≡ value (s0 a)
      → value (s b) ≡ value (s0 b)
      → (s a).n ≤ room (s res)
      → (s b).n ≤ (s a).n
      → value (s b) ≤ value (s a)
      → IsResult res
          (value (s0 a) - value (s0 b))
          s0
          (sub_finish res a b (sub_loop res a b (s a).n 0 (s, 0, 0)))
  unfolding sub_finish
  difference-IsResult s0 s p ea eb ha hb le =
      let k = (s a).n in
      let out = sub_loop res a b k 0 (s, 0, 0) in
      let diff =
        sub_loop-IsDifference res a b (limb_at (s a)) (operand (s b)) p.valid_a.words
          (operand-word (s b) p.valid_b) k 0 0 0 s (omega arith) (λ j q r. refl) (λ j q. refl)
          p.res_words (omega arith) in
      let (small, zeros, live) =
        sub_loop-IsTop res a b k 0 0 0 s (omega arith)
          (omega arith, (λ j q r. absurd (omega arith)), λ m e. absurd (omega arith)) in
      let sa = seg-limbs (s a) in
      let sb = seg-operand (s b) k hb in
      let below = seg-lt (limb_at (out.0 res)) 0 k diff.run.words in
      let v =
        no_borrow (seg (limb_at (out.0 res)) 0 k) (value (s b)) (value (s a)) (weight k) out.1
          (omega (arith, diff.total, sa, sb)) le below diff.borrow in
      put-IsResult res _ s0 out.0 _
        (topped-IsOutcome _ k out.2 (s0 res) (out.0 res) (v ∙ ap₂ ◌-◌ ea eb)
          (subst (λ t. IsTop (limb_at (out.0 res)) t out.2) (add.zero k) (small, zeros, live))
          diff.run.words (diff.run.header.same_cap ∙ p.same_block.block_cap)
          (diff.run.header.same_room ∙ p.same_block.block_room)
          (omega (arith, diff.run.header.same_room)))
        (λ q h. diff.run.others q h ∙ p.others q h)

  -- For valid operands, the first not below the second in magnitude, and a block at `res` whose
  -- cells are words, that has the cells it claims and room for the first, `sub_wb` leaves the
  -- difference of the magnitudes at `res`, trimmed, and changes no other bigInt.
  pub sub_wb-IsResult :
      (s : Store)
      → IsValid (s a)
      → IsValid (s b)
      → IsBlock (s res)
      → (s a).n ≤ room (s res)
      → value (s b) ≤ value (s a)
      → IsResult res (value (s a) - value (s b)) s (sub_wb res a b s)
  unfolding sub_wb
  sub_wb-IsResult s va vb block ha le =
      let s1 = prepare res a b s in
      let p = prepare-IsPrepared res a b s va vb block in
      let ea = Agrees-value p.agrees_a in
      let eb = Agrees-value p.agrees_b in
      let roomy : (s1 a).n ≤ room (s1 res) =
        omega (arith, p.agrees_a.agree_n, p.same_block.block_room) in
      elim (==-cases (s1 b).n 0) [
        | inl (q, z) ↦ rw q (
            copy-IsResult res _ a s s1 p.valid_a (omega (arith, ea, eb, value-empty (s1 b) z))
              p.same_block p.res_words p.others p.res_room roomy)
        | inr (q, z) ↦ rw q (
            difference-IsResult s s1 p ea eb roomy
              (elim (ltb-cases (s1 a).n (s1 b).n) [
                | inl (l, g) ↦
                    absurd (omega (arith, value-lt_of_n (s1 a) (s1 b) p.valid_a p.valid_b g))
                | inr (l, g) ↦ g
              ])
              (omega arith))
      ]
