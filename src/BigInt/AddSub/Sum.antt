-- ===== src/BigInt/AddSub/Sum.antt =====
-- `add_wc` gives the sum of the magnitudes, whatever pointers are equal.
use dynamol.Base.{ℕ, suc, ◌+◌, ◌*◌, ◌≤◌, ◌≡◌, ◌≢◌, ◌⊎◌, inl, inr, refl, arith, ap, ◌∙◌}
use dynamol.Base.{==-cases, weight, if◌then◌else◌, ltb}
use dynamol.BigInt.{room, Store, IsValid}
use dynamol.BigInt.Value.{seg, value}
use dynamol.BigInt.AddSub.{operand, add_loop, add_finish, add_wc}
use dynamol.BigInt.AddSub.Adding.{IsSum, add_loop-IsSum}
use dynamol.BigInt.AddSub.Prepare.{SameBlock, prepare}
use dynamol.BigInt.AddSub.Prepare.{Agrees-value}
use dynamol.BigInt.AddSub.Outcome.{IsResult, IsBlock, put-IsResult}
use dynamol.BigInt.AddSub.Outcome.{
  closed-IsOutcome, carried-IsOutcome, IsPrepared, prepare-IsPrepared, copy-IsResult,
}
use dynamol.BigInt.AddSub.Operands.{operand-word, seg-operand, value-le, value-empty}

module _ (res a b : ℕ) where
  -- What follows the loop, from the store `s` that the loop starts in.
  finish-IsResult :
      (m v : ℕ) (s0 s : Store) (out : Store × ℕ) (X Y : ℕ → ℕ)
      → IsSum res 0 m 0 s X Y out
      → seg X 0 m + seg Y 0 m ≡ v
      → SameBlock (s0 res) (s res)
      → ((p : ℕ) → res ≢ p → s p ≡ s0 p)
      → m + 1 ≤ room (s res)
      → ((k : ℕ) → m ≡ suc k → weight k ≤ v)
      → IsResult res v s0 (add_finish res a b m out)
  unfolding add_finish
  finish-IsResult m v s0 s (s1, c) X Y sum e block others h big =
      let capped = sum.run.header.same_cap ∙ block.block_cap in
      let roomed = sum.run.header.same_room ∙ block.block_room in
      let kept = λ (p : ℕ) (g : res ≢ p). sum.run.others p g ∙ others p g in
      elim (==-cases c 0) [
        | inl (q, z) ↦ rw q (
            put-IsResult res v s0 s1 _
              (closed-IsOutcome v m (s0 res) (s1 res)
                (omega (arith, sum.total, e, ap (λ (t : ℕ). weight m * t) z)) sum.run.words big
                capped roomed (omega (arith, sum.run.header.same_room)))
              kept)
        | inr (q, z) ↦ rw q (
            put-IsResult res v s0 s1 _
              (carried-IsOutcome v m c (s0 res) (s1 res) (omega (arith, sum.total, e)) sum.run.words
                capped roomed (omega (arith, sum.run.header.same_room)) (omega arith)
                (omega (arith, sum.carry)))
              kept)
      ]

  -- The branch with the loop, where both operands have limbs.
  sum-IsResult :
      (s0 s : Store)
      → IsPrepared res a b s0 s
      → value (s a) ≡ value (s0 a)
      → value (s b) ≡ value (s0 b)
      → (s a).n + 1 ≤ room (s res)
      → (s b).n + 1 ≤ room (s res)
      → (s a).n ≢ 0
      → let m = if ltb (s b).n (s a).n then (s a).n else (s b).n in
        IsResult res
          (value (s0 a) + value (s0 b))
          s0
          (add_finish res a b m (add_loop res a b m 0 (s, 0)))
  sum-IsResult s0 s p ea eb ha hb nz =
      let m = if ltb (s b).n (s a).n then (s a).n else (s b).n in
      let la : (s a).n ≤ m = ground arith in
      let lb : (s b).n ≤ m = ground arith in
      let roomy : m + 1 ≤ room (s res) = ground arith in
      let one_top : ((s a).n ≡ m) ⊎ ((s b).n ≡ m) = ground arith in
      let sa = seg-operand (s a) m la in
      let sb = seg-operand (s b) m lb in
      let sum =
        add_loop-IsSum res a b (operand (s a)) (operand (s b)) (operand-word (s a) p.valid_a)
          (operand-word (s b) p.valid_b) m 0 0 s (omega arith) (λ j q. refl) (λ j q. refl)
          p.res_words (omega arith) in
      finish-IsResult m _ s0 s _ _ _ sum (omega (arith, sa, sb, ea, eb)) p.same_block p.others roomy
        (λ k e. elim one_top [
          | inl q ↦ omega (arith, value-le (s a) k p.valid_a (q ∙ e), ea)
          | inr q ↦ omega (arith, value-le (s b) k p.valid_b (q ∙ e), eb)
        ])

  -- For valid operands and a block at `res` whose cells are words, that has the cells it claims and
  -- room for one limb more than each operand, `add_wc` leaves the sum of the magnitudes at `res`,
  -- trimmed, and changes no other bigInt.
  pub add_wc-IsResult :
      (s : Store)
      → IsValid (s a)
      → IsValid (s b)
      → IsBlock (s res)
      → (s a).n + 1 ≤ room (s res)
      → (s b).n + 1 ≤ room (s res)
      → IsResult res (value (s a) + value (s b)) s (add_wc res a b s)
  unfolding add_wc
  add_wc-IsResult s va vb block ha hb =
      let s1 = prepare res a b s in
      let p = prepare-IsPrepared res a b s va vb block in
      let ea = Agrees-value p.agrees_a in
      let eb = Agrees-value p.agrees_b in
      let roomy_a : (s1 a).n + 1 ≤ room (s1 res) =
        omega (arith, p.agrees_a.agree_n, p.same_block.block_room) in
      let roomy_b : (s1 b).n + 1 ≤ room (s1 res) =
        omega (arith, p.agrees_b.agree_n, p.same_block.block_room) in
      elim (==-cases (s1 b).n 0) [
        | inl (q, z) ↦ rw q (
            copy-IsResult res _ a s s1 p.valid_a (omega (arith, ea, eb, value-empty (s1 b) z))
              p.same_block p.res_words p.others p.res_room (omega arith))
        | inr (q, z) ↦ elim (==-cases (s1 a).n 0) [
          | inl (r, y) ↦
              rw (q, r)
                (copy-IsResult res _ b s s1 p.valid_b (omega (arith, ea, eb, value-empty (s1 a) y))
                  p.same_block p.res_words p.others p.res_room (omega arith))
          | inr (r, y) ↦ rw (q, r) (sum-IsResult s s1 p ea eb roomy_a roomy_b y)
        ]
      ]
