-- ===== src/BigInt/AddSub/Subtracting.antt =====
-- The loop of `sub_wb` subtracts the digits that it reads, and finds the top limb.
use native.Mathlib.Decide.{ℕ_discrete}
use native.Mathlib.Nat.{add-zero}
use dynamol.Base.{ℕ, zero, suc, ◌+◌, ◌*◌, ◌≤◌, ◌<◌, ◌≡◌, ◌≢◌, inl, inr, arith, ap, ◌∙◌}
use mathlib.Core.Path.{subst}
use dynamol.Base.{word, weight, weight-zero, weight-suc, if◌then◌else◌, ◌==◌, ==-cases}
use dynamol.Intrin.Arith.{sub64b}
use dynamol.Intrin.Arith.Carry.{sub64b_lem}
use dynamol.BigInt.{limb_at, room, Store}
use dynamol.BigInt.Memory.{limb_at-set_self}
use dynamol.BigInt.Memory.{update_self}
use dynamol.BigInt.Value.{seg, seg-zero, seg-suc}
use dynamol.BigInt.AddSub.{operand, sub_step, sub_loop}
use dynamol.BigInt.AddSub.Rounds.{stored, limb-stored, IsRun, IsRun-refl, IsRun-step}
use dynamol.BigInt.AddSub.Rounds.{words-stored, header-stored, written, Reads, Reads-stored}

pub record IsDifference (res i k c : ℕ) (s : Store) (X Y : ℕ → ℕ) (out : Store × ℕ × ℕ)
    : Type 0 where
  pub run : IsRun res i s out.0
  pub total : seg (limb_at (out.0 res)) i k + seg Y i k + c ≡ seg X i k + weight k * out.1
  pub borrow : out.1 ≤ 1

-- `top` is 0 or one past the last limb that is not zero, of the limbs below `e`.
abbrev pub IsTop : (ℕ → ℕ) → ℕ → ℕ → Type 0
IsTop f e top =
    (top ≤ e) × ((j : ℕ) → top ≤ j → j < e → f j ≡ 0) × ((k : ℕ) → top ≡ suc k → 0 < f k)

module _ (res a b : ℕ) (X Y : ℕ → ℕ) (wX : (j : ℕ) → X j < word) (wY : (j : ℕ) → Y j < word) where
  pub sub_loop-IsDifference :
      (k i c top : ℕ) (s : Store)
      → c ≤ 1
      → ((j : ℕ) → i ≤ j → j < i + k → limb_at (s a) j ≡ X j)
      → Reads b i s Y
      → ((j : ℕ) → limb_at (s res) j < word)
      → i + k ≤ room (s res)
      → IsDifference res i k c s X Y (sub_loop res a b k i (s, c, top))
  unfolding sub_loop sub_step
  sub_loop-IsDifference zero i c top s hc ra rb w h = record {
    run = IsRun-refl res i s w;
    total = omega (arith, seg-zero, ap (λ (t : ℕ). t * c) weight-zero);
    borrow = hc;
  }
  sub_loop-IsDifference (suc k) i c top s hc ra rb w h =
      rw (ra i (omega arith) (omega arith), rb i (omega arith))
        (let v = (sub64b (X i) (Y i) c).0 in
          let c1 = (sub64b (X i) (Y i) c).1 in
          let (diff, small, one) = sub64b_lem (X i) (Y i) c (wX i) (wY i) hc in
          let r : i < room (s res) = omega arith in
          let ih =
            sub_loop-IsDifference k (suc i) c1 (if v == 0 then top else i + 1) (stored res i v s)
              one
              (λ j p q.
                limb-stored res a i v j s (λ e. absurd (omega arith))
                ∙ ra j (omega arith) (omega arith))
              (Reads-stored res b i v s Y rb) (words-stored res i v s w small r)
              (omega (arith, (header-stored res i v s).same_room)) in
          let out =
            sub_loop res a b k (suc i) (stored res i v s, c1, if v == 0 then top else i + 1) in
          record {
            run = IsRun-step res i v s ih.run;
            total = omega (
              arith,
              ih.total,
              diff,
              seg-suc (limb_at (out.0 res)) i k,
              seg-suc X i k,
              seg-suc Y i k,
              written res i v s r ih.run,
              ap (λ (t : ℕ). t * out.1) (weight-suc k),
            );
            borrow = ih.borrow;
          })

module _ (res i v top : ℕ) (s : Store) (r : i < room (s res)) where
  same_limb : (j : ℕ) → i ≢ j → limb_at (stored res i v s res) j ≡ limb_at (s res) j
  same_limb j h = limb-stored res res i v j s h

  new_limb : limb_at (stored res i v s res) i ≡ v
  new_limb = rw update_self (limb_at-set_self (s res) i v r)

  IsTop-stored :
      IsTop (limb_at (s res)) i top
      → IsTop (limb_at (stored res i v s res)) (suc i) (if v == 0 then top else i + 1)
  IsTop-stored (small, zeros, live) = elim (==-cases v 0) [
    | inl (e, z) ↦ rw e (
      omega (arith, small),
      (λ j p q. elim (ℕ_discrete i j) [
        | yes h ↦ subst (λ t. limb_at (stored res i v s res) t ≡ 0) h (new_limb ∙ z)
        | no h ↦ same_limb j h ∙ zeros j p (omega arith)
      ]),
      λ k h. rw (same_limb k (λ g. absurd (omega (arith, small)))) (live k h),
    )
    | inr (e, z) ↦ rw e (
      omega arith,
      (λ j p q. absurd (omega arith)),
      λ k h.
          let g : i ≡ k = omega arith in
          subst (λ t. 0 < limb_at (stored res i v s res) t) g (rw new_limb (omega arith)),
    )
  ]

module _ (res a b : ℕ) where
  -- `top_nonzero` after the loop, from its value on the limbs below `i`.
  pub sub_loop-IsTop :
      (k i c top : ℕ) (s : Store)
      → i + k ≤ room (s res)
      → IsTop (limb_at (s res)) i top
      → IsTop
          (limb_at ((sub_loop res a b k i (s, c, top)).0 res))
          (i + k)
          (sub_loop res a b k i (s, c, top)).2
  unfolding sub_loop sub_step
  sub_loop-IsTop zero i c top s h t = rw add-zero t
  sub_loop-IsTop (suc k) i c top s h t =
      let step = sub64b (limb_at (s a) i) (operand (s b) i) c in
      let e : i + suc k ≡ suc i + k = omega arith in
      rw e (
        sub_loop-IsTop k (suc i) step.1 (if step.0 == 0 then top else i + 1) (stored res i step.0 s)
          (omega (arith, (header-stored res i step.0 s).same_room))
          (IsTop-stored res i step.0 top s (omega arith) t))
