-- ===== src/BigInt/AddSub/Adding.antt =====
-- The loop of `add_wc` adds the digits that it reads.
use dynamol.Base.{ℕ, zero, suc, ◌+◌, ◌*◌, ◌≤◌, ◌<◌, ◌≡◌, arith, ap}
use dynamol.Base.{word, weight, weight-zero, weight-suc}
use dynamol.Intrin.Arith.{add64c}
use dynamol.Intrin.Arith.Carry.{add64c_lem}
use dynamol.BigInt.{limb_at, room, Store}
use dynamol.BigInt.Value.{seg, seg-zero, seg-suc}
use dynamol.BigInt.AddSub.{add_step, add_loop}
use dynamol.BigInt.AddSub.Rounds.{stored, IsRun, IsRun-refl, IsRun-step}
use dynamol.BigInt.AddSub.Rounds.{words-stored, header-stored, written, Reads, Reads-stored}

pub record IsSum (res i k c : ℕ) (s : Store) (X Y : ℕ → ℕ) (out : Store × ℕ) : Type 0 where
  pub run : IsRun res i s out.0
  pub total : seg (limb_at (out.0 res)) i k + weight k * out.1 ≡ seg X i k + seg Y i k + c
  pub carry : out.1 ≤ 1

module _ (res a b : ℕ) (X Y : ℕ → ℕ) (wX : (j : ℕ) → X j < word) (wY : (j : ℕ) → Y j < word) where
  pub add_loop-IsSum :
      (k i c : ℕ) (s : Store)
      → c ≤ 1
      → Reads a i s X
      → Reads b i s Y
      → ((j : ℕ) → limb_at (s res) j < word)
      → i + k ≤ room (s res)
      → IsSum res i k c s X Y (add_loop res a b k i (s, c))
  unfolding add_loop add_step
  add_loop-IsSum zero i c s hc ra rb w h = record {
    run = IsRun-refl res i s w;
    total = omega (arith, seg-zero, ap (λ (t : ℕ). t * c) weight-zero);
    carry = hc;
  }
  add_loop-IsSum (suc k) i c s hc ra rb w h =
      rw (ra i (omega arith), rb i (omega arith))
        (let v = (add64c (X i) (Y i) c).0 in
          let c1 = (add64c (X i) (Y i) c).1 in
          let (sum, small, one) = add64c_lem (X i) (Y i) c (wX i) (wY i) hc in
          let r : i < room (s res) = omega arith in
          let ih =
            add_loop-IsSum k (suc i) c1 (stored res i v s) one (Reads-stored res a i v s X ra)
              (Reads-stored res b i v s Y rb) (words-stored res i v s w small r)
              (omega (arith, (header-stored res i v s).same_room)) in
          let out = add_loop res a b k (suc i) (stored res i v s, c1) in
          record {
            run = IsRun-step res i v s ih.run;
            total = omega (
              arith,
              ih.total,
              sum,
              seg-suc (limb_at (out.0 res)) i k,
              seg-suc X i k,
              seg-suc Y i k,
              written res i v s r ih.run,
              ap (λ (t : ℕ). t * out.1) (weight-suc k),
            );
            carry = ih.carry;
          })
