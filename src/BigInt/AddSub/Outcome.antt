-- ===== src/BigInt/AddSub/Outcome.antt =====
-- What an operation on magnitudes leaves at `res`: the value, and a well-formed block.
use dynamol.Base.{ℕ, suc, ◌+◌, ◌*◌, ◌≤◌, ◌<◌, ◌≡◌, ◌≢◌, refl, inl, inr, arith, sym, ap, ◌∙◌}
use dynamol.Base.{ltb-cases, word, weight}
use dynamol.BigInt.{BigInt, limb_at, set_limb, room, Store, update, IsValid}
use dynamol.BigInt.Memory.{
  limb_at-set_self, limb_at-set_ne, set_limb-SameHeader, update_self, update_ne,
}
use dynamol.BigInt.Value.{seg, value, seg_ext, seg-lt}
use mathlib.Core.Path.{subst}
use native.Mathlib.Decide.{ℕ_discrete}
use native.Mathlib.Numerals.{add-one}
use dynamol.BigInt.Util.{copy}
use dynamol.BigInt.Util.Compare.{seg-last0}
use dynamol.BigInt.Util.Copy.{IsCopy, IsCopy-value, copy-IsCopy}
use dynamol.BigInt.AddSub.Prepare.{Agrees, SameBlock, prepare, prepare-operand, prepare-other}
use dynamol.BigInt.AddSub.Prepare.{prepare-SameBlock, Agrees-IsValid}

-- The bigInt `y` that an operation leaves in the block of `x`, with the magnitude `v`.
pub record IsOutcome (v : ℕ) (x y : BigInt) : Type 0 where
  pub out_value : value y ≡ v
  pub out_words : (j : ℕ) → limb_at y j < word
  pub out_top : (k : ℕ) → y.n ≡ suc k → 0 < limb_at y k
  pub out_n : y.n ≤ room y
  pub out_cap : y.cap ≡ x.cap
  pub out_room : room y ≡ room x

-- The outcome at `res`, and nothing else has changed.
pub record IsResult (res v : ℕ) (s s' : Store) : Type 0 where
  pub outcome : IsOutcome v (s res) (s' res)
  pub result_others : (p : ℕ) → res ≢ p → s' p ≡ s p

pub put-IsResult :
    (res v : ℕ) (s s1 : Store) (r : BigInt)
    → IsOutcome v (s res) r
    → ((p : ℕ) → res ≢ p → s1 p ≡ s p)
    → IsResult res v s (update res r s1)
put-IsResult res v s s1 r out same = record {
  outcome = rw update_self out;
  result_others = λ p h. update_ne res p r s1 h ∙ same p h;
}

-- The block that `res` points to.
pub record IsBlock (x : BigInt) : Type 0 where
  pub block_words : (j : ℕ) → limb_at x j < word
  pub block_cap_room : room x ≡ x.cap
  pub block_pos : 0 < room x

pub live_top : (w t z l : ℕ) → w ≤ t → t ≡ z + w * l → z < w → 0 < l
live_top w t z l h e g = grind arith

-- `r` with `m` limbs and no carry out.
pub closed-IsOutcome :
    (v m : ℕ) (x r : BigInt)
    → seg (limb_at r) 0 m ≡ v
    → ((j : ℕ) → limb_at r j < word)
    → ((k : ℕ) → m ≡ suc k → weight k ≤ v)
    → r.cap ≡ x.cap
    → room r ≡ room x
    → m ≤ room r
    → IsOutcome v x (record r { n = m })
unfolding value limb_at
closed-IsOutcome v m x r e w big cap room_eq h = record {
  out_value = e;
  out_words = w;
  out_top = λ k q.
      live_top (weight k) v (seg (limb_at r) 0 k) (limb_at r k) (big k q)
        (sym e ∙ ap (seg (limb_at r) 0) q ∙ seg-last0 (limb_at r) k) (seg-lt (limb_at r) 0 k w);
  out_n = h;
  out_cap = cap;
  out_room = room_eq;
}

-- `r` with the carry `c` appended as limb `m`.
pub carried-IsOutcome :
    (v m c : ℕ) (x r : BigInt)
    → seg (limb_at r) 0 m + weight m * c ≡ v
    → ((j : ℕ) → limb_at r j < word)
    → r.cap ≡ x.cap
    → room r ≡ room x
    → m + 1 ≤ room r
    → 0 < c
    → c < word
    → IsOutcome v x (record (set_limb (record r { n = m }) m c) { n = m + 1 })
unfolding value limb_at set_limb
carried-IsOutcome v m c x r e w cap room_eq h pos small =
    let put = limb_at-set_self r m c (omega arith) in
    let under : seg (limb_at (set_limb r m c)) 0 m ≡ seg (limb_at r) 0 m =
      seg_ext (limb_at (set_limb r m c)) (limb_at r) 0 m
        (λ j p q. limb_at-set_ne r m j c (λ g. absurd (omega arith))) in
    let roomy = (set_limb-SameHeader r m c).same_room in
    record {
      out_value =
          ap (seg (limb_at (set_limb r m c)) 0) (add-one m)
          ∙ seg-last0 (limb_at (set_limb r m c)) m
          ∙ omega (arith, under, e, ap (λ (t : ℕ). weight m * t) put);
      out_words = λ j. elim (ℕ_discrete m j) [
        | yes g ↦ subst (λ t. limb_at (set_limb r m c) t < word) g (rw put small)
        | no g ↦ rw (limb_at-set_ne r m j c g) (w j)
      ];
      out_top = λ k q.
          let g : m ≡ k = omega arith in subst (λ t. 0 < limb_at (set_limb r m c) t) g (rw put pos);
      out_n = omega (arith, roomy);
      out_cap = cap;
      out_room = roomy ∙ room_eq;
    }

-- A copy of a valid bigInt.
pub copied-IsOutcome :
    {v : ℕ} {x dst src : BigInt}
    → IsCopy dst src (copy dst src)
    → IsValid src
    → ((j : ℕ) → limb_at dst j < word)
    → value src ≡ v
    → dst.cap ≡ x.cap
    → room dst ≡ room x
    → src.n ≤ room dst
    → IsOutcome v x (copy dst src)
copied-IsOutcome {dst} {src} c valid w e cap room_eq h = record {
  out_value = IsCopy-value c ∙ e;
  out_words = λ j. elim (ltb-cases j src.n) [
    | inl (q, g) ↦ rw (c.copy_limbs j g) (valid.words j)
    | inr (q, g) ↦ rw (c.copy_rest j g) (w j)
  ];
  out_top = λ k q.
      let e : src.n ≡ suc k = sym c.copy_n ∙ q in rw (c.copy_limbs k (omega arith)) (valid.top k e);
  out_n = omega (arith, c.copy_n, c.copy_room);
  out_cap = c.copy_cap ∙ cap;
  out_room = c.copy_room ∙ room_eq;
}

-- The store that an operation works on, once `res` is prepared.
pub record IsPrepared (res a b : ℕ) (s0 s : Store) : Type 0 where
  pub valid_a : IsValid (s a)
  pub valid_b : IsValid (s b)
  pub agrees_a : Agrees (s0 a) (s a)
  pub agrees_b : Agrees (s0 b) (s b)
  pub same_block : SameBlock (s0 res) (s res)
  pub res_words : (j : ℕ) → limb_at (s res) j < word
  pub res_room : 0 < room (s res)
  pub others : (p : ℕ) → res ≢ p → s p ≡ s0 p

pub prepare-IsPrepared :
    (res a b : ℕ) (s : Store)
    → IsValid (s a)
    → IsValid (s b)
    → IsBlock (s res)
    → IsPrepared res a b s (prepare res a b s)
prepare-IsPrepared res a b s va vb block =
    let agrees_a = prepare-operand res a b s a (inl refl) va in
    let agrees_b = prepare-operand res a b s b (inr refl) vb in
    let same = prepare-SameBlock res a b s in
    record {
      valid_a = Agrees-IsValid agrees_a va;
      valid_b = Agrees-IsValid agrees_b vb;
      agrees_a = agrees_a;
      agrees_b = agrees_b;
      same_block = same;
      res_words = λ j. rw (same.block_limbs j) (block.block_words j);
      res_room = rw same.block_room block.block_pos;
      others = prepare-other res a b s;
    }

-- The branch that copies an operand to `res`.
pub copy-IsResult :
    (res v p : ℕ) (s0 s : Store)
    → IsValid (s p)
    → value (s p) ≡ v
    → SameBlock (s0 res) (s res)
    → ((j : ℕ) → limb_at (s res) j < word)
    → ((q : ℕ) → res ≢ q → s q ≡ s0 q)
    → 0 < room (s res)
    → (s p).n ≤ room (s res)
    → IsResult res v s0 (update res (copy (s res) (s p)) s)
copy-IsResult res v p s0 s valid e same w others pos h =
    put-IsResult res v s0 s _
      (copied-IsOutcome (copy-IsCopy (s res) (s p) valid pos h) valid w e same.block_cap
        same.block_room h)
      others
