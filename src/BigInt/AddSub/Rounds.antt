-- ===== src/BigInt/AddSub/Rounds.antt =====
-- One round of a limb loop, whatever pointers are equal: a limb is read before `res` is written at
-- its index, and never after.
use native.Mathlib.Decide.{ℕ_discrete}
use dynamol.Base.{ℕ, suc, ◌≤◌, ◌<◌, ◌≡◌, ◌≢◌, refl, arith, ap, ◌∙◌}
use dynamol.Base.{word, ltb, if◌then◌else◌}
use dynamol.BigInt.{BigInt, limb_at, set_limb, room, Store, update}
use dynamol.BigInt.Memory.{limb_at-set_self, limb_at-set_ne, set_limb-SameHeader, SameHeader}
use dynamol.BigInt.Memory.{SameHeader-refl, SameHeader-trans, update_self, update_ne}
use dynamol.BigInt.AddSub.{operand}

-- The store after `res->limbs[i] = v`.
abbrev pub stored : ℕ → ℕ → ℕ → Store → Store
stored res i v s = update res (set_limb (s res) i v) s

operand-set : (x : BigInt) (i v j : ℕ) → i ≢ j → operand (set_limb x i v) j ≡ operand x j
unfolding operand set_limb
operand-set x i v j h = ap (λ (t : ℕ). if ltb j x.n then t else 0) (limb_at-set_ne x i j v h)

pub operand-stored :
    (res p i v j : ℕ) (s : Store) → i ≢ j → operand (stored res i v s p) j ≡ operand (s p) j
operand-stored res p i v j s h = elim (ℕ_discrete res p) [
  | yes e ↦ rw (← e) (rw update_self (operand-set (s res) i v j h))
  | no g ↦ ap (λ x. operand x j) (update_ne res p _ s g)
]

pub limb-stored :
    (res p i v j : ℕ) (s : Store) → i ≢ j → limb_at (stored res i v s p) j ≡ limb_at (s p) j
limb-stored res p i v j s h = elim (ℕ_discrete res p) [
  | yes e ↦ rw (← e) (rw update_self (limb_at-set_ne (s res) i j v h))
  | no g ↦ ap (λ x. limb_at x j) (update_ne res p _ s g)
]

-- What every limb loop that writes `res` from index `i` on leaves alone.
pub record IsRun (res i : ℕ) (s s' : Store) : Type 0 where
  pub words : (j : ℕ) → limb_at (s' res) j < word
  pub below : (j : ℕ) → j < i → limb_at (s' res) j ≡ limb_at (s res) j
  pub header : SameHeader (s res) (s' res)
  pub others : (p : ℕ) → res ≢ p → s' p ≡ s p

pub words-stored :
    (res i v : ℕ) (s : Store)
    → ((j : ℕ) → limb_at (s res) j < word)
    → v < word
    → i < room (s res)
    → (j : ℕ) → limb_at (stored res i v s res) j < word
words-stored res i v s h g r j = elim (ℕ_discrete i j) [
  | yes e ↦ rw (← e) (rw update_self (rw (limb_at-set_self (s res) i v r) g))
  | no ne ↦ rw (limb-stored res res i v j s ne) (h j)
]

pub IsRun-refl : (res i : ℕ) (s : Store) → ((j : ℕ) → limb_at (s res) j < word) → IsRun res i s s
IsRun-refl res i s h = record {
  words = h;
  below = λ j p. refl;
  header = SameHeader-refl (s res);
  others = λ p h. refl;
}

pub header-stored : (res i v : ℕ) (s : Store) → SameHeader (s res) (stored res i v s res)
header-stored res i v s = rw update_self (set_limb-SameHeader (s res) i v)

pub IsRun-step :
    (res i v : ℕ) (s : Store) {s' : Store}
    → IsRun res (suc i) (stored res i v s) s'
    → IsRun res i s s'
IsRun-step res i v s r = record {
  words = r.words;
  below = λ j p. r.below j (omega arith) ∙ limb-stored res res i v j s (λ e. absurd (omega arith));
  header = SameHeader-trans (header-stored res i v s) r.header;
  others = λ p h. r.others p h ∙ update_ne res p _ s h;
}

-- The limb just written is still there after the later rounds.
pub written :
    (res i v : ℕ) (s : Store) {s' : Store}
    → i < room (s res)
    → IsRun res (suc i) (stored res i v s) s'
    → limb_at (s' res) i ≡ v
written res i v s h r = r.below i (omega arith) ∙ rw update_self (limb_at-set_self (s res) i v h)

-- `X` and `Y` are the digits that the loop reads from index `i` on.
abbrev pub Reads : ℕ → ℕ → Store → (ℕ → ℕ) → Type 0
Reads p i s X = (j : ℕ) → i ≤ j → operand (s p) j ≡ X j

pub Reads-stored :
    (res p i v : ℕ) (s : Store) (X : ℕ → ℕ) → Reads p i s X → Reads p (suc i) (stored res i v s) X
Reads-stored res p i v s X h j g =
    operand-stored res p i v j s (λ e. absurd (omega arith)) ∙ h j (omega arith)
