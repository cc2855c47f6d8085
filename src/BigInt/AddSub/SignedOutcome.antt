-- ===== src/BigInt/AddSub/SignedOutcome.antt =====
-- What an operation on integers leaves at `res`.
use dynamol.Base.{ℕ, ◌≤◌, ◌<◌, ◌≡◌, ◌≢◌, inl, refl, arith, ◌∙◌, ap, ap₂, sym}
use dynamol.Base.Int.{ℤ, pos}
use dynamol.BigInt.{BigInt, Store, update, limb_at, room, IsValid}
use dynamol.BigInt.Memory.{update_self, update_ne}
use dynamol.BigInt.Util.{copy, zset}
use dynamol.BigInt.Util.Copy.{copy-IsCopy, IsCopy-value}
use dynamol.BigInt.Value.{value}
use dynamol.BigInt.AddSub.{set_sign}
use dynamol.BigInt.AddSub.Operands.{value-empty}
use dynamol.BigInt.AddSub.Outcome.{IsOutcome, IsResult, IsBlock}
use dynamol.BigInt.AddSub.Outcome.{copied-IsOutcome}
use dynamol.BigInt.AddSub.Signs.{signed_of, signed, IsUnitSign}
use dynamol.BigInt.AddSub.Signs.{signed_of-zero}

-- A valid bigInt with the integer `z` at `res`, and nothing else has changed.
pub record IsSignedResult (res : ℕ) (z : ℤ) (s s' : Store) : Type 0 where
  pub result_valid : IsValid (s' res)
  pub result_signed : signed (s' res) ≡ z
  pub result_kept : (p : ℕ) → res ≢ p → s' p ≡ s p

IsOutcome-IsValid :
    {v : ℕ} {x y : BigInt} (sign : ℤ)
    → IsOutcome v x y
    → IsBlock x
    → IsUnitSign sign
    → 0 < v
    → IsValid (record y { sign = sign })
unfolding limb_at
IsOutcome-IsValid {v} {x} {y} sign out block unit positive = record {
  room_cap = out.out_room ∙ block.block_cap_room ∙ sym out.out_cap;
  cap_pos = omega (arith, out.out_cap, block.block_cap_room, block.block_pos);
  n_cap = omega (arith, out.out_n, out.out_room, block.block_cap_room, out.out_cap);
  sign_unit = unit;
  zero_sign = λ e. absurd (omega (arith, value-empty y e, out.out_value));
  words = out.out_words;
  top = out.out_top;
}

signed-record :
    (y : BigInt) (sign : ℤ) → signed (record y { sign = sign }) ≡ signed_of sign (value y)
unfolding signed value limb_at
signed-record y sign = refl

pub sign-IsSignedResult :
    {res v : ℕ} {s s' : Store} (sign : ℤ)
    → IsResult res v s s'
    → IsBlock (s res)
    → IsUnitSign sign
    → 0 < v
    → IsSignedResult res (signed_of sign v) s (set_sign res sign s')
unfolding set_sign
sign-IsSignedResult {res} {v} {s} {s'} sign r block unit positive = record {
  result_valid = rw update_self (IsOutcome-IsValid sign r.outcome block unit positive);
  result_signed =
      rw update_self (signed-record (s' res) sign ∙ ap (signed_of sign) r.outcome.out_value);
  result_kept = λ p h. update_ne res p _ s' h ∙ r.result_others p h;
}

zset-IsValid : (x : BigInt) → IsBlock x → IsValid (zset x)
unfolding zset limb_at
zset-IsValid x block = record {
  room_cap = block.block_cap_room;
  cap_pos = omega (arith, block.block_cap_room, block.block_pos);
  n_cap = omega arith;
  sign_unit = inl refl;
  zero_sign = λ e. refl;
  words = block.block_words;
  top = λ k e. absurd (omega arith);
}

signed-zset : (x : BigInt) → signed (zset x) ≡ pos 0
unfolding signed zset
signed-zset x = ap (signed_of (pos 1)) (value-empty (zset x) refl) ∙ signed_of-zero (pos 1)

pub zset-IsSignedResult :
    (res : ℕ) (s : Store)
    → IsBlock (s res)
    → IsSignedResult res (pos 0) s (update res (zset (s res)) s)
zset-IsSignedResult res s block = record {
  result_valid = rw update_self (zset-IsValid (s res) block);
  result_signed = rw update_self (signed-zset (s res));
  result_kept = λ p h. update_ne res p _ s h;
}

pub copy-IsValid :
    {dst src : BigInt} → IsBlock dst → IsValid src → src.n ≤ room dst → IsValid (copy dst src)
copy-IsValid {dst} {src} block valid h =
    let c = copy-IsCopy dst src valid block.block_pos h in
    let out = copied-IsOutcome {x = dst} c valid block.block_words refl refl refl h in
    record {
      room_cap = out.out_room ∙ block.block_cap_room ∙ sym out.out_cap;
      cap_pos = omega (arith, out.out_cap, block.block_cap_room, block.block_pos);
      n_cap = omega (arith, out.out_n, out.out_room, block.block_cap_room, out.out_cap);
      sign_unit = rw c.copy_sign valid.sign_unit;
      zero_sign = λ e. c.copy_sign ∙ valid.zero_sign (sym c.copy_n ∙ e);
      words = out.out_words;
      top = out.out_top;
    }

pub copy-IsSignedResult :
    (res p : ℕ) (s : Store)
    → IsBlock (s res)
    → IsValid (s p)
    → (s p).n ≤ room (s res)
    → IsSignedResult res (signed (s p)) s (update res (copy (s res) (s p)) s)
unfolding signed
copy-IsSignedResult res p s block valid h =
    let c = copy-IsCopy (s res) (s p) valid block.block_pos h in
    record {
      result_valid = rw update_self (copy-IsValid block valid h);
      result_signed = rw update_self (ap₂ signed_of c.copy_sign (IsCopy-value c));
      result_kept = λ q g. update_ne res q _ s g;
    }
