-- ===== src/BigInt/Copies/Receiver.antt =====
-- The copies into a receiver.
use dynamol.Base.{
  ℕ, zero, suc, ◌≤◌, ◌<◌, ◌≡◌, ◌≢◌, refl, inl, inr, arith, ap, sym, ◌∙◌, some, Bool, true, false,
  ◌&&◌,
}
use dynamol.Base.{ltb-cases, ltb, ◌==◌, Bool-cases}
use dynamol.BigInt.{BigInt, IsValid, limb_at}
use dynamol.BigInt.Status.{success}
use dynamol.BigInt.Value.{value, seg, seg_ext}
use dynamol.BigInt.Util.{is_unit_sign, sign_eq, svalid}
use dynamol.BigInt.Order.{validate}
use dynamol.BigInt.Bitwise.Values.{both_cases}
use dynamol.BigInt.AddSub.Operands.{value-empty}
use dynamol.BigInt.Copies.{Reply, canonicalize, same_limbs, mut_ocopy, mut_tover_copy}
use dynamol.BigInt.Copies.Results.{Copied, full-Copied}

same_limbs-true :
    (k : ℕ) (x y : BigInt) → same_limbs k x y ≡ true → (i : ℕ) → i < k → limb_at x i ≡ limb_at y i
unfolding same_limbs
same_limbs-true zero x y h i l = absurd (omega arith)
same_limbs-true (suc k) x y h i l =
    let halves : ((limb_at x k == limb_at y k) ≡ true) × (same_limbs k x y ≡ true) =
      ground (arith, h) in
    elim (ltb-cases i k) [
      | inl (q, below) ↦ same_limbs-true k x y halves.1 i below
      | inr (q, above) ↦
          let last : i ≡ k = omega arith in
          let top : limb_at x k ≡ limb_at y k = ground (arith, halves.0) in
          ap (limb_at x) last ∙ top ∙ ap (limb_at y) (sym last)
    ]

and_true : (a b : Bool) → (a && b) ≡ true → (a ≡ true) × (b ≡ true)
and_true a b h = ground (arith, h)

not_both : {m n : ℕ} → ((m == 0) && (n == 0)) ≡ false → m ≡ n → n ≢ 0
not_both p e z = ground (arith, p, e, z)

-- Success, and behind the pointer a copy of `src`.
abbrev pub Receives : Reply → BigInt → Type 0
Receives out src = (r : BigInt) × (out ≡ (some r, success)) × Copied r src

module _ (dst src : BigInt) (vd : IsValid dst) (vs : IsValid src) where
  pub canonicalize-same : canonicalize dst ≡ dst
  unfolding canonicalize is_unit_sign sign_eq
  canonicalize-same = ground (arith, vd.cap_pos, vd.n_cap, vd.sign_unit)

  svalid-true : svalid (some dst) ≡ true
  unfolding svalid
  svalid-true = ground (arith, vd.room_cap, vd.cap_pos)

  same-Copied :
      src.n ≢ 0
      → dst.n ≡ src.n
      → same_limbs src.n dst src ≡ true
      → Copied (record dst { sign = src.sign }) src
  unfolding limb_at value
  same-Copied live n same = (
    record {
      room_cap = vd.room_cap;
      cap_pos = vd.cap_pos;
      n_cap = vd.n_cap;
      sign_unit = vs.sign_unit;
      zero_sign = λ e. absurd (live (sym n ∙ e));
      words = vd.words;
      top = vd.top;
    },
    ap (seg (limb_at dst) 0) n
        ∙ seg_ext (limb_at dst) (limb_at src) 0 src.n
            (λ j p q. same_limbs-true src.n dst src same j (omega arith)),
    refl,
  )

  module _ (stray : ℕ) (good : validate stray src ≡ true) (fits : src.n ≤ dst.cap) where
    zeros-Copied : dst.n ≡ 0 → src.n ≡ 0 → Copied dst src
    zeros-Copied d s =
        (vd, value-empty dst d ∙ sym (value-empty src s), vd.zero_sign d ∙ sym (vs.zero_sign s))

    -- Into a valid receiver with its own buffer, which has room for the limbs of a valid bigInt that
    -- passes the guard, `bigInt_mut_ocopy` and `bigInt_mut_tover_copy` succeed and leave behind the
    -- pointer a valid bigInt with its magnitude and sign.
    pub receivers_lem :
        Receives (mut_ocopy stray false (some dst) src) src
        × Receives (mut_tover_copy stray false (some dst) src) src
    unfolding mut_ocopy mut_tover_copy
    receivers_lem =
        let large : ltb dst.cap src.n ≡ false = ground (arith, fits) in
        rw (svalid-true, good, canonicalize-same)
          (elim (both_cases dst.n src.n) [
            | inl (p, d, s) ↦ rw p ((dst, refl, zeros-Copied d s), (dst, refl, zeros-Copied d s))
            | inr p ↦ elim (Bool-cases ((dst.n == src.n) && same_limbs src.n dst src)) [
              | inl q ↦
                  let (counts, limbs) = and_true (dst.n == src.n) (same_limbs src.n dst src) q in
                  let n : dst.n ≡ src.n = ground (arith, counts) in
                  let out = same-Copied (λ s. not_both p n s) n limbs in
                  rw (p, q) ((_, refl, out), (_, refl, out))
              | inr q ↦
                  let out = full-Copied src vs dst vd.room_cap vd.cap_pos fits vd.words in
                  rw (p, q, large) ((_, refl, out), (_, refl, out))
            ]
          ])
