-- ===== src/BigInt/Copies/Results.antt =====
-- The copies keep the magnitude and the sign.
use dynamol.Base.{ℕ, ◌≤◌, ◌<◌, ◌≡◌, refl, inl, inr, arith, sym, ◌∙◌, none, some, true, false}
use dynamol.Base.{word, ltb, ==-cases}
use mathlib.Core.Path.{subst}
use dynamol.BigInt.{BigInt, IsValid, limb_at, room}
use dynamol.BigInt.Status.{success}
use dynamol.BigInt.Value.{value, seg_ext}
use dynamol.BigInt.Order.{validate}
use dynamol.BigInt.Bitwise.{linit}
use dynamol.BigInt.Bitwise.Fill.{linit-room, limb_at-linit, linit-IsValid, linit-n}
use dynamol.BigInt.AddSub.Operands.{value-empty}
use dynamol.BigInt.Copies.{memcpy_limbs, take_header, new_copy, ocopy, tover_copy}
use dynamol.BigInt.Copies.Copied.{limb_at-memcpy, memcpy-words, room-memcpy}

-- A valid bigInt with the magnitude and the sign of `src`.
abbrev pub Copied : BigInt → BigInt → Type 0
Copied r src = IsValid r × (value r ≡ value src) × (r.sign ≡ src.sign)

module _ (src : BigInt) (vs : IsValid src) where
  -- All limbs of `src` in a buffer that holds them.
  pub full-Copied :
      (dst : BigInt)
      → room dst ≡ dst.cap
      → 1 ≤ dst.cap
      → src.n ≤ dst.cap
      → ((i : ℕ) → limb_at dst i < word)
      → Copied (take_header (memcpy_limbs src.n dst src) src) src
  unfolding limb_at value
  full-Copied dst rooms positive fits words =
      let hd : src.n ≤ room dst = omega (arith, rooms, fits) in
      (
        record {
          room_cap = room-memcpy src.n dst src ∙ rooms;
          cap_pos = positive;
          n_cap = fits;
          sign_unit = vs.sign_unit;
          zero_sign = vs.zero_sign;
          words = memcpy-words src.n dst src vs hd vs.n_cap words;
          top = λ k e.
              subst (λ t. 0 < t)
                (sym (limb_at-memcpy src.n dst src vs hd vs.n_cap words k (omega arith)))
                (vs.top k e);
        },
        seg_ext _ (limb_at src) 0 src.n
            (λ j p q. limb_at-memcpy src.n dst src vs hd vs.n_cap words j (omega arith)),
        refl,
      )

  fresh-Copied :
      (k : ℕ) → src.n ≤ k → Copied (take_header (memcpy_limbs src.n (linit k) src) src) src
  fresh-Copied k h =
      let rooms = linit-room k in
      full-Copied (linit k) rooms.0 rooms.1 (omega (arith, rooms))
        (λ i. subst (λ t. t < word) (sym (limb_at-linit k i)) (omega arith))

  module _ (stray output_cap : ℕ) (good : validate stray src ≡ true) where
    empty-Copied : src.n ≡ 0 → Copied (linit 0) src
    empty-Copied e = (
      (linit-IsValid 0).0,
      (linit-IsValid 0).1 ∙ sym (value-empty src e),
      (linit-IsValid 0).0.zero_sign (linit-n 0) ∙ sym (vs.zero_sign e),
    )

    -- For a valid bigInt that passes the guard, with memory, `bigInt_copy` gives a valid bigInt with
    -- its magnitude and sign and writes no status; so do `bigInt_ocopy`, which writes success, and
    -- `bigInt_tover_copy` for a capacity that holds its limbs.
    pub fresh_copies_lem :
        src.n ≤ output_cap
        → (Copied (new_copy stray true src).0 src × ((new_copy stray true src).1 ≡ none))
          × (Copied (ocopy stray true src output_cap).0 src
              × ((ocopy stray true src output_cap).1 ≡ some success))
          × (Copied (tover_copy stray true src output_cap).0 src
              × ((tover_copy stray true src output_cap).1 ≡ none))
    unfolding new_copy ocopy tover_copy
    fresh_copies_lem h =
        let fits : ltb output_cap src.n ≡ false = ground (arith, h) in
        rw (good, fits)
          (
            elim (==-cases src.n 0) [
              | inl (q, e) ↦ rw q (empty-Copied e, refl)
              | inr (q, e) ↦ rw q (fresh-Copied src.n (omega arith), refl)
            ],
            (fresh-Copied output_cap h, refl),
            elim (==-cases output_cap 0) [
              | inl (q, e) ↦ rw q (empty-Copied (omega (arith, h, e)), refl)
              | inr (q, e) ↦ rw q (fresh-Copied output_cap h, refl)
            ],
          )
