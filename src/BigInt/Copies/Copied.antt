-- ===== src/BigInt/Copies/Copied.antt =====
-- What `memcpy` of limbs leaves.
use dynamol.Base.{ℕ, ◌≤◌, ◌<◌, ◌≡◌, ◌≢◌, refl, inl, inr, arith, sym, ◌∙◌, List, Option, none, some}
use dynamol.Base.{
  word, length, get_or, get_or-memcpy_below, get_or-memcpy_above, length-memcpy, ltb-cases, memcpy,
  ==-cases,
}
use dynamol.Base.Int.{ℤ}
use mathlib.Core.Path.{subst}
use dynamol.BigInt.{BigInt, IsValid, limb_at, room, cells_of, cells}
use dynamol.BigInt.Value.{value, seg, seg_ext}
use dynamol.BigInt.Util.Copy.{trim_lz-IsTrimmed}
use dynamol.BigInt.AddSub.Signs.{IsUnitSign}
use dynamol.BigInt.Bitwise.{normalize}
use dynamol.BigInt.Copies.{on_cells, memcpy_limbs}

room_of :
    (m : ℕ) (l : Option (List ℕ)) (src : List ℕ)
    → length (cells_of (on_cells (λ xs. memcpy m xs src) l)) ≡ length (cells_of l)
room_of m none src = refl
room_of m (some xs) src = length-memcpy m xs src

below_of :
    (m i : ℕ) (l : Option (List ℕ)) (src : List ℕ)
    → i < m
    → m ≤ length (cells_of l)
    → m ≤ length src
    → get_or (cells_of (on_cells (λ xs. memcpy m xs src) l)) i 0 ≡ get_or src i 0
below_of m i none src h p q = absurd (omega arith)
below_of m i (some xs) src h p q = get_or-memcpy_below m i xs src 0 h p q

above_of :
    (m i : ℕ) (l : Option (List ℕ)) (src : List ℕ)
    → m ≤ i
    → get_or (cells_of (on_cells (λ xs. memcpy m xs src) l)) i 0 ≡ get_or (cells_of l) i 0
above_of m i none src h = refl
above_of m i (some xs) src h = get_or-memcpy_above m i xs src 0 h

module _ (m : ℕ) (dst src : BigInt) (vs : IsValid src) (hd : m ≤ room dst) (hs : m ≤ src.cap)
    (words : (i : ℕ) → limb_at dst i < word) where
  pub limb_at-memcpy : (i : ℕ) → i < m → limb_at (memcpy_limbs m dst src) i ≡ limb_at src i
  unfolding limb_at
  limb_at-memcpy i h = below_of m i dst.limbs (cells src) h hd (omega (arith, vs.room_cap))

  pub memcpy-words : (i : ℕ) → limb_at (memcpy_limbs m dst src) i < word
  unfolding limb_at
  memcpy-words i = elim (ltb-cases i m) [
    | inl (q, h) ↦
        subst (λ t. t < word)
          (sym (below_of m i dst.limbs (cells src) h hd (omega (arith, vs.room_cap)))) (vs.words i)
    | inr (q, h) ↦ subst (λ t. t < word) (sym (above_of m i dst.limbs (cells src) h)) (words i)
  ]

  -- `m` copied limbs with a sign, trimmed.
  abbrev pub trimmed_copy : ℤ → BigInt
  trimmed_copy s = normalize (record (memcpy_limbs m dst src) { n = m; sign = s })

  pub trimmed_copy-IsValid :
      (s : ℤ)
      → IsUnitSign s
      → room dst ≡ dst.cap
      → 1 ≤ dst.cap
      → IsValid (trimmed_copy s)
        × (value (trimmed_copy s) ≡ seg (limb_at src) 0 m)
        × ((trimmed_copy s).n ≢ 0 → (trimmed_copy s).sign ≡ s)
  unfolding limb_at value
  trimmed_copy-IsValid s unit rooms positive =
      let r : BigInt = record (memcpy_limbs m dst src) { n = m; sign = s } in
      let t = trim_lz-IsTrimmed r in
      (
        record {
          room_cap = t.trim_room ∙ room_of m dst.limbs (cells src) ∙ rooms ∙ sym t.trim_cap;
          cap_pos = omega (arith, t.trim_cap, positive);
          n_cap = omega (arith, t.trim_cap, t.trim_n, hd, rooms);
          sign_unit = elim (==-cases (normalize r).n 0) [
            | inl (q, e) ↦ inl (t.trim_zero_sign e)
            | inr (q, e) ↦ subst IsUnitSign (sym (t.trim_sign e)) unit
          ];
          zero_sign = t.trim_zero_sign;
          words = λ i. subst (λ t. t < word) (sym (t.trim_limbs i)) (memcpy-words i);
          top = t.trim_top;
        },
        t.trim_value ∙ seg_ext _ (limb_at src) 0 m (λ j p q. limb_at-memcpy j (omega arith)),
        t.trim_sign,
      )

pub room-memcpy : (m : ℕ) (dst src : BigInt) → room (memcpy_limbs m dst src) ≡ room dst
room-memcpy m dst src = room_of m dst.limbs (cells src)
