-- ===== src/BigInt/Limbwise/Raise.antt =====
-- The left shift by limbs.
use dynamol.Base.{
  ℕ, zero, suc, ◌+◌, ◌-◌, ◌*◌, ◌%◌, ◌≤◌, ◌<◌, ◌≡◌, arith, ap, ap₂, sym, ◌∙◌, inl, inr, ltb-cases,
  word, weight, weight-add, weight-pos,
}
use mathlib.Core.Path.{subst}
use native.Mathlib.Nat.{
  mul-lt-mul_of_pos_left, mul-le-mul_left, mod-eq_of_lt, add-mul-mod_self_left,
}
use dynamol.BigInt.{BigInt, IsValid, limb_at, room}
use dynamol.BigInt.Bitwise.{fill}
use dynamol.BigInt.Bitwise.Fill.{fill-SameHeader, fill-at, fill-above}
use dynamol.BigInt.Memory.{SameHeader, SameHeader-trans}
use dynamol.BigInt.Util.{trim_lz}
use dynamol.BigInt.Value.{value, seg, seg-zero, seg-suc, seg-add, seg_zeros}
use dynamol.BigInt.Mutate.Partial.{IsChanged}
use dynamol.BigInt.Limbwise.Results.{value-seg, trimmed-IsChanged}

weight_mono : (j k : ℕ) → j ≤ k → weight j ≤ weight k
weight_mono j k h =
    let split : weight k ≡ weight j * weight (k - j) =
      ap weight (parts j k h) ∙ weight-add j (k - j) in
    let row : weight j * 1 ≤ weight j * weight (k - j) =
      mul-le-mul_left (weight j) (weight-pos (k - j)) in
    omega (arith, split, row)
  where
    parts : (j k : ℕ) → j ≤ k → k ≡ j + (k - j)
    parts j k h = omega (arith, h)

-- The cells of a shifted segment.
seg_moved :
    (f g : ℕ → ℕ) (i k left : ℕ)
    → ((j : ℕ) → i ≤ j → j < i + left → g (j + k) ≡ f j)
    → seg g (i + k) left ≡ seg f i left
seg_moved f g i k zero h = seg-zero g (i + k) ∙ sym (seg-zero f i)
seg_moved f g i k (suc left) h =
    let rest = seg_moved f g (suc i) k left (λ j p q. h j (omega arith) (omega arith)) in
    let index : suc i + k ≡ suc (i + k) = omega arith in
    omega (
      arith,
      seg-suc g (i + k) left,
      seg-suc f i left,
      h i (omega arith) (omega arith),
      rest,
      ap (λ (t : ℕ). seg g t left) index,
    )

-- What a product with a power of the base keeps below the weight of `cap`.
pub kept_fits :
    (v k n cap : ℕ) → v < weight n → k + n ≤ cap → weight k * v % weight cap ≡ weight k * v
kept_fits v k n cap h b =
    let row : weight k * v < weight k * weight n = mul-lt-mul_of_pos_left h (weight-pos k) in
    mod-eq_of_lt (omega (arith, row, weight-add k n, weight_mono (k + n) cap b))

pub kept_cut :
    (low high k m : ℕ)
    → low < weight m
    → weight k * (low + weight m * high) % weight (k + m) ≡ weight k * low
kept_cut low high k m h =
    let spread : weight k * (low + weight m * high) ≡ weight k * low + weight k * weight m * high =
      grind arith in
    ap (λ (t : ℕ). t % weight (k + m))
      (spread ∙ ap (λ (t : ℕ). weight k * low + t * high) (sym (weight-add k m)))
    ∙ add-mul-mod_self_left (weight k * low) (weight (k + m)) high
    ∙ kept_fits low k m (k + m) h (omega arith)

module _ (x : BigInt) (v : IsValid x) (k : ℕ) where
  abbrev shifted : ℕ → BigInt
  shifted moved = fill (λ i. 0) k 0 (fill (λ i. limb_at x (i - k)) moved k x)

  shifted-SameHeader : (moved : ℕ) → SameHeader x (shifted moved)
  shifted-SameHeader moved =
      SameHeader-trans (fill-SameHeader (λ i. limb_at x (i - k)) moved k x)
        (fill-SameHeader (λ i. 0) k 0 _)

  module _ (moved : ℕ) (fits : k + moved ≤ room x) where
    inside : k ≤ room (fill (λ i. limb_at x (i - k)) moved k x)
    inside =
        let h = fill-SameHeader (λ i. limb_at x (i - k)) moved k x in
        omega (arith, h.same_room, fits)

    low_cell : (j : ℕ) → j < k → limb_at (shifted moved) j ≡ 0
    low_cell j h = fill-at (λ i. 0) k 0 j _ (omega arith) (omega arith) (omega (arith, inside))

    moved_cell : (j : ℕ) → j < moved → limb_at (shifted moved) (j + k) ≡ limb_at x j
    moved_cell j h =
        let back : j + k - k ≡ j = omega arith in
        fill-above (λ i. 0) k 0 (j + k) _ (omega arith)
        ∙ fill-at (λ i. limb_at x (i - k)) moved k (j + k) x (omega arith) (omega arith) fits
        ∙ ap (limb_at x) back

    high_cell : (j : ℕ) → k + moved ≤ j → limb_at (shifted moved) j ≡ limb_at x j
    high_cell j h =
        fill-above (λ i. 0) k 0 j _ (omega arith)
        ∙ fill-above (λ i. limb_at x (i - k)) moved k j x h

    shifted-words : (j : ℕ) → limb_at (shifted moved) j < word
    shifted-words j = elim (ltb-cases j k) [
      | inl (q, l) ↦ subst (λ t. t < word) (sym (low_cell j l)) (omega arith)
      | inr (q, l) ↦ elim (ltb-cases j (k + moved)) [
        | inl (r, m) ↦
            let index : j - k + k ≡ j = omega (arith, l) in
            subst (λ t. t < word)
              (sym (
                ap (limb_at (shifted moved)) (sym index)
                ∙ moved_cell (j - k) (omega (arith, l, m))))
              (v.words (j - k))
        | inr (r, m) ↦ subst (λ t. t < word) (sym (high_cell j m)) (v.words j)
      ]
    ]

    shifted-seg : seg (limb_at (shifted moved)) 0 (k + moved) ≡ weight k * seg (limb_at x) 0 moved
    shifted-seg =
        let zeros =
          seg_zeros (limb_at (shifted moved)) 0 k (λ m p q. low_cell m (omega (arith, q))) in
        let cells =
          seg_moved (limb_at x) (limb_at (shifted moved)) 0 k moved
            (λ j p q. moved_cell j (omega (arith, q))) in
        seg-add (limb_at (shifted moved)) 0 k moved
        ∙ ap₂ (λ (s t : ℕ). s + weight k * t) zeros cells
        ∙ omega arith

    pub shifted-IsChanged :
        (n total : ℕ)
        → n ≡ k + moved
        → n ≤ x.cap
        → weight k * seg (limb_at x) 0 moved ≡ total
        → IsChanged (trim_lz (record (shifted moved) { n = n })) x total
    unfolding limb_at
    shifted-IsChanged n total count b e =
        let h = shifted-SameHeader moved in
        let r : BigInt = record (shifted moved) { n = n } in
        let whole : value r ≡ total =
          value-seg r ∙ ap (seg (limb_at (shifted moved)) 0) count ∙ shifted-seg ∙ e in
        let (valid, same, sign) =
          trimmed-IsChanged x r v h.same_cap h.same_sign h.same_room b shifted-words in
        (valid, same ∙ whole, sign)
