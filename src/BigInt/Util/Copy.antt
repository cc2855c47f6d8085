-- ===== src/BigInt/Util/Copy.antt =====
-- `copy` and `trim_lz` keep the magnitude.
use dynamol.Base.{
  ℕ, zero, suc, ◌*◌, ◌≤◌, ◌<◌, ◌≡◌, inl, inr, refl, arith, sym, ◌∙◌, ◌≢◌, weight, ap,
}
use dynamol.Base.{length, List, Option, none, some, get_or-memcpy_below, get_or-memcpy_above}
use dynamol.Base.{length-memcpy, Bool-cases, ◌==◌, get_or, false}
use mathlib.Core.Path.{subst}
use native.Mathlib.Nat.{suc_inj}
use dynamol.Base.Int.{pos}
use dynamol.BigInt.{BigInt, limb_at, IsValid, room, is_null, cells, cells_of}
use dynamol.BigInt.Value.{seg, value, seg_ext}
use dynamol.BigInt.Util.{copy, copy_cells, trim_count, trim_lz}
use dynamol.BigInt.Util.Compare.{seg-last0}

-- A buffer with a cell is not NULL.
pub is_null-false : (l : Option (List ℕ)) → 0 < length (cells_of l) → is_null l ≡ false
is_null-false none h = elim h [ ]
is_null-false (some xs) h = refl

limb-copy :
    (k i : ℕ) (l : Option (List ℕ)) (src : List ℕ)
    → i < k
    → k ≤ length (cells_of l)
    → k ≤ length src
    → get_or (cells_of (copy_cells k l src)) i 0 ≡ get_or src i 0
limb-copy k i none src h p q = absurd (omega arith)
limb-copy k i (some dst) src h p q = get_or-memcpy_below k i dst src 0 h p q

rest-copy :
    (k i : ℕ) (l : Option (List ℕ)) (src : List ℕ)
    → k ≤ i
    → get_or (cells_of (copy_cells k l src)) i 0 ≡ get_or (cells_of l) i 0
rest-copy k i none src h = refl
rest-copy k i (some dst) src h = get_or-memcpy_above k i dst src 0 h

room-copy :
    (k : ℕ) (l : Option (List ℕ)) (src : List ℕ)
    → length (cells_of (copy_cells k l src)) ≡ length (cells_of l)
room-copy k none src = refl
room-copy k (some dst) src = length-memcpy k dst src

-- What `copy` leaves in a block that is large enough.
pub record IsCopy (dst src out : BigInt) : Type 0 where
  pub copy_n : out.n ≡ src.n
  pub copy_sign : out.sign ≡ src.sign
  pub copy_cap : out.cap ≡ dst.cap
  pub copy_room : room out ≡ room dst
  pub copy_limbs : (i : ℕ) → i < src.n → limb_at out i ≡ limb_at src i
  pub copy_rest : (i : ℕ) → src.n ≤ i → limb_at out i ≡ limb_at dst i

pub copy-IsCopy :
    (dst src : BigInt)
    → IsValid src
    → 0 < room dst
    → src.n ≤ room dst
    → IsCopy dst src (copy dst src)
unfolding copy limb_at
copy-IsCopy dst src v h g =
    let live = is_null-false dst.limbs h in
    let read = is_null-false src.limbs (omega (arith, v.room_cap, v.cap_pos)) in
    elim (Bool-cases (src.n == 0)) [
      | inl e ↦
          let empty : src.n ≡ 0 = ground arith in
          rw (live, read, e)
            (record {
              copy_n = sym empty;
              copy_sign = sym (v.zero_sign empty);
              copy_cap = refl;
              copy_room = refl;
              copy_limbs = λ i q. absurd (omega arith);
              copy_rest = λ i q. refl;
            })
      | inr e ↦
          rw (live, read, e)
            (record {
              copy_n = refl;
              copy_sign = refl;
              copy_cap = refl;
              copy_room = room-copy src.n dst.limbs (cells src);
              copy_limbs = λ i q.
                  limb-copy src.n i dst.limbs (cells src) q g (omega (arith, v.room_cap, v.n_cap));
              copy_rest = λ i q. rest-copy src.n i dst.limbs (cells src) q;
            })
    ]

pub IsCopy-value : {dst src out : BigInt} → IsCopy dst src out → value out ≡ value src
unfolding value
IsCopy-value {dst} {src} {out} c =
    ap (seg (limb_at out) 0) c.copy_n
    ∙ seg_ext (limb_at out) (limb_at src) 0 src.n (λ j p q. c.copy_limbs j (omega arith))

trim_count_lem :
    (f : ℕ → ℕ) (k : ℕ)
    → (seg f 0 (trim_count f k) ≡ seg f 0 k)
      × (trim_count f k ≤ k)
      × ((m : ℕ) → trim_count f k ≡ suc m → 0 < f m)
unfolding trim_count
trim_count_lem f zero = (refl, omega arith, λ m e. absurd (omega arith))
trim_count_lem f (suc k) =
    let (same, small, top) = trim_count_lem f k in
    elim (Bool-cases (f k == 0)) [
      | inl e ↦
          let zero_limb : f k ≡ 0 = ground arith in
          rw e (
            omega (arith, seg-last0 f k, ap (λ (t : ℕ). weight k * t) zero_limb, same),
            omega (arith, small),
            top,
          )
      | inr e ↦
          let live : 0 < f k = ground arith in
          rw e (refl, omega arith, λ m q. subst (λ t. 0 < f t) (suc_inj q) live)
    ]

-- `trim_lz` drops zero limbs from the top and nothing else: the magnitude stays, and the new top
-- limb is not zero.
pub record IsTrimmed (x out : BigInt) : Type 0 where
  pub trim_value : value out ≡ value x
  pub trim_n : out.n ≤ x.n
  pub trim_top : (k : ℕ) → out.n ≡ suc k → 0 < limb_at out k
  pub trim_limbs : (i : ℕ) → limb_at out i ≡ limb_at x i
  pub trim_cap : out.cap ≡ x.cap
  pub trim_room : room out ≡ room x
  pub trim_zero_sign : out.n ≡ 0 → out.sign ≡ pos 1
  pub trim_sign : (out.n ≢ 0) → out.sign ≡ x.sign

pub trim_lz-IsTrimmed : (x : BigInt) → IsTrimmed x (trim_lz x)
unfolding trim_lz value limb_at
trim_lz-IsTrimmed x =
    let (same, small, top) = trim_count_lem (limb_at x) x.n in
    record {
      trim_value = same;
      trim_n = small;
      trim_top = top;
      trim_limbs = λ i. refl;
      trim_cap = refl;
      trim_room = refl;
      trim_zero_sign = λ e. ground arith;
      trim_sign = λ e. ground arith;
    }
