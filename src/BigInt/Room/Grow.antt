-- ===== src/BigInt/Room/Grow.antt =====
-- The doubling of the capacity ends, and the bigInt keeps its limbs.
use dynamol.Base.{ℕ, zero, suc, ◌+◌, ◌*◌, ◌^◌, ◌≤◌, ◌<◌, ◌≡◌, refl, inl, inr, arith, ap, sym, ◌∙◌}
use dynamol.Base.{
  List, Option, none, some, word, u64, ltb-cases, Bool, true, false, leb, two-pow-suc,
}
use dynamol.Base.{length, if◌then◌else◌}
use mathlib.Core.Path.{subst}
use mathlib.Core.Option.{some-injective}
use dynamol.BigInt.{BigInt, IsValid, limb_at, cells, room}
use dynamol.BigInt.Room.{with_buffer, Realloc, IsRealloc, grow, enscap}

grow_stop : (fuel k c : ℕ) → k ≤ c → grow fuel k c ≡ c
unfolding grow
grow_stop zero k c h = refl
grow_stop (suc fuel) k c h = ground arith

half_fuel : (fuel k c : ℕ) → k ≤ c * 2 ^ suc fuel → k ≤ (c + c) * 2 ^ fuel
half_fuel fuel k c h = omega (arith, h, ap (λ (t : ℕ). c * t) (two-pow-suc fuel))

-- With enough doublings the loop ends, whatever fuel is left over: its result has room for `k` and
-- is less than twice that.
grow_rounds :
    (fuel more k c : ℕ)
    → fuel ≤ more
    → 1 ≤ c
    → k ≤ c * 2 ^ fuel
    → c < 2 * k
    → k ≤ 2 ^ 60
    → (grow more k c ≡ grow fuel k c) × (k ≤ grow fuel k c) × (grow fuel k c < 2 * k)
unfolding grow
grow_rounds zero more k c m p h s b =
    let enough : k ≤ c = omega (arith, h) in (grow_stop more k c enough, enough, s)
grow_rounds (suc fuel) zero k c m p h s b = absurd (omega arith)
grow_rounds (suc fuel) (suc more) k c m p h s b = elim (ltb-cases c k) [
  | inl (q, l) ↦
      let same : u64 (c + c) ≡ c + c = omega arith in
      rw (q, same)
        (grow_rounds fuel more k (c + c) (omega arith) (omega arith) (half_fuel fuel k c h)
          (omega arith) b)
  | inr (q, l) ↦ rw q (refl, l, s)
]

-- From a capacity below `k`, itself at most 2 ^ 60, the doubling loop ends within 64 rounds: with
-- any more rounds allowed the result is the same, it holds `k` limbs and is below twice `k`.
pub grow-enough :
    (more k c : ℕ)
    → 64 ≤ more
    → 1 ≤ c
    → c < k
    → k ≤ 2 ^ 60
    → (grow more k c ≡ grow 64 k c) × (k ≤ grow 64 k c) × (grow 64 k c < 2 * k)
grow-enough more k c m p h b = grow_rounds 64 more k c m p (omega arith) (omega arith) b

-- What `enscap` keeps of a bigInt.
pub record Keeps (x y : BigInt) : Type 0 where
  pub keeps_n : y.n ≡ x.n
  pub keeps_sign : y.sign ≡ x.sign
  pub keeps_limbs : (i : ℕ) → i < x.cap → limb_at y i ≡ limb_at x i
  pub keeps_cap : x.cap ≤ y.cap
  pub keeps_room : room y ≡ y.cap
  pub keeps_words : (i : ℕ) → limb_at y i < word

Keeps-refl : (x : BigInt) → IsValid x → Keeps x x
Keeps-refl x v = record {
  keeps_n = refl;
  keeps_sign = refl;
  keeps_limbs = λ i h. refl;
  keeps_cap = omega arith;
  keeps_room = v.room_cap;
  keeps_words = v.words;
}

module _ (realloc : Realloc) (library : IsRealloc realloc) (x : BigInt) (k : ℕ) (vx : IsValid x)
    (b : k ≤ 2 ^ 60) where
  abbrev new_cap : ℕ
  new_cap = grow 64 k x.cap

  grown :
      (answer : Option (List ℕ))
      → x.cap < k
      → realloc (cells x) (8 * new_cap) ≡ answer
      → (y : BigInt) → with_buffer x new_cap answer ≡ some y
      → Keeps x y × (k ≤ y.cap)
  unfolding limb_at
  grown none l e y f = absurd (ground (arith, f))
  grown (some buffer) l e y f =
      let (more, enough, small) = grow-enough 64 k x.cap (omega arith) vx.cap_pos l b in
      let size : length buffer ≡ new_cap = library.size (cells x) buffer new_cap e in
      subst (λ t. Keeps x t × (k ≤ t.cap)) (some-injective _ _ f)
        (
          record {
            keeps_n = refl;
            keeps_sign = refl;
            keeps_limbs = λ i h.
                library.keeps (cells x) buffer new_cap i e (omega (arith, vx.room_cap))
                  (omega arith);
            keeps_cap = omega arith;
            keeps_room = size;
            keeps_words = library.words (cells x) buffer new_cap e vx.words;
          },
          enough,
        )

  split :
      (fits : Bool)
      → fits ≡ leb k x.cap
      → (y : BigInt)
      → (if fits then some x else with_buffer x new_cap (realloc (cells x) (u64 (new_cap * 8))))
        ≡ some y
      → Keeps x y × (k ≤ y.cap)
  split true q y f =
      subst (λ t. Keeps x t × (k ≤ t.cap)) (some-injective _ _ f)
        (Keeps-refl x vx, ground (arith, q))
  split false q y f =
      let l : x.cap < k = ground (arith, q) in
      let (more, enough, small) = grow-enough 64 k x.cap (omega arith) vx.cap_pos l b in
      let bytes : u64 (new_cap * 8) ≡ 8 * new_cap = omega arith in
      grown (realloc (cells x) (8 * new_cap)) l refl y
        (ap (λ (t : ℕ). with_buffer x new_cap (realloc (cells x) t)) (sym bytes) ∙ f)

  -- With a `realloc` that keeps its contract, a valid bigInt and `k` at most 2 ^ 60: when
  -- `__BIGINT_INTERNAL_ENSCAP__` succeeds the bigInt has room for `k` limbs, no less than before, and the
  -- same count, sign and limbs, and its cells are words.
  pub enscap-Keeps : (y : BigInt) → enscap realloc x k ≡ some y → Keeps x y × (k ≤ y.cap)
  unfolding enscap
  enscap-Keeps y f = split (leb k x.cap) refl y f
