-- ===== src/BigInt/Mutate/Ranged/Outcome.antt =====
-- From the body of an operation, run on the bigInt that has got its room, to its reply.
use dynamol.Base.{ℕ, suc, ◌≤◌, ◌≡◌, ◌^◌, arith, ap, ◌∙◌, some, false}
use dynamol.Base.{◌==◌}
use dynamol.BigInt.{BigInt, IsValid}
use dynamol.BigInt.Status.{success}
use dynamol.BigInt.Value.{value}
use dynamol.BigInt.Room.{Realloc, IsRealloc, enscap}
use dynamol.BigInt.Room.Grow.{Keeps, enscap-Keeps}
use dynamol.BigInt.Copies.{Reply, roomy}
use dynamol.BigInt.Mutate.{through, with_room}
use dynamol.BigInt.Mutate.Sweep.{Keeps-IsValid}
use dynamol.BigInt.Mutate.Partial.{IsChanged}
use dynamol.BigInt.Mutate.Ranged.{ranging}

-- Success, and behind the pointer a valid bigInt of magnitude `v` with the sign of `x`, unless it
-- is zero.
abbrev pub Becomes : Reply → BigInt → ℕ → Type 0
Becomes out x v = (r : BigInt) × (out ≡ (some r, success)) × IsChanged r x v

-- The reply of `realloc` gives `x` room for `k` limbs, as `z`.
pub record GetsRoom (realloc : Realloc) (x : BigInt) (k : ℕ) (z : BigInt) : Type 0 where
  pub library : IsRealloc realloc
  pub bounded : k ≤ 2 ^ 60
  pub got : enscap realloc x k ≡ some z

module _ {realloc : Realloc} {x z : BigInt} {k : ℕ} (vx : IsValid x)
    (room : GetsRoom realloc x k z) where
  pub kept : Keeps x z × (k ≤ z.cap)
  kept = enscap-Keeps realloc room.library x k vx room.bounded z room.got

  pub kept-IsValid : IsValid z × (value z ≡ value x)
  kept-IsValid = Keeps-IsValid x z vx kept.0

  pub with_room-Becomes :
      (body : BigInt → BigInt) (f : ℕ → ℕ)
      → IsChanged (body z) z (f (value z))
      → Becomes (through (with_room realloc x k body)) x (f (value x))
  with_room-Becomes body f h = (
    body z,
    ap (λ t. through (roomy body x t)) room.got,
    (h.0, h.1 ∙ ap f kept-IsValid.1, λ ne. h.2 ne ∙ kept.0.keeps_sign),
  )

pub ranging-Becomes :
    {realloc : Realloc} {x z : BigInt} {k : ℕ} (vx : IsValid x)
    (room : GetsRoom realloc x (suc k) z) (body : BigInt → BigInt) (f : ℕ → ℕ)
    → IsChanged (body z) z (f (value z))
    → Becomes (through (ranging realloc (suc k) x body)) x (f (value x))
ranging-Becomes {k = k} vx room body f h =
    let q : (suc k == 0) ≡ false = ground arith in rw q (with_room-Becomes vx room body f h)
