-- ===== src/BigInt/Memory.antt =====
-- Reading back what was written: limbs of one bigInt, and bigInts of the store.
use dynamol.Base.{ℕ, ◌<◌, List, length, get_or, ◌∙◌, Option, none, some, ◌≡◌, ◌≢◌, refl, arith}
use dynamol.Base.{length-set, get_or-set_self, get_or-set_ne}
use dynamol.BigInt.{BigInt, limb_at, set_limb, room, Store, update, write, cells_of}

cells-write_self :
    (l : Option (List ℕ)) (i v : ℕ)
    → i < length (cells_of l)
    → get_or (cells_of (write l i v)) i 0 ≡ v
cells-write_self none i v h = absurd (omega arith)
cells-write_self (some xs) i v h = get_or-set_self xs i v 0 h

cells-write_ne :
    (l : Option (List ℕ)) (i j v : ℕ)
    → i ≢ j
    → get_or (cells_of (write l i v)) j 0 ≡ get_or (cells_of l) j 0
cells-write_ne none i j v h = refl
cells-write_ne (some xs) i j v h = get_or-set_ne xs i j v 0 h

length-write :
    (l : Option (List ℕ)) (i v : ℕ) → length (cells_of (write l i v)) ≡ length (cells_of l)
length-write none i v = refl
length-write (some xs) i v = length-set xs i v

pub limb_at-set_self : (x : BigInt) (i v : ℕ) → i < room x → limb_at (set_limb x i v) i ≡ v
unfolding limb_at set_limb
limb_at-set_self x i v h = cells-write_self x.limbs i v h

pub limb_at-set_ne : (x : BigInt) (i j v : ℕ) → i ≢ j → limb_at (set_limb x i v) j ≡ limb_at x j
unfolding limb_at set_limb
limb_at-set_ne x i j v h = cells-write_ne x.limbs i j v h

-- What a write leaves of the header.
pub record SameHeader (x y : BigInt) : Type 0 where
  pub same_n : y.n ≡ x.n
  pub same_cap : y.cap ≡ x.cap
  pub same_sign : y.sign ≡ x.sign
  pub same_room : room y ≡ room x

pub set_limb-SameHeader : (x : BigInt) (i v : ℕ) → SameHeader x (set_limb x i v)
unfolding set_limb
set_limb-SameHeader x i v = record {
  same_n = refl;
  same_cap = refl;
  same_sign = refl;
  same_room = length-write x.limbs i v;
}

pub SameHeader-refl : (x : BigInt) → SameHeader x x
SameHeader-refl x = record { same_n = refl; same_cap = refl; same_sign = refl; same_room = refl }

pub SameHeader-trans : {x y z : BigInt} → SameHeader x y → SameHeader y z → SameHeader x z
SameHeader-trans h g = record {
  same_n = g.same_n ∙ h.same_n;
  same_cap = g.same_cap ∙ h.same_cap;
  same_sign = g.same_sign ∙ h.same_sign;
  same_room = g.same_room ∙ h.same_room;
}

pub update_self : (p : ℕ) (x : BigInt) (s : Store) → update p x s p ≡ x
unfolding update
update_self p x s = ground arith

pub update_ne : (p q : ℕ) (x : BigInt) (s : Store) → p ≢ q → update p x s q ≡ s q
unfolding update
update_ne p q x s h = ground arith
