-- ===== src/Intrin/Arith/Carry.antt =====
-- `add64c` and `sub64b` as arithmetic with the carry made explicit.
use dynamol.Base.{ℕ, ◌+◌, ◌*◌, ◌≤◌, ◌<◌, ◌≡◌, arith, word}
use dynamol.Intrin.Arith.{add64c, sub64b}

-- The sum and the carry are the two digits of `a + b + carry` in base 2 ^ 64.
pub add64c_lem :
    (a b carry : ℕ)
    → a < word
    → b < word
    → carry ≤ 1
    → ((add64c a b carry).0 + word * (add64c a b carry).1 ≡ a + b + carry)
      × ((add64c a b carry).0 < word)
      × ((add64c a b carry).1 ≤ 1)
unfolding add64c
add64c_lem a b carry ha hb hc = ground arith

-- The difference is short of `a` by `b + borrow`, up to one borrowed 2 ^ 64.
pub sub64b_lem :
    (a b borrow : ℕ)
    → a < word
    → b < word
    → borrow ≤ 1
    → ((sub64b a b borrow).0 + b + borrow ≡ a + word * (sub64b a b borrow).1)
      × ((sub64b a b borrow).0 < word)
      × ((sub64b a b borrow).1 ≤ 1)
unfolding sub64b
sub64b_lem a b borrow ha hb hc = ground arith
