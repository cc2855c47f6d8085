-- ===== src/BigInt/AddSub.antt =====
-- calc_algo/algo_base/add_sub.c: addition and subtraction of magnitudes and of signed bigInts.
-- `res`, `a` and `b` are pointers into the store, and may be equal.
pub mod Rounds
pub mod Adding
pub mod Subtracting
pub mod Prepare
pub mod Outcome
pub mod Operands
pub mod Sum
pub mod Difference
pub mod Signs
pub mod SignedOutcome
pub mod SignCases
pub mod Signed
pub mod Examples
use dynamol.Base.{ℕ, zero, suc, ◌+◌, ◌-◌, ◌*◌, Bool, true, false, not}
use dynamol.Base.{◌&&◌, ◌||◌, if◌then◌else◌, ltb, leb, ◌==◌, flag}
use dynamol.Base.Int.{ℤ, pos, negsuc}
use dynamol.Intrin.Arith.{add64c, sub64b}
use dynamol.BigInt.{BigInt, limb_at, set_limb, Store, update, negate}
use dynamol.BigInt.Util.{zset, copy, comp, trim_lz, sign_eq}

-- `(i < x->n) ? x->limbs[i] : 0`
unfoldable pub operand : BigInt → ℕ → ℕ
operand x i = if ltb i x.n then limb_at x i else 0

module _ (res a b : ℕ) where
  -- `if (res != a && res != b) { res->n = 0; res->sign = 1; }`
  pub clear_result : Store → Store
  clear_result s =
      if not (res == a) && not (res == b)
      then update res (record (s res) { n = 0; sign = pos 1 }) s
      else s

  -- `if (!a->n && !b->n) { ZSET(res); }`: there is no return behind it.
  pub zero_result : Store → Store
  zero_result s = if (s a).n == 0 && (s b).n == 0 then update res (zset (s res)) s else s

  pub add_step : ℕ → Store × ℕ → Store × ℕ
  add_step i (s, carry) =
      let x = operand (s a) i in
      let y = operand (s b) i in
      let (sum, carry') = add64c x y carry in (update res (set_limb (s res) i sum) s, carry')

  pub add_loop : ℕ → ℕ → Store × ℕ → Store × ℕ
  add_loop zero i st = st
  add_loop (suc left) i st = add_loop left (suc i) (add_step i st)

  -- What stands behind the loop of `add_wc`.
  pub add_finish : ℕ → Store × ℕ → Store
  add_finish max (s, carry) =
      let r = record (s res) { n = max } in
      if carry == 0
      then update res r s
      else update res (record (set_limb r max carry) { n = max + 1 }) s

  pub add_wc : Store → Store
  add_wc s0 =
      let s = zero_result (clear_result s0) in
      if (s b).n == 0
      then update res (copy (s res) (s a)) s
      else if (s a).n == 0
      then update res (copy (s res) (s b)) s
      else let top = if ltb (s b).n (s a).n then (s a).n else (s b).n in
        add_finish top (add_loop top 0 (s, 0))

  -- One round of `sub_wb`: the store, the borrow and `top_nonzero`.
  pub sub_step : ℕ → Store × ℕ × ℕ → Store × ℕ × ℕ
  sub_step i (s, borrow, top_nonzero) =
      let y = operand (s b) i in
      let (diff, borrow') = sub64b (limb_at (s a) i) y borrow in
      (update res (set_limb (s res) i diff) s, borrow', if diff == 0 then top_nonzero else i + 1)

  pub sub_loop : ℕ → ℕ → Store × ℕ × ℕ → Store × ℕ × ℕ
  sub_loop zero i st = st
  sub_loop (suc left) i st = sub_loop left (suc i) (sub_step i st)

  -- What stands behind the loop of `sub_wb`.
  pub sub_finish : Store × ℕ × ℕ → Store
  sub_finish (s, borrow, top_nonzero) = update res (record (s res) { n = top_nonzero }) s

  pub sub_wb : Store → Store
  sub_wb s0 =
      let s = zero_result (clear_result s0) in
      if (s b).n == 0
      then update res (copy (s res) (s a)) s
      else sub_finish (sub_loop (s a).n 0 (s, 0, 0))

-- `res->sign = sign`
pub set_sign : ℕ → ℤ → Store → Store
set_sign res sign s = update res (record (s res) { sign = sign }) s

module _ (res x y : ℕ) where
  -- The branch of `add_saw` for operands of opposite signs.
  pub add_opposite : Store → Store
  add_opposite s =
      let order = comp (s x) (s y) in
      if sign_eq order (pos 0)
      then update res (zset (s res)) s
      else if sign_eq order (pos 1)
      then (let s' = sub_wb res x y s in set_sign res (s' x).sign s')
      else let s' = sub_wb res y x s in set_sign res (s' y).sign s'

  pub add_saw : Store → Store
  add_saw s0 =
      let s = zero_result res x y (clear_result res x y s0) in
      if (s y).n == 0
      then update res (copy (s res) (s x)) s
      else if (s x).n == 0
      then update res (copy (s res) (s y)) s
      else if sign_eq (s x).sign (s y).sign
      then (let s' = add_wc res x y s in set_sign res (s' x).sign s')
      else add_opposite s

  -- The branch of `sub_saw` for operands of equal signs.
  pub sub_same : Store → Store
  sub_same s =
      let order = comp (s x) (s y) in
      if sign_eq order (pos 0)
      then update res (zset (s res)) s
      else if sign_eq order (pos 1)
      then (let s' = sub_wb res x y s in set_sign res (s' x).sign s')
      else let s' = sub_wb res y x s in set_sign res (negate (s' x).sign) s'

  pub sub_saw : Store → Store
  sub_saw s0 =
      let s = zero_result res x y (clear_result res x y s0) in
      if (s y).n == 0
      then update res (copy (s res) (s x)) s
      else if (s x).n == 0
      then (let s' = update res (copy (s res) (s y)) s in set_sign res (negate (s' y).sign) s')
      else if sign_eq (s x).sign (s y).sign
      then sub_same s
      else let s' = add_wc res x y s in set_sign res (s' x).sign s'
