-- ===== src/Prelude/State.antt =====
-- State with faults: a command takes the state and returns a value with the new state, or fails.
use Prim.Native.Nat.{ℕ, zero, suc, ◌+◌}
use mathlib.Core.Path.{◌≡◌, refl}

-- `null_pointer`: a read through a null pointer. `bad_alloc`: no free memory. `runtime_error`: the
-- exception of that name. `out_of_range`: an array index that is not below the array's size.
-- `out_of_fuel`: the bound of the model on the depth of calls was met.
pub data Fault : Type 0 where
  null_pointer bad_alloc runtime_error out_of_range out_of_fuel : Fault

pub data Run (S A : Type 0) : Type 0 where
  ok : A → S → Run S A
  fail : Fault → Run S A

abbrev pub Cmd : Type 0 → Type 0 → Type 0
Cmd S A = S → Run S A

module _ {S : Type 0} where
  abbrev pub pure : {A : Type 0} → A → Cmd S A
  pure = ok

  abbrev pub throw : {A : Type 0} → Fault → Cmd S A
  throw e s = fail e

  abbrev pub and_then : {A B : Type 0} → Run S A → (A → Cmd S B) → Run S B
  and_then (ok a s) k = k a s
  and_then (fail e) k = fail e

  infixl 5 ◌>>=◌ ◌>>◌
  abbrev pub ◌>>=◌ : {A B : Type 0} → Cmd S A → (A → Cmd S B) → Cmd S B
  m >>= k = λ s. and_then (m s) k

  abbrev pub ◌>>◌ : {A B : Type 0} → Cmd S A → Cmd S B → Cmd S B
  m >> n = m >>= λ _. n

  -- `for (i = start; i < start + count; i++) body(i)`
  unfoldable pub for_up : ℕ → ℕ → (ℕ → Cmd S (Unit {0})) → Cmd S (Unit {0})
  for_up zero start body = pure tt
  for_up (suc count) start body = do body start; for_up count (start + 1) body

  -- `for (i = start + count - 1; i >= start; i--) body(i)`
  unfoldable pub for_down : ℕ → ℕ → (ℕ → Cmd S (Unit {0})) → Cmd S (Unit {0})
  for_down zero start body = pure tt
  for_down (suc count) start body = do body (start + count); for_down count start body

  -- The state from which a command succeeds, and its value, from the result.
  pub and_then-eq_ok :
      {A B : Type 0} (r : Run S A) (k : A → Cmd S B) {b : B} {t : S}
      → and_then r k ≡ ok b t
      → (a : A) × (s : S) × (r ≡ ok a s) × (k a s ≡ ok b t)
  and_then-eq_ok (ok a s) k h = (a, s, refl, h)
  and_then-eq_ok (fail e) k h = cc
