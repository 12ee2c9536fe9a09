-- ===== src/Base/Process.antt =====
-- The outcome of a call that may end the process.
use mathlib.Core.Path.{◌≡◌}
use mathlib.Core.Bool.{Bool, true, not}
use sysprog.Base.Tests.{if◌then◌else◌}

pub data Run {ℓ} (A : Type ℓ) : Type ℓ where
  ok : A → Run A
  -- `exit`, a failed `assert`, or `PANIC`
  aborts : Run A
  -- the bound on the rounds of a loop was reached
  out_of_fuel : Run A

infixl 5 ◌>>=◌
abbrev pub ◌>>=◌ {ℓ κ} : {A : Type ℓ} {B : Type κ} → Run A → (A → Run B) → Run B
ok a >>= f = f a
aborts >>= f = aborts
out_of_fuel >>= f = out_of_fuel

-- An `assert` that holds.
pub past_check {ℓ} :
    {A : Type ℓ} → (b : Bool) (x y : Run A) → b ≡ true → (if not b then x else y) ≡ y
past_check b x y e = rw e
