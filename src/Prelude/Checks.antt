-- ===== src/Prelude/Checks.antt =====
-- Chains of results that may be errors, for do blocks.
use mathlib.Core.Bool.{Bool, true, false}
use virmux.Prelude.Tests.{Result, ok, err}

-- `if !b { return err }`
abbrev pub require {ℓ} : {E : Type ℓ} → Bool → E → Result E (Unit {0})
require true e = ok tt
require false e = err e

module _ {ℓ κ μ} {E : Type ℓ} {A : Type κ} {B : Type μ} where
  infixl 20 ◌>>=◌
  abbrev pub ◌>>=◌ : Result E A → (A → Result E B) → Result E B
  ok a >>= f = f a
  err e >>= f = err e

  infixl 20 ◌>>◌
  abbrev pub ◌>>◌ : Result E A → Result E B → Result E B
  ok a >> s = s
  err e >> s = err e
