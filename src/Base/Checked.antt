-- ===== src/Base/Checked.antt =====
-- Steps that may stop: `none` stands for a `bug_on` that fires.
use mathlib.Core.Path.{◌≡◌}
use mathlib.Core.Bool.{Bool, true, false}
use mathlib.Core.Option.{Option, none, some}

infixl 5 ◌>>=◌ ◌>>◌
abbrev pub ◌>>=◌ {ℓ κ} : {A : Type ℓ} {B : Type κ} → Option A → (A → Option B) → Option B
none >>= f = none
some a >>= f = f a

abbrev pub ◌>>◌ {ℓ} : {B : Type ℓ} → Option (Unit {0}) → Option B → Option B
m >> k = m >>= λ _. k

abbrev pub bug_on : Bool → Option (Unit {0})
bug_on true = none
bug_on false = some tt

-- What ran to its end passed its `bug_on`.
pub bug_on-some {ℓ} :
    {A : Type ℓ} (b : Bool) (o : Option A) (a : A) → (bug_on b >> o) ≡ some a → o ≡ some a
bug_on-some true o a e = cc
bug_on-some false o a e = e
