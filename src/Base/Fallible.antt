-- ===== src/Base/Fallible.antt =====
-- Calls that may end in `cilkrts_bug` (a failed assertion, or an access out of bounds): `none`.
use mathlib.Core.Bool.{Bool, true, false}
use mathlib.Core.Option.{Option, none, some}

infixl 5 ◌>>=◌ ◌>>◌
abbrev pub ◌>>=◌ : {A B : Type 0} → Option A → (A → Option B) → Option B
none >>= f = none
some a >>= f = f a

abbrev pub ◌>>◌ : {B : Type 0} → Option (Unit {0}) → Option B → Option B
m >> k = m >>= λ _. k

-- CILK_ASSERT
abbrev pub assert : Bool → Option (Unit {0})
assert true = some tt
assert false = none
