-- ===== src/Base/Chains.antt =====
-- Steps that may raise: the next one where the database has not raised.
use mathlib.Core.Path.{◌≡◌, refl}
use mathlib.Core.Option.{Option, none, some}

infixl 5 ◌>>=◌
abbrev pub ◌>>=◌ : {A B : Type 0} → Option A → (A → Option B) → Option B
none >>= step = none
some a >>= step = step a

pub bind-eq-some :
    {A B : Type 0} (first : Option A) (next : A → Option B) {out : B}
    → (first >>= next) ≡ some out
    → (a : A) × (first ≡ some a) × (next a ≡ some out)
bind-eq-some none next h = cc
bind-eq-some (some a) next h = (a, refl, h)
