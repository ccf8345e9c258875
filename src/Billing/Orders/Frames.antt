-- ===== src/Billing/Orders/Frames.antt =====
-- Inversion of a successful operation of billing/payment_service.py, and the tables that belong to
-- the operations themselves: the purchases and the coupons.
use hamromentorback.Base.{◌≡◌, refl, ◌∙◌, Bool, true, false, Option, none, some}
use hamromentorback.Billing.Orders.{Db, Error, Result, ok, err, ◌>>=◌, ◌>>◌, raise_if, or_raise}

-- A call that succeeds has succeeded in its first statement.
pub >>=-eq-ok :
    {X Y : Type 0} (first : Result X) (next : X → Result Y) {out : Y}
    → (first >>= next) ≡ ok out
    → (answer : X) × (first ≡ ok answer) × (next answer ≡ ok out)
>>=-eq-ok (err raised) next h = cc
>>=-eq-ok (ok answer) next h = (answer, refl, h)

pub or_raise-eq-ok :
    {A : Type 0} (e : Error) (o : Option A) {a : A} → or_raise e o ≡ ok a → o ≡ some a
or_raise-eq-ok e none h = cc
or_raise-eq-ok e (some a) h = cc

pub raise_if-eq-ok :
    {B : Type 0} (b : Bool) (e : Error) (m : Result B) {x : B}
    → (raise_if b e >> m) ≡ ok x
    → (b ≡ false) × (m ≡ ok x)
raise_if-eq-ok true e m h = cc
raise_if-eq-ok false e m h = (refl, h)

-- The purchases and the coupons stay.
abbrev pub Keeps : Db → Db → Type 0
Keeps a b = (b.purchases ≡ a.purchases) × (b.coupons ≡ a.coupons)

pub Keeps-refl : (a : Db) → Keeps a a
Keeps-refl a = (refl, refl)

pub Keeps-trans : (a b c : Db) → Keeps a b → Keeps b c → Keeps a c
Keeps-trans a b c p q = (q.0 ∙ p.0, q.1 ∙ p.1)
