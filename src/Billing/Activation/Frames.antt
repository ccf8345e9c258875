-- ===== src/Billing/Activation/Frames.antt =====
-- A grant of a subscription leaves the purchases and the coupons alone.
use hamromentorback.Base.{ℕ, refl, Option, none, some, Bool, arith}
use hamromentorback.Time.{Time}
use hamromentorback.Billing.Orders.{Target, Db}
use hamromentorback.Billing.Orders.Frames.{Keeps}
use hamromentorback.Billing.Activation.{
  ensure_enrollment, record_grant, extend_or_create_subscription, Terms,
}

pub record_grant-Keeps :
    (p : Option ℕ) (target : Target) (created : Bool) (previous granted : Option Time) (db : Db)
    → Keeps db (record_grant p target created previous granted db)
unfolding record_grant
record_grant-Keeps none target created previous granted db = (refl, refl)
record_grant-Keeps (some p) target created previous granted db = (refl, refl)

pub extend_or_create-Keeps :
    (now : Time) (t : Terms) (p : Option ℕ) (db : Db)
    → Keeps db (extend_or_create_subscription now t p db)
unfolding extend_or_create_subscription ensure_enrollment record_grant
extend_or_create-Keeps now t p db = ground arith
