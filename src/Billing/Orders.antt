-- ===== src/Billing/Orders.antt =====
-- billing/models.py: coupons, purchases, the grants ledger, the audit trail and the tables that
-- billing/payment_service.py works on.
pub mod Frames
pub mod Moves
use hamromentorback.Base.{
  ℕ, Bool, true, false, ◌&&◌, ◌||◌, not, Option, none, some, List, [], ◌∷◌, ◌==◌, ltb,
  if◌then◌else◌, find_first, update_by,
}
use hamromentorback.Texts.{Text, same_text}
use hamromentorback.Time.{Time}
use hamromentorback.Courses.{Enrollment}
use hamromentorback.Billing.Models.{SubscriptionPlan, Subscription, GrandTestAccess}

pub data PurchaseStatus : Type 0 where
  unpaid pending resubmission_requested approved rejected expired cancelled refunded :
      PurchaseStatus

abbrev pub status_tag : PurchaseStatus → ℕ
status_tag unpaid = 0
status_tag pending = 1
status_tag resubmission_requested = 2
status_tag approved = 3
status_tag rejected = 4
status_tag expired = 5
status_tag cancelled = 6
status_tag refunded = 7

pub data PurchaseKind : Type 0 where
  subscription grand_test combo grand_test_package teacher_course other_kind : PurchaseKind

pub record Coupon : Type 0 where
  pub id : ℕ
  pub max_uses : Option ℕ
  pub max_uses_per_user : ℕ
  pub usage_count : ℕ

-- `combo_plan_ids` and `package_test_ids` are the plans of its PurchaseComboItem rows and the tests
-- of its PurchaseGrandTestPackageItem rows; `screenshot_key` is the bucket and the key.
pub record Purchase : Type 0 where
  pub id : ℕ
  pub user_id : ℕ
  pub kind : PurchaseKind
  pub plan_id : Option ℕ
  pub grand_test_id : Option ℕ
  pub teacher_course_id : Option ℕ
  pub coupon_id : Option ℕ
  pub combo_plan_ids : List ℕ
  pub package_test_ids : List ℕ
  pub payment_method : Option ℕ
  pub payment_reference : Text
  pub screenshot_key : Text
  pub status : PurchaseStatus
  pub admin_note : Text
  pub expires_at : Option Time
  pub decided_at : Option Time
  pub decided_by : Option ℕ
  pub refunded_at : Option Time
  pub refunded_by : Option ℕ
  pub refund_reason : Text

abbrev pub has_status : PurchaseStatus → Purchase → Bool
has_status status p = status_tag p.status == status_tag status

-- Another purchase with that reference, in one of the statuses that `counts` accepts.
abbrev pub is_reference_of : (Purchase → Bool) → ℕ → Text → Purchase → Bool
is_reference_of counts id reference q =
    same_text q.payment_reference reference && counts q && not (q.id == id)

abbrev pub is_claimed : Purchase → Bool
is_claimed q = has_status pending q || has_status approved q

-- `self.expires_at and timezone.now() > self.expires_at`
is_past : Time → Option Time → Bool
is_past now none = false
is_past now (some e) = ltb e now

unfoldable pub is_expired : Time → Purchase → Bool
unfolding is_past
is_expired now p = is_past now p.expires_at && has_status unpaid p

-- Which of the three access columns a grant fills; `deleted` where all are null.
pub data Target : Type 0 where
  to_subscription to_grand_test_access to_course_enrollment : ℕ → Target
  deleted : Target

pub record PurchaseEntitlementGrant : Type 0 where
  pub id : ℕ
  pub purchase_id : ℕ
  pub target : Target
  pub was_created : Bool
  pub previous_expires_at : Option Time
  pub granted_expires_at : Option Time
  pub revoked_at : Option Time

pub data DurationType : Type 0 where
  lifetime custom days_30 days_90 days_180 year_1 other_duration : DurationType

-- marketplace.models.TeacherCourse and CourseEnrollment
pub record TeacherCourse : Type 0 where
  pub id : ℕ
  pub access_duration_type : DurationType
  pub access_duration_days : Option ℕ

pub data EnrollmentSource : Type 0 where
  by_purchase by_admin_grant : EnrollmentSource

pub record CourseEnrollment : Type 0 where
  pub id : ℕ
  pub user_id : ℕ
  pub course_id : ℕ
  pub source : EnrollmentSource
  pub enrolled_at : Time
  pub expires_at : Option Time
  pub is_active : Bool

-- accounts.models.User, for referrals
pub record Account : Type 0 where
  pub id : ℕ
  pub referred_by : Option ℕ
  pub wallet_balance : ℕ

pub record PaymentAuditLog : Type 0 where
  pub purchase_id : ℕ
  pub previous_status : PurchaseStatus
  pub new_status : PurchaseStatus
  pub actor : Option ℕ
  pub reason : Text
  pub payment_reference : Text
  pub grants_processed : ℕ

-- The tables, each in its model's order; `next_id` is the key of the next row that is created.
pub record Db : Type 0 where
  pub purchases : List Purchase
  pub coupons : List Coupon
  pub plans : List SubscriptionPlan
  pub subscriptions : List Subscription
  pub grand_accesses : List GrandTestAccess
  pub memberships : List Enrollment
  pub teacher_courses : List TeacherCourse
  pub course_enrollments : List CourseEnrollment
  pub grants : List PurchaseEntitlementGrant
  pub accounts : List Account
  pub audit_log : List PaymentAuditLog
  pub next_id : ℕ

-- What an operation raises: a PaymentError, the InvalidScreenshot of the upload, the DoesNotExist of
-- `get`, or an exception that is none of the operation's own.
pub data Error : Type 0 where
  not_awaiting_submission window_expired reference_required reference_used already_decided : Error
  reference_approved coupon_exhausted coupon_user_limit reason_required : Error
  not_awaiting_verification not_cancellable not_approved unknown_kind : Error
  invalid_screenshot does_not_exist crashed : Error

-- A raise leaves no new tables: the transaction is rolled back.
pub data Result (A : Type 0) : Type 0 where
  ok : A → Result A
  err : Error → Result A

-- The next statement runs on the answer of this one; a raise ends the call.
infixl 5 ◌>>=◌
abbrev pub ◌>>=◌ : {X Y : Type 0} → Result X → (X → Result Y) → Result Y
err raised >>= next = err raised
ok answer >>= next = next answer

-- `if b: raise e`
abbrev pub raise_if : Bool → Error → Result (Unit {0})
raise_if true e = err e
raise_if false e = ok tt

-- A statement whose answer nobody reads, such as a guard.
infixl 5 ◌>>◌
abbrev pub ◌>>◌ : {Y : Type 0} → Result (Unit {0}) → Result Y → Result Y
guard >> next = guard >>= λ _. next

-- `objects.get(pk=…)`, and an attribute of a null foreign key
abbrev pub or_raise : {A : Type 0} → Error → Option A → Result A
or_raise e none = err e
or_raise e (some a) = ok a

abbrev pub find_purchase : ℕ → List Purchase → Option Purchase
find_purchase id l = find_first (λ p. p.id == id) l

-- `purchase.save()`
abbrev pub save_purchase : Purchase → List Purchase → List Purchase
save_purchase p l = update_by (λ r. r.id == p.id) (λ _. p) l
