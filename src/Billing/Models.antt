-- ===== src/Billing/Models.antt =====
-- billing/models.py: plans, subscriptions and Grand Test grants, with the columns that access
-- decisions and activation read or write.
use hamromentorback.Base.{ℕ, ◌*◌, Bool, true, false, Option, none, some, ltb, if◌then◌else◌, not}
use hamromentorback.Time.{Time, days}

pub data ProductType : Type 0 where
  qbank daily_test mock_test video pyq : ProductType

-- A column's value as a number, to compare by.
abbrev pub product_tag : ProductType → ℕ
product_tag qbank = 0
product_tag daily_test = 1
product_tag mock_test = 2
product_tag video = 3
product_tag pyq = 4

pub data DurationUnit : Type 0 where
  day week month year other_unit : DurationUnit

pub record SubscriptionPlan : Type 0 where
  pub id : ℕ
  pub course_id : ℕ
  pub product_type : ProductType
  pub duration_value : ℕ
  pub duration_unit : DurationUnit
  pub mock_test_quota : Option ℕ

duration_of : DurationUnit → ℕ → ℕ
duration_of day n = days n
duration_of week n = days (7 * n)
duration_of month n = days (30 * n)
duration_of year n = days (365 * n)
duration_of other_unit n = days 30

unfoldable pub duration_timedelta : SubscriptionPlan → ℕ
unfolding duration_of
duration_timedelta plan = duration_of plan.duration_unit plan.duration_value

-- `is_scholarship` is whether a Scholarship row points at the subscription.
pub record Subscription : Type 0 where
  pub id : ℕ
  pub user_id : ℕ
  pub plan_id : Option ℕ
  pub course_id : ℕ
  pub product_type : ProductType
  pub starts_at : Time
  pub expires_at : Option Time
  pub mock_test_quota : Option ℕ
  pub mock_test_used : ℕ
  pub is_active : Bool
  pub is_scholarship : Bool

-- `mock_test_quota is None or mock_test_used < mock_test_quota`
abbrev pub has_quota_left : Subscription → Bool
has_quota_left sub = elim sub.mock_test_quota [
  | none ↦ true
  | some quota ↦ ltb sub.mock_test_used quota
]

-- `expires_at and expires_at < now`
is_past : Time → Option Time → Bool
is_past now none = false
is_past now (some e) = ltb e now

unfoldable pub is_current : Time → Subscription → Bool
unfolding is_past
is_current now sub =
    if not sub.is_active
    then false
    else if is_past now sub.expires_at
    then false
    else if not (has_quota_left sub)
    then false
    else true

pub record GrandTestAccess : Type 0 where
  pub id : ℕ
  pub user_id : ℕ
  pub test_id : ℕ
  pub purchase_id : Option ℕ
  pub granted_at : Option Time
  pub email_sent_at : Option Time
  pub revoked_at : Option Time
