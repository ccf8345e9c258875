-- ===== src/Tests/Shop.antt =====
-- A few rows of the payment tables.
use hamromentorback.Base.{true, false, none, some, [], ◌∷◌}
use hamromentorback.Time.{Time}
use hamromentorback.Billing.Models.{ProductType, DurationUnit, SubscriptionPlan, Subscription}
use hamromentorback.Texts.{Text}
use hamromentorback.Billing.Orders.{
  PurchaseStatus, PurchaseKind, Purchase, Coupon, PurchaseEntitlementGrant, Target, Db,
}
use hamromentorback.Billing.Refunds.{Caller}

abbrev pub blurred : Text
blurred = 98 ∷ 97 ∷ 100 ∷ []

abbrev pub reference : Text
reference = 82 ∷ 49 ∷ []

abbrev pub admin : Caller
admin = record { actor = some 1; noted_actor = some 1 }

abbrev pub month_plan : SubscriptionPlan
month_plan = record {
  id = 1;
  course_id = 3;
  product_type = ProductType.qbank;
  duration_value = 30;
  duration_unit = DurationUnit.day;
  mock_test_quota = none;
}

-- An order with proof, for the plan, with a coupon.
abbrev pub order : Purchase
order = record {
  id = 20;
  user_id = 7;
  kind = PurchaseKind.subscription;
  plan_id = some 1;
  grand_test_id = none;
  teacher_course_id = none;
  coupon_id = some 8;
  combo_plan_ids = [];
  package_test_ids = [];
  payment_method = none;
  payment_reference = reference;
  screenshot_key = [];
  status = PurchaseStatus.pending;
  admin_note = [];
  expires_at = none;
  decided_at = none;
  decided_by = none;
  refunded_at = none;
  refunded_by = none;
  refund_reason = [];
}

abbrev pub one_use : Coupon
one_use = record { id = 8; max_uses = some 1; max_uses_per_user = 1; usage_count = 0 }

abbrev pub lifetime_row : Subscription
lifetime_row = record {
  id = 4;
  user_id = 7;
  plan_id = none;
  course_id = 3;
  product_type = ProductType.qbank;
  starts_at = 10;
  expires_at = none;
  mock_test_quota = none;
  mock_test_used = 0;
  is_active = true;
  is_scholarship = false;
}

abbrev pub shop : Db
shop = record {
  purchases = order ∷ [];
  coupons = one_use ∷ [];
  plans = month_plan ∷ [];
  subscriptions = lifetime_row ∷ [];
  grand_accesses = [];
  memberships = [];
  teacher_courses = [];
  course_enrollments = [];
  grants = [];
  accounts = [];
  audit_log = [];
  next_id = 100;
}

-- A grant that moved an end.
abbrev pub extension : Time → Time → PurchaseEntitlementGrant
extension from until = record {
  id = 50;
  purchase_id = 20;
  target = Target.to_subscription 4;
  was_created = false;
  previous_expires_at = some from;
  granted_expires_at = some until;
  revoked_at = none;
}

-- A combo with the plan twice, approved at 0.
abbrev pub twice : Purchase
twice = record order {
  id = 21;
  kind = PurchaseKind.combo;
  plan_id = none;
  coupon_id = none;
  combo_plan_ids = 1 ∷ 1 ∷ [];
}

abbrev pub twice_shop : Db
twice_shop = record shop { purchases = twice ∷ []; subscriptions = [] }
