-- ===== src/Billing/Activation.antt =====
-- billing/payment_service.py, what an approval gives: memberships, subscriptions, Grand Test grants,
-- course enrolments, the grants ledger and the referral reward. Letters to the student and the
-- log of them are left out, the stamp of the time of a letter is not.
pub mod Frames
pub mod Membership
pub mod Renewal
use hamromentorback.Base.{
  ℕ, ◌+◌, Bool, true, false, ◌&&◌, ◌||◌, not, Option, none, some, List, [], ◌∷◌, ◌++◌, ◌==◌, ltb,
  is_some, holds_id, if◌then◌else◌, find_first, any, update_by, nonempty, contains,
}
use hamromentorback.Time.{Time, days, is_unexpired}
use hamromentorback.Courses.{Enrollment, package_access}
use hamromentorback.Billing.Models.{
  ProductType, product_tag, SubscriptionPlan, Subscription, GrandTestAccess, duration_timedelta,
}
use hamromentorback.Billing.Orders.{
  Purchase, PurchaseKind, subscription, grand_test, combo, grand_test_package, teacher_course,
  other_kind, approved, has_status, Target, to_subscription, to_grand_test_access,
  to_course_enrollment, DurationType, lifetime, custom, days_30, days_90, days_180, year_1,
  other_duration, TeacherCourse, CourseEnrollment, by_purchase, Account, Db, Result, ok, err, ◌>>=◌,
  crashed, unknown_kind, or_raise,
}

abbrev pub is_membership : ℕ → ℕ → Enrollment → Bool
is_membership user_id course_id e = (e.user_id == user_id) && (e.course_id == course_id)

-- `update_or_create(user=user, course=course, defaults=…)`
unfoldable pub ensure_enrollment : Time → ℕ → ℕ → Db → Db
ensure_enrollment now user_id course_id db =
    if any (is_membership user_id course_id) db.memberships
    then record db {
      memberships =
          update_by (is_membership user_id course_id)
            (λ e. record e { access_type = package_access; is_active = true }) db.memberships;
    }
    else record db {
      memberships =
          record {
            id = db.next_id;
            user_id = user_id;
            course_id = course_id;
            batch_id = none;
            access_type = package_access;
            enrolled_at = now;
            expires_at = none;
            is_active = true;
          }
          ∷ db.memberships;
      next_id = db.next_id + 1;
    }

-- Nothing for a grant that no purchase paid for.
unfoldable pub record_grant : Option ℕ → Target → Bool → Option Time → Option Time → Db → Db
record_grant none target was_created previous granted db = db
record_grant (some purchase_id) target was_created previous granted db = record db {
  grants =
      db.grants
      ++ (record {
        id = db.next_id;
        purchase_id = purchase_id;
        target = target;
        was_created = was_created;
        previous_expires_at = previous;
        granted_expires_at = granted;
        revoked_at = none;
      }
          ∷ []);
  next_id = db.next_id + 1;
}

abbrev same_flag : Bool → Bool → Bool
same_flag true b = b
same_flag false b = not b

-- What a renewal looks for: a live row of the same product and the same origin.
abbrev pub is_extendable : Time → ℕ → ℕ → ProductType → Bool → Subscription → Bool
is_extendable now user_id course_id product is_scholarship sub =
    (sub.user_id == user_id)
    && (sub.course_id == course_id)
    && (product_tag sub.product_type == product_tag product)
    && sub.is_active
    && is_unexpired now sub.expires_at
    && same_flag is_scholarship sub.is_scholarship

-- `existing.expires_at if (existing and existing.expires_at and existing.expires_at > now) else now`
start_from : Time → Option Subscription → Time
start_from now none = now
start_from now (some sub) = elim sub.expires_at [
  | none ↦ now
  | some e ↦ if ltb now e then e else now
]

-- `start + duration if duration else None`: `timedelta(0)` is false.
expiry_after : Time → Option ℕ → Option Time
expiry_after start none = none
expiry_after start (some duration) = if duration == 0 then none else some (start + duration)

or_zero : Option ℕ → ℕ
or_zero none = 0
or_zero (some n) = n

add_quota : Option ℕ → Option ℕ → Option ℕ
unfolding or_zero
add_quota existing none = existing
add_quota existing (some quota) = some (or_zero existing + quota)

-- The row that a renewal saves.
extended : Option Time → Option ℕ → Option ℕ → Subscription → Subscription
unfolding add_quota
extended expires_at plan_id quota sub = record sub {
  expires_at = expires_at;
  plan_id = if is_some plan_id then plan_id else sub.plan_id;
  mock_test_quota = add_quota sub.mock_test_quota quota;
}

-- What a grant of a subscription is about.
pub record Terms : Type 0 where
  pub user_id : ℕ
  pub course_id : ℕ
  pub product_type : ProductType
  pub duration : Option ℕ
  pub plan_id : Option ℕ
  pub mock_test_quota : Option ℕ
  pub is_scholarship : Bool

abbrev pub find_extendable : Time → Terms → List Subscription → Option Subscription
find_extendable now t l =
    find_first (is_extendable now t.user_id t.course_id t.product_type t.is_scholarship) l

save_or_create : Time → Terms → Option ℕ → Option Subscription → Db → Db
unfolding extended start_from expiry_after
save_or_create now t purchase (some sub) db =
    let expires_at = expiry_after (start_from now (some sub)) t.duration in
    record_grant purchase (to_subscription sub.id) false sub.expires_at expires_at (record db {
      subscriptions =
          update_by (λ r. r.id == sub.id) (λ _. extended expires_at t.plan_id t.mock_test_quota sub)
            db.subscriptions;
    })
save_or_create now t purchase none db =
    let expires_at = expiry_after now t.duration in
    record_grant purchase (to_subscription db.next_id) true none expires_at (record db {
      subscriptions =
          record {
            id = db.next_id;
            user_id = t.user_id;
            plan_id = t.plan_id;
            course_id = t.course_id;
            product_type = t.product_type;
            starts_at = now;
            expires_at = expires_at;
            mock_test_quota = t.mock_test_quota;
            mock_test_used = 0;
            is_active = true;
            is_scholarship = false;
          }
          ∷ db.subscriptions;
      next_id = db.next_id + 1;
    })

-- The query for the row to extend comes before the membership, which it does not read.
unfoldable pub extend_or_create_subscription : Time → Terms → Option ℕ → Db → Db
unfolding save_or_create
extend_or_create_subscription now t purchase db =
    save_or_create now t purchase (find_extendable now t db.subscriptions)
      (ensure_enrollment now t.user_id t.course_id db)
