-- ===== src/Billing/Products.antt =====
-- billing/payment_service.py, `_activate_product`: what the approval of a purchase of each kind
-- grants, and `_maybe_reward_referrer`.
pub mod Frames
use hamromentorback.Base.{
  ℕ, ◌+◌, Bool, true, false, ◌&&◌, ◌||◌, not, Option, none, some, List, [], ◌∷◌, ◌==◌, is_some,
  if◌then◌else◌, find_first, any, update_by, contains,
}
use hamromentorback.Time.{Time, days}
use hamromentorback.Billing.Models.{SubscriptionPlan, GrandTestAccess, duration_timedelta}
use hamromentorback.Billing.Orders.{
  Purchase, PurchaseKind, subscription, grand_test, combo, grand_test_package, teacher_course,
  other_kind, approved, has_status, to_grand_test_access, to_course_enrollment, DurationType,
  lifetime, custom, days_30, days_90, days_180, year_1, other_duration, TeacherCourse,
  CourseEnrollment, by_purchase, Account, Db, Result, ok, err, ◌>>=◌, crashed, unknown_kind,
  or_raise,
}
use hamromentorback.Billing.Activation.{Terms, extend_or_create_subscription, record_grant}

abbrev pub terms_of : Purchase → SubscriptionPlan → Terms
terms_of p plan = record {
  user_id = p.user_id;
  course_id = plan.course_id;
  product_type = plan.product_type;
  duration = some (duration_timedelta plan);
  plan_id = some plan.id;
  mock_test_quota = plan.mock_test_quota;
  is_scholarship = false;
}

abbrev pub find_plan : ℕ → List SubscriptionPlan → Option SubscriptionPlan
find_plan id l = find_first (λ plan. plan.id == id) l

-- A null plan has no attribute `course`.
activate_plan : Time → Purchase → Option ℕ → Db → Result Db
activate_plan now p plan_id db = do
  id ← or_raise crashed plan_id
  plan ← or_raise crashed (find_plan id db.plans)
  ok (extend_or_create_subscription now (terms_of p plan) (some p.id) db)

activate_combo : Time → Purchase → List ℕ → Db → Result Db
unfolding activate_plan
activate_combo now p [] db = ok db
activate_combo now p (plan_id ∷ rest) db =
    activate_plan now p (some plan_id) db >>= activate_combo now p rest

abbrev is_access : ℕ → ℕ → GrandTestAccess → Bool
is_access user_id test_id a = (a.user_id == user_id) && (a.test_id == test_id)

abbrev pub find_access : ℕ → ℕ → Db → Option GrandTestAccess
find_access user_id test_id db = find_first (is_access user_id test_id) db.grand_accesses

-- The row that `get_or_create` makes, before it is granted.
create_access : Purchase → ℕ → Option ℕ → Db → Db
create_access p test_id purchase_id db = record db {
  grand_accesses =
      record {
        id = db.next_id;
        user_id = p.user_id;
        test_id = test_id;
        purchase_id = purchase_id;
        granted_at = none;
        email_sent_at = none;
        revoked_at = none;
      }
      ∷ db.grand_accesses;
  next_id = db.next_id + 1;
}

-- `granted_at` is set and a revocation is taken back.
live : Time → GrandTestAccess → GrandTestAccess
live now a = record a { granted_at = some now; revoked_at = none }

on_access : ℕ → (GrandTestAccess → GrandTestAccess) → Db → Db
on_access id f db = record db { grand_accesses = update_by (λ a. a.id == id) f db.grand_accesses }

-- The save, the ledger row and the stamp of the letter.
grant_access : Time → Purchase → ℕ → Bool → Db → Db
unfolding on_access live
grant_access now p id created db =
    let saved = on_access id (λ a. live now (record a { purchase_id = some p.id })) db in
    let noted = record_grant (some p.id) (to_grand_test_access id) created none none saved in
    on_access id (λ a. record a { email_sent_at = some now }) noted

activate_grand_test : Time → Purchase → Option ℕ → Db → Result Db
unfolding create_access grant_access
activate_grand_test now p none db = err crashed
activate_grand_test now p (some test_id) db = elim (find_access p.user_id test_id db) [
  | none ↦ ok (grant_access now p db.next_id true (create_access p test_id (some p.id) db))
  | some a ↦ ok (grant_access now p a.id false db)
]

-- A package item is granted where its access is new or revoked; then its key is noted too.
grant_item : Time → Purchase → ℕ → Bool → Db → Db
unfolding on_access live
grant_item now p id created db =
    record_grant (some p.id) (to_grand_test_access id) created none none
      (on_access id (live now) db)

package_item : Time → Purchase → ℕ → List ℕ × Db → List ℕ × Db
unfolding create_access grant_item
package_item now p test_id (newly, db) = elim (find_access p.user_id test_id db) [
  | none ↦ (db.next_id ∷ newly, grant_item now p db.next_id true (create_access p test_id none db))
  | some a ↦ elim a.revoked_at [
    | none ↦ (newly, db)
    | some at ↦ (a.id ∷ newly, grant_item now p a.id false db)
  ]
]

package_items : Time → Purchase → List ℕ → List ℕ × Db → List ℕ × Db
unfolding package_item
package_items now p [] state = state
package_items now p (test_id ∷ rest) state =
    package_items now p rest (package_item now p test_id state)

-- One letter for the package stamps every access that it activated.
activate_package : Time → Purchase → Db → Db
unfolding package_items
activate_package now p db =
    let (newly, granted) = package_items now p p.package_test_ids ([], db) in
    record granted {
      grand_accesses =
          update_by (λ a. contains a.id newly) (λ a. record a { email_sent_at = some now })
            granted.grand_accesses;
    }

-- `timedelta(days=…)` where the number of days is true
custom_days : Option ℕ → Option ℕ
custom_days none = none
custom_days (some n) = if n == 0 then none else some (days n)

duration_of : DurationType → Option ℕ → Option ℕ
unfolding custom_days
duration_of lifetime n = none
duration_of custom n = custom_days n
duration_of days_30 n = some (days 30)
duration_of days_90 n = some (days 90)
duration_of days_180 n = some (days 180)
duration_of year_1 n = some (days 365)
duration_of other_duration n = none

unfoldable pub teacher_course_duration : TeacherCourse → Option ℕ
unfolding duration_of
teacher_course_duration course = duration_of course.access_duration_type course.access_duration_days

course_expiry : Time → TeacherCourse → Option Time
course_expiry now course = elim (teacher_course_duration course) [
  | none ↦ none
  | some duration ↦ some (now + duration)
]

abbrev is_enrollment : ℕ → ℕ → CourseEnrollment → Bool
is_enrollment user_id course_id e = (e.user_id == user_id) && (e.course_id == course_id)

enroll : Time → Purchase → TeacherCourse → Option CourseEnrollment → Db → Db
unfolding course_expiry
enroll now p course none db =
    record_grant (some p.id) (to_course_enrollment db.next_id) true none (course_expiry now course)
      (record db {
        course_enrollments =
            record {
              id = db.next_id;
              user_id = p.user_id;
              course_id = course.id;
              source = by_purchase;
              enrolled_at = now;
              expires_at = course_expiry now course;
              is_active = true;
            }
            ∷ db.course_enrollments;
        next_id = db.next_id + 1;
      })
enroll now p course (some e) db =
    record_grant (some p.id) (to_course_enrollment e.id) false e.expires_at
      (course_expiry now course)
      (record db {
        course_enrollments =
            update_by (λ r. r.id == e.id)
              (λ r. record r {
                source = by_purchase;
                expires_at = course_expiry now course;
                is_active = true;
              })
              db.course_enrollments;
      })

activate_course : Time → Purchase → Option ℕ → Db → Result Db
unfolding enroll
activate_course now p course_id db = do
  id ← or_raise crashed course_id
  course ← or_raise crashed (find_first (λ c. c.id == id) db.teacher_courses)
  ok (enroll now p course (find_first (is_enrollment p.user_id course.id) db.course_enrollments) db)

activate_kind : PurchaseKind → Time → Purchase → Db → Result Db
unfolding activate_plan activate_combo activate_grand_test activate_package activate_course
activate_kind subscription now p db = activate_plan now p p.plan_id db
activate_kind grand_test now p db = activate_grand_test now p p.grand_test_id db
activate_kind combo now p db = activate_combo now p p.combo_plan_ids db
activate_kind grand_test_package now p db = ok (activate_package now p db)
activate_kind teacher_course now p db = activate_course now p p.teacher_course_id db
activate_kind other_kind now p db = err unknown_kind

unfoldable pub activate_product : Time → Purchase → Db → Result Db
unfolding activate_kind
activate_product now p db = activate_kind p.kind now p db

-- `reward` is the setting REFERRAL_REWARD_AMOUNT; the purchases are read after the approval.
unfoldable pub maybe_reward_referrer : ℕ → Purchase → Db → Db
maybe_reward_referrer reward p db = elim (find_first (λ a. a.id == p.user_id) db.accounts) [
  | none ↦ db
  | some account ↦ elim account.referred_by [
    | none ↦ db
    | some referrer ↦
        if any (λ q. (q.user_id == p.user_id) && has_status approved q && not (q.id == p.id))
          db.purchases
        then db
        else record db {
          accounts =
              update_by (λ a. a.id == referrer)
                (λ a. record a { wallet_balance = a.wallet_balance + reward }) db.accounts;
        }
  ]
]
