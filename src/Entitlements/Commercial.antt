-- ===== src/Entitlements/Commercial.antt =====
-- The academic and commercial sources of access: `academic_eligibility`, `commercial_entitlement`,
-- `_try_free_starter`, `can_view_qbank` and `can_view_test` of entitlements/services.py. The free
-- starter tables are handed through, since asking may provision.
use hamromentorback.Base.{
  ℕ, true, false, ◌&&◌, not, Option, none, some, List, ◌==◌, is_some, if◌then◌else◌, find_first,
  contains,
}
use hamromentorback.Base.Int.{ℤ, pos, sub_ℕ}
use hamromentorback.Time.{Time}
use hamromentorback.Accounts.{User, Visitor, anonymous, signed_in}
use hamromentorback.Courses.{Enrollment, eligible_course_ids}
use hamromentorback.Billing.Models.{ProductType, Subscription}
use hamromentorback.Billing.Access.{Subject, active_subscriptions, has_qbank_access}
use hamromentorback.FreeStarter
use hamromentorback.FreeStarter.{
  ResourceType, FreeStarterEntitlement, find_row, is_currently_valid, remaining,
  provision_free_starter,
}
use hamromentorback.Exams.Models.{Test}
use hamromentorback.Exams.Access.{can_access_test}
use hamromentorback.Entitlements.Decision.{
  AccessDecision, allow, deny, tag, can_view, from_enrollment, from_subscription, from_scholarship,
  from_free_starter, no_source, authentication_required, not_entitled, free_limit_reached,
  subscription_expired, course_enrollment_expired, assignment_required,
}

enrollment_decision : Option Enrollment → AccessDecision
enrollment_decision none = deny course_enrollment_expired false
enrollment_decision (some e) = record (allow from_enrollment) {
  source_id = some e.id;
  valid_from = some e.enrolled_at;
  expires_at = e.expires_at;
}

-- `Enrollment.objects.filter(user=user, course=course, is_active=True).first()`
abbrev pub first_enrollment : List Enrollment → User → ℕ → Option Enrollment
first_enrollment enrollments user course_id =
    find_first (λ e. (e.user_id == user.id) && ((e.course_id == course_id) && e.is_active))
      enrollments

unfoldable pub academic_eligibility : Time → List Enrollment → Visitor → ℕ → AccessDecision
unfolding enrollment_decision
academic_eligibility now enrollments anonymous course_id =
    tag can_view (deny authentication_required false)
academic_eligibility now enrollments (signed_in user) course_id =
    if not (contains course_id (eligible_course_ids now enrollments (signed_in user)))
    then tag can_view (deny course_enrollment_expired false)
    else tag can_view (enrollment_decision (first_enrollment enrollments user course_id))

-- `mock_test_quota - mock_test_used`, which is negative where more was used.
left_of : Option ℕ → ℕ → Option ℤ
left_of none used = none
left_of (some quota) used = some (sub_ℕ quota used)

subscription_decision : Option Subscription → AccessDecision
unfolding left_of
subscription_decision none = deny subscription_expired true
subscription_decision (some sub) =
    record (allow (if sub.is_scholarship then from_scholarship else from_subscription)) {
      source_id = some sub.id;
      valid_from = some sub.starts_at;
      expires_at = sub.expires_at;
      remaining = left_of sub.mock_test_quota sub.mock_test_used;
    }

unfoldable pub commercial_entitlement :
    Time → List Subscription → Visitor → ProductType → Option ℕ → AccessDecision
unfolding subscription_decision
commercial_entitlement now subs anonymous product course = deny authentication_required false
commercial_entitlement now subs (signed_in user) product course =
    subscription_decision
      (find_first (λ sub. true) (active_subscriptions now subs user product course))

-- `if not row`: provision, and look again.
lazy_row :
    Time → User → ResourceType → FreeStarter.Db → Option FreeStarterEntitlement × FreeStarter.Db
lazy_row now user resource db =
    let provisioned = provision_free_starter now (signed_in user) db in
    if is_some (find_row user.id resource db)
    then (find_row user.id resource db, db)
    else (find_row user.id resource provisioned, provisioned)

as_integer : Option ℕ → Option ℤ
as_integer none = none
as_integer (some n) = some (pos n)

row_decision : Time → Option FreeStarterEntitlement → AccessDecision
unfolding as_integer
row_decision now none = deny free_limit_reached true
row_decision now (some row) =
    if not (is_currently_valid now row)
    then deny free_limit_reached true
    else record (allow from_free_starter) {
      source_id = some row.id;
      valid_from = some row.valid_from;
      expires_at = row.expires_at;
      remaining = as_integer (remaining row);
    }

unfoldable pub try_free_starter :
    Time → Visitor → ResourceType → FreeStarter.Db → AccessDecision × FreeStarter.Db
unfolding lazy_row row_decision
try_free_starter now anonymous resource db = (deny authentication_required false, db)
try_free_starter now (signed_in user) resource db =
    let (row, db') = lazy_row now user resource db in
    if user.is_staff then (deny not_entitled false, db) else (row_decision now row, db')

-- `subject.courses.first()`
unfoldable pub first_course : List ℕ → Option ℕ
first_course courses = find_first (λ c. true) courses

-- `decision if decision and decision.allowed`, else the plain decision
unfoldable pub qbank_decision : Time → List Subscription → Visitor → Option ℕ → AccessDecision
qbank_decision now subs visitor none = allow from_subscription
qbank_decision now subs visitor (some course) =
    let decision = commercial_entitlement now subs visitor ProductType.qbank (some course) in
    if decision.allowed then decision else allow from_subscription

qbank_of_user :
    Time → List Subscription → User → Subject → FreeStarter.Db → AccessDecision × FreeStarter.Db
unfolding first_course qbank_decision
qbank_of_user now subs user subject db =
    let (starter, db') = try_free_starter now (signed_in user) ResourceType.qbank db in
    if has_qbank_access now subs (signed_in user) subject
    then (qbank_decision now subs (signed_in user) (first_course subject.courses), db)
    else (starter, db')

qbank_of_visitor :
    Time → List Subscription → Visitor → Subject → FreeStarter.Db → AccessDecision × FreeStarter.Db
unfolding qbank_of_user
qbank_of_visitor now subs anonymous subject db = (deny authentication_required false, db)
qbank_of_visitor now subs (signed_in user) subject db = qbank_of_user now subs user subject db

unfoldable pub can_view_qbank :
    Time → List Subscription → Visitor → Subject → FreeStarter.Db → AccessDecision × FreeStarter.Db
unfolding qbank_of_visitor
can_view_qbank now subs visitor subject db =
    let (decision, db') = qbank_of_visitor now subs visitor subject db in
    if subject.is_free then (tag can_view (allow no_source), db) else (tag can_view decision, db')

unfoldable pub can_view_test : Time → List Enrollment → Visitor → Test → AccessDecision
can_view_test now enrollments anonymous test = tag can_view (deny authentication_required false)
can_view_test now enrollments (signed_in user) test =
    if can_access_test now enrollments (signed_in user) test
    then tag can_view (allow no_source)
    else tag can_view (deny assignment_required false)
