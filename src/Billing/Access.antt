-- ===== src/Billing/Access.antt =====
-- billing/access.py: what a visitor has paid for, and the consumption of a quota. Tables are lists
-- in the order that the queries return them.
pub mod Quota
pub mod Overlaps
pub mod Questions
use hamromentorback.Base.{
  ℕ, suc, ◌+◌, Bool, true, false, ◌&&◌, ◌||◌, not, Option, none, some, List, [], ◌∷◌, ◌==◌, ltb,
  leb, is_some, if◌then◌else◌, select, find_first, any, contains, nonempty, update_by,
}
use hamromentorback.Time.{Time, is_unexpired}
use hamromentorback.Accounts.{User, Visitor, anonymous, signed_in}
use hamromentorback.Courses.{Enrollment}
use hamromentorback.Billing.Models.{
  ProductType, product_tag, Subscription, has_quota_left, GrandTestAccess,
}
use hamromentorback.Exams.Models.{Test, is_daily}

-- The filter of `_active_subscriptions` without a course.
abbrev pub is_active_for : Time → User → ProductType → Subscription → Bool
is_active_for now user product sub =
    (sub.user_id == user.id)
    && ((product_tag sub.product_type == product_tag product)
        && (sub.is_active && is_unexpired now sub.expires_at))

-- `filter(course=course)`, where a course is given
abbrev pub matches_course : Option ℕ → Subscription → Bool
matches_course none sub = true
matches_course (some course) sub = sub.course_id == course

unfoldable pub active_subscriptions :
    Time → List Subscription → User → ProductType → Option ℕ → List Subscription
active_subscriptions now subs user product course =
    select (λ sub. is_active_for now user product sub && matches_course course sub) subs

-- academics.models.Subject, as far as access reads it.
pub record Subject : Type 0 where
  pub id : ℕ
  pub is_free : Bool
  pub courses : List ℕ

has_subscribed_course : Time → List Subscription → User → Subject → Bool
unfolding active_subscriptions
has_subscribed_course now subs user subject =
    if nonempty subject.courses
    then any (λ sub. contains sub.course_id subject.courses)
        (active_subscriptions now subs user ProductType.qbank none)
    else false

qbank_of_visitor : Time → List Subscription → Visitor → Subject → Bool
unfolding has_subscribed_course
qbank_of_visitor now subs anonymous subject = false
qbank_of_visitor now subs (signed_in user) subject = has_subscribed_course now subs user subject

unfoldable pub has_qbank_access : Time → List Subscription → Visitor → Subject → Bool
unfolding qbank_of_visitor
has_qbank_access now subs visitor subject =
    if subject.is_free then true else qbank_of_visitor now subs visitor subject

-- `values_list('course_id', flat=True)`
abbrev pub subscribed_courses : List Subscription → List ℕ
subscribed_courses [] = []
subscribed_courses (sub ∷ rest) = sub.course_id ∷ subscribed_courses rest

unfoldable pub active_qbank_course_ids : Time → List Subscription → Visitor → List ℕ
unfolding active_subscriptions
active_qbank_course_ids now subs anonymous = []
active_qbank_course_ids now subs (signed_in user) =
    subscribed_courses (active_subscriptions now subs user ProductType.qbank none)

unfoldable pub quota_subscription :
    Time → List Subscription → Visitor → ProductType → Option Subscription
unfolding active_subscriptions
quota_subscription now subs anonymous product = none
quota_subscription now subs (signed_in user) product =
    find_first has_quota_left (active_subscriptions now subs user product none)

unfoldable pub has_mock_test_access : Time → List Subscription → Visitor → Test → Bool
unfolding quota_subscription
has_mock_test_access now subs visitor test =
    if not test.is_pro
    then true
    else is_some (quota_subscription now subs visitor ProductType.mock_test)

unfoldable pub has_daily_test_access : Time → List Subscription → Visitor → Test → Bool
unfolding quota_subscription
has_daily_test_access now subs visitor test =
    if not test.is_pro
    then true
    else is_some (quota_subscription now subs visitor ProductType.daily_test)

has_membership : Time → List Subscription → Visitor → Bool
unfolding active_subscriptions
has_membership now subs anonymous = false
has_membership now subs (signed_in user) =
    nonempty (active_subscriptions now subs user ProductType.pyq none)

unfoldable pub has_pyq_access : Time → List Subscription → Visitor → Test → Bool
unfolding has_membership
has_pyq_access now subs visitor test =
    if not test.is_pro then true else has_membership now subs visitor

-- `sub.mock_test_used += 1; sub.save()`, on the row with the primary key of `sub`
unfoldable pub use_once : Subscription → List Subscription → List Subscription
use_once sub subs =
    update_by (λ s. s.id == sub.id) (λ s. record s { mock_test_used = sub.mock_test_used + 1 }) subs

unfoldable pub consume_from : Option Subscription → List Subscription → List Subscription
unfolding use_once
consume_from none subs = subs
consume_from (some sub) subs = if is_some sub.mock_test_quota then use_once sub subs else subs

-- A call that no other call's query or save comes into. The source holds no lock here; what calls
-- that overlap do to the table is in Overlaps.
unfoldable pub consume_quota : Time → List Subscription → Visitor → ProductType → List Subscription
unfolding quota_subscription consume_from
consume_quota now subs visitor product =
    consume_from (quota_subscription now subs visitor product) subs

unfoldable pub get_grand_test_access :
    List GrandTestAccess → Visitor → Test → Option GrandTestAccess
get_grand_test_access grants anonymous test = none
get_grand_test_access grants (signed_in user) test =
    find_first
      (λ g. (g.user_id == user.id) && ((g.test_id == test.id) && not (is_some g.revoked_at))) grants

unfoldable pub is_preview_only : Time → List Subscription → Visitor → Test → Bool
unfolding has_daily_test_access
is_preview_only now subs visitor test =
    if not (is_daily test.exam_type) || not test.is_pro
    then false
    else if has_daily_test_access now subs visitor test
    then false
    else ltb 0 test.free_preview_questions
