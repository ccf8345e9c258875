-- ===== src/Entitlements/Start.antt =====
-- `can_start_test` of entitlements/services.py.
pub mod Gates
use hamromentorback.Base.{
  ℕ, Bool, true, false, ◌&&◌, ◌||◌, not, Option, none, some, List, [], ◌==◌, ltb, leb, is_some,
  same_key, if◌then◌else◌, select, any, length,
}
use hamromentorback.Time.{Time}
use hamromentorback.Accounts.{User, Visitor, anonymous, signed_in}
use hamromentorback.Courses.{Enrollment}
use hamromentorback.Billing.Models.{Subscription, GrandTestAccess}
use hamromentorback.Billing.Access.{
  has_mock_test_access, has_daily_test_access, has_pyq_access, get_grand_test_access,
}
use hamromentorback.FreeStarter
use hamromentorback.FreeStarter.{ResourceType}
use hamromentorback.Exams.Models.{
  Test, ExamType, ExamSession, SessionStatus, draft, cancelled, TestAttempt, is_in_progress,
}
use hamromentorback.Exams.Access.{can_access_test}
use hamromentorback.Entitlements.Decision.{
  AccessDecision, allow, deny, tag, can_start, from_enrollment, from_subscription, from_purchase,
  no_source, assignment_required, exam_not_open, exam_closed, attempt_limit_reached,
  purchase_required,
}
use hamromentorback.Entitlements.Commercial.{try_free_starter}

-- The tables that a start decision reads, and the free starter tables that it may provision.
pub record Tables : Type 0 where
  pub enrollments : List Enrollment
  pub subscriptions : List Subscription
  pub grand_accesses : List GrandTestAccess
  pub attempts : List TestAttempt
  pub free : FreeStarter.Db

of_window : Time → ExamSession → Option AccessDecision
of_window now s =
    if ltb now s.start_datetime
    then some (deny exam_not_open false)
    else if ltb s.end_datetime now
    then some (deny exam_closed false)
    else none

of_session_status : SessionStatus → Time → ExamSession → Option AccessDecision
unfolding of_window
of_session_status cancelled now s = some (deny exam_closed false)
of_session_status draft now s = some (deny exam_not_open false)
of_session_status _ now s = of_window now s

-- The denial that the session calls for, if any.
session_gate : Time → Option ExamSession → Option AccessDecision
unfolding of_session_status
session_gate now none = none
session_gate now (some s) = of_session_status s.status now s

session_key : Option ExamSession → Option ℕ
session_key none = none
session_key (some s) = some s.id

-- `test.attempts.filter(user=user, session=session)`, or `none()` for an anonymous visitor
unfoldable pub attempts_of :
    List TestAttempt → Visitor → Test → Option ExamSession → List TestAttempt
unfolding session_key
attempts_of attempts anonymous test session = []
attempts_of attempts (signed_in user) test session =
    select
      (λ a.
        (a.test_id == test.id)
        && ((a.user_id == user.id) && same_key a.session_id (session_key session)))
      attempts

allowed_attempts : Test → Option ExamSession → ℕ
allowed_attempts test none = test.max_attempts
allowed_attempts test (some s) = s.max_attempts

is_signed_in : Visitor → Bool
is_signed_in anonymous = false
is_signed_in (signed_in user) = true

-- `checker_by_type`: the free starter resource of an exam type that is not a Grand Test
starter_resource : ExamType → ResourceType
starter_resource ExamType.daily = ResourceType.daily_test
starter_resource ExamType.pyq = ResourceType.pyq
starter_resource ExamType.grand = ResourceType.grand_test
starter_resource _ = ResourceType.mock_test

-- `checker(user, test)`
has_plan : ExamType → Time → Tables → Visitor → Test → Bool
has_plan ExamType.daily now t visitor test = has_daily_test_access now t.subscriptions visitor test
has_plan ExamType.pyq now t visitor test = has_pyq_access now t.subscriptions visitor test
has_plan ExamType.grand now t visitor test = false
has_plan _ now t visitor test = has_mock_test_access now t.subscriptions visitor test

-- The free starter fallback, or `purchase_required`.
starter_or_purchase : Time → Tables → Visitor → ResourceType → AccessDecision × FreeStarter.Db
starter_or_purchase now t visitor resource =
    let (starter, db') = try_free_starter now visitor resource t.free in
    (if starter.allowed then starter else deny purchase_required true, db')

grand_decision : Option GrandTestAccess → Time → Tables → Visitor → AccessDecision × FreeStarter.Db
unfolding starter_or_purchase
grand_decision (some access) now t visitor =
    (record (allow from_purchase) { source_id = some access.id }, t.free)
grand_decision none now t visitor = starter_or_purchase now t visitor ResourceType.grand_test

unfoldable pub paid_decision :
    ExamType → Time → Tables → Visitor → Test → AccessDecision × FreeStarter.Db
unfolding grand_decision has_plan starter_resource starter_or_purchase
paid_decision ExamType.grand now t visitor test =
    grand_decision (get_grand_test_access t.grand_accesses visitor test) now t visitor
paid_decision exam_type now t visitor test =
    if has_plan exam_type now t visitor test
    then (allow from_subscription, t.free)
    else starter_or_purchase now t visitor (starter_resource exam_type)

-- What follows the session's gate.
after_session :
    Time → Tables → Visitor → Test → Option ExamSession → AccessDecision × FreeStarter.Db
unfolding paid_decision allowed_attempts is_signed_in
after_session now t visitor test session =
    let attempt_qs = attempts_of t.attempts visitor test session in
    if any (λ a. is_in_progress a.status) attempt_qs
    then (allow no_source, t.free)
    else if is_signed_in visitor && leb (allowed_attempts test session) (length attempt_qs)
    then (deny attempt_limit_reached false, t.free)
    else if not test.is_pro
    then (allow from_enrollment, t.free)
    else paid_decision test.exam_type now t visitor test

gated :
    Option AccessDecision
    → Time
    → Tables
    → Visitor
    → Test
    → Option ExamSession
    → AccessDecision × FreeStarter.Db
unfolding after_session
gated (some denial) now t visitor test session = (denial, t.free)
gated none now t visitor test session = after_session now t visitor test session

start_decision :
    Time → Tables → Visitor → Test → Option ExamSession → AccessDecision × FreeStarter.Db
unfolding gated session_gate
start_decision now t visitor test session =
    if not (can_access_test now t.enrollments visitor test)
    then (deny assignment_required false, t.free)
    else gated (session_gate now session) now t visitor test session

unfoldable pub can_start_test :
    Time → Tables → Visitor → Test → Option ExamSession → AccessDecision × FreeStarter.Db
unfolding start_decision
can_start_test now t visitor test session =
    let (decision, db') = start_decision now t visitor test session in (tag can_start decision, db')
