-- ===== src/Entitlements/Attempts.antt =====
-- The capabilities on an attempt: `can_continue_attempt` to `can_view_analytics` of
-- entitlements/services.py. The attempt's test and session are handed over as rows.
pub mod Release
use hamromentorback.Base.{
  ℕ, Bool, true, false, ◌&&◌, not, Option, none, some, List, ◌==◌, ltb, leb, is_some, if◌then◌else◌,
}
use hamromentorback.Time.{Time}
use hamromentorback.Accounts.{User, Visitor, anonymous, signed_in}
use hamromentorback.Exams.Models.{
  Test, ExamSession, SessionStatus, TestAttempt, SolutionsVisibility, is_in_progress, is_submitted,
  is_grand,
}
use hamromentorback.Exams.Schedule.{
  is_attempt_expired, compute_effective_session_status, grand_test_review_window,
}
use hamromentorback.Entitlements.Decision.{
  AccessDecision, allow, deny, tag, can_continue, can_submit, can_review, can_see_solutions,
  can_see_detailed_review, can_see_rank, can_see_analytics, no_source, authentication_required,
  not_entitled, exam_closed, resume_not_allowed, solutions_not_released, review_expired,
}

unfoldable pub can_continue_attempt :
    Time → Visitor → TestAttempt → Test → Option ExamSession → AccessDecision
can_continue_attempt now anonymous a test session =
    tag can_continue (deny authentication_required false)
can_continue_attempt now (signed_in user) a test session =
    if not (a.user_id == user.id)
    then tag can_continue (deny not_entitled false)
    else if not (is_in_progress a.status)
    then tag can_continue (deny resume_not_allowed false)
    else if is_attempt_expired now a.status a.start_time test session
    then tag can_continue (deny exam_closed false)
    else tag can_continue (allow no_source)

unfoldable pub can_submit_attempt : Visitor → TestAttempt → AccessDecision
can_submit_attempt anonymous a = tag can_submit (deny authentication_required false)
can_submit_attempt (signed_in user) a =
    if not (a.user_id == user.id)
    then tag can_submit (deny not_entitled false)
    else if not (is_in_progress a.status)
    then tag can_submit (deny resume_not_allowed false)
    else tag can_submit (allow no_source)

unfoldable pub can_review_attempt : Visitor → TestAttempt → AccessDecision
can_review_attempt anonymous a = tag can_review (deny authentication_required false)
can_review_attempt (signed_in user) a =
    if not (a.user_id == user.id)
    then tag can_review (deny not_entitled false)
    else if not (is_submitted a.status)
    then tag can_review (deny resume_not_allowed false)
    else tag can_review (allow no_source)

-- `attempt.session.solutions_released_at if attempt.session_id else test.solutions_released_at`
released_at : Test → Option ExamSession → Option Time
released_at test none = test.solutions_released_at
released_at test (some s) = s.solutions_released_at

is_completed : SessionStatus → Bool
is_completed SessionStatus.completed = true
is_completed _ = false

-- Whether `now` is before the time, where there is one.
is_before : Time → Option Time → Bool
is_before now none = false
is_before now (some at) = ltb now at

-- Whether a session that there is has not come to its end.
session_running : Time → Option ExamSession → Bool
unfolding is_completed
session_running now none = false
session_running now (some s) = not (is_completed (compute_effective_session_status now s))

-- Whether `solutions_visibility='auto'` still holds the solutions back.
held_back : Time → Test → List ExamSession → Option ExamSession → Bool
unfolding is_before session_running
held_back now test sessions session =
    if is_grand test.exam_type
    then is_before now (grand_test_review_window test sessions session).0
    else session_running now session

solutions_decision :
    SolutionsVisibility → Time → Test → List ExamSession → Option ExamSession → AccessDecision
unfolding released_at held_back
solutions_decision SolutionsVisibility.manual now test sessions session =
    if is_some (released_at test session)
    then allow no_source
    else deny solutions_not_released false
solutions_decision SolutionsVisibility.auto now test sessions session =
    if held_back now test sessions session
    then deny solutions_not_released false
    else allow no_source

unfoldable pub can_view_solutions :
    Time → Visitor → TestAttempt → Test → List ExamSession → Option ExamSession → AccessDecision
unfolding solutions_decision
can_view_solutions now visitor a test sessions session =
    let decision = can_review_attempt visitor a in
    if not decision.allowed
    then tag can_see_solutions decision
    else tag can_see_solutions
        (solutions_decision test.solutions_visibility now test sessions session)

-- `expires_at and timezone.now() >= expires_at`
is_over : Time → Option Time → Bool
is_over now none = false
is_over now (some at) = leb at now

unfoldable pub can_view_detailed_review :
    Time → Visitor → TestAttempt → Test → List ExamSession → Option ExamSession → AccessDecision
unfolding is_over
can_view_detailed_review now visitor a test sessions session =
    let decision = can_review_attempt visitor a in
    if not decision.allowed
    then tag can_see_detailed_review decision
    else if is_grand test.exam_type
        && is_over now (grand_test_review_window test sessions session).1
    then tag can_see_detailed_review (deny review_expired false)
    else tag can_see_detailed_review (allow no_source)

unfoldable pub can_view_rank : Visitor → TestAttempt → AccessDecision
can_view_rank visitor a = tag can_see_rank (can_review_attempt visitor a)

unfoldable pub can_view_analytics : Visitor → User → AccessDecision
can_view_analytics anonymous target = tag can_see_analytics (deny authentication_required false)
can_view_analytics (signed_in user) target =
    if not (user.id == target.id) && not user.is_staff
    then tag can_see_analytics (deny not_entitled false)
    else tag can_see_analytics (allow no_source)
