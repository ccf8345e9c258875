-- ===== src/Exams/Gates.antt =====
-- tests_app/views.py, `_start_attempt` and `_free_starter_eligibility`: the checks of a request to
-- start an attempt.
use hamromentorback.Base.{
  ℕ, Bool, true, ◌&&◌, ◌||◌, not, Option, none, some, List, ◌==◌, ltb, leb, same_key, if◌then◌else◌,
}
use hamromentorback.Texts.{Text, is_empty, same_text}
use hamromentorback.Time.{Time}
use hamromentorback.Accounts.{User, signed_in}
use hamromentorback.Courses.{Enrollment}
use hamromentorback.Billing.Models.{GrandTestAccess}
use hamromentorback.Billing.Access.{
  has_mock_test_access, has_daily_test_access, has_pyq_access, get_grand_test_access,
}
use hamromentorback.FreeStarter
use hamromentorback.FreeStarter.{
  ResourceType, has_free_starter_available, ensure_and_consume_free_starter,
}
use hamromentorback.Exams.Models.{
  Test, ExamType, is_grand, is_daily, ExamSession, SessionStatus, draft, cancelled, TestAttempt,
}
use hamromentorback.Exams.Lifecycle
use hamromentorback.Exams.Lifecycle.{ensure_finalized_if_expired}

-- The exam tables, and the tables of what a student has.
pub record World : Type 0 where
  pub exams : Lifecycle.Db
  pub enrollments : List Enrollment
  pub grand_accesses : List GrandTestAccess
  pub free : FreeStarter.Db

pub data Refusal : Type 0 where
  not_authorized session_cancelled session_not_open session_not_started grand_test_missed : Refusal
  session_ended invalid_session_password grand_test_not_started daily_test_not_started : Refusal
  daily_test_missed purchase_required invalid_test_password max_attempts_reached : Refusal

pub data Response : Type 0 where
  started resumed : TestAttempt → Response
  refused : Refusal → Response

-- A check lets the request pass, or turns it away.
pub data Gate : Type 0 where
  pass : Gate
  turned_away : Refusal → Gate

abbrev pub session_key : Option ExamSession → Option ℕ
session_key none = none
session_key (some s) = some s.id

-- `test.attempts.filter(user=request.user, session=session)`
abbrev pub is_attempt_at : ℕ → ℕ → Option ℕ → TestAttempt → Bool
is_attempt_at user_id test_id session_id a =
    (a.test_id == test_id) && ((a.user_id == user_id) && same_key a.session_id session_id)

-- `submitted != password`, where nothing is submitted or another text.
differs : Option Text → Text → Bool
differs none password = true
differs (some t) password = not (same_text t password)

-- `password and submitted != password`
wrong_password : Option Text → Text → Bool
unfolding differs
wrong_password submitted password = not (is_empty password) && differs submitted password

session_over : Test → Bool → Gate
session_over test attempted =
    if is_grand test.exam_type && not attempted
    then turned_away grand_test_missed
    else turned_away session_ended

session_window : Time → Option Text → Test → Bool → ExamSession → Gate
unfolding session_over differs
session_window now submitted test attempted s =
    if ltb now s.start_datetime
    then turned_away session_not_started
    else if ltb s.end_datetime now
    then session_over test attempted
    else if s.is_private && differs submitted s.password
    then turned_away invalid_session_password
    else pass

-- The checks of a refreshed session; `attempted` is whether the student has an attempt in it.
session_gate : SessionStatus → Time → Option Text → Test → Bool → ExamSession → Gate
unfolding session_window
session_gate cancelled now submitted test attempted s = turned_away session_cancelled
session_gate draft now submitted test attempted s = turned_away session_not_open
session_gate _ now submitted test attempted s = session_window now submitted test attempted s

-- A Daily Test closes at its end, a Grand Test after it.
window_closed : Time → Test → Time → Bool
window_closed now test end = if is_daily test.exam_type then leb end now else ltb end now

window_gate : Time → Test → Bool → Time → Time → Gate
unfolding window_closed
window_gate now test attempted start end =
    if ltb now start
    then turned_away
        (if is_grand test.exam_type then grand_test_not_started else daily_test_not_started)
    else if window_closed now test end && not attempted
    then turned_away (if is_grand test.exam_type then grand_test_missed else daily_test_missed)
    else pass

-- `test.scheduled_start and test.scheduled_end`
scheduled_gate : Time → Test → Bool → Option Time → Option Time → Gate
unfolding window_gate
scheduled_gate now test attempted none end = pass
scheduled_gate now test attempted (some start) none = pass
scheduled_gate now test attempted (some start) (some end) =
    if is_grand test.exam_type || is_daily test.exam_type
    then window_gate now test attempted start end
    else pass

-- The schedule's check, on the session as `refresh_status` leaves it.
unfoldable pub schedule_gate : Time → Option Text → Test → Bool → Option ExamSession → Gate
unfolding session_gate scheduled_gate
schedule_gate now submitted test attempted none =
    scheduled_gate now test attempted test.scheduled_start test.scheduled_end
schedule_gate now submitted test attempted (some s) =
    session_gate s.status now submitted test attempted s

-- A check that may let pass at the cost of one unit of a free resource, and the free tables.
abbrev pub Grant : Type 0
Grant = Gate × Option ResourceType × FreeStarter.Db

-- `_free_starter_eligibility`, and the refusal where the student is not eligible.
unfoldable pub free_starter_gate : Time → User → Bool → ResourceType → FreeStarter.Db → Grant
free_starter_gate now user has_prior_attempt resource free =
    let (available, free') = has_free_starter_available now (signed_in user) resource free in
    if user.is_staff
    then (turned_away purchase_required, none, free)
    else if has_prior_attempt
    then (pass, none, free)
    else if available
    then (pass, some resource, free')
    else (turned_away purchase_required, none, free')

also_password : Option Text → Test → Grant → Grant
unfolding wrong_password
also_password submitted test (turned_away r, resource, free) = (turned_away r, resource, free)
also_password submitted test (pass, resource, free) =
    if wrong_password submitted test.access_password
    then (turned_away invalid_test_password, none, free)
    else (pass, resource, free)

grand_gate :
    Time → User → Bool → Option Text → Test → Option GrandTestAccess → FreeStarter.Db → Grant
unfolding also_password
grand_gate now user prior submitted test (some access) free = (pass, none, free)
grand_gate now user prior submitted test none free =
    also_password submitted test (free_starter_gate now user prior ResourceType.grand_test free)

-- The check of an exam that is not a Grand Test.
plan_gate : ExamType → Time → User → Bool → Test → World → Grant
plan_gate ExamType.daily now user prior test w =
    if test.is_pro
      && not (has_daily_test_access now w.exams.subscriptions (signed_in user) test)
      && leb test.free_preview_questions 0
    then free_starter_gate now user prior ResourceType.daily_test w.free
    else (pass, none, w.free)
plan_gate ExamType.pyq now user prior test w =
    if test.is_pro && not (has_pyq_access now w.exams.subscriptions (signed_in user) test)
    then free_starter_gate now user prior ResourceType.pyq w.free
    else (pass, none, w.free)
plan_gate ExamType.grand now user prior test w = (pass, none, w.free)
plan_gate _ now user prior test w =
    if test.is_pro && not (has_mock_test_access now w.exams.subscriptions (signed_in user) test)
    then free_starter_gate now user prior ResourceType.mock_test w.free
    else (pass, none, w.free)

unfoldable pub entitlement_gate : Time → User → Bool → Option Text → Test → World → Grant
unfolding grand_gate plan_gate wrong_password
entitlement_gate now user prior submitted test w =
    if is_grand test.exam_type && test.is_pro
    then grand_gate now user prior submitted test
        (get_grand_test_access w.grand_accesses (signed_in user) test) w.free
    else if wrong_password submitted test.access_password
    then (turned_away invalid_test_password, none, w.free)
    else plan_gate test.exam_type now user prior test w
