-- ===== src/Exams/Starting.antt =====
-- tests_app/views.py, `_start_attempt`: a student starts or resumes an attempt. `none` stands for an
-- exception. The answer to a request that meets a locked row, which asks to try again, is left out: a
-- call here has the row's lock.
mod Counts
pub mod Single
pub mod Limit
use hamromentorback.Base.{
  ℕ, suc, ◌+◌, Bool, true, false, ◌&&◌, ◌||◌, not, Option, none, some, List, [], ◌∷◌, ◌++◌, ◌==◌,
  ltb, leb, is_some, same_key, if◌then◌else◌, find_first, select, update_by, any, length,
}
use hamromentorback.Base.Int.{pos}
use hamromentorback.Texts.{Text, is_empty, same_text}
use hamromentorback.Time.{Time}
use hamromentorback.Accounts.{User, signed_in}
use hamromentorback.Courses.{Enrollment}
use hamromentorback.Billing.Models.{ProductType, GrandTestAccess}
use hamromentorback.Billing.Access.{
  has_mock_test_access, has_daily_test_access, has_pyq_access, get_grand_test_access,
  is_preview_only, consume_quota,
}
use hamromentorback.FreeStarter
use hamromentorback.FreeStarter.{
  ResourceType, has_free_starter_available, ensure_and_consume_free_starter,
}
use hamromentorback.Base.{◌>>=◌}
use hamromentorback.Exams.Models.{
  Test, ExamType, is_grand, is_daily, ExamSession, SessionStatus, draft, cancelled, AttemptStatus,
  in_progress, is_in_progress, TestAttempt,
}
use hamromentorback.Exams.Access.{can_access_test}
use hamromentorback.Exams.Schedule.{
  given_or_resolved, refresh_status, resolve_test_schedule_session,
}
use hamromentorback.Exams.Frozen.{freeze_attempt_questions}
use hamromentorback.Exams.Lifecycle
use hamromentorback.Exams.Lifecycle.{ensure_finalized_if_expired}
use hamromentorback.Exams.Gates.{
  World, Refusal, not_authorized, max_attempts_reached, Response, started, resumed, refused, Gate,
  pass, turned_away, session_key, is_attempt_at, schedule_gate, Grant, entitlement_gate,
}

new_attempt : Time → ℕ → ℕ → Test → Option ℕ → ℕ → TestAttempt
new_attempt now id user_id test session_id attempt_number = record {
  id = id;
  user_id = user_id;
  test_id = test.id;
  session_id = session_id;
  attempt_number = attempt_number;
  start_time = now;
  end_time = none;
  score = pos 0;
  rank = none;
  percentile = none;
  accuracy = 0;
  status = in_progress;
  auto_submitted = false;
}

abbrev attempt_limit : Test → Option ExamSession → ℕ
attempt_limit test none = test.max_attempts
attempt_limit test (some s) = s.max_attempts

-- `shuffled` is what `random.shuffle` makes of the questions.
unfoldable pub create_attempt :
    (List ℕ → List ℕ)
    → Time
    → User
    → Test
    → Option ExamSession
    → ℕ
    → Lifecycle.Db
    → TestAttempt × Lifecycle.Db
unfolding new_attempt
create_attempt shuffled now user test session attempt_count db =
    let a = new_attempt now db.next_id user.id test (session_key session) (suc attempt_count) in
    (
      a,
      record db {
        attempts = a ∷ db.attempts;
        attempt_questions =
            freeze_attempt_questions shuffled
              (is_preview_only now db.subscriptions (signed_in user) test) a.id test
              db.bank.questions
            ++ db.attempt_questions;
        next_id = suc db.next_id;
      },
    )

-- A new attempt, unless the student has had as many as the limit.
begin :
    (List ℕ → List ℕ)
    → Time
    → User
    → Test
    → Option ExamSession
    → Lifecycle.Db
    → Response × Lifecycle.Db
begin shuffled now user test session db =
    let attempt_count =
      length (select (is_attempt_at user.id test.id (session_key session)) db.attempts) in
    let (a, db') = create_attempt shuffled now user test session attempt_count db in
    if leb (attempt_limit test session) attempt_count
    then (refused max_attempts_reached, db)
    else (started a, db')

-- An attempt that is running is resumed; one that has run out is closed first.
resume :
    (List ℕ → List ℕ)
    → Time
    → User
    → Test
    → Option ExamSession
    → Option TestAttempt
    → Lifecycle.Db
    → Option (Response × Lifecycle.Db)
unfolding begin
resume shuffled now user test session none db = some (begin shuffled now user test session db)
resume shuffled now user test session (some existing) db = do
  (row, db') ← ensure_finalized_if_expired now existing db
  some (
      if is_in_progress row.status
      then (resumed row, db')
      else begin shuffled now user test session db')

-- The part that holds the lock of the student's row.
unfoldable pub locked_start :
    (List ℕ → List ℕ)
    → Time
    → User
    → Test
    → Option ExamSession
    → Lifecycle.Db
    → Option (Response × Lifecycle.Db)
unfolding resume
locked_start shuffled now user test session db =
    resume shuffled now user test session
      (find_first
        (λ a. is_attempt_at user.id test.id (session_key session) a && is_in_progress a.status)
        db.attempts)
      db

is_practice : ExamType → Bool
is_practice ExamType.mock = true
is_practice ExamType.qbank = true
is_practice _ = false

-- What a new attempt costs. It is taken after the transaction, and consume_quota has no lock of its
-- own: here nothing of another request comes between its query and its save.
charge : Time → User → Test → Option ResourceType → World → World
unfolding is_practice
charge now user test (some resource) w = record w {
  free = (ensure_and_consume_free_starter now user resource 1 w.free).1;
}
charge now user test none w =
    if is_practice test.exam_type && test.is_pro
    then record w {
      exams = record w.exams {
        subscriptions =
            consume_quota now w.exams.subscriptions (signed_in user) ProductType.mock_test;
      };
    }
    else w

charge_if_started : Time → User → Test → Option ResourceType → Response × World → Response × World
unfolding charge
charge_if_started now user test resource (started a, w) =
    (started a, charge now user test resource w)
charge_if_started now user test resource (resumed a, w) = (resumed a, w)
charge_if_started now user test resource (refused r, w) = (refused r, w)

admit :
    (List ℕ → List ℕ)
    → Time
    → User
    → Test
    → Option ExamSession
    → Grant
    → World
    → Option (Response × World)
unfolding charge_if_started
admit shuffled now user test session (turned_away r, resource, free) w =
    some (refused r, record w { free = free })
admit shuffled now user test session (pass, resource, free) w = do
  (response, exams) ← locked_start shuffled now user test session w.exams
  some
      (charge_if_started now user test resource (response, record w { exams = exams; free = free }))

-- What follows the schedule's check.
enter :
    (List ℕ → List ℕ)
    → Time
    → User
    → Option Text
    → Test
    → Option ExamSession
    → Gate
    → World
    → Option (Response × World)
unfolding admit
enter shuffled now user submitted test session (turned_away r) w = some (refused r, w)
enter shuffled now user submitted test session pass w =
    let prior = any (λ a. (a.test_id == test.id) && (a.user_id == user.id)) w.exams.attempts in
    admit shuffled now user test session (entitlement_gate now user prior submitted test w) w

-- `session.refresh_status()`, on the row and in the table.
refresh_session : Time → Option ExamSession → World → Option ExamSession × World
refresh_session now none w = (none, w)
refresh_session now (some s) w = (
  some (refresh_status now s),
  record w {
    exams = record w.exams {
      sessions = update_by (λ r. r.id == s.id) (λ _. refresh_status now s) w.exams.sessions;
    };
  },
)

authorized :
    (List ℕ → List ℕ)
    → Time
    → User
    → Option Text
    → Test
    → Option ExamSession × World
    → Option (Response × World)
unfolding enter
authorized shuffled now user submitted test (session, w) =
    let attempted = any (is_attempt_at user.id test.id (session_key session)) w.exams.attempts in
    enter shuffled now user submitted test session
      (schedule_gate now submitted test attempted session) w

-- `session` is the session of the route, if it is one of a session; else the test's own is found.
unfoldable pub start_attempt :
    (List ℕ → List ℕ)
    → Time
    → User
    → Option Text
    → Test
    → Option ExamSession
    → World
    → Option (Response × World)
unfolding authorized refresh_session
start_attempt shuffled now user submitted test session w =
    if not (can_access_test now w.enrollments (signed_in user) test)
    then some (refused not_authorized, w)
    else authorized shuffled now user submitted test
        (refresh_session now (given_or_resolved test w.exams.sessions session) w)
