-- ===== src/Exams/Schedule.antt =====
-- The schedule of an exam: tests_app/lifecycle.py from `compute_effective_session_status` to
-- `grand_test_review_window`, and `ExamSession.refresh_status` of tests_app/models.py.
-- `attempt.test` and `attempt.session` are read by the caller and handed over as rows.
pub mod Phases
pub mod Deadlines
pub mod Missed
use hamromentorback.Base.{
  ℕ, ◌+◌, Bool, true, false, ◌&&◌, ◌||◌, not, Option, none, some, List, [], ◌∷◌, min, ltb, leb,
  ◌==◌, if◌then◌else◌, select,
}
use hamromentorback.Time.{Time, minutes, days}
use hamromentorback.Exams.Models.{
  Test, ExamType, ExamSession, SessionStatus, draft, scheduled, registration_open, live, completed,
  cancelled, AttemptStatus, is_in_progress, is_grand, is_daily, is_cancelled,
}

-- Whether the registration deadline is set and has passed.
deadline_passed : Time → Option Time → Bool
deadline_passed now none = false
deadline_passed now (some d) = leb d now

-- The last line of `compute_effective_session_status`.
before_deadline : Option Time → SessionStatus
before_deadline none = scheduled
before_deadline (some d) = registration_open

timed_status : Time → ExamSession → SessionStatus
unfolding deadline_passed before_deadline
timed_status now s =
    if ltb s.end_datetime now
    then completed
    else if leb s.start_datetime now
    then live
    else if deadline_passed now s.registration_deadline
    then scheduled
    else before_deadline s.registration_deadline

-- The three stored statuses that time does not move.
effective_of : SessionStatus → Time → ExamSession → SessionStatus
unfolding timed_status
effective_of cancelled now s = cancelled
effective_of draft now s = draft
effective_of completed now s = completed
effective_of _ now s = timed_status now s

unfoldable pub compute_effective_session_status : Time → ExamSession → SessionStatus
unfolding effective_of
compute_effective_session_status now s = effective_of s.status now s

-- `ExamSession.refresh_status`: the row after the write.
unfoldable pub refresh_status : Time → ExamSession → ExamSession
unfolding compute_effective_session_status
refresh_status now s = record s { status = compute_effective_session_status now s }

-- `min(personal_end, ceiling)`
capped : Time → Option Time → Time
capped personal_end none = personal_end
capped personal_end (some ceiling) = min personal_end ceiling

-- The closing time that governs an attempt: its session's, else, for a Grand or a Daily Test, the
-- test's own.
schedule_end : Test → Option ExamSession → Option Time
schedule_end test (some session) = some session.end_datetime
schedule_end test none =
    if is_grand test.exam_type || is_daily test.exam_type then test.scheduled_end else none

unfoldable pub effective_attempt_end : Time → Test → Option ExamSession → Time
unfolding capped schedule_end
effective_attempt_end start_time test session =
    capped (start_time + minutes test.duration_minutes) (schedule_end test session)

unfoldable pub is_attempt_expired : Time → AttemptStatus → Time → Test → Option ExamSession → Bool
unfolding effective_attempt_end
is_attempt_expired now status start_time test session =
    if is_in_progress status then leb (effective_attempt_end start_time test session) now else false

-- `.order_by('-start_datetime').first()`: the candidate that starts last.
later_start : ExamSession → Option ExamSession → Option ExamSession
later_start s none = some s
later_start s (some t) = if ltb s.start_datetime t.start_datetime then some t else some s

latest_start : List ExamSession → Option ExamSession
unfolding later_start
latest_start [] = none
latest_start (s ∷ rest) = later_start s (latest_start rest)

-- `test.sessions.exclude(status='cancelled')`
abbrev pub is_candidate : Test → ExamSession → Bool
is_candidate test s = (s.exam_version_id == test.id) && not (is_cancelled s.status)

unfoldable pub resolve_test_schedule_session : Test → List ExamSession → Option ExamSession
unfolding latest_start
resolve_test_schedule_session test sessions = latest_start (select (is_candidate test) sessions)

pub data Participation : Type 0 where
  not_scheduled upcoming open_now in_progress_now done missed : Participation

-- The derived status where an attempt exists.
of_attempt : AttemptStatus → Participation
of_attempt AttemptStatus.in_progress = in_progress_now
of_attempt AttemptStatus.submitted = done

of_session_status : SessionStatus → Participation
of_session_status scheduled = upcoming
of_session_status registration_open = upcoming
of_session_status live = open_now
of_session_status completed = missed
of_session_status draft = not_scheduled
of_session_status cancelled = not_scheduled

pub of_window : Time → Time → Time → Participation
of_window now start end =
    if ltb now start then upcoming else if leb now end then open_now else missed

-- The fallback on `Test.scheduled_start` and `Test.scheduled_end`.
of_test_window : Time → Option Time → Option Time → Option AttemptStatus → Participation
unfolding of_attempt of_window
of_test_window now none end attempt = not_scheduled
of_test_window now (some start) none attempt = not_scheduled
of_test_window now (some start) (some end) (some a) = of_attempt a
of_test_window now (some start) (some end) none = of_window now start end

of_session : Time → ExamSession → Option AttemptStatus → Participation
unfolding of_attempt of_session_status compute_effective_session_status
of_session now s (some a) = of_attempt a
of_session now s none = of_session_status (compute_effective_session_status now s)

-- `attempt_of k` is the status of the student's first attempt of this test with session key `k`,
-- if there is one: `TestAttempt.objects.filter(test=test, session=…, user=user).first()`.
participation : Time → Test → Option ExamSession → (Option ℕ → Option AttemptStatus) → Participation
unfolding of_session of_test_window
participation now test (some s) attempt_of = of_session now s (attempt_of (some s.id))
participation now test none attempt_of =
    of_test_window now test.scheduled_start test.scheduled_end (attempt_of none)

-- The session that the caller passes, else the one that governs the test.
abbrev pub given_or_resolved : Test → List ExamSession → Option ExamSession → Option ExamSession
given_or_resolved test sessions (some s) = some s
given_or_resolved test sessions none = resolve_test_schedule_session test sessions

unfoldable pub grand_test_participation_status :
    Time
    → Test
    → List ExamSession
    → (Option ℕ → Option AttemptStatus)
    → Option ExamSession
    → Participation
unfolding participation
grand_test_participation_status now test sessions attempt_of session =
    participation now test (given_or_resolved test sessions session) attempt_of

-- When the schedule closes: the session's end, else the test's.
closes_at : Test → Option ExamSession → Option Time
closes_at test (some s) = some s.end_datetime
closes_at test none = test.scheduled_end

review_expiry : Time → Option ℕ → Option Time
review_expiry available_at none = none
review_expiry available_at (some n) = some (available_at + days n)

review_window : Option Time → Option ℕ → Option Time × Option Time
unfolding review_expiry
review_window none n = (none, none)
review_window (some available_at) n = (some available_at, review_expiry available_at n)

unfoldable pub grand_test_review_window :
    Test → List ExamSession → Option ExamSession → Option Time × Option Time
unfolding closes_at review_window
grand_test_review_window test sessions session =
    review_window (closes_at test (given_or_resolved test sessions session))
      test.review_duration_days
