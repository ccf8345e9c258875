-- ===== src/Exams/Schedule/Deadlines.antt =====
-- When an attempt's time is up: `effective_attempt_end`, `is_attempt_expired`, and how the deadline
-- stands to `grand_test_review_window`.
use hamromentorback.Base.{◌+◌, ◌≤◌, ◌<◌, ◌≡◌, ◌↔◌, true, false, Option, none, some, List, arith}
use hamromentorback.Time.{Time, minutes}
use hamromentorback.Exams.Models.{Test, ExamType, ExamSession, AttemptStatus, grand}
use hamromentorback.Exams.Schedule.{
  effective_attempt_end, is_attempt_expired, given_or_resolved, grand_test_review_window,
}

abbrev pub Before : Time → Option Time → Type 0
Before now none = Unit
Before now (some end) = now < end

-- The schedule that bounds an attempt still has time left: the session's end, and without a session
-- the scheduled end of a Grand or Daily Test; any other exam without a session is not bounded.
abbrev pub ScheduleOpen : Time → Test → Option ExamSession → Type 0
ScheduleOpen now test (some s) = now < s.end_datetime
ScheduleOpen now test none = elim test.exam_type [
  | ExamType.grand ↦ Before now test.scheduled_end
  | ExamType.daily ↦ Before now test.scheduled_end
  | _ ↦ Unit
]

-- An attempt in progress can be answered exactly while its personal time and its schedule both last.
pub not_expired_iff :
    (now start_time : Time) (test : Test) (session : Option ExamSession)
    → (is_attempt_expired now AttemptStatus.in_progress start_time test session ≡ false)
      ↔ ((now < start_time + minutes test.duration_minutes) × ScheduleOpen now test session)
unfolding is_attempt_expired
not_expired_iff now start_time test session = ground arith

-- Once expired, an attempt that is not finalized stays expired.
pub is_attempt_expired_mono :
    (t u start_time : Time) (status : AttemptStatus) (test : Test) (session : Option ExamSession)
    → t ≤ u
    → is_attempt_expired t status start_time test session ≡ true
    → is_attempt_expired u status start_time test session ≡ true
unfolding is_attempt_expired
is_attempt_expired_mono t u start_time status test session h e = ground arith

-- Starting later never ends earlier, and never gains more than the delay.
pub effective_attempt_end_late_start :
    (start_time delay : Time) (test : Test) (session : Option ExamSession)
    → (effective_attempt_end start_time test session
        ≤ effective_attempt_end (start_time + delay) test session)
      × (effective_attempt_end (start_time + delay) test session
          ≤ effective_attempt_end start_time test session + delay)
unfolding effective_attempt_end
effective_attempt_end_late_start start_time delay test session = ground arith

-- The solutions of a Grand Test are released no earlier than every clock of its session has run
-- out: an attempt governed by the same session, or by the test's own schedule, has then ended.
pub attempt_end-le-solutions_available :
    (start_time available_at : Time) (test : Test) (sessions : List ExamSession)
    (session : Option ExamSession)
    → test.exam_type ≡ grand
    → given_or_resolved test sessions session ≡ session
    → (grand_test_review_window test sessions session).0 ≡ some available_at
    → effective_attempt_end start_time test session ≤ available_at
unfolding effective_attempt_end grand_test_review_window
attempt_end-le-solutions_available start_time available_at test sessions session g own open_at =
    ground arith
