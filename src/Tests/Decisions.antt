-- ===== src/Tests/Decisions.antt =====
-- Access decisions.
use hamromentorback.Base.{◌≤◌, ◌≡◌, refl, true, ◌&&◌, not, none, some, []}
use hamromentorback.Time.{minutes}
use hamromentorback.Accounts.{signed_in}
use hamromentorback.Courses.{eligible_course_ids, eligible_batch_ids}
use hamromentorback.FreeStarter.{ResourceType, ensure_and_consume_free_starter}
use hamromentorback.Exams.Access.{can_access_test}
use hamromentorback.Exams.Schedule.{effective_attempt_end, grand_test_review_window}
use hamromentorback.Entitlements.Commercial.{try_free_starter}
use hamromentorback.Entitlements.Start.{can_start_test, attempts_of}
use hamromentorback.Entitlements.Start.Gates.{
  SessionOpen, MayStartAnother, most_attempts, can_start_gates, try_free-eq-consume,
}
use hamromentorback.Entitlements.Attempts.{can_review_attempt, can_view_solutions}
use hamromentorback.Entitlements.Attempts.Release.{solutions_after_all}
use hamromentorback.Tests.Data.{student, grand_test, mock_test, session, submitted, tables}

eligible : can_access_test 0 tables.enrollments (signed_in student) mock_test ≡ true
unfolding can_access_test eligible_course_ids eligible_batch_ids
eligible = refl

free_exam_starts : (can_start_test 0 tables (signed_in student) mock_test none).0.allowed ≡ true
unfolding can_start_test can_access_test eligible_course_ids eligible_batch_ids attempts_of
free_exam_starts = refl

can_start_gates_example :
    (can_access_test 0 tables.enrollments (signed_in student) mock_test ≡ true)
    × SessionOpen 0 none
    × MayStartAnother
        (most_attempts mock_test none)
        (attempts_of tables.attempts (signed_in student) mock_test none)
can_start_gates_example = can_start_gates 0 tables student mock_test none free_exam_starts

try_free-eq-consume_example :
    (try_free_starter
      (minutes 150)
      (signed_in student)
      ResourceType.grand_test
      tables.free).0.allowed
    ≡ not student.is_staff
      && (ensure_and_consume_free_starter
          (minutes 150)
          student
          ResourceType.grand_test
          1
          tables.free).0
try_free-eq-consume_example =
    try_free-eq-consume (minutes 150) student ResourceType.grand_test tables.free

closes : (grand_test_review_window grand_test [] (some session)).0 ≡ some (minutes 280)
unfolding grand_test_review_window
closes = refl

shown_after_end :
    (can_view_solutions
      (minutes 280)
      (signed_in student)
      submitted
      grand_test
      []
      (some session)).allowed
    ≡ true
unfolding can_view_solutions can_review_attempt grand_test_review_window
shown_after_end = refl

solutions_after_all_example :
    effective_attempt_end (minutes 270) grand_test (some session) ≤ minutes 280
solutions_after_all_example =
    solutions_after_all (minutes 280) (minutes 270) (signed_in student) submitted grand_test []
      (some session) (minutes 280) refl refl refl closes shown_after_end
