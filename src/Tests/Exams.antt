-- ===== src/Tests/Exams.antt =====
-- The schedule of exams.
use hamromentorback.Base.{◌≤◌, ◌≡◌, refl, true, none, some, [], ◌∷◌, arith}
use hamromentorback.Time.{minutes}
use hamromentorback.Exams.Models.{AttemptStatus, registration_open}
use hamromentorback.Exams.Schedule.{
  compute_effective_session_status, refresh_status, effective_attempt_end, is_attempt_expired,
  resolve_test_schedule_session, grand_test_participation_status, grand_test_review_window, missed,
  of_window,
}
use hamromentorback.Exams.Schedule.Phases.{effective_status-refresh}
use hamromentorback.Exams.Schedule.Deadlines.{
  is_attempt_expired_mono, attempt_end-le-solutions_available,
}
use hamromentorback.Exams.Schedule.Missed.{participation_by_session, Governs, resolve-Governs}
use hamromentorback.Tests.Data.{grand_test, session, earlier_session}

opens_for_registration : compute_effective_session_status (minutes 5) session ≡ registration_open
unfolding compute_effective_session_status
opens_for_registration = refl

late_start_is_capped : effective_attempt_end (minutes 200) grand_test (some session) ≡ minutes 280
unfolding effective_attempt_end
late_start_is_capped = refl

effective_status-refresh_example :
    compute_effective_session_status (minutes 300) (refresh_status (minutes 290) session)
    ≡ compute_effective_session_status (minutes 300) session
effective_status-refresh_example =
    effective_status-refresh (minutes 290) (minutes 300) session (omega arith)

expired_at_end :
    is_attempt_expired (minutes 280) AttemptStatus.in_progress (minutes 110) grand_test none ≡ true
unfolding is_attempt_expired
expired_at_end = refl

is_attempt_expired_mono_example :
    is_attempt_expired (minutes 281) AttemptStatus.in_progress (minutes 110) grand_test none ≡ true
is_attempt_expired_mono_example =
    is_attempt_expired_mono (minutes 280) (minutes 281) (minutes 110) AttemptStatus.in_progress
      grand_test none (omega arith) expired_at_end

closes_with_session :
    (grand_test_review_window grand_test (session ∷ []) (some session)).0 ≡ some (minutes 280)
unfolding grand_test_review_window
closes_with_session = refl

attempt_end-le-solutions_available_example :
    effective_attempt_end (minutes 200) grand_test (some session) ≤ minutes 280
attempt_end-le-solutions_available_example =
    attempt_end-le-solutions_available (minutes 200) (minutes 280) grand_test (session ∷ [])
      (some session) refl refl closes_with_session

participation_by_session_example :
    grand_test_participation_status
      (minutes 150)
      grand_test
      (session ∷ [])
      (λ k. none)
      (some session)
    ≡ of_window (minutes 150) (minutes 100) (minutes 280)
participation_by_session_example =
    participation_by_session (minutes 150) grand_test (session ∷ []) session (λ k. none) refl refl
      (omega arith)

missed_after_end :
    grand_test_participation_status (minutes 281) grand_test (session ∷ []) (λ k. none) none
    ≡ missed
unfolding grand_test_participation_status resolve_test_schedule_session
missed_after_end = refl

governs : resolve_test_schedule_session grand_test (earlier_session ∷ session ∷ []) ≡ some session
unfolding resolve_test_schedule_session
governs = refl

resolve-Governs_example : Governs grand_test (earlier_session ∷ session ∷ []) session
resolve-Governs_example = resolve-Governs grand_test (earlier_session ∷ session ∷ []) governs
