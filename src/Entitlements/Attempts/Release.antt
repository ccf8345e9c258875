-- ===== src/Entitlements/Attempts/Release.antt =====
-- What the owner of an attempt may do with it, and when its solutions are shown.
use hamromentorback.Base.{
  ℕ, ◌+◌, ◌≤◌, ◌<◌, ◌≡◌, ◌↔◌, ◌⊎◌, true, false, ◌&&◌, not, Option, some, List, arith,
}
use hamromentorback.Time.{Time, days}
use hamromentorback.Accounts.{User, Visitor, signed_in}
use hamromentorback.Exams.Models.{
  Test, ExamSession, TestAttempt, SolutionsVisibility, grand, is_grand, completed,
}
use hamromentorback.Exams.Schedule.{
  is_attempt_expired, effective_attempt_end, compute_effective_session_status, given_or_resolved,
  grand_test_review_window,
}
use hamromentorback.Exams.Schedule.Deadlines.{attempt_end-le-solutions_available}
use hamromentorback.Entitlements.Attempts.{
  can_continue_attempt, can_submit_attempt, can_review_attempt, can_view_solutions,
  can_view_detailed_review,
}

-- An attempt is either to be submitted or to be reviewed, by its owner and by nobody else; it can be
-- continued while it can be submitted and its time has not run out.
pub owner_capabilities :
    (now : Time) (user : User) (a : TestAttempt) (test : Test) (session : Option ExamSession)
    → let submit = (can_submit_attempt (signed_in user) a).allowed in
      let review = (can_review_attempt (signed_in user) a).allowed in
      let expired = is_attempt_expired now a.status a.start_time test session in
      ((submit && review) ≡ false)
      × ((a.user_id ≡ user.id) ↔ ((submit ≡ true) ⊎ (review ≡ true)))
      × ((can_continue_attempt now (signed_in user) a test session).allowed ≡ submit && not expired)
unfolding can_submit_attempt can_review_attempt can_continue_attempt
owner_capabilities now user a test session = ground arith

-- While the solutions of a Grand Test with automatic release can be seen by anyone, no attempt that
-- the same schedule governs, whenever it was started, is still running.
pub solutions_after_all :
    (now start_time : Time) (visitor : Visitor) (a : TestAttempt) (test : Test)
    (sessions : List ExamSession) (session : Option ExamSession) (closing : Time)
    → test.exam_type ≡ grand
    → test.solutions_visibility ≡ SolutionsVisibility.auto
    → given_or_resolved test sessions session ≡ session
    → (grand_test_review_window test sessions session).0 ≡ some closing
    → (can_view_solutions now visitor a test sessions session).allowed ≡ true
    → effective_attempt_end start_time test session ≤ now
unfolding can_view_solutions
solutions_after_all now start_time visitor a test sessions session closing g auto own closes shown =
    ground (
      arith,
      attempt_end-le-solutions_available start_time closing test sessions session g own closes,
    )

-- With automatic release, an exam of another type that is sat in a session shows its solutions to the
-- owner of a submitted attempt exactly once the session is completed.
pub session_solutions_iff :
    (now : Time) (user : User) (a : TestAttempt) (test : Test) (sessions : List ExamSession)
    (s : ExamSession)
    → is_grand test.exam_type ≡ false
    → test.solutions_visibility ≡ SolutionsVisibility.auto
    → ((can_view_solutions now (signed_in user) a test sessions (some s)).allowed ≡ true) ↔ (
        ((can_review_attempt (signed_in user) a).allowed ≡ true)
        × (compute_effective_session_status now s ≡ completed))
unfolding can_view_solutions
session_solutions_iff now user a test sessions s other auto = ground arith

-- The detailed review of a Grand Test ends the configured number of days after its schedule closes;
-- the result itself stays open to the owner.
pub detailed_review_iff :
    (now : Time) (user : User) (a : TestAttempt) (test : Test) (sessions : List ExamSession)
    (session : Option ExamSession) (closing : Time) (n : ℕ)
    → test.exam_type ≡ grand
    → test.review_duration_days ≡ some n
    → (grand_test_review_window test sessions session).0 ≡ some closing
    → ((can_view_detailed_review now (signed_in user) a test sessions session).allowed ≡ true)
      ↔ (((can_review_attempt (signed_in user) a).allowed ≡ true) × (now < closing + days n))
unfolding can_view_detailed_review grand_test_review_window
detailed_review_iff now user a test sessions session closing n g limited closes = ground arith
