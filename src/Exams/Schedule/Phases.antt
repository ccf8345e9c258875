-- ===== src/Exams/Schedule/Phases.antt =====
-- How the status of a session moves with time: `compute_effective_session_status` and
-- `refresh_status`.
use hamromentorback.Base.{ℕ, ◌≤◌, ◌≡◌, Bool, true, false, arith}
use hamromentorback.Time.{Time}
use hamromentorback.Exams.Models.{
  ExamSession, SessionStatus, draft, scheduled, registration_open, live, completed, cancelled,
}
use hamromentorback.Exams.Schedule.{compute_effective_session_status, refresh_status}

-- The place of a status in the life of a session that is not drafted or cancelled.
abbrev pub phase : SessionStatus → ℕ
phase draft = 0
phase registration_open = 1
phase scheduled = 2
phase live = 3
phase completed = 4
phase cancelled = 5

-- Statuses that only an administrator's action, or the end of the session, sets.
abbrev pub is_sticky : SessionStatus → Bool
is_sticky draft = true
is_sticky cancelled = true
is_sticky completed = true
is_sticky _ = false

-- As time goes on, the status of an unchanged session never moves back to an earlier phase.
pub effective_status_mono :
    (t u : Time) (s : ExamSession)
    → t ≤ u
    → phase (compute_effective_session_status t s) ≤ phase (compute_effective_session_status u s)
unfolding compute_effective_session_status
effective_status_mono t u s h = ground arith

-- Writing the status back at any earlier time does not change what a later read shows.
pub effective_status-refresh :
    (t u : Time) (s : ExamSession)
    → t ≤ u
    → compute_effective_session_status u (refresh_status t s) ≡ compute_effective_session_status u s
unfolding compute_effective_session_status refresh_status
effective_status-refresh t u s h = ground arith
