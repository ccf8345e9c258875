-- ===== src/Exams/Schedule/Missed.antt =====
-- Who has missed an exam: `resolve_test_schedule_session` and `grand_test_participation_status`.
use mathlib.Core.List.{Memᴰ}
use hamromentorback.Base.{
  ℕ, ◌≤◌, ◌≡◌, ap, true, false, Option, none, some, List, [], ◌∷◌, arith, if◌then◌else◌,
  Option-cases, inl, inr,
}
use hamromentorback.Time.{Time}
use hamromentorback.Exams.Models.{Test, ExamSession, AttemptStatus}
use hamromentorback.Exams.Schedule.{
  resolve_test_schedule_session, later_start, is_candidate, missed, of_window,
  grand_test_participation_status,
}
use hamromentorback.Exams.Schedule.Phases.{is_sticky}

-- Without an attempt, the status of a student is read off the window of the governing session, for
-- a session that is not drafted, cancelled or stored as completed and that does not end before it
-- starts.
pub participation_by_session :
    (now : Time) (test : Test) (sessions : List ExamSession) (s : ExamSession)
    (attempt_of : Option ℕ → Option AttemptStatus)
    → attempt_of (some s.id) ≡ none
    → is_sticky s.status ≡ false
    → s.start_datetime ≤ s.end_datetime
    → grand_test_participation_status now test sessions attempt_of (some s)
      ≡ of_window now s.start_datetime s.end_datetime
unfolding grand_test_participation_status of_window
participation_by_session now test sessions s attempt_of fresh active ordered = ground arith

-- Without an attempt, a missed exam stays missed while its tables do not change.
pub missed_stays :
    (t u : Time) (test : Test) (sessions : List ExamSession) (session : Option ExamSession)
    (attempt_of : Option ℕ → Option AttemptStatus)
    → t ≤ u
    → grand_test_participation_status t test sessions attempt_of session ≡ missed
    → grand_test_participation_status u test sessions attempt_of session ≡ missed
unfolding grand_test_participation_status
missed_stays t u test sessions session attempt_of h m = ground arith

-- The session that governs a test is one of its own that is not cancelled, and none of those starts
-- later.
abbrev pub Governs : Test → List ExamSession → ExamSession → Type 0
Governs test sessions best =
    (is_candidate test best ≡ true)
    × ((t : ExamSession)
        → Memᴰ t sessions
        → is_candidate test t ≡ true
        → t.start_datetime ≤ best.start_datetime)

-- One more session at the front: what `select` and `latest_start` make of it.
resolve-cons :
    (test : Test) (s : ExamSession) (rest : List ExamSession)
    → resolve_test_schedule_session test (s ∷ rest) ≡ (
        if is_candidate test s
        then later_start s (resolve_test_schedule_session test rest)
        else resolve_test_schedule_session test rest)
unfolding resolve_test_schedule_session
resolve-cons test s rest = ground arith

front-le-best :
    (test : Test) (s : ExamSession) (rest : List ExamSession) {best : ExamSession}
    → resolve_test_schedule_session test (s ∷ rest) ≡ some best
    → is_candidate test s ≡ true
    → s.start_datetime ≤ best.start_datetime
unfolding later_start
front-le-best test s rest h c = ground (arith, resolve-cons test s rest)

no_candidate :
    (test : Test) (sessions : List ExamSession) (t : ExamSession)
    → resolve_test_schedule_session test sessions ≡ none
    → Memᴰ t sessions
    → is_candidate test t ≡ true
    → ⊥
unfolding later_start
no_candidate test [] t h m c = elim m [ ]
no_candidate test (s ∷ rest) t h (Memᴰ.head e) c =
    ground (arith, resolve-cons test s rest, ap (is_candidate test) e)
no_candidate test (s ∷ rest) t h (Memᴰ.tail m) c = ground (
  arith,
  resolve-cons test s rest,
  λ (q : resolve_test_schedule_session test rest ≡ none). no_candidate test rest t q m c,
)

is_candidate-best :
    (test : Test) (sessions : List ExamSession) {best : ExamSession}
    → resolve_test_schedule_session test sessions ≡ some best
    → is_candidate test best ≡ true
unfolding later_start resolve_test_schedule_session
is_candidate-best test [] h = cc
is_candidate-best test (s ∷ rest) {best} h =
    ground (arith, is_candidate-best test rest {best = best})

le-best :
    (test : Test) (sessions : List ExamSession) {best : ExamSession} (t : ExamSession)
    → resolve_test_schedule_session test sessions ≡ some best
    → Memᴰ t sessions
    → is_candidate test t ≡ true
    → t.start_datetime ≤ best.start_datetime
unfolding later_start
le-best test [] t h m c = elim m [ ]
le-best test (s ∷ rest) t h (Memᴰ.head e) c = rw e (front-le-best test s rest h (rw e at c))
le-best test (s ∷ rest) {best} t h (Memᴰ.tail m) c =
    elim (Option-cases (resolve_test_schedule_session test rest)) [
      | inl nothing ↦ absurd (no_candidate test rest t nothing m c)
      | inr (b, found) ↦ ground (arith, resolve-cons test s rest, le-best test rest t found m c)
    ]

-- The session that `resolve_test_schedule_session` returns governs the test.
pub resolve-Governs :
    (test : Test) (sessions : List ExamSession) {best : ExamSession}
    → resolve_test_schedule_session test sessions ≡ some best
    → Governs test sessions best
resolve-Governs test sessions h =
    (is_candidate-best test sessions h, λ t m c. le-best test sessions t h m c)
