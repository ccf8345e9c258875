-- ===== src/Entitlements/Start/Gates.antt =====
-- What `can_start_test` lets through, and what it leaves alone.
use hamromentorback.Base.{
  ℕ, ◌≤◌, ◌<◌, ◌≡◌, ◌⊎◌, Bool, true, false, ◌&&◌, not, Option, none, some, List, arith, any, length,
  Option-cases, inl, inr,
}
use hamromentorback.Time.{Time}
use hamromentorback.Accounts.{User, Visitor, anonymous, signed_in}
use hamromentorback.FreeStarter
use hamromentorback.FreeStarter.{
  ResourceType, FreeStarterEntitlement, find_row, is_currently_valid, provision_free_starter,
  has_free_starter_available, ensure_and_consume_free_starter,
}
use hamromentorback.FreeStarter.Usage.{available-eq-consume}
use hamromentorback.FreeStarter.Provisioning.{provision-keeps}
use hamromentorback.Exams.Models.{
  Test, ExamType, ExamSession, SessionStatus, draft, cancelled, TestAttempt, is_in_progress,
}
use hamromentorback.Exams.Access.{can_access_test}
use hamromentorback.Entitlements.Decision.{is_free_starter}
use hamromentorback.Entitlements.Commercial.{try_free_starter}
use hamromentorback.Entitlements.Start.{Tables, can_start_test, attempts_of, paid_decision}

abbrev is_closed_status : SessionStatus → Bool
is_closed_status draft = true
is_closed_status cancelled = true
is_closed_status _ = false

-- A session admits a start: it is neither drafted nor cancelled, and the time lies in its window.
abbrev pub SessionOpen : Time → Option ExamSession → Type 0
SessionOpen now none = Unit
SessionOpen now (some s) =
    (is_closed_status s.status ≡ false) × (s.start_datetime ≤ now) × (now ≤ s.end_datetime)

-- The student has an attempt running, or has started fewer than are allowed.
abbrev pub MayStartAnother : ℕ → List TestAttempt → Type 0
MayStartAnother most attempts =
    (any (λ a. is_in_progress a.status) attempts ≡ true) ⊎ (length attempts < most)

abbrev pub most_attempts : Test → Option ExamSession → ℕ
most_attempts test none = test.max_attempts
most_attempts test (some s) = s.max_attempts

-- A student who may start an exam is eligible for it, within the session's window, and has an attempt
-- running or one left.
pub can_start_gates :
    (now : Time) (t : Tables) (user : User) (test : Test) (session : Option ExamSession)
    → (can_start_test now t (signed_in user) test session).0.allowed ≡ true
    → (can_access_test now t.enrollments (signed_in user) test ≡ true)
      × SessionOpen now session
      × MayStartAnother
          (most_attempts test session)
          (attempts_of t.attempts (signed_in user) test session)
unfolding can_start_test
can_start_gates now t user test session h = ground arith

-- For an exam that is free these gates are all there is.
pub can_start_free :
    (now : Time) (t : Tables) (user : User) (test : Test) (session : Option ExamSession)
    → test.is_pro ≡ false
    → can_access_test now t.enrollments (signed_in user) test ≡ true
    → SessionOpen now session
    → MayStartAnother
        (most_attempts test session)
        (attempts_of t.attempts (signed_in user) test session)
    → (can_start_test now t (signed_in user) test session).0.allowed ≡ true
unfolding can_start_test
can_start_free now t user test session free eligible in_window left = ground arith

try_free-keeps :
    (now : Time) (visitor : Visitor) (resource r : ResourceType) (other : ℕ) (db : FreeStarter.Db)
    (row : FreeStarterEntitlement)
    → find_row other r db ≡ some row
    → find_row other r (try_free_starter now visitor resource db).1 ≡ some row
unfolding try_free_starter
try_free-keeps now anonymous resource r other db row found = found
try_free-keeps now (signed_in user) resource r other db row found =
    ground (arith, provision-keeps now (signed_in user) other r db row found)

paid-keeps :
    (exam_type : ExamType) (now : Time) (t : Tables) (visitor : Visitor) (test : Test) (other : ℕ)
    (r : ResourceType) (row : FreeStarterEntitlement)
    → find_row other r t.free ≡ some row
    → find_row other r (paid_decision exam_type now t visitor test).1 ≡ some row
unfolding paid_decision
paid-keeps exam_type now t visitor test other r row found = ground (
  arith,
  try_free-keeps now visitor ResourceType.grand_test r other t.free row found,
  try_free-keeps now visitor ResourceType.daily_test r other t.free row found,
  try_free-keeps now visitor ResourceType.pyq r other t.free row found,
  try_free-keeps now visitor ResourceType.mock_test r other t.free row found,
)

-- Asking whether an exam may be started consumes nothing: every free starter row, of whichever
-- student, is afterwards as it was.
pub can_start-keeps :
    (now : Time) (t : Tables) (visitor : Visitor) (test : Test) (session : Option ExamSession)
    (other : ℕ) (r : ResourceType) (row : FreeStarterEntitlement)
    → find_row other r t.free ≡ some row
    → find_row other r (can_start_test now t visitor test session).1 ≡ some row
unfolding can_start_test
can_start-keeps now t visitor test session other r row found =
    ground (arith, paid-keeps test.exam_type now t visitor test other r row found)

-- The free starter decision is a promise that is kept, and withholds nothing: for a student who is
-- not staff it allows exactly if a consumption of one unit would now succeed; staff never get it.
pub try_free-eq-consume :
    (now : Time) (user : User) (resource : ResourceType) (db : FreeStarter.Db)
    → (try_free_starter now (signed_in user) resource db).0.allowed
      ≡ not user.is_staff && (ensure_and_consume_free_starter now user resource 1 db).0
unfolding try_free_starter has_free_starter_available
try_free-eq-consume now user resource db = elim (Option-cases (find_row user.id resource db)) [
  | inl missing ↦ ground (arith, available-eq-consume now user resource db)
  | inr (row, found) ↦ ground (
    arith,
    available-eq-consume now user resource db,
    provision-keeps now (signed_in user) user.id resource db row found,
  )
]

-- Staff never start on a free allocation.
pub staff_no_free_starter :
    (now : Time) (t : Tables) (user : User) (test : Test) (session : Option ExamSession)
    → user.is_staff ≡ true
    → is_free_starter (can_start_test now t (signed_in user) test session).0.source_type ≡ false
unfolding can_start_test try_free_starter
staff_no_free_starter now t user test session staff = ground arith
