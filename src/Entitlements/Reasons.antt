-- ===== src/Entitlements/Reasons.antt =====
-- Every decision of entitlements/services.py explains itself.
use hamromentorback.Base.{ℕ, ◌≡◌, refl, not, Option, none, some, List, arith}
use hamromentorback.Time.{Time}
use hamromentorback.Accounts.{Visitor}
use hamromentorback.Billing.Models.{ProductType, Subscription}
use hamromentorback.Billing.Access.{Subject}
use hamromentorback.FreeStarter
use hamromentorback.FreeStarter.{ResourceType}
use hamromentorback.Exams.Models.{Test, ExamType, ExamSession, TestAttempt}
use hamromentorback.Entitlements.Decision.{
  AccessDecision, Capability, has_reason, can_view, can_start, can_continue, can_submit, can_review,
  can_see_solutions, can_see_detailed_review, can_see_rank, can_purchase,
}
use hamromentorback.Entitlements.Commercial.{
  academic_eligibility, commercial_entitlement, try_free_starter, can_view_qbank, can_view_test,
  qbank_decision, first_course,
}
use hamromentorback.Entitlements.Start.{Tables, can_start_test, paid_decision}
use hamromentorback.Entitlements.Attempts.{
  can_continue_attempt, can_submit_attempt, can_review_attempt, can_view_solutions,
  can_view_detailed_review, can_view_rank,
}
use hamromentorback.Entitlements.Purchase.{can_purchase_test}

-- A denial has a reason code, and only a denial has one.
abbrev pub Explained : AccessDecision → Type 0
Explained d = has_reason d.reason_code ≡ not d.allowed

-- The decision is explained, and names the capability that was asked for.
abbrev pub Answers : Capability → AccessDecision → Type 0
Answers capability d = Explained d × (d.capability ≡ capability)

commercial-Explained :
    (now : Time) (subs : List Subscription) (visitor : Visitor) (product : ProductType)
    (course : Option ℕ)
    → Explained (commercial_entitlement now subs visitor product course)
unfolding commercial_entitlement
commercial-Explained now subs visitor product course = ground arith

try_free-Explained :
    (now : Time) (visitor : Visitor) (resource : ResourceType) (db : FreeStarter.Db)
    → Explained (try_free_starter now visitor resource db).0
unfolding try_free_starter
try_free-Explained now visitor resource db = ground arith

paid-Explained :
    (exam_type : ExamType) (now : Time) (t : Tables) (visitor : Visitor) (test : Test)
    → Explained (paid_decision exam_type now t visitor test).0
unfolding paid_decision
paid-Explained exam_type now t visitor test = ground (
  arith,
  try_free-Explained now visitor ResourceType.grand_test t.free,
  try_free-Explained now visitor ResourceType.daily_test t.free,
  try_free-Explained now visitor ResourceType.pyq t.free,
  try_free-Explained now visitor ResourceType.mock_test t.free,
)

start-Answers :
    (now : Time) (t : Tables) (visitor : Visitor) (test : Test) (session : Option ExamSession)
    → Answers can_start (can_start_test now t visitor test session).0
unfolding can_start_test
start-Answers now t visitor test session =
    ground (arith, paid-Explained test.exam_type now t visitor test)

qbank_decision-Explained :
    (now : Time) (subs : List Subscription) (visitor : Visitor) (course : Option ℕ)
    → Explained (qbank_decision now subs visitor course)
unfolding qbank_decision
qbank_decision-Explained now subs visitor none = refl
qbank_decision-Explained now subs visitor (some c) =
    ground (arith, commercial-Explained now subs visitor ProductType.qbank (some c))

qbank-Answers :
    (now : Time) (t : Tables) (visitor : Visitor) (subject : Subject)
    → Answers can_view (can_view_qbank now t.subscriptions visitor subject t.free).0
unfolding can_view_qbank first_course
qbank-Answers now t visitor subject = ground (
  arith,
  try_free-Explained now visitor ResourceType.qbank t.free,
  qbank_decision-Explained now t.subscriptions visitor (first_course subject.courses),
)

purchase-Answers :
    (now : Time) (t : Tables) (visitor : Visitor) (test : Test)
    → Answers can_purchase (can_purchase_test now t visitor test).0
unfolding can_purchase_test
purchase-Answers now t visitor test = ground arith

-- Every decision on seeing and starting carries a reason code exactly if it denies, and names its
-- capability.
pub access_Answers :
    (now : Time) (t : Tables) (visitor : Visitor) (test : Test) (session : Option ExamSession)
    (subject : Subject) (course : ℕ)
    → Answers can_view (academic_eligibility now t.enrollments visitor course)
      × Answers can_view (can_view_qbank now t.subscriptions visitor subject t.free).0
      × Answers can_view (can_view_test now t.enrollments visitor test)
      × Answers can_start (can_start_test now t visitor test session).0
      × Answers can_purchase (can_purchase_test now t visitor test).0
unfolding academic_eligibility can_view_test
access_Answers now t visitor test session subject course = (
  ground arith,
  qbank-Answers now t visitor subject,
  ground arith,
  start-Answers now t visitor test session,
  purchase-Answers now t visitor test,
)

-- Every decision on an attempt carries a reason code exactly if it denies, and names its capability.
pub attempt_Answers :
    (now : Time) (visitor : Visitor) (a : TestAttempt) (test : Test) (sessions : List ExamSession)
    (session : Option ExamSession)
    → Answers can_continue (can_continue_attempt now visitor a test session)
      × Answers can_submit (can_submit_attempt visitor a)
      × Answers can_review (can_review_attempt visitor a)
      × Answers can_see_solutions (can_view_solutions now visitor a test sessions session)
      × Answers can_see_detailed_review
          (can_view_detailed_review now visitor a test sessions session)
      × Answers can_see_rank (can_view_rank visitor a)
unfolding can_continue_attempt can_submit_attempt can_review_attempt can_view_solutions
    can_view_detailed_review can_view_rank
attempt_Answers now visitor a test sessions session = ground arith
