-- ===== src/Exams/Answering/Late.antt =====
-- tests_app/views.py, SubmitAnswerView and MarkForReviewView: a request that comes too late.
use hamromentorback.Base.{
  ℕ, ◌≡◌, ap, ◌∙◌, Bool, true, false, ◌&&◌, Option, some, ◌==◌, Unique, find-own_key,
}
use hamromentorback.Time.{Time}
use hamromentorback.Accounts.{User}
use hamromentorback.Exams.Models.{Test, is_in_progress, TestAttempt}
use hamromentorback.Exams.Lifecycle.{Db, find_attempt, find_test, is_expired_in}
use hamromentorback.Exams.Lifecycle.Once.{
  finalize_effect, Finalized-found_closed, Finalized-same, finalize_done,
}
use hamromentorback.Exams.Answering.{
  Response, exam_closed, own_open_attempt, hand_to, with_open, unless_expired, AnswerData,
  answer_open, mark_open, submit_answer, mark_for_review,
}

-- The answers are as before, and the attempt is closed.
abbrev pub ClosedOnly : ℕ → Db → Db → Type 0
ClosedOnly id db out =
    (out.answers ≡ db.answers)
    × ((row : TestAttempt) × (find_attempt id out.attempts ≡ some row)
        × (is_in_progress row.status ≡ false))

pub own_open-found :
    (id : ℕ) (user : User) (db : Db) {a : TestAttempt}
    → Unique (λ r. r.id) db.attempts
    → own_open_attempt id user db.attempts ≡ some a
    → find_attempt a.id db.attempts ≡ some a
unfolding own_open_attempt
own_open-found id user db unique mine =
    find-own_key (λ r. (r.id == id) && (r.user_id == user.id) && is_in_progress r.status)
      (λ r. r.id) db.attempts unique mine

late :
    (now : Time) (user : User) (id : ℕ) (db : Db) (a : TestAttempt) (test : Test)
    (view : TestAttempt → Db → Option (Response × Db))
    → Unique (λ r. r.id) db.attempts
    → own_open_attempt id user db.attempts ≡ some a
    → find_test a.test_id db.tests ≡ some test
    → is_expired_in now a db ≡ some true
    → (out : Db) × (with_open id user (unless_expired now view) db ≡ some (exam_closed, out))
      × ClosedOnly a.id db out
unfolding with_open hand_to unless_expired
late now user id db a test view unique mine exam expired =
    let found = own_open-found id user db unique mine in
    let (row, out, h) = finalize_done now true a.id db a test found exam in
    let effect = finalize_effect now true a.id db h in
    let same = Finalized-same true a.id db row out effect in
    let own = Finalized-found_closed true a.id db row out effect in
    (
      out,
      ap (λ o. hand_to o (unless_expired now view) db) mine ∙ simp (expired, h),
      (same.3, (row, own.0, own.1)),
    )

-- A request of a student to answer a question, or to mark one, in an open attempt whose time is
-- over is turned away as closed, whatever it asks for: no answer changes, and the attempt is closed
-- by the request.
pub late_requests_rejected :
    (now : Time) (user : User) (id : ℕ) (data_in : AnswerData) (question_id : Option ℕ)
    (marked : Bool) (db : Db) (a : TestAttempt) (test : Test)
    → Unique (λ r. r.id) db.attempts
    → own_open_attempt id user db.attempts ≡ some a
    → find_test a.test_id db.tests ≡ some test
    → is_expired_in now a db ≡ some true
    → ((out : Db) × (submit_answer now user id data_in db ≡ some (exam_closed, out))
        × ClosedOnly a.id db out)
      × ((out : Db) × (mark_for_review now user id question_id marked db ≡ some (exam_closed, out))
          × ClosedOnly a.id db out)
unfolding submit_answer mark_for_review
late_requests_rejected now user id data_in question_id marked db a test unique mine exam expired = (
  late now user id db a test (answer_open now user data_in) unique mine exam expired,
  late now user id db a test (mark_open question_id marked) unique mine exam expired,
)
