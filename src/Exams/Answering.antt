-- ===== src/Exams/Answering.antt =====
-- tests_app/views.py: AttemptDetailView, SubmitAnswerView, MarkForReviewView and SubmitTestView, as
-- steps on the exam tables. `none` stands for an exception.
pub mod Late
pub mod Closed
pub mod Saved
pub mod Views
pub mod Steps
use hamromentorback.Base.{
  ℕ, suc, Bool, true, false, ◌&&◌, ◌||◌, not, Option, none, some, List, [], ◌∷◌, ◌==◌, is_some,
  if◌then◌else◌, find_first, update_by, any, contains,
}
use hamromentorback.Time.{Time}
use hamromentorback.Accounts.{User, signed_in}
use hamromentorback.Billing.Access.{is_preview_only}
use hamromentorback.Academics.Models.{Question, Choice}
use hamromentorback.Base.{◌>>=◌}
use hamromentorback.Exams.Models.{Test, AttemptStatus, is_in_progress, is_submitted, TestAttempt}
use hamromentorback.Exams.Frozen.{
  AttemptQuestion, Answer, attempt_is_preview_only, attempt_preview_question_ids, find_question,
}
use hamromentorback.Exams.Lifecycle
use hamromentorback.Exams.Lifecycle.{
  find_attempt, find_test, is_expired_in, finalize_attempt, ensure_finalized_if_expired,
}

pub data Response : Type 0 where
  not_found exam_closed purchase_required question_id_required saved : Response
  marked_for_review : Bool → Response
  result in_progress_attempt : TestAttempt → Response

-- `get_object_or_404(TestAttempt, pk=attempt_id, user=request.user)`
unfoldable pub own_attempt : ℕ → User → List TestAttempt → Option TestAttempt
own_attempt id user l = find_first (λ a. (a.id == id) && (a.user_id == user.id)) l

-- … with `status='in_progress'`
unfoldable pub own_open_attempt : ℕ → User → List TestAttempt → Option TestAttempt
own_open_attempt id user l =
    find_first (λ a. (a.id == id) && (a.user_id == user.id) && is_in_progress a.status) l

pub hand_to :
    Option TestAttempt
    → (TestAttempt → Lifecycle.Db → Option (Response × Lifecycle.Db))
    → Lifecycle.Db
    → Option (Response × Lifecycle.Db)
hand_to none view db = some (not_found, db)
hand_to (some a) view db = view a db

-- A view that the student's open attempt is handed to.
pub with_open :
    ℕ
    → User
    → (TestAttempt → Lifecycle.Db → Option (Response × Lifecycle.Db))
    → Lifecycle.Db
    → Option (Response × Lifecycle.Db)
unfolding hand_to
with_open id user view db = hand_to (own_open_attempt id user db.attempts) view db

-- An attempt whose time is over is closed, and the request is turned away.
pub unless_expired :
    Time
    → (TestAttempt → Lifecycle.Db → Option (Response × Lifecycle.Db))
    → TestAttempt
    → Lifecycle.Db
    → Option (Response × Lifecycle.Db)
unless_expired now view a db = do
  expired ← is_expired_in now a db
  if expired
      then (do (row, db') ← finalize_attempt now true a.id db; some (exam_closed, db'))
      else view a db

-- `can_review_attempt(request.user, attempt).allowed` on the user's own attempt
detail_of : TestAttempt → Response
detail_of a = if is_submitted a.status then result a else in_progress_attempt a

attempt_detail_own : Time → Option TestAttempt → Lifecycle.Db → Option (Response × Lifecycle.Db)
unfolding detail_of
attempt_detail_own now none db = some (not_found, db)
attempt_detail_own now (some a) db = do
  (row, db') ← ensure_finalized_if_expired now a db
  some (detail_of row, db')

unfoldable pub attempt_detail : Time → User → ℕ → Lifecycle.Db → Option (Response × Lifecycle.Db)
unfolding attempt_detail_own
attempt_detail now user id db = attempt_detail_own now (own_attempt id user db.attempts) db

abbrev pub is_answer : ℕ → ℕ → Answer → Bool
is_answer attempt_id question_id a = (a.attempt_id == attempt_id) && (a.question_id == question_id)

-- The row that `update_or_create` creates, with the defaults of the columns that it is not given.
blank_answer : ℕ → ℕ → Answer
blank_answer attempt_id question_id = record {
  attempt_id = attempt_id;
  question_id = question_id;
  selected_option = none;
  is_correct = false;
  is_marked_for_review = false;
  time_taken_seconds = none;
}

unfoldable pub update_or_create : ℕ → ℕ → (Answer → Answer) → List Answer → List Answer
unfolding blank_answer
update_or_create attempt_id question_id f answers =
    if any (is_answer attempt_id question_id) answers
    then update_by (is_answer attempt_id question_id) f answers
    else f (blank_answer attempt_id question_id) ∷ answers

-- The validated data; `option_id` is nothing for null, for 0 and where it is left out.
pub record AnswerData : Type 0 where
  pub question_id : ℕ
  pub option_id : Option ℕ
  pub mark_for_review : Bool
  pub time_taken_seconds : Option ℕ

write_answer : AnswerData → Option Choice → Answer → Answer
write_answer data_in none a = record a {
  selected_option = none;
  is_correct = false;
  is_marked_for_review = data_in.mark_for_review;
  time_taken_seconds = data_in.time_taken_seconds;
}
write_answer data_in (some c) a = record a {
  selected_option = some c.id;
  is_correct = c.is_correct;
  is_marked_for_review = data_in.mark_for_review;
  time_taken_seconds = data_in.time_taken_seconds;
}

-- The answer of a question that is not in the question bank breaks its foreign key.
store_answer :
    AnswerData → Option Choice → TestAttempt → Lifecycle.Db → Option (Response × Lifecycle.Db)
unfolding write_answer
store_answer data_in choice a db = do
  q ← find_question data_in.question_id db.bank.questions
  some (
    saved,
    record db {
      answers = update_or_create a.id data_in.question_id (write_answer data_in choice) db.answers;
    },
  )

-- `get_object_or_404(Option, pk=…, question_id=…)`
unfoldable pub find_choice : ℕ → ℕ → List Choice → Option Choice
find_choice id question_id l = find_first (λ c. (c.id == id) && (c.question_id == question_id)) l

pub store_found :
    AnswerData → Option Choice → TestAttempt → Lifecycle.Db → Option (Response × Lifecycle.Db)
unfolding store_answer
store_found data_in none a db = some (not_found, db)
store_found data_in (some c) a db = store_answer data_in (some c) a db

choose : AnswerData → Option ℕ → TestAttempt → Lifecycle.Db → Option (Response × Lifecycle.Db)
unfolding store_answer store_found
choose data_in none a db = store_answer data_in none a db
choose data_in (some id) a db =
    store_found data_in (find_choice id data_in.question_id db.bank.options) a db

-- The frozen verdict, or the one of now for an attempt without frozen rows.
unfoldable pub is_preview_attempt : Time → User → TestAttempt → Test → Lifecycle.Db → Bool
is_preview_attempt now user a test db =
    attempt_is_preview_only a.id db.attempt_questions
      (is_preview_only now db.subscriptions (signed_in user) test)

pub answer_open :
    Time → User → AnswerData → TestAttempt → Lifecycle.Db → Option (Response × Lifecycle.Db)
unfolding choose
answer_open now user data_in a db = do
  test ← find_test a.test_id db.tests
  if is_preview_attempt now user a test db
        && not (
            contains data_in.question_id
              (attempt_preview_question_ids a.id db.attempt_questions test))
      then some (purchase_required, db)
      else choose data_in data_in.option_id a db

unfoldable pub submit_answer :
    Time → User → ℕ → AnswerData → Lifecycle.Db → Option (Response × Lifecycle.Db)
unfolding with_open unless_expired answer_open
submit_answer now user id data_in db =
    with_open id user (unless_expired now (answer_open now user data_in)) db

pub mark_open : Option ℕ → Bool → TestAttempt → Lifecycle.Db → Option (Response × Lifecycle.Db)
mark_open none marked a db = some (question_id_required, db)
mark_open (some question_id) marked a db = do
  test ← find_test a.test_id db.tests
  if contains question_id test.questions
      then some (
        marked_for_review marked,
        record db {
          answers =
              update_or_create a.id question_id (λ r. record r { is_marked_for_review = marked })
                db.answers;
        },
      )
      else some (not_found, db)

unfoldable pub mark_for_review :
    Time → User → ℕ → Option ℕ → Bool → Lifecycle.Db → Option (Response × Lifecycle.Db)
unfolding with_open unless_expired mark_open
mark_for_review now user id question_id marked db =
    with_open id user (unless_expired now (mark_open question_id marked)) db

pub submit_open : Time → User → TestAttempt → Lifecycle.Db → Option (Response × Lifecycle.Db)
submit_open now user a db = do
  test ← find_test a.test_id db.tests
  if is_preview_attempt now user a test db
      then some (purchase_required, db)
      else (do (row, db') ← finalize_attempt now false a.id db; some (result row, db'))

unfoldable pub submit_test : Time → User → ℕ → Lifecycle.Db → Option (Response × Lifecycle.Db)
unfolding with_open submit_open
submit_test now user id db = with_open id user (submit_open now user) db
