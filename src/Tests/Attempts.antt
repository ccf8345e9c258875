-- ===== src/Tests/Attempts.antt =====
-- The life of attempts on a Mock Test of one hour with two questions: one attempt that is open since
-- minute 110, and one right answer.
use hamromentorback.Base.{
  ℕ, ◌≡◌, ◌≢◌, refl, true, false, Option, none, some, [], ◌∷◌, find_first, sorted_by,
}
use hamromentorback.Base.Int.{pos}
use hamromentorback.Time.{minutes}
use hamromentorback.Academics.Models as Bank
use hamromentorback.Academics.Models.{Question, Choice, QuestionBankConfig}
use hamromentorback.Exams.Models.{TestAttempt, AttemptStatus}
use hamromentorback.Exams.Schedule.{effective_attempt_end, is_attempt_expired}
use hamromentorback.Exams.Frozen.{
  AttemptQuestion, Answer, answers_of, attempt_is_preview_only, attempt_preview_question_ids,
}
use hamromentorback.Exams.Lifecycle
use hamromentorback.Exams.Lifecycle.{
  find_attempt, is_expired_in, finalize_attempt, Report, sweep_each, sweep_expired_attempts,
}
use hamromentorback.Exams.Lifecycle.Once.{finalize_idempotent}
use hamromentorback.Exams.Lifecycle.Sweep.{sweep_leaves_none_expired}
use hamromentorback.Exams.Lifecycle.Dry.{dry_run_agrees}
use hamromentorback.Exams.Answering.{
  Response, exam_closed, not_found, find_choice, update_or_create, is_preview_attempt, AnswerData,
  own_open_attempt, submit_answer, mark_for_review, is_answer,
}
use hamromentorback.Exams.Answering.Late.{ClosedOnly, late_requests_rejected}
use hamromentorback.Exams.Answering.Saved.{ReadsBack, submit_answer_read_back}
use hamromentorback.Exams.Answering.Steps.{done, then_step, answer, sweep, closed_forever}
use hamromentorback.Tests.Data.{student, mock_test, running}

abbrev pub first_question : Question
first_question = record {
  id = 11;
  marks = pos 100;
  negative_marks = pos 25;
  total_attempts = 4;
  correct_attempts = 3;
}

abbrev right_option : Choice
right_option = record {
  id = 1;
  question_id = 11;
  is_correct = true;
  pick_count = 3;
  pick_percentage = 75;
}

abbrev config : QuestionBankConfig
config = record {
  mastered_min_pct = 80;
  weak_max_pct = 50;
  revision_interval_correct_days = 7;
  revision_interval_incorrect_days = 1;
}

abbrev pub bank : Bank.Db
bank = record {
  questions = first_question ∷ record first_question { id = 12 } ∷ [];
  options =
      right_option
      ∷ record right_option { id = 2; is_correct = false; pick_count = 1; pick_percentage = 25 }
      ∷ [];
  attempts = [];
  events = [];
  config = config;
}

abbrev pub open_attempt : TestAttempt
open_attempt = record running { test_id = 6; session_id = none }

abbrev pub right_answer : Answer
right_answer = record {
  attempt_id = 71;
  question_id = 11;
  selected_option = some 1;
  is_correct = true;
  is_marked_for_review = false;
  time_taken_seconds = some 40;
}

abbrev pub frozen_row : AttemptQuestion
frozen_row = record {
  attempt_id = 71;
  question_id = some 11;
  order = 0;
  is_preview = false;
  marks_snapshot = some (pos 100);
  negative_marks_snapshot = some (pos 25);
}

abbrev pub exams : Lifecycle.Db
exams = record {
  tests = mock_test ∷ [];
  sessions = [];
  attempts = open_attempt ∷ [];
  attempt_questions = frozen_row ∷ record frozen_row { question_id = some 12; order = 1 } ∷ [];
  answers = right_answer ∷ [];
  snapshots = [];
  subscriptions = [];
  tasks = [];
  bank = bank;
  next_id = 80;
}

first_of : {A : Type 0} → A → Option (A × Lifecycle.Db) → A
first_of other none = other
first_of other (some (a, db)) = a

tables_of : {A : Type 0} → Option (A × Lifecycle.Db) → Lifecycle.Db
tables_of none = exams
tables_of (some (a, db)) = db

-- The student submits at minute 150.
abbrev handed_in : Option (TestAttempt × Lifecycle.Db)
handed_in = finalize_attempt (minutes 150) false 71 exams

finalize_idempotent_example :
    finalize_attempt (minutes 200) true 71 (tables_of handed_in)
    ≡ some (first_of open_attempt handed_in, tables_of handed_in)
unfolding first_of tables_of finalize_attempt
finalize_idempotent_example =
    finalize_idempotent (minutes 150) (minutes 200) false true 71 exams refl

sweep_leaves_none_expired_example :
    (report : Report) × (out : Lifecycle.Db) × (sweep_expired_attempts (minutes 200) false exams
      ≡ some (report, out))
    × ((k : ℕ) (a : TestAttempt)
        → find_attempt k out.attempts ≡ some a
        → is_expired_in (minutes 200) a out ≢ some true)
sweep_leaves_none_expired_example =
    sweep_leaves_none_expired (minutes 200) exams ((mock_test, refl), tt)

late_requests_rejected_example :
    let data_in : AnswerData = record {
      question_id = 11;
      option_id = some 2;
      mark_for_review = false;
      time_taken_seconds = none;
    } in
    ((out : Lifecycle.Db) × (submit_answer (minutes 200) student 71 data_in exams
        ≡ some (exam_closed, out))
      × ClosedOnly 71 exams out)
    × ((out : Lifecycle.Db) × (mark_for_review (minutes 200) student 71 (some 11) true exams
          ≡ some (exam_closed, out))
        × ClosedOnly 71 exams out)
unfolding own_open_attempt is_expired_in is_attempt_expired effective_attempt_end
late_requests_rejected_example =
    late_requests_rejected (minutes 200) student 71
      (record {
        question_id = 11;
        option_id = some 2;
        mark_for_review = false;
        time_taken_seconds = none;
      })
      (some 11) true exams open_attempt mock_test (tt, tt) refl refl refl

other_report : Report
other_report = record { checked = 0; finalized_ids = [] }

-- The sweep at minute 200, after the time of the attempt.
abbrev swept : Option (Report × Lifecycle.Db)
swept = sweep_expired_attempts (minutes 200) false exams

dry_run_agrees_example :
    sweep_expired_attempts (minutes 200) true exams ≡ some (first_of other_report swept, exams)
unfolding first_of tables_of sweep_expired_attempts sweep_each is_expired_in is_attempt_expired
    effective_attempt_end finalize_attempt other_report sorted_by
dry_run_agrees_example =
    dry_run_agrees (minutes 200) exams {report = first_of other_report swept}
      {out = tables_of swept} refl

-- An answer with the wrong option, in time.
abbrev second_thought : AnswerData
second_thought = record {
  question_id = 11;
  option_id = some 2;
  mark_for_review = true;
  time_taken_seconds = some 90;
}

abbrev answered_again : Option (Response × Lifecycle.Db)
answered_again = submit_answer (minutes 150) student 71 second_thought exams

submit_answer_read_back_example :
    (a : TestAttempt) × (own_open_attempt 71 student exams.attempts ≡ some a)
    × ((r : Answer) × (find_first (is_answer a.id 11) (tables_of answered_again).answers ≡ some r)
        × ReadsBack second_thought bank.options r)
unfolding submit_answer own_open_attempt is_expired_in is_attempt_expired effective_attempt_end
    find_choice update_or_create tables_of is_preview_attempt attempt_is_preview_only
    attempt_preview_question_ids
submit_answer_read_back_example =
    submit_answer_read_back (minutes 150) student 71 second_thought exams
      {out = tables_of answered_again} refl

abbrev handed_in_attempt : TestAttempt
handed_in_attempt = record open_attempt {
  end_time = some (minutes 150);
  score = pos 100;
  status = AttemptStatus.submitted;
}

abbrev after_hand_in : Lifecycle.Db
after_hand_in = record exams { attempts = handed_in_attempt ∷ [] }

-- An answer that comes after the attempt was handed in, and then a sweep.
closed_forever_example :
    let out = after_hand_in in
    (find_attempt 71 out.attempts ≡ some handed_in_attempt)
    × (answers_of 71 out.answers ≡ answers_of 71 after_hand_in.answers)
unfolding submit_answer own_open_attempt sweep_expired_attempts sweep_each sorted_by
closed_forever_example =
    closed_forever after_hand_in after_hand_in 71 handed_in_attempt (tt, tt)
      (then_step after_hand_in after_hand_in
        (then_step after_hand_in after_hand_in done
          (answer (minutes 151) student 71 second_thought not_found refl))
        (sweep (minutes 200) false (record { checked = 0; finalized_ids = [] }) refl))
      refl refl
