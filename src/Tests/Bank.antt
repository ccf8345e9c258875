-- ===== src/Tests/Bank.antt =====
-- Scores, votes and new attempts, on the exam tables of the tests of attempts.
use hamromentorback.Base.{
  ℕ, ◌+◌, ◌≤◌, ◌≡◌, refl, Bool, true, false, if◌then◌else◌, Option, none, some, List, [], ◌∷◌,
  arith, map, length, select, count_by, sorted_by,
}
use hamromentorback.Base.Int.{pos, ◌+ℤ◌, ltb_ℤ, ◌-ℤ◌}
use hamromentorback.Time.{Time, minutes}
use hamromentorback.Academics.Models.{Question, Source}
use hamromentorback.Academics.Statistics.{
  Delta, Result, new_attempt, shifted, shift_options, pick_percentage, apply_question_stat_delta,
}
use hamromentorback.Academics.Statistics.Votes.{
  vote_for, voted, sum_picks, sum_total, after_answers, one_vote,
}
use hamromentorback.Academics.Batches.{
  Stats, apply_one_delta_with_retry, apply_question_stats_deltas, process_question_stats,
}
use hamromentorback.Academics.Batches.Applied.{redelivery_changes_nothing}
use hamromentorback.Exams.Models.{TestAttempt, AttemptStatus}
use hamromentorback.Exams.Frozen.{
  AttemptQuestion, Answer, last_row, freeze_attempt_questions, rows_of, answers_of,
}
use hamromentorback.Exams.Scoring.{
  is_ranked_with, tally_answers, empty_tally, score_and_rank, percent,
}
use hamromentorback.Exams.Scoring.Counted.{score_and_rank-counts}
use hamromentorback.Exams.Scoring.Described.{
  right_answers, wrong_answers, marks_for, negative_marks_for, total,
}
use hamromentorback.Exams.Scoring.Bounds.{score_and_rank_bounds}
use hamromentorback.Exams.Scoring.Edits.{score_ignores_edits}
use hamromentorback.Exams.Schedule.{is_attempt_expired, effective_attempt_end}
use hamromentorback.Exams.Lifecycle
use hamromentorback.Exams.Lifecycle.{is_expired_in, ensure_finalized_if_expired}
use hamromentorback.Exams.Gates.{Response, started, resumed, refused}
use hamromentorback.Exams.Starting.{create_attempt, locked_start}
use hamromentorback.Exams.Starting.Single.{is_running, IsSingle, locked_start-IsSingle}
use hamromentorback.Exams.Starting.Limit.{WithinLimit, started-WithinLimit}
use hamromentorback.Tests.Data.{student, mock_test}
use hamromentorback.Tests.Attempts.{exams, bank, open_attempt, right_answer, frozen_row}

abbrev wrong_answer : Answer
wrong_answer = record right_answer {
  question_id = 12;
  selected_option = some 3;
  is_correct = false;
}

abbrev frozen_rows : List AttemptQuestion
frozen_rows = frozen_row ∷ record frozen_row { question_id = some 12; order = 1 } ∷ []

abbrev better : TestAttempt
better = record open_attempt {
  id = 70;
  user_id = 9;
  score = pos 200;
  status = AttemptStatus.submitted;
}

abbrev two_answers : List Answer
two_answers = right_answer ∷ wrong_answer ∷ []

score_and_rank-counts_example :
    let (row, t) =
      score_and_rank
        (minutes 150)
        true
        frozen_rows
        two_answers
        (better ∷ open_attempt ∷ [])
        bank
        open_attempt in
    let own_rows = rows_of open_attempt.id frozen_rows in
    let rights = right_answers bank.questions (answers_of open_attempt.id two_answers) in
    let wrongs = wrong_answers bank.questions (answers_of open_attempt.id two_answers) in
    (row.score
      ≡ total (marks_for own_rows bank.questions) rights
        -ℤ total (λ b. if true then negative_marks_for own_rows bank.questions b else pos 0) wrongs)
    × (t.correct ≡ length rights)
    × (t.incorrect ≡ length wrongs)
    × (row.accuracy ≡ percent (length rights) (length rights + length wrongs))
score_and_rank-counts_example =
    score_and_rank-counts (minutes 150) true frozen_rows two_answers (better ∷ open_attempt ∷ [])
      bank open_attempt

score_and_rank_bounds_example :
    let row =
      (score_and_rank
        (minutes 150)
        true
        frozen_rows
        (right_answer ∷ [])
        (better ∷ open_attempt ∷ [])
        bank
        open_attempt).0 in
    let pool = select (is_ranked_with open_attempt) (better ∷ open_attempt ∷ []) in
    (row.accuracy ≤ 10000)
    × ((p : ℕ) → row.percentile ≡ some p → p ≤ 10000)
    × ((r : ℕ)
        → row.rank ≡ some r
        → (r ≡ count_by (λ b. ltb_ℤ row.score b.score) pool + 1) × (r ≤ length pool + 1))
score_and_rank_bounds_example =
    score_and_rank_bounds (minutes 150) true frozen_rows (right_answer ∷ [])
      (better ∷ open_attempt ∷ []) bank open_attempt

-- All questions are set to five marks after the attempt began.
abbrev five_marks : Question → Question
five_marks q = record q { marks = pos 500 }

score_ignores_edits_example :
    (tally_answers
      (minutes 150)
      open_attempt
      true
      frozen_rows
      (right_answer ∷ wrong_answer ∷ [])
      (empty_tally (record bank { questions = map five_marks bank.questions }))).score
    ≡ (tally_answers
        (minutes 150)
        open_attempt
        true
        frozen_rows
        (right_answer ∷ wrong_answer ∷ [])
        (empty_tally bank)).score
unfolding last_row
score_ignores_edits_example =
    score_ignores_edits five_marks (minutes 150) open_attempt true frozen_rows
      (right_answer ∷ wrong_answer ∷ []) bank (λ q. refl)
      (
        (frozen_row, pos 100, pos 25, refl, refl, refl),
        (
          (
            record frozen_row { question_id = some 12; order = 1 },
            pos 100,
            pos 25,
            refl,
            refl,
            refl,
          ),
          tt,
        ),
      )

-- The student answers with the right option, skips, and moves to the wrong option.
abbrev chose : Option ℕ → Result
chose option_id = record {
  user_id = 7;
  question_id = 11;
  is_correct = true;
  source = Source.from_qbank;
  selected_option = option_id;
  time_taken_seconds = none;
  confidence = none;
}

abbrev three_answers : List (Time × Result)
three_answers =
    (minutes 1, chose (some 1))
    ∷ (minutes 2, record (chose none) { is_correct = false })
    ∷ (minutes 3, record (chose (some 2)) { is_correct = false })
    ∷ []

one_vote_example :
    (vote_for 2 (after_answers bank.config three_answers (new_attempt 7 11)).selected_option
      ≡ vote_for 2 (new_attempt 7 11).selected_option
        +ℤ sum_picks 2 bank.config three_answers (new_attempt 7 11))
    × (voted (after_answers bank.config three_answers (new_attempt 7 11)).selected_option
        ≡ voted (new_attempt 7 11).selected_option
          +ℤ sum_total bank.config three_answers (new_attempt 7 11))
one_vote_example = one_vote 2 bank.config three_answers (new_attempt 7 11)

abbrev calm : ℕ → ℕ → Option ℕ
calm question_id n = none

abbrev one_delta : List Delta
one_delta =
    record {
      question_id = 11;
      total_delta = pos 1;
      correct_delta = pos 1;
      option_deltas = (1, pos 1) ∷ [];
    }
    ∷ []

abbrev stats : Stats
stats = record { unapplied = 71 ∷ []; bank = bank }

stats_of : Option Stats → Stats
stats_of none = stats
stats_of (some s) = s

abbrev counted : Stats
counted = stats_of (process_question_stats calm 71 one_delta stats)

redelivery_changes_nothing_example : process_question_stats calm 71 one_delta counted ≡ some counted
unfolding stats_of process_question_stats apply_question_stats_deltas apply_one_delta_with_retry
    sorted_by apply_question_stat_delta shifted shift_options pick_percentage ◌+ℤ◌
redelivery_changes_nothing_example =
    redelivery_changes_nothing calm calm 71 one_delta one_delta stats {out = counted} refl

abbrev unshuffled : List ℕ → List ℕ
unshuffled ids = ids

response_of : Option (Response × Lifecycle.Db) → Response
response_of none = started open_attempt
response_of (some (r, db)) = r

tables_after : Option (Response × Lifecycle.Db) → Lifecycle.Db
tables_after none = exams
tables_after (some (r, db)) = db

one_at_most : (b : Bool) → (if b then 1 else 0) ≤ 1
one_at_most b = ground arith

exams-IsSingle : IsSingle exams
exams-IsSingle = record {
  below = (omega (arith), tt);
  keyed = (tt, tt);
  single = λ user test session. one_at_most (is_running user test session open_attempt);
}

-- The student comes back to the open attempt at minute 150.
locked_start-IsSingle_example :
    IsSingle (tables_after (locked_start unshuffled (minutes 150) student mock_test none exams))
unfolding locked_start tables_after response_of ensure_finalized_if_expired is_expired_in
    is_attempt_expired effective_attempt_end
locked_start-IsSingle_example =
    let result = locked_start unshuffled (minutes 150) student mock_test none exams in
    locked_start-IsSingle unshuffled (minutes 150) student mock_test none exams (response_of result)
      (tables_after result) exams-IsSingle refl

-- A first attempt, of one that the test allows.
abbrev no_attempts : Lifecycle.Db
no_attempts = record exams { attempts = [] }

attempt_of : Response → TestAttempt
attempt_of (started a) = a
attempt_of (resumed a) = a
attempt_of (refused r) = open_attempt

abbrev first_start : Option (Response × Lifecycle.Db)
first_start = locked_start unshuffled (minutes 150) student mock_test none no_attempts

started-WithinLimit_example :
    WithinLimit student mock_test none
      (attempt_of (response_of first_start))
      (tables_after first_start)
unfolding locked_start tables_after response_of attempt_of create_attempt freeze_attempt_questions
started-WithinLimit_example =
    started-WithinLimit unshuffled (minutes 150) student mock_test none no_attempts
      {a = attempt_of (response_of first_start)} {out = tables_after first_start} refl
