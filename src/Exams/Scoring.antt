-- ===== src/Exams/Scoring.antt =====
-- tests_app/lifecycle.py, `_score_and_rank` and `_create_question_snapshots`: the score and the rank
-- of an attempt. Marks and scores are in hundredths, where the source adds floats that it rounds to
-- two places.
pub mod Total
pub mod Described
pub mod Counted
pub mod Bounds
pub mod Edits
use hamromentorback.Base.{
  ℕ, zero, suc, ◌+◌, ◌-◌, ◌*◌, Bool, true, false, ◌&&◌, not, Option, none, some, List, [], ◌∷◌,
  ◌++◌, ◌==◌, is_some, holds_id, same_key, nonempty, if◌then◌else◌, find_first, select, count_by,
  length, contains, ltb,
}
use hamromentorback.Base.Int.{ℤ, pos, ◌+ℤ◌, ◌-ℤ◌, ltb_ℤ}
use hamromentorback.Base.Ratio.{rounded}
use hamromentorback.Time.{Time}
use hamromentorback.Academics.Models as Bank
use hamromentorback.Academics.Models.{Question}
use hamromentorback.Academics.Statistics
use hamromentorback.Academics.Statistics.{Delta, record_question_result}
use hamromentorback.Exams.Models.{
  Test, ExamSession, AttemptStatus, submitted, is_submitted, TestAttempt,
}
use hamromentorback.Exams.Frozen.{
  AttemptQuestion, Answer, rows_of, answers_of, find_question, question_ids, marks_of,
}

pub record Tally : Type 0 where
  pub score : ℤ
  pub correct : ℕ
  pub incorrect : ℕ
  pub deltas : List Delta
  pub bank : Bank.Db

-- `stat_deltas.append(delta)` where there is one
add_delta : Option Delta → List Delta → List Delta
add_delta none deltas = deltas
add_delta (some d) deltas = deltas ++ (d ∷ [])

-- What is recorded of an answer with a selected option.
result_of : TestAttempt → Question → Answer → ℕ → Statistics.Result
result_of attempt q answer chosen = record {
  user_id = attempt.user_id;
  question_id = q.id;
  is_correct = answer.is_correct;
  source = Bank.from_test;
  selected_option = some chosen;
  time_taken_seconds = answer.time_taken_seconds;
  confidence = none;
}

-- What an answer adds to the score.
unfoldable pub points : Bool → ℤ × ℤ → Bool → ℤ
points negative_marking (marks, negative) is_correct =
    if is_correct then marks else if negative_marking then pos 0 -ℤ negative else pos 0

tally_selected :
    Time → TestAttempt → Bool → List AttemptQuestion → Question → Answer → ℕ → Tally → Tally
unfolding add_delta result_of
tally_selected now attempt negative_marking rows q answer chosen t =
    let (delta, bank) = record_question_result now (result_of attempt q answer chosen) t.bank in
    record {
      score = t.score +ℤ points negative_marking (marks_of rows q) answer.is_correct;
      correct = if answer.is_correct then suc t.correct else t.correct;
      incorrect = if answer.is_correct then t.incorrect else suc t.incorrect;
      deltas = add_delta delta t.deltas;
      bank = bank;
    }

-- Only an answer with a selected option counts. The question of an answer is there: the answers of
-- a question that is deleted go with it.
pub tally_choice :
    Option ℕ
    → Option Question
    → Time
    → TestAttempt
    → Bool
    → List AttemptQuestion
    → Answer
    → Tally
    → Tally
unfolding tally_selected
tally_choice none question now attempt negative_marking rows answer t = t
tally_choice (some chosen) none now attempt negative_marking rows answer t = t
tally_choice (some chosen) (some q) now attempt negative_marking rows answer t =
    tally_selected now attempt negative_marking rows q answer chosen t

tally_answer : Time → TestAttempt → Bool → List AttemptQuestion → Answer → Tally → Tally
unfolding tally_choice
tally_answer now attempt negative_marking rows answer t =
    tally_choice answer.selected_option (find_question answer.question_id t.bank.questions) now
      attempt negative_marking rows answer t

unfoldable pub tally_answers :
    Time → TestAttempt → Bool → List AttemptQuestion → List Answer → Tally → Tally
unfolding tally_answer
tally_answers now attempt negative_marking rows [] t = t
tally_answers now attempt negative_marking rows (a ∷ rest) t =
    tally_answers now attempt negative_marking rows rest
      (tally_answer now attempt negative_marking rows a t)

-- In hundredths of a percent, or 0 of nothing.
unfoldable pub percent : ℕ → ℕ → ℕ
percent part whole = if whole == 0 then 0 else rounded (10000 * part) whole

-- The submitted attempts of the same test and session.
abbrev pub is_ranked_with : TestAttempt → TestAttempt → Bool
is_ranked_with attempt a =
    (a.test_id == attempt.test_id)
    && same_key a.session_id attempt.session_id
    && is_submitted a.status

unfoldable pub rank_in : ℤ → List TestAttempt → ℕ
rank_in score pool = count_by (λ a. ltb_ℤ score a.score) pool + 1

-- `total` counts the attempt itself.
unfoldable pub percentile_of : ℕ → ℕ → ℕ
percentile_of rank total = if ltb 1 total then percent (total - rank) total else 10000

scored : Time → Tally → List TestAttempt → TestAttempt → TestAttempt
unfolding percent rank_in percentile_of
scored now t pool attempt = record attempt {
  score = t.score;
  accuracy = percent t.correct (t.correct + t.incorrect);
  end_time = some now;
  status = submitted;
  rank = some (rank_in t.score pool);
  percentile = some (percentile_of (rank_in t.score pool) (length pool + 1));
}

unfoldable pub empty_tally : Bank.Db → Tally
empty_tally bank = record { score = pos 0; correct = 0; incorrect = 0; deltas = []; bank = bank }

-- The scored row, and the tally with the changes for the statistics and the question bank.
unfoldable pub score_and_rank :
    Time
    → Bool
    → List AttemptQuestion
    → List Answer
    → List TestAttempt
    → Bank.Db
    → TestAttempt
    → TestAttempt × Tally
unfolding scored empty_tally
score_and_rank now negative_marking rows answers attempts bank attempt =
    let t =
      tally_answers now attempt negative_marking (rows_of attempt.id rows)
        (answers_of attempt.id answers) (empty_tally bank) in
    (scored now t (select (is_ranked_with attempt) attempts) attempt, t)

-- One question as it was when the attempt was finalized, with the columns that scoring reads; the
-- texts, the images and the options are copied along.
pub record QuestionSnapshot : Type 0 where
  pub attempt_id : ℕ
  pub question_id : ℕ
  pub order : ℕ
  pub marks : ℤ
  pub negative_marks : ℤ
  pub selected_option : Option ℕ

answer_to : ℕ → List Answer → Option ℕ
answer_to question_id answers = elim (find_first (λ a. a.question_id == question_id) answers) [
  | none ↦ none
  | some a ↦ a.selected_option
]

snapshot_from :
    ℕ → ℕ → List AttemptQuestion → List Answer → List Question → List ℕ → List QuestionSnapshot
unfolding answer_to
snapshot_from attempt_id order rows answers questions [] = []
snapshot_from attempt_id order rows answers questions (id ∷ rest) =
    elim (find_question id questions) [
      | none ↦ snapshot_from attempt_id order rows answers questions rest
      | some q ↦
          record {
            attempt_id = attempt_id;
            question_id = q.id;
            order = order;
            marks = (marks_of rows q).0;
            negative_marks = (marks_of rows q).1;
            selected_option = answer_to q.id answers;
          }
          ∷ snapshot_from attempt_id (suc order) rows answers questions rest
    ]

-- The frozen rows say which questions and in what order, else the test does.
unfoldable pub create_question_snapshots :
    List AttemptQuestion → List Answer → Test → List Question → TestAttempt → List QuestionSnapshot
unfolding snapshot_from question_ids
create_question_snapshots rows answers test questions attempt =
    let frozen = rows_of attempt.id rows in
    snapshot_from attempt.id 0 frozen (answers_of attempt.id answers) questions
      (if nonempty frozen then question_ids frozen else test.questions)
