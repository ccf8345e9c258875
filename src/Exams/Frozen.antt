-- ===== src/Exams/Frozen.antt =====
-- tests_app/lifecycle.py, `freeze_attempt_questions`, `attempt_is_preview_only` and
-- `attempt_preview_question_ids`, and tests_app/models.py: which questions belong to an attempt and
-- what each is worth. Marks are in hundredths.
use hamromentorback.Base.{
  ℕ, zero, suc, Bool, Option, none, some, List, [], ◌∷◌, ◌==◌, is_some, holds_id, nonempty,
  if◌then◌else◌, find_first, select,
}
use hamromentorback.Base.Int.{ℤ}
use hamromentorback.Academics.Models.{Question}
use hamromentorback.Exams.Models.{Test}

-- One frozen question of an attempt.
pub record AttemptQuestion : Type 0 where
  pub attempt_id : ℕ
  pub question_id : Option ℕ
  pub order : ℕ
  pub is_preview : Bool
  pub marks_snapshot : Option ℤ
  pub negative_marks_snapshot : Option ℤ

pub record Answer : Type 0 where
  pub attempt_id : ℕ
  pub question_id : ℕ
  pub selected_option : Option ℕ
  pub is_correct : Bool
  pub is_marked_for_review : Bool
  pub time_taken_seconds : Option ℕ

abbrev pub rows_of : ℕ → List AttemptQuestion → List AttemptQuestion
rows_of attempt_id rows = select (λ r. r.attempt_id == attempt_id) rows

abbrev pub answers_of : ℕ → List Answer → List Answer
answers_of attempt_id answers = select (λ a. a.attempt_id == attempt_id) answers

-- `qs[:n]`
abbrev pub take : ℕ → List ℕ → List ℕ
take zero ids = []
take (suc n) [] = []
take (suc n) (i ∷ ids) = i ∷ take n ids

abbrev pub find_question : ℕ → List Question → Option Question
find_question id questions = find_first (λ q. q.id == id) questions

frozen_row : ℕ → ℕ → Bool → Question → AttemptQuestion
frozen_row attempt_id order preview q = record {
  attempt_id = attempt_id;
  question_id = some q.id;
  order = order;
  is_preview = preview;
  marks_snapshot = some q.marks;
  negative_marks_snapshot = some q.negative_marks;
}

-- `enumerate(qs)`; the keys of a test's questions are keys of questions.
freeze_from : ℕ → ℕ → Bool → List Question → List ℕ → List AttemptQuestion
unfolding frozen_row
freeze_from attempt_id order preview questions [] = []
freeze_from attempt_id order preview questions (id ∷ rest) =
    let later = freeze_from attempt_id (suc order) preview questions rest in
    elim (find_question id questions) [
      | none ↦ later
      | some q ↦ frozen_row attempt_id order preview q ∷ later
    ]

-- `shuffled` is what `random.shuffle` makes of the questions; `preview` is the answer of
-- `is_preview_only`. The rows that are created.
unfoldable pub freeze_attempt_questions :
    (List ℕ → List ℕ) → Bool → ℕ → Test → List Question → List AttemptQuestion
unfolding freeze_from
freeze_attempt_questions shuffled preview attempt_id test questions =
    let qs = if test.shuffle_questions then shuffled test.questions else test.questions in
    freeze_from attempt_id 0 preview questions
      (if preview then take test.free_preview_questions qs else qs)

first_verdict : List AttemptQuestion → Bool → Bool
first_verdict [] now_preview = now_preview
first_verdict (r ∷ rest) now_preview = r.is_preview

-- The verdict of the first frozen row, else the one of now.
unfoldable pub attempt_is_preview_only : ℕ → List AttemptQuestion → Bool → Bool
unfolding first_verdict
attempt_is_preview_only attempt_id rows now_preview =
    first_verdict (rows_of attempt_id rows) now_preview

unfoldable pub question_ids : List AttemptQuestion → List ℕ
question_ids [] = []
question_ids (r ∷ rest) =
    let ids = question_ids rest in elim r.question_id [ none ↦ ids | some id ↦ id ∷ ids ]

unfoldable pub attempt_preview_question_ids : ℕ → List AttemptQuestion → Test → List ℕ
unfolding question_ids
attempt_preview_question_ids attempt_id rows test =
    if nonempty (rows_of attempt_id rows)
    then question_ids (rows_of attempt_id rows)
    else take test.free_preview_questions test.questions

-- `marks_by_qid`: of two rows of a question the later one.
unfoldable pub last_row : ℕ → List AttemptQuestion → Option AttemptQuestion
last_row id [] = none
last_row id (r ∷ rest) =
    let later = last_row id rest in
    if is_some later then later else if holds_id id r.question_id then some r else none

unfoldable pub or_live : Option ℤ → ℤ → ℤ
or_live none live = live
or_live (some frozen) live = frozen

unfoldable pub worth : Option AttemptQuestion → Question → ℤ × ℤ
unfolding or_live
worth none q = (q.marks, q.negative_marks)
worth (some r) q =
    (or_live r.marks_snapshot q.marks, or_live r.negative_marks_snapshot q.negative_marks)

-- The marks and the negative marks of a question in an attempt with these frozen rows.
unfoldable pub marks_of : List AttemptQuestion → Question → ℤ × ℤ
unfolding last_row worth
marks_of rows q = worth (last_row q.id rows) q
