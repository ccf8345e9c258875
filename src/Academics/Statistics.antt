-- ===== src/Academics/Statistics.antt =====
-- academics/services.py: one vote per student and question, the mastery of a question by a student,
-- and the counters of questions and options that a batch of changes moves later. Percentages are
-- compared and rounded as fractions, where the source has floats.
pub mod Votes
use hamromentorback.Base.{
  ◌>>=◌, ℕ, zero, suc, ◌+◌, ◌*◌, Bool, true, false, ◌&&◌, ◌||◌, not, Option, none, some, List, [],
  ◌∷◌, ◌==◌, leb, is_some, same_key, if◌then◌else◌, find_first, update_by,
}
use hamromentorback.Base.Int.{ℤ, pos, negsuc, ◌+ℤ◌}
use hamromentorback.Base.Ratio.{rounded}
use hamromentorback.Time.{Time, days}
use hamromentorback.Academics.Models.{
  Question, Choice, MasteryStatus, new, learning, need_practice, weak, mastered, Confidence,
  QuestionAttempt, Source, QuestionEvent, QuestionBankConfig, Db,
}

-- `accuracy >= pct` and `accuracy <= pct`, where accuracy is `correct / attempts * 100`
unfoldable pub compute_mastery_status : ℕ → ℕ → QuestionBankConfig → MasteryStatus
compute_mastery_status attempts correct config =
    if attempts == 0
    then new
    else if leb 2 attempts && leb (config.mastered_min_pct * attempts) (100 * correct)
    then mastered
    else if leb (100 * correct) (config.weak_max_pct * attempts)
    then weak
    else if attempts == 1
    then learning
    else need_practice

-- What one answer changes in the counters of a question and its options.
pub record Delta : Type 0 where
  pub question_id : ℕ
  pub total_delta : ℤ
  pub correct_delta : ℤ
  pub option_deltas : List (ℕ × ℤ)

pub record Result : Type 0 where
  pub user_id : ℕ
  pub question_id : ℕ
  pub is_correct : Bool
  pub source : Source
  pub selected_option : Option ℕ
  pub time_taken_seconds : Option ℕ
  pub confidence : Option Confidence

abbrev pub is_attempt : ℕ → ℕ → QuestionAttempt → Bool
is_attempt user_id question_id a = (a.user_id == user_id) && (a.question_id == question_id)

-- The row that `create(user=user, question=question)` makes.
unfoldable pub new_attempt : ℕ → ℕ → QuestionAttempt
new_attempt user_id question_id = record {
  user_id = user_id;
  question_id = question_id;
  selected_option = none;
  is_correct = false;
  attempts_count = 0;
  correct_count = 0;
  incorrect_count = 0;
  last_result = none;
  mastery_status = new;
  revision_due_at = none;
  confidence = none;
}

first_some : {A : Type 0} → Option A → Option A → Option A
first_some none b = b
first_some (some a) b = some a

-- The saved row.
unfoldable pub answered : Time → QuestionBankConfig → Result → QuestionAttempt → QuestionAttempt
unfolding first_some
answered now config r a =
    let correct = if r.is_correct then suc a.correct_count else a.correct_count in
    record a {
      attempts_count = suc a.attempts_count;
      correct_count = correct;
      incorrect_count = if r.is_correct then a.incorrect_count else suc a.incorrect_count;
      is_correct = r.is_correct;
      last_result = some r.is_correct;
      selected_option = first_some r.selected_option a.selected_option;
      confidence = first_some r.confidence a.confidence;
      mastery_status = compute_mastery_status (suc a.attempts_count) correct config;
      revision_due_at = some (
          now
          + days (
              if r.is_correct
              then config.revision_interval_correct_days
              else config.revision_interval_incorrect_days));
    }

-- A vote that moves from a right to a wrong option, or back.
moved_correct : Bool → Bool → ℤ
moved_correct true false = negsuc 0
moved_correct false true = pos 1
moved_correct _ _ = pos 0

delta_of : ℕ → Option ℕ → Bool → Result → Delta
unfolding moved_correct
delta_of chosen (some previous) was_correct r = record {
  question_id = r.question_id;
  total_delta = pos 0;
  correct_delta = moved_correct was_correct r.is_correct;
  option_deltas = (chosen, pos 1) ∷ (previous, negsuc 0) ∷ [];
}
delta_of chosen none was_correct r = record {
  question_id = r.question_id;
  total_delta = pos 1;
  correct_delta = if r.is_correct then pos 1 else pos 0;
  option_deltas = (chosen, pos 1) ∷ [];
}

-- `selected_option is not None and selected_option.id != previous_option_id`
delta_for : Option ℕ → Option ℕ → Bool → Result → Option Delta
unfolding delta_of
delta_for none previous was_correct r = none
delta_for (some chosen) previous was_correct r =
    if same_key (some chosen) previous then none else some (delta_of chosen previous was_correct r)

-- The change in the counters, from the row before the answer.
unfoldable pub vote_delta : Result → QuestionAttempt → Option Delta
unfolding delta_for
vote_delta r before = delta_for r.selected_option before.selected_option before.is_correct r

log_event : Result → List QuestionEvent → List QuestionEvent
log_event r events =
    record {
      user_id = r.user_id;
      question_id = r.question_id;
      is_correct = r.is_correct;
      source = r.source;
      time_taken_seconds = r.time_taken_seconds;
    }
    ∷ events

-- The student's row is locked where it is there, else it is created.
record_on : Time → Result → Option QuestionAttempt → Db → Option Delta × Db
unfolding log_event
record_on now r (some a) db = (
  vote_delta r a,
  record db {
    attempts =
        update_by (is_attempt r.user_id r.question_id) (λ _. answered now db.config r a)
          db.attempts;
    events = log_event r db.events;
  },
)
record_on now r none db =
    let a = new_attempt r.user_id r.question_id in
    (
      vote_delta r a,
      record db {
        attempts = answered now db.config r a ∷ db.attempts;
        events = log_event r db.events;
      },
    )

-- With `defer_stats=True`: the change in the counters is returned, not applied.
unfoldable pub record_question_result : Time → Result → Db → Option Delta × Db
unfolding record_on
record_question_result now r db =
    record_on now r (find_first (is_attempt r.user_id r.question_id) db.attempts) db

-- `F('…') + delta` on a column that holds no negative number: the database raises below 0.
non_negative : ℤ → Option ℕ
non_negative (pos n) = some n
non_negative (negsuc n) = none

unfoldable pub shifted : ℕ → ℤ → Option ℕ
unfolding non_negative
shifted n delta = non_negative (pos n +ℤ delta)

-- The two counters of the question: `update(…)`, where one of the changes is not zero; a change of
-- zero leaves the column as it is.
shift_question : Delta → Question → Option Question
shift_question d q = do
  total ← shifted q.total_attempts d.total_delta
  correct ← shifted q.correct_attempts d.correct_delta
  some (record q { total_attempts = total; correct_attempts = correct })

-- `filter(pk=option_id).update(pick_count=F('pick_count') + delta)`
shift_option : ℕ → ℤ → List Choice → Option (List Choice)
shift_option id delta [] = some []
shift_option id delta (c ∷ rest) = do
  rest' ← shift_option id delta rest
  count ← if c.id == id then shifted c.pick_count delta else some c.pick_count
  some (record c { pick_count = count } ∷ rest')

unfoldable pub shift_options : List (ℕ × ℤ) → List Choice → Option (List Choice)
unfolding shift_option
shift_options [] options = some options
shift_options ((id, delta) ∷ rest) options = shift_option id delta options >>= shift_options rest

-- `round(pick_count / total_attempts * 100) if total_attempts else 0`
unfoldable pub pick_percentage : ℕ → ℕ → ℕ
pick_percentage picks total = if total == 0 then 0 else rounded (100 * picks) total

refresh_percentages : ℕ → ℕ → List Choice → List Choice
unfolding pick_percentage
refresh_percentages question_id total options =
    update_by (λ c. c.question_id == question_id)
      (λ c. record c { pick_percentage = pick_percentage c.pick_count total }) options

-- `get(pk=question_id)` raises where the question is gone.
unfoldable pub apply_question_stat_delta : Delta → Db → Option Db
unfolding shift_question refresh_percentages
apply_question_stat_delta d db = do
  q ← find_first (λ r. r.id == d.question_id) db.questions
  q' ← shift_question d q
  options ← shift_options d.option_deltas db.options
  some (record db {
    questions = update_by (λ r. r.id == d.question_id) (λ _. q') db.questions;
    options = refresh_percentages d.question_id q'.total_attempts options;
  })

-- `defer_stats=False`, as a practice answer calls it: the change is applied in the same transaction.
apply_now : Option Delta × Db → Option Db
apply_now (none, db) = some db
apply_now (some d, db) = apply_question_stat_delta d db

unfoldable pub record_and_apply : Time → Result → Db → Option Db
unfolding apply_now
record_and_apply now r db = apply_now (record_question_result now r db)
