-- ===== src/Academics/Models.antt =====
-- academics/models.py: questions, options, and the answers of students, with the columns that
-- scoring and the statistics read or write. Marks are in hundredths of a mark.
use hamromentorback.Base.{ℕ, Bool, Option, List}
use hamromentorback.Base.Int.{ℤ}
use hamromentorback.Time.{Time}

pub record Question : Type 0 where
  pub id : ℕ
  pub marks : ℤ
  pub negative_marks : ℤ
  pub total_attempts : ℕ
  pub correct_attempts : ℕ

-- The model `Option`, whose name a type of the library has.
pub record Choice : Type 0 where
  pub id : ℕ
  pub question_id : ℕ
  pub is_correct : Bool
  pub pick_count : ℕ
  pub pick_percentage : ℕ

pub data MasteryStatus : Type 0 where
  new learning need_practice weak mastered : MasteryStatus

pub data Confidence : Type 0 where
  guess unsure confident : Confidence

pub record QuestionAttempt : Type 0 where
  pub user_id : ℕ
  pub question_id : ℕ
  pub selected_option : Option ℕ
  pub is_correct : Bool
  pub attempts_count : ℕ
  pub correct_count : ℕ
  pub incorrect_count : ℕ
  pub last_result : Option Bool
  pub mastery_status : MasteryStatus
  pub revision_due_at : Option Time
  pub confidence : Option Confidence

pub data Source : Type 0 where
  from_qbank from_test from_smart : Source

pub record QuestionEvent : Type 0 where
  pub user_id : ℕ
  pub question_id : ℕ
  pub is_correct : Bool
  pub source : Source
  pub time_taken_seconds : Option ℕ

pub record QuestionBankConfig : Type 0 where
  pub mastered_min_pct : ℕ
  pub weak_max_pct : ℕ
  pub revision_interval_correct_days : ℕ
  pub revision_interval_incorrect_days : ℕ

pub record Db : Type 0 where
  pub questions : List Question
  pub options : List Choice
  pub attempts : List QuestionAttempt
  pub events : List QuestionEvent
  pub config : QuestionBankConfig
