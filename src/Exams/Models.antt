-- ===== src/Exams/Models.antt =====
-- tests_app/models.py: the rows of the exam tables, with the columns that the modelled code reads
-- or writes. A foreign key is the key's number; `is_private` is `access_type == 'private'`; marks are in hundredths of a mark.
use hamromentorback.Base.{ℕ, Bool, true, false, Option, List}
use hamromentorback.Base.Int.{ℤ}
use hamromentorback.Texts.{Text}
use hamromentorback.Time.{Time}

pub data ExamType : Type 0 where
  qbank daily mock grand pyq : ExamType

pub data SolutionsVisibility : Type 0 where
  auto manual : SolutionsVisibility

pub record Test : Type 0 where
  pub id : ℕ
  pub exam_type : ExamType
  pub courses : List ℕ
  pub assigned_students : List ℕ
  pub assigned_batches : List ℕ
  pub questions : List ℕ
  pub duration_minutes : ℕ
  pub negative_marking : Bool
  pub shuffle_questions : Bool
  pub max_attempts : ℕ
  pub solutions_visibility : SolutionsVisibility
  pub review_duration_days : Option ℕ
  pub is_pro : Bool
  pub access_password : Text
  pub free_preview_questions : ℕ
  pub scheduled_start : Option Time
  pub scheduled_end : Option Time
  pub is_draft : Bool
  pub needs_course_review : Bool
  pub solutions_released_at : Option Time
  pub created_by_id : Option ℕ

pub data SessionStatus : Type 0 where
  draft scheduled registration_open live completed cancelled : SessionStatus

pub record ExamSession : Type 0 where
  pub id : ℕ
  pub exam_version_id : ℕ
  pub start_datetime : Time
  pub end_datetime : Time
  pub registration_deadline : Option Time
  pub is_private : Bool
  pub password : Text
  pub max_attempts : ℕ
  pub status : SessionStatus
  pub solutions_released_at : Option Time

pub data AttemptStatus : Type 0 where
  in_progress submitted : AttemptStatus

-- Score in hundredths of a mark; accuracy and percentile in hundredths of a percent.
pub record TestAttempt : Type 0 where
  pub id : ℕ
  pub user_id : ℕ
  pub test_id : ℕ
  pub session_id : Option ℕ
  pub attempt_number : ℕ
  pub start_time : Time
  pub end_time : Option Time
  pub score : ℤ
  pub rank : Option ℕ
  pub percentile : Option ℕ
  pub accuracy : ℕ
  pub status : AttemptStatus
  pub auto_submitted : Bool

abbrev pub is_in_progress : AttemptStatus → Bool
is_in_progress in_progress = true
is_in_progress submitted = false

abbrev pub is_submitted : AttemptStatus → Bool
is_submitted in_progress = false
is_submitted submitted = true

abbrev pub is_grand : ExamType → Bool
is_grand grand = true
is_grand _ = false

abbrev pub is_daily : ExamType → Bool
is_daily daily = true
is_daily _ = false

abbrev pub is_cancelled : SessionStatus → Bool
is_cancelled cancelled = true
is_cancelled _ = false
