-- ===== src/Courses.antt =====
-- courses/access.py, and the columns of courses.models.Enrollment that it reads.
use hamromentorback.Base.{ℕ, Bool, ◌&&◌, Option, none, some, List, [], ◌∷◌, ◌==◌, select}
use hamromentorback.Time.{Time, is_unexpired}
use hamromentorback.Accounts.{User, Visitor, anonymous, signed_in}

pub data AccessType : Type 0 where
  free_access package_access : AccessType

pub record Enrollment : Type 0 where
  pub id : ℕ
  pub user_id : ℕ
  pub course_id : ℕ
  pub batch_id : Option ℕ
  pub access_type : AccessType
  pub enrolled_at : Time
  pub expires_at : Option Time
  pub is_active : Bool

-- `Enrollment.objects.filter(user=user, is_active=True)`, less what has expired.
abbrev pub is_live_enrollment : Time → User → Enrollment → Bool
is_live_enrollment now user e =
    (e.user_id == user.id) && e.is_active && is_unexpired now e.expires_at

-- `values_list('course_id', flat=True)`
abbrev pub course_ids_of : List Enrollment → List ℕ
course_ids_of [] = []
course_ids_of (e ∷ rest) = e.course_id ∷ course_ids_of rest

-- `values_list('batch_id', flat=True)` where `batch__isnull=False`
abbrev pub batch_ids_of : List Enrollment → List ℕ
batch_ids_of [] = []
batch_ids_of (e ∷ rest) =
    let ids = batch_ids_of rest in elim e.batch_id [ none ↦ ids | some b ↦ b ∷ ids ]

unfoldable pub eligible_course_ids : Time → List Enrollment → Visitor → List ℕ
eligible_course_ids now enrollments anonymous = []
eligible_course_ids now enrollments (signed_in user) =
    course_ids_of (select (is_live_enrollment now user) enrollments)

unfoldable pub eligible_batch_ids : Time → List Enrollment → Visitor → List ℕ
eligible_batch_ids now enrollments anonymous = []
eligible_batch_ids now enrollments (signed_in user) =
    batch_ids_of (select (is_live_enrollment now user) enrollments)
