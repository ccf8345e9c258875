-- ===== src/Tests/Data.antt =====
-- A student, a staff account, and a few rows of each table.
use hamromentorback.Base.{true, false, none, some, [], ◌∷◌}
use hamromentorback.Base.Int.{pos}
use hamromentorback.Time.{minutes, days}
use hamromentorback.Accounts.{User}
use hamromentorback.Courses.{AccessType, Enrollment}
use hamromentorback.Billing.Models.{ProductType, Subscription}
use hamromentorback.Billing.Access.{Subject}
use hamromentorback.FreeStarter
use hamromentorback.FreeStarter.{ResourceType, FreeStarterPolicy, FreeStarterEntitlement, Status}
use hamromentorback.Exams.Models.{
  Test, ExamType, ExamSession, SessionStatus, SolutionsVisibility, TestAttempt, AttemptStatus,
}
use hamromentorback.Entitlements.Start.{Tables}

abbrev pub student : User
student = record { id = 7; is_staff = false }

abbrev pub staff : User
staff = record { id = 1; is_staff = true }

-- A Grand Test from minute 100 to minute 280, published, with review for 30 days.
abbrev pub grand_test : Test
grand_test = record {
  id = 5;
  exam_type = ExamType.grand;
  courses = 3 ∷ [];
  assigned_students = [];
  assigned_batches = [];
  questions = 11 ∷ 12 ∷ [];
  duration_minutes = 180;
  negative_marking = true;
  shuffle_questions = false;
  max_attempts = 1;
  solutions_visibility = SolutionsVisibility.auto;
  review_duration_days = some 30;
  is_pro = true;
  access_password = [];
  free_preview_questions = 0;
  scheduled_start = some (minutes 100);
  scheduled_end = some (minutes 280);
  is_draft = false;
  needs_course_review = false;
  solutions_released_at = none;
  created_by_id = some 1;
}

abbrev pub mock_test : Test
mock_test = record grand_test {
  id = 6;
  exam_type = ExamType.mock;
  is_pro = false;
  duration_minutes = 60;
  scheduled_start = none;
  scheduled_end = none;
}

abbrev pub draft_test : Test
draft_test = record mock_test { id = 8; is_draft = true; created_by_id = some 7 }

abbrev pub session : ExamSession
session = record {
  id = 21;
  exam_version_id = 5;
  start_datetime = minutes 100;
  end_datetime = minutes 280;
  registration_deadline = some (minutes 90);
  is_private = false;
  password = [];
  max_attempts = 1;
  status = SessionStatus.scheduled;
  solutions_released_at = none;
}

abbrev pub earlier_session : ExamSession
earlier_session = record session { id = 20; start_datetime = minutes 10; end_datetime = minutes 40 }

abbrev pub enrollment : Enrollment
enrollment = record {
  id = 31;
  user_id = 7;
  course_id = 3;
  batch_id = none;
  access_type = AccessType.package_access;
  enrolled_at = 0;
  expires_at = none;
  is_active = true;
}

abbrev pub subject : Subject
subject = record { id = 41; is_free = false; courses = 3 ∷ 4 ∷ [] }

abbrev pub subscription : Subscription
subscription = record {
  id = 51;
  user_id = 7;
  plan_id = none;
  course_id = 4;
  product_type = ProductType.mock_test;
  starts_at = 0;
  expires_at = some (days 30);
  mock_test_quota = some 3;
  mock_test_used = 2;
  is_active = true;
  is_scholarship = false;
}

abbrev pub policy : FreeStarterPolicy
policy = record {
  resource_type = ResourceType.grand_test;
  quantity = 2;
  unlimited = false;
  validity_days = some 7;
  is_active = true;
}

abbrev pub free_row : FreeStarterEntitlement
free_row = record {
  id = 61;
  user_id = 7;
  resource_type = ResourceType.grand_test;
  quantity = 2;
  unlimited = false;
  used = 0;
  valid_from = 0;
  expires_at = some (days 7);
  status = Status.active;
}

abbrev pub free_db : FreeStarter.Db
free_db = record { policies = policy ∷ []; rows = free_row ∷ []; events = []; next_id = 62 }

abbrev pub empty_db : FreeStarter.Db
empty_db = record { policies = policy ∷ []; rows = []; events = []; next_id = 1 }

abbrev pub running : TestAttempt
running = record {
  id = 71;
  user_id = 7;
  test_id = 5;
  session_id = some 21;
  attempt_number = 1;
  start_time = minutes 110;
  end_time = none;
  score = pos 0;
  rank = none;
  percentile = none;
  accuracy = 0;
  status = AttemptStatus.in_progress;
  auto_submitted = false;
}

abbrev pub submitted : TestAttempt
submitted = record running {
  id = 72;
  end_time = some (minutes 200);
  status = AttemptStatus.submitted;
}

abbrev pub tables : Tables
tables = record {
  enrollments = enrollment ∷ [];
  subscriptions = subscription ∷ [];
  grand_accesses = [];
  attempts = [];
  free = free_db;
}
