-- ===== src/Exams/Access/Agreement.antt =====
-- `can_access_test` and `visible_test_queryset` of tests_app/access.py side by side.
use hamromentorback.Base.{
  ◌≡◌, ◌↔◌, true, false, ◌&&◌, not, List, holds_id, nonempty, intersects-nil, arith,
}
use hamromentorback.Time.{Time}
use hamromentorback.Accounts.{User, anonymous, signed_in}
use hamromentorback.Courses.{Enrollment, eligible_course_ids, eligible_batch_ids}
use hamromentorback.Exams.Models.{Test}
use hamromentorback.Exams.Access.{can_access_test, visible_test_queryset}

-- For a signed-in user the list and the object check agree on every exam but one kind: the user's
-- own draft, which the list leaves out for a creator who is not staff.
pub visible-eq-can_access :
    (now : Time) (enrollments : List Enrollment) (user : User) (test : Test)
    → (test.is_draft && holds_id user.id test.created_by_id && not user.is_staff) ≡ false
    → visible_test_queryset now enrollments (signed_in user) test
      ≡ can_access_test now enrollments (signed_in user) test
unfolding can_access_test visible_test_queryset
visible-eq-can_access now enrollments user test h = ground arith

-- On that kind they differ.
pub own_draft_hidden :
    (now : Time) (enrollments : List Enrollment) (user : User) (test : Test)
    → (test.is_draft && holds_id user.id test.created_by_id && not user.is_staff) ≡ true
    → (can_access_test now enrollments (signed_in user) test ≡ true)
      × (visible_test_queryset now enrollments (signed_in user) test ≡ false)
unfolding can_access_test visible_test_queryset
own_draft_hidden now enrollments user test h = ground arith

-- For an anonymous visitor they differ exactly on published legacy exams without courses, which the
-- list shows and the object check denies.
pub anonymous_visible_iff :
    (now : Time) (enrollments : List Enrollment) (test : Test)
    → (can_access_test now enrollments anonymous test ≡ false)
      × ((visible_test_queryset now enrollments anonymous test ≡ true) ↔ (
          (test.is_draft ≡ false)
          × (nonempty test.courses ≡ false)
          × (test.needs_course_review ≡ true)))
unfolding can_access_test visible_test_queryset eligible_course_ids eligible_batch_ids
anonymous_visible_iff now enrollments test = ground (arith, intersects-nil test.courses)

-- A student who is neither staff nor the creator reaches an exam only if it is published.
pub can_access_published :
    (now : Time) (enrollments : List Enrollment) (user : User) (test : Test)
    → user.is_staff ≡ false
    → holds_id user.id test.created_by_id ≡ false
    → can_access_test now enrollments (signed_in user) test ≡ true
    → (test.is_draft ≡ false)
unfolding can_access_test
can_access_published now enrollments user test s c h = ground arith
