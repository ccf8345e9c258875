-- ===== src/Exams/Access.antt =====
-- tests_app/access.py: who may know that an exam exists. The queryset form is modelled by the test
-- that its WHERE clause makes of one row.
pub mod Agreement
use hamromentorback.Base.{
  ℕ, Bool, true, false, ◌&&◌, ◌||◌, not, Option, none, some, List, holds_id, contains, intersects,
  nonempty, if◌then◌else◌,
}
use hamromentorback.Time.{Time}
use hamromentorback.Accounts.{User, Visitor, anonymous, signed_in}
use hamromentorback.Courses.{Enrollment, eligible_course_ids, eligible_batch_ids}
use hamromentorback.Exams.Models.{Test}

-- `user.is_staff or test.created_by_id == user.id`, false of an anonymous visitor
is_staff_or_creator : Visitor → Test → Bool
is_staff_or_creator anonymous test = false
is_staff_or_creator (signed_in user) test = user.is_staff || holds_id user.id test.created_by_id

-- What is left to check of a signed-in student and a published exam.
is_assigned : Time → List Enrollment → User → Test → Bool
is_assigned now enrollments user test =
    let batch_ids = eligible_batch_ids now enrollments (signed_in user) in
    let course_ids = test.courses in
    if contains user.id test.assigned_students
    then true
    else if nonempty batch_ids && intersects test.assigned_batches batch_ids
    then true
    else if nonempty course_ids
    then intersects course_ids (eligible_course_ids now enrollments (signed_in user))
    else test.needs_course_review

of_visitor : Time → List Enrollment → Visitor → Test → Bool
unfolding is_assigned
of_visitor now enrollments anonymous test = false
of_visitor now enrollments (signed_in user) test = is_assigned now enrollments user test

unfoldable pub can_access_test : Time → List Enrollment → Visitor → Test → Bool
unfolding is_staff_or_creator of_visitor
can_access_test now enrollments visitor test =
    if is_staff_or_creator visitor test
    then true
    else if test.is_draft
    then false
    else of_visitor now enrollments visitor test

is_staff_visitor : Visitor → Bool
is_staff_visitor anonymous = false
is_staff_visitor (signed_in user) = user.is_staff

-- `Q(assigned_students=user) | Q(created_by=user)`, added for a signed-in user
is_named : Visitor → Test → Bool
is_named anonymous test = false
is_named (signed_in user) test =
    contains user.id test.assigned_students || holds_id user.id test.created_by_id

-- The disjunction `allowed` of `visible_test_queryset`.
is_allowed : Time → List Enrollment → Visitor → Test → Bool
unfolding is_named
is_allowed now enrollments visitor test =
    let batch_ids = eligible_batch_ids now enrollments visitor in
    intersects test.courses (eligible_course_ids now enrollments visitor)
    || ((not (nonempty test.courses) && test.needs_course_review)
        || ((nonempty batch_ids && intersects test.assigned_batches batch_ids)
            || is_named visitor test))

unfoldable pub visible_test_queryset : Time → List Enrollment → Visitor → Test → Bool
unfolding is_staff_visitor is_allowed
visible_test_queryset now enrollments visitor test =
    if is_staff_visitor visitor
    then true
    else not test.is_draft && is_allowed now enrollments visitor test
