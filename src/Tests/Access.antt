-- ===== src/Tests/Access.antt =====
-- Who may see an exam, and what has been paid for.
use hamromentorback.Base.{◌≡◌, ◌||◌, List, refl, true, [], ◌∷◌, All, arith, intersects}
use hamromentorback.Time.{days}
use hamromentorback.Accounts.{signed_in}
use hamromentorback.Courses.{eligible_course_ids}
use hamromentorback.Exams.Access.{can_access_test, visible_test_queryset}
use hamromentorback.Exams.Access.Agreement.{visible-eq-can_access}
use hamromentorback.Billing.Models.{ProductType}
use hamromentorback.Billing.Access.{has_qbank_access, active_qbank_course_ids, consume_quota}
use hamromentorback.Billing.Access.Quota.{WithinQuota}
use hamromentorback.Billing.Access.Overlaps.{QuotaStep, reads, writes, quota_steps}
use hamromentorback.Billing.Access.Overlaps.Bound.{quota_steps-WithinQuota}
use hamromentorback.Billing.Access.Questions.{has_qbank_access-eq-batched}
use hamromentorback.Tests.Data.{student, mock_test, enrollment, subject, subscription}

enrolled_student_sees :
    visible_test_queryset 0 (enrollment ∷ []) (signed_in student) mock_test ≡ true
unfolding visible_test_queryset eligible_course_ids
enrolled_student_sees = refl

visible-eq-can_access_example :
    visible_test_queryset 0 (enrollment ∷ []) (signed_in student) mock_test
    ≡ can_access_test 0 (enrollment ∷ []) (signed_in student) mock_test
visible-eq-can_access_example = visible-eq-can_access 0 (enrollment ∷ []) student mock_test refl

has_qbank_access-eq-batched_example :
    has_qbank_access 0 (subscription ∷ []) (signed_in student) subject
    ≡ subject.is_free
      || intersects subject.courses
          (active_qbank_course_ids 0 (subscription ∷ []) (signed_in student))
has_qbank_access-eq-batched_example =
    has_qbank_access-eq-batched 0 (subscription ∷ []) (signed_in student) subject

-- Two calls that both do their query before either saves.
abbrev overlapping : List QuotaStep
overlapping =
    reads (days 1) (signed_in student) ProductType.mock_test
    ∷ reads (days 1) (signed_in student) ProductType.mock_test
    ∷ writes 1
    ∷ writes 0
    ∷ []

quota_steps-WithinQuota_example :
    All WithinQuota
      (quota_steps overlapping
        (record { subscriptions = subscription ∷ []; read = [] })).subscriptions
quota_steps-WithinQuota_example =
    quota_steps-WithinQuota overlapping (subscription ∷ []) (tt, tt) (omega arith, tt)

-- Two of three uses are counted. Both calls find a use that is left, and both save the third.
lost_use :
    (quota_steps overlapping
      (record { subscriptions = subscription ∷ []; read = [] })).subscriptions
    ≡ record subscription { mock_test_used = 3 } ∷ []
unfolding quota_steps hamromentorback.Billing.Access.quota_subscription
    hamromentorback.Billing.Access.consume_from
lost_use = refl
