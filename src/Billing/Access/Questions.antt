-- ===== src/Billing/Access/Questions.antt =====
-- Question bank access of one subject, and of all subjects at once: `has_qbank_access` and
-- `active_qbank_course_ids`.
use hamromentorback.Base.{
  ℕ, ◌≡◌, refl, sym, none, ◌||◌, List, [], ◌∷◌, arith, any, contains, intersects, intersects-nil,
}
use hamromentorback.Time.{Time}
use hamromentorback.Accounts.{Visitor, anonymous, signed_in}
use hamromentorback.Billing.Models.{ProductType, Subscription}
use hamromentorback.Billing.Access.{
  Subject, has_qbank_access, active_qbank_course_ids, subscribed_courses, active_subscriptions,
}

contains-intersects :
    (i : ℕ) (js courses : List ℕ)
    → intersects courses (i ∷ js) ≡ contains i courses || intersects courses js
contains-intersects i js [] = refl
contains-intersects i js (c ∷ courses) = ground (arith, contains-intersects i js courses)

any-eq-intersects :
    (subs : List Subscription) (courses : List ℕ)
    → any (λ sub. contains sub.course_id courses) subs
      ≡ intersects courses (subscribed_courses subs)
any-eq-intersects [] courses = sym (intersects-nil courses)
any-eq-intersects (sub ∷ rest) courses = ground (
  arith,
  any-eq-intersects rest courses,
  contains-intersects sub.course_id (subscribed_courses rest) courses,
)

-- The batched query gives the same answer as the check of each subject: a subject is open exactly
-- if it is free, or if one of its courses is among the subscribed ones.
pub has_qbank_access-eq-batched :
    (now : Time) (subs : List Subscription) (visitor : Visitor) (subject : Subject)
    → has_qbank_access now subs visitor subject
      ≡ subject.is_free || intersects subject.courses (active_qbank_course_ids now subs visitor)
unfolding has_qbank_access active_qbank_course_ids
has_qbank_access-eq-batched now subs anonymous subject =
    ground (arith, intersects-nil subject.courses)
has_qbank_access-eq-batched now subs (signed_in user) subject = ground (
  arith,
  any-eq-intersects (active_subscriptions now subs user ProductType.qbank none) subject.courses,
)
