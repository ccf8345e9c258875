-- ===== src/Billing/Activation/Membership.antt =====
-- billing/payment_service.py, `_ensure_enrollment`, against courses/access.py: whether a student who
-- has paid sees the course.
use hamromentorback.Base.{
  ℕ, ◌≡◌, refl, Bool, true, ◌&&◌, ◌||◌, not, List, [], ◌∷◌, ◌==◌, any, contains, select, update_by,
  arith, Bool-cases, inl, inr,
}
use hamromentorback.Time.{Time, is_unexpired}
use hamromentorback.Accounts.{User, signed_in}
use hamromentorback.Courses.{
  Enrollment, package_access, is_live_enrollment, course_ids_of, eligible_course_ids,
}
use hamromentorback.Billing.Orders.{Db}
use hamromentorback.Billing.Activation.{is_membership, ensure_enrollment}

-- A live row of the course.
abbrev shows : Time → User → ℕ → Enrollment → Bool
shows now user course e = is_live_enrollment now user e && (e.course_id == course)

contains-live :
    (now : Time) (user : User) (course : ℕ) (l : List Enrollment)
    → contains course (course_ids_of (select (is_live_enrollment now user) l))
      ≡ any (shows now user course) l
contains-live now user course [] = refl
contains-live now user course (e ∷ l) = let rest = contains-live now user course l in ground arith

abbrev reactivate : Enrollment → Enrollment
reactivate e = record e { access_type = package_access; is_active = true }

abbrev is_running : Time → ℕ → ℕ → Enrollment → Bool
is_running now user_id course e = is_membership user_id course e && is_unexpired now e.expires_at

any-reactivate :
    (now : Time) (user : User) (course : ℕ) (l : List Enrollment)
    → any (shows now user course) (update_by (is_membership user.id course) reactivate l)
      ≡ any (is_running now user.id course) l
any-reactivate now user course [] = refl
any-reactivate now user course (e ∷ l) = let rest = any-reactivate now user course l in ground arith

-- After the membership that a purchase ensures, the student sees the course exactly where no
-- membership of the course existed before, or one exists that has not expired. So a student whose
-- membership has expired pays and does not see the course: its expiry is not written.
pub paid_course_visible :
    (now : Time) (user : User) (course : ℕ) (db : Db)
    → contains course (
        eligible_course_ids now
          (ensure_enrollment now user.id course db).memberships
          (signed_in user))
      ≡ (not (any (is_membership user.id course) db.memberships)
          || any (is_running now user.id course) db.memberships)
unfolding ensure_enrollment eligible_course_ids
paid_course_visible now user course db =
    elim (Bool-cases (any (is_membership user.id course) db.memberships)) [
      | inl member ↦
          rw
            (
              member,
              contains-live now user course
                  (update_by (is_membership user.id course) reactivate db.memberships),
            )
            (any-reactivate now user course db.memberships)
      | inr stranger ↦ ground arith
    ]
