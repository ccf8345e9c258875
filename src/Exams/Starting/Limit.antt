-- ===== src/Exams/Starting/Limit.antt =====
-- tests_app/views.py, `_start_attempt`: the limit of attempts.
use hamromentorback.Base.{
  ℕ, suc, ◌≤◌, ◌≡◌, refl, ap, subst, true, false, ◌&&◌, Option, none, some, List, arith, inl, inr,
  Bool-cases, eq→==, leb, length, select, find_first, same_key, if-either,
}
use mathlib.Core.Option.{some_inj}
use hamromentorback.Time.{Time}
use hamromentorback.Accounts.{User}
use hamromentorback.Exams.Models.{Test, ExamSession, is_in_progress, TestAttempt}
use hamromentorback.Exams.Lifecycle.{Db, ensure_finalized_if_expired}
use hamromentorback.Base.{bind-eq-some}
use hamromentorback.Exams.Gates.{Response, started, resumed, refused, session_key, is_attempt_at}
use hamromentorback.Exams.Starting.{
  new_attempt, attempt_limit, create_attempt, begin, resume, locked_start,
}

-- How many attempts the student has had at the test in the session.
abbrev pub had : User → Test → Option ExamSession → Db → ℕ
had user test session db =
    length (select (is_attempt_at user.id test.id (session_key session)) db.attempts)

-- The new attempt is counted, within the limit, and its number is the count.
abbrev pub WithinLimit : User → Test → Option ExamSession → TestAttempt → Db → Type 0
WithinLimit user test session a out =
    (had user test session out ≤ attempt_limit test session)
    × (a.attempt_number ≡ had user test session out)

same_key_refl : (k : Option ℕ) → same_key k k ≡ true
same_key_refl none = refl
same_key_refl (some k) = eq→== k

below_limit : (limit n : ℕ) → leb limit n ≡ false → suc n ≤ limit
below_limit limit n h = ground arith

attempt_in : TestAttempt → Response → TestAttempt
attempt_in other (started a) = a
attempt_in other (resumed a) = a
attempt_in other (refused r) = other

new-within :
    (shuffled : List ℕ → List ℕ) (now : Time) (user : User) (test : Test)
    (session : Option ExamSession) (db : Db)
    → leb (attempt_limit test session) (had user test session db) ≡ false
    → let new = create_attempt shuffled now user test session (had user test session db) db in
      WithinLimit user test session new.0 new.1
unfolding create_attempt new_attempt
new-within shuffled now user test session db room =
    let fits = below_limit (attempt_limit test session) (had user test session db) room in
    simp (eq→== test.id, eq→== user.id, same_key_refl (session_key session)) (fits, refl)

-- What an answer of `begin` that is a new attempt says.
begin-within :
    (shuffled : List ℕ → List ℕ) (now : Time) (user : User) (test : Test)
    (session : Option ExamSession) (db : Db) {a : TestAttempt} {out : Db}
    → begin shuffled now user test session db ≡ (started a, out)
    → WithinLimit user test session a out
unfolding begin attempt_in
begin-within shuffled now user test session db {a} {out} h =
    let n = had user test session db in
    elim (Bool-cases (leb (attempt_limit test session) n)) [
      | inl full ↦ let no = ap (λ x. x.0) (rw full at h) in cc
      | inr room ↦
          let new = create_attempt shuffled now user test session n db in
          let pair : (started new.0, new.1) ≡ (started a, out) = rw room at h in
          let own = ap (λ x. attempt_in new.0 x.0) pair in
          let here = new-within shuffled now user test session db room in
          subst (WithinLimit user test session a) (ap (λ x. x.1) pair)
            (subst (λ b. WithinLimit user test session b new.1) own here)
    ]

resume-within :
    (shuffled : List ℕ → List ℕ) (now : Time) (user : User) (test : Test)
    (session : Option ExamSession) (o : Option TestAttempt) (db : Db) {a : TestAttempt} {out : Db}
    → resume shuffled now user test session o db ≡ some (started a, out)
    → WithinLimit user test session a out
unfolding resume
resume-within shuffled now user test session none db h =
    begin-within shuffled now user test session db (some_inj.0 h)
resume-within shuffled now user test session (some b) db h =
    let ((row, mid), _, h1) = bind-eq-some (ensure_finalized_if_expired now b db) _ h in
    elim (if-either (is_in_progress row.status) _ _ (some_inj.0 h1)) [
      | inl e ↦ let no = ap (λ x. x.0) e in cc
      | inr e ↦ begin-within shuffled now user test session mid e
    ]

-- A new attempt that a student is given is within the limit of the session, or of the test where
-- there is no session: with it, the student has had at most that many attempts there, open and
-- closed ones, and its number is how many that are.
pub started-WithinLimit :
    (shuffled : List ℕ → List ℕ) (now : Time) (user : User) (test : Test)
    (session : Option ExamSession) (db : Db) {a : TestAttempt} {out : Db}
    → locked_start shuffled now user test session db ≡ some (started a, out)
    → WithinLimit user test session a out
unfolding locked_start
started-WithinLimit shuffled now user test session db h =
    resume-within shuffled now user test session
      (find_first
        (λ r. is_attempt_at user.id test.id (session_key session) r && is_in_progress r.status)
        db.attempts)
      db h
