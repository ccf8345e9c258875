-- ===== src/Exams/Answering/Steps.antt =====
-- tests_app/views.py and tests_app/lifecycle.py: the requests on attempts and the sweep as steps of the
-- exam tables, in any order.
use hamromentorback.Base.{
  ℕ, ◌≡◌, ap, subst, Bool, true, false, Option, none, some, List, [], ◌∷◌, inl, inr, Unique,
  if-either, if◌then◌else◌,
}
use mathlib.Core.Option.{some_inj}
use hamromentorback.Time.{Time}
use hamromentorback.Accounts.{User}
use hamromentorback.Exams.Models.{is_in_progress, TestAttempt}
use hamromentorback.Exams.Frozen.{answers_of}
use hamromentorback.Exams.Lifecycle.{
  Db, find_attempt, is_expired_in, finalize_attempt, ensure_finalized_if_expired, Report, sweep_one,
  sweep_each, candidates, sweep_expired_attempts,
}
use hamromentorback.Base.{bind-eq-some}
use hamromentorback.Exams.Answering.{
  Response, not_found, unless_expired, own_attempt, attempt_detail_own, attempt_detail, AnswerData,
  answer_open, submit_answer, mark_open, mark_for_review, submit_open, submit_test,
}
use hamromentorback.Exams.Answering.Closed.{
  IsKeyed, Preserves, Preserves-refl, Preserves-trans, finalize-Preserves, ensure-Preserves,
}
use hamromentorback.Exams.Answering.Views.{
  unchanged, open-Preserves, unless_expired-Keeps, mark-Keeps, submit-Keeps, answer-Keeps,
}

detail-Preserves :
    (now : Time) (own : Option TestAttempt) (db : Db) (r : Response) (out : Db)
    → IsKeyed db
    → attempt_detail_own now own db ≡ some (r, out)
    → Preserves db out
unfolding attempt_detail_own
detail-Preserves now none db r out u h = unchanged db r not_found out u h
detail-Preserves now (some a) db r out u h =
    let ((row, mid), ensured, e) = bind-eq-some (ensure_finalized_if_expired now a db) _ h in
    subst (Preserves db) (ap (λ x. x.1) (some_inj.0 e)) (ensure-Preserves now a db u ensured)

one-Preserves :
    (now : Time) (dry : Bool) (id : ℕ) (db : Db) {out : Db}
    → IsKeyed db
    → sweep_one now dry id db ≡ some out
    → Preserves db out
unfolding sweep_one
one-Preserves now true id db u h = subst (Preserves db) (some_inj.0 h) (Preserves-refl db u)
one-Preserves now false id db u h =
    let ((row, mid), finalized, e) = bind-eq-some (finalize_attempt now true id db) _ h in
    subst (Preserves db) (some_inj.0 e) (finalize-Preserves now true id db u finalized)

each-Preserves :
    (now : Time) (dry : Bool) (l : List TestAttempt) (db : Db) {report : Report} {out : Db}
    → IsKeyed db
    → sweep_each now dry l db ≡ some (report, out)
    → Preserves db out
unfolding sweep_each
each-Preserves now dry [] db u h =
    subst (Preserves db) (ap (λ x. x.1) (some_inj.0 h)) (Preserves-refl db u)
each-Preserves now dry (c ∷ rest) db u h =
    let (expired, _, h1) = bind-eq-some (is_expired_in now c db) _ h in
    let (mid, one, h2) =
      bind-eq-some (if expired then sweep_one now dry c.id db else some db) _ h1 in
    let ((report', last), r, e) = bind-eq-some (sweep_each now dry rest mid) _ h2 in
    let first : Preserves db mid =
      elim (if-either expired (sweep_one now dry c.id db) (some db) one) [
        | inl swept ↦ one-Preserves now dry c.id db u swept
        | inr same ↦ subst (Preserves db) (some_inj.0 same) (Preserves-refl db u)
      ] in
    let all = Preserves-trans db mid last first (each-Preserves now dry rest mid first.unique r) in
    subst (Preserves db) (ap (λ x. x.1) (some_inj.0 e)) all

-- One request on an attempt, of any student at any time, or one sweep, that ends without an
-- exception.
pub data Step (db out : Db) : Type 0 where
  detail :
      (now : Time) (user : User) (id : ℕ) (r : Response)
      → attempt_detail now user id db ≡ some (r, out)
      → Step db out
  answer :
      (now : Time) (user : User) (id : ℕ) (data_in : AnswerData) (r : Response)
      → submit_answer now user id data_in db ≡ some (r, out)
      → Step db out
  mark :
      (now : Time) (user : User) (id : ℕ) (question_id : Option ℕ) (marked : Bool) (r : Response)
      → mark_for_review now user id question_id marked db ≡ some (r, out)
      → Step db out
  submit :
      (now : Time) (user : User) (id : ℕ) (r : Response)
      → submit_test now user id db ≡ some (r, out)
      → Step db out
  sweep :
      (now : Time) (dry_run : Bool) (report : Report)
      → sweep_expired_attempts now dry_run db ≡ some (report, out)
      → Step db out

-- Steps one after the other.
pub data Reach (db : Db) : Db → Type 0 where
  done : Reach db db
  then_step : (mid out : Db) → Reach db mid → Step mid out → Reach db out

step-Preserves : (db out : Db) → IsKeyed db → Step db out → Preserves db out
unfolding attempt_detail submit_answer mark_for_review submit_test sweep_expired_attempts
step-Preserves db out u (detail now user id r h) =
    detail-Preserves now (own_attempt id user db.attempts) db r out u h
step-Preserves db out u (answer now user id data_in r h) =
    open-Preserves (unless_expired now (answer_open now user data_in)) id user db r out
      (unless_expired-Keeps now (answer_open now user data_in) (answer-Keeps now user data_in)) u h
step-Preserves db out u (mark now user id question_id marked r h) =
    open-Preserves (unless_expired now (mark_open question_id marked)) id user db r out
      (unless_expired-Keeps now (mark_open question_id marked) (mark-Keeps question_id marked)) u h
step-Preserves db out u (submit now user id r h) =
    open-Preserves (submit_open now user) id user db r out (submit-Keeps now user) u h
step-Preserves db out u (sweep now dry_run report h) =
    each-Preserves now dry_run (candidates db) db u h

Reach-Preserves : (db out : Db) → IsKeyed db → Reach db out → Preserves db out
Reach-Preserves db _ u done = Preserves-refl db u
Reach-Preserves db _ u (then_step mid out before step) =
    let p = Reach-Preserves db mid u before in
    Preserves-trans db mid out p (step-Preserves mid out p.unique step)

-- Once an attempt is closed, no sequence of requests to see an attempt, answer a question, mark a
-- question or submit, by any students at any times, with sweeps in between, changes its row (its
-- score, rank and end time) or its answers. The rows of attempts have different keys.
pub closed_forever :
    (db out : Db) (k : ℕ) (a : TestAttempt)
    → Unique (λ r. r.id) db.attempts
    → Reach db out
    → find_attempt k db.attempts ≡ some a
    → is_in_progress a.status ≡ false
    → (find_attempt k out.attempts ≡ some a) × (answers_of k out.answers ≡ answers_of k db.answers)
closed_forever db out k a u steps found over =
    (Reach-Preserves db out u steps).closed_kept k a found over
