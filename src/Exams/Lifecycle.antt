-- ===== src/Exams/Lifecycle.antt =====
-- tests_app/lifecycle.py from `finalize_attempt` to the end: an attempt is scored and closed once,
-- by the student, by a request that finds it expired, or by the sweep. `none` stands for an
-- exception, after which the transaction is rolled back.
pub mod Once
pub mod Sweep
pub mod Dry
use hamromentorback.Base.{
  ℕ, suc, Bool, true, false, ◌&&◌, not, Option, none, some, List, [], ◌∷◌, ◌++◌, ◌==◌,
  if◌then◌else◌, find_first, select, update_by, length, sorted_by,
}
use hamromentorback.Time.{Time}
use hamromentorback.Billing.Models.{Subscription}
use hamromentorback.Academics.Models as Bank
use hamromentorback.Academics.Statistics.{Delta}
use hamromentorback.Base.{◌>>=◌}
use hamromentorback.Exams.Models.{Test, ExamSession, AttemptStatus, is_in_progress, TestAttempt}
use hamromentorback.Exams.Schedule.{is_attempt_expired}
use hamromentorback.Exams.Frozen.{AttemptQuestion, Answer}
use hamromentorback.Exams.Scoring.{
  Tally, score_and_rank, QuestionSnapshot, create_question_snapshots,
}

-- The tables of exams; `tasks` are the changes of statistics that were enqueued, by attempt.
pub record Db : Type 0 where
  pub tests : List Test
  pub sessions : List ExamSession
  pub attempts : List TestAttempt
  pub attempt_questions : List AttemptQuestion
  pub answers : List Answer
  pub snapshots : List QuestionSnapshot
  pub subscriptions : List Subscription
  pub tasks : List (ℕ × List Delta)
  pub bank : Bank.Db
  pub next_id : ℕ

abbrev pub find_attempt : ℕ → List TestAttempt → Option TestAttempt
find_attempt id l = find_first (λ a. a.id == id) l

abbrev pub find_test : ℕ → List Test → Option Test
find_test id l = find_first (λ t. t.id == id) l

-- `attempt.session`
abbrev pub session_of : Option ℕ → List ExamSession → Option ExamSession
session_of none l = none
session_of (some id) l = find_first (λ s. s.id == id) l

abbrev pub save_attempt : TestAttempt → List TestAttempt → List TestAttempt
save_attempt a l = update_by (λ r. r.id == a.id) (λ _. a) l

-- `if stat_deltas: …on_commit(…)`
enqueue : ℕ → List Delta → List (ℕ × List Delta) → List (ℕ × List Delta)
enqueue id [] tasks = tasks
enqueue id (d ∷ rest) tasks = tasks ++ ((id, d ∷ rest) ∷ [])

-- The row of an attempt that is scored and closed.
closed : Bool → TestAttempt × Tally → TestAttempt
closed auto (row, tally) = record row { auto_submitted = auto }

commit : Test → TestAttempt → Tally → Db → Db
unfolding enqueue
commit test row tally db = record db {
  attempts = save_attempt row db.attempts;
  snapshots =
      db.snapshots
      ++ create_question_snapshots db.attempt_questions db.answers test tally.bank.questions row;
  bank = tally.bank;
  tasks = enqueue row.id tally.deltas db.tasks;
}

score_locked : Time → Bool → TestAttempt → Test → Db → TestAttempt × Tally
score_locked now auto locked test db =
    score_and_rank now test.negative_marking db.attempt_questions db.answers db.attempts db.bank
      locked

finalize_locked : Time → Bool → TestAttempt → Test → Db → TestAttempt × Db
unfolding closed commit score_locked
finalize_locked now auto locked test db =
    let result = score_locked now auto locked test db in
    let row = closed auto result in (row, commit test row result.1 db)

-- The row as it is after the call, and the tables.
unfoldable pub finalize_attempt : Time → Bool → ℕ → Db → Option (TestAttempt × Db)
unfolding finalize_locked
finalize_attempt now auto id db = do
  locked ← find_attempt id db.attempts
  test ← find_test locked.test_id db.tests
  some (
      if not (is_in_progress locked.status)
      then (locked, db)
      else finalize_locked now auto locked test db)

-- Whether an attempt is expired, with its test and its session.
unfoldable pub is_expired_in : Time → TestAttempt → Db → Option Bool
is_expired_in now a db = do
  test ← find_test a.test_id db.tests
  some (is_attempt_expired now a.status a.start_time test (session_of a.session_id db.sessions))

unfoldable pub ensure_finalized_if_expired : Time → TestAttempt → Db → Option (TestAttempt × Db)
ensure_finalized_if_expired now a db = do
  expired ← is_expired_in now a db
  if expired then finalize_attempt now true a.id db else some (a, db)

-- What the sweep reports.
pub record Report : Type 0 where
  pub checked : ℕ
  pub finalized_ids : List ℕ

-- An expired candidate; in a dry run it is only reported.
unfoldable pub sweep_one : Time → Bool → ℕ → Db → Option Db
sweep_one now dry_run id db =
    if dry_run then some db else (do (row, db') ← finalize_attempt now true id db; some db')

-- The candidates are the rows of the query, the attempts that are finalized those of now.
unfoldable pub sweep_each : Time → Bool → List TestAttempt → Db → Option (Report × Db)
unfolding sweep_one
sweep_each now dry_run [] db = some (record { checked = 0; finalized_ids = [] }, db)
sweep_each now dry_run (a ∷ rest) db = do
  expired ← is_expired_in now a db
  db' ← if expired then sweep_one now dry_run a.id db else some db
  (report, db'') ← sweep_each now dry_run rest db'
  some (
    record {
      checked = suc report.checked;
      finalized_ids = if expired then a.id ∷ report.finalized_ids else report.finalized_ids;
    },
    db'',
  )

-- `filter(status='in_progress').order_by('id')`
abbrev pub candidates : Db → List TestAttempt
candidates db = sorted_by (λ a. a.id) (select (λ a. is_in_progress a.status) db.attempts)

unfoldable pub sweep_expired_attempts : Time → Bool → Db → Option (Report × Db)
sweep_expired_attempts now dry_run db = sweep_each now dry_run (candidates db) db
