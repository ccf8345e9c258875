-- ===== src/Exams/Lifecycle/Once.antt =====
-- tests_app/lifecycle.py, `finalize_attempt`: what it leaves alone, and that it works once.
use hamromentorback.Base.{
  bind-eq-some, ℕ, ◌≡◌, ◌≢◌, refl, sym, subst, ap, ◌∙◌, Bool, false, not, some, ◌==◌, inl, inr,
  Bool-cases, ==→eq, find_first_sound, find-save_own, find-save_other, update_by, if◌then◌else◌,
}
use mathlib.Core.Option.{some_inj}
use hamromentorback.Time.{Time}
use hamromentorback.Exams.Models.{Test, is_in_progress, TestAttempt}
use hamromentorback.Exams.Scoring.{score_and_rank}
use hamromentorback.Exams.Lifecycle.{
  Db, find_attempt, find_test, save_attempt, closed, commit, score_locked, finalize_locked,
  finalize_attempt,
}

-- The tables that a finalization reads and does not write.
abbrev pub SameExams : Db → Db → Type 0
SameExams a b =
    (b.tests ≡ a.tests)
    × (b.sessions ≡ a.sessions)
    × (b.attempt_questions ≡ a.attempt_questions)
    × (b.answers ≡ a.answers)
    × (b.subscriptions ≡ a.subscriptions)
    × (b.next_id ≡ a.next_id)

-- The row that is saved: the same attempt, closed.
locked_row :
    (now : Time) (auto : Bool) (locked : TestAttempt) (test : Test) (db : Db)
    → let row = (finalize_locked now auto locked test db).0 in
      (row.id ≡ locked.id) × (row.test_id ≡ locked.test_id) × (is_in_progress row.status ≡ false)
unfolding finalize_locked closed score_locked score_and_rank
locked_row now auto locked test db = (refl, refl, refl)

locked_tables :
    (now : Time) (auto : Bool) (locked : TestAttempt) (test : Test) (db : Db)
    → let out = finalize_locked now auto locked test db in
      SameExams db out.1 × (out.1.attempts ≡ save_attempt out.0 db.attempts)
unfolding finalize_locked commit
locked_tables now auto locked test db = ((refl, refl, refl, refl, refl, refl), refl)

-- A finalization that succeeds: the row was closed already and nothing changes, or it is closed now.
pub data Finalized (auto : Bool) (id : ℕ) (db : Db) (row : TestAttempt) (out : Db) : Type 0 where
  already :
      find_attempt id db.attempts ≡ some row
      → is_in_progress row.status ≡ false
      → out ≡ db
      → Finalized auto id db row out
  now_closed :
      (locked : TestAttempt)
      → find_attempt id db.attempts ≡ some locked
      → row.id ≡ id
      → row.test_id ≡ locked.test_id
      → is_in_progress row.status ≡ false
      → SameExams db out
      → out.attempts ≡ save_attempt row db.attempts
      → Finalized auto id db row out

Finalized-row :
    (now : Time) (auto : Bool) (id : ℕ) (db : Db) (locked : TestAttempt) (test : Test)
    (row : TestAttempt) (out : Db)
    → find_attempt id db.attempts ≡ some locked
    → locked.id ≡ id
    → finalize_locked now auto locked test db ≡ (row, out)
    → Finalized auto id db row out
Finalized-row now auto id db locked test row out found key h =
    let r = locked_row now auto locked test db in
    let t = locked_tables now auto locked test db in
    let e_row = ap (λ x. x.0) h in
    let e_out = ap (λ x. x.1) h in
    now_closed locked found (sym (ap (λ x. x.id) e_row) ∙ r.0 ∙ key)
      (sym (ap (λ x. x.test_id) e_row) ∙ r.1) (sym (ap (λ x. is_in_progress x.status) e_row) ∙ r.2)
      (rw e_out at t.0) (rw (e_out, e_row) at t.1)

Finalized-found :
    (now : Time) (auto : Bool) (id : ℕ) (db : Db) (locked : TestAttempt) (test : Test)
    {row : TestAttempt} {out : Db}
    → find_attempt id db.attempts ≡ some locked
    → (if not (is_in_progress locked.status)
        then (locked, db)
        else finalize_locked now auto locked test db)
      ≡ (row, out)
    → Finalized auto id db row out
Finalized-found now auto id db locked test {row} {out} found h =
    elim (Bool-cases (is_in_progress locked.status)) [
      | inl running ↦
          let key = ==→eq locked.id id (find_first_sound (λ r. r.id == id) db.attempts found) in
          Finalized-row now auto id db locked test row out found key (rw running at h)
      | inr over ↦
          let e : (locked, db) ≡ (row, out) = rw over at h in
          let e_row : locked ≡ row = ap (λ x. x.0) e in
          already (found ∙ ap some e_row) (sym (ap (λ x. is_in_progress x.status) e_row) ∙ over)
            (sym (ap (λ x. x.1) e))
    ]

pub finalize_effect :
    (now : Time) (auto : Bool) (id : ℕ) (db : Db) {row : TestAttempt} {out : Db}
    → finalize_attempt now auto id db ≡ some (row, out)
    → Finalized auto id db row out
unfolding finalize_attempt
finalize_effect now auto id db h =
    let (locked, found, h1) = bind-eq-some (find_attempt id db.attempts) _ h in
    let (test, _, h2) = bind-eq-some (find_test locked.test_id db.tests) _ h1 in
    Finalized-found now auto id db locked test found (some_inj.0 h2)

-- The closed row is the one that its key finds afterwards.
pub Finalized-found_closed :
    (auto : Bool) (id : ℕ) (db : Db) (row : TestAttempt) (out : Db)
    → Finalized auto id db row out
    → (find_attempt id out.attempts ≡ some row) × (is_in_progress row.status ≡ false)
Finalized-found_closed auto id db row out (already found over same) =
    (ap (λ d. find_attempt id d.attempts) same ∙ found, over)
Finalized-found_closed auto id db row out (now_closed locked found key _ over _ saved) =
    let own = find-save_own (λ r. r.id) id row db.attempts found key in
    let here : find_attempt id (save_attempt row db.attempts) ≡ some row =
      subst (λ k. find_attempt id (update_by (λ r. r.id == k) (λ _. row) db.attempts) ≡ some row)
        (sym key) own in
    (ap (find_attempt id) saved ∙ here, over)

-- Every other attempt is the row that it was.
pub Finalized-keeps :
    (auto : Bool) (id k : ℕ) (db : Db) (row : TestAttempt) (out : Db)
    → Finalized auto id db row out
    → k ≢ id
    → find_attempt k out.attempts ≡ find_attempt k db.attempts
Finalized-keeps auto id k db row out (already _ _ same) ne =
    ap (λ d. find_attempt k d.attempts) same
Finalized-keeps auto id k db row out (now_closed _ _ key _ _ _ saved) ne =
    ap (find_attempt k) saved
    ∙ find-save_other (λ r. r.id) row.id k row db.attempts refl (λ e. ne (sym e ∙ key))

pub Finalized-same :
    (auto : Bool) (id : ℕ) (db : Db) (row : TestAttempt) (out : Db)
    → Finalized auto id db row out
    → SameExams db out
Finalized-same auto id db row out (already _ _ same) = rw same (refl, refl, refl, refl, refl, refl)
Finalized-same auto id db row out (now_closed _ _ _ _ _ same _) = same

-- The row and its test are all that a finalization needs.
pub finalize_done :
    (now : Time) (auto : Bool) (id : ℕ) (db : Db) (a : TestAttempt) (test : Test)
    → find_attempt id db.attempts ≡ some a
    → find_test a.test_id db.tests ≡ some test
    → (row : TestAttempt) × (out : Db) × (finalize_attempt now auto id db ≡ some (row, out))
unfolding finalize_attempt
finalize_done now auto id db a test found exam =
    let out =
      if not (is_in_progress a.status) then (a, db) else finalize_locked now auto a test db in
    (out.0, out.1, simp (found, exam))

pub finalize_closed :
    (now : Time) (auto : Bool) (id : ℕ) (db : Db) (row : TestAttempt) (test : Test)
    → find_attempt id db.attempts ≡ some row
    → is_in_progress row.status ≡ false
    → find_test row.test_id db.tests ≡ some test
    → finalize_attempt now auto id db ≡ some (row, db)
unfolding finalize_attempt
finalize_closed now auto id db row test found over exam = simp (found, exam, over)

-- The test of the closed row is there.
pub exam_of_closed :
    (auto : Bool) (id : ℕ) (db : Db) (row : TestAttempt) (out : Db) (locked : TestAttempt)
    {test : Test}
    → Finalized auto id db row out
    → find_attempt id db.attempts ≡ some locked
    → find_test locked.test_id db.tests ≡ some test
    → find_test row.test_id out.tests ≡ some test
exam_of_closed auto id db row out locked (already found _ same) found' exam =
    let e : row ≡ locked = some_inj.0 (sym found ∙ found') in simp (same, e, exam)
exam_of_closed auto id db row out locked (now_closed was found _ key _ same _) found' exam =
    let e : was ≡ locked = some_inj.0 (sym found ∙ found') in simp (same.0, key, e, exam)

-- Finalizing an attempt a second time, at any later moment and whoever asks, returns the row that
-- the first call saved and changes nothing: the score, the rank and the end time are those of the
-- first call, no second set of snapshots is made and no change of statistics is enqueued again.
pub finalize_idempotent :
    (now later : Time) (auto auto' : Bool) (id : ℕ) (db : Db) {row : TestAttempt} {out : Db}
    → finalize_attempt now auto id db ≡ some (row, out)
    → finalize_attempt later auto' id out ≡ some (row, out)
unfolding finalize_attempt
finalize_idempotent now later auto auto' id db {row} {out} h =
    let (locked, found, h1) = bind-eq-some (find_attempt id db.attempts) _ h in
    let (test, exam, _) = bind-eq-some (find_test locked.test_id db.tests) _ h1 in
    let effect = finalize_effect now auto id db h in
    let closed_row = Finalized-found_closed auto id db row out effect in
    finalize_closed later auto' id out row test closed_row.0 closed_row.1
      (exam_of_closed auto id db row out locked effect found exam)

-- Finalizing one attempt leaves every other attempt, all answers, all frozen questions and all
-- tests as they are; the attempt itself is closed afterwards.
pub finalize_changes_one :
    (now : Time) (auto : Bool) (id k : ℕ) (db : Db) {row : TestAttempt} {out : Db}
    → finalize_attempt now auto id db ≡ some (row, out)
    → k ≢ id
    → (find_attempt k out.attempts ≡ find_attempt k db.attempts)
      × SameExams db out
      × (is_in_progress row.status ≡ false)
finalize_changes_one now auto id k db {row} {out} h ne =
    let effect = finalize_effect now auto id db h in
    (
      Finalized-keeps auto id k db row out effect ne,
      Finalized-same auto id db row out effect,
      (Finalized-found_closed auto id db row out effect).1,
    )
