-- ===== src/Exams/Lifecycle/Sweep.antt =====
-- tests_app/lifecycle.py, `sweep_expired_attempts`: what a sweep leaves behind.
use hamromentorback.Base.{
  ℕ, ◌≡◌, ◌≢◌, refl, sym, ap, ◌∙◌, Bool, true, false, Option, some, List, [], ◌∷◌, suc, ◌⊎◌,
  All-both, ◌==◌, arith, inl, inr, Bool-cases, ==→eq, ==→neq, find_first_sound, All, All-map,
  All-select, All-selected, All-found, All-sorted_by, All_of_sorted, select, if◌then◌else◌,
}
use mathlib.Core.Option.{some_inj}
use hamromentorback.Time.{Time}
use hamromentorback.Exams.Models.{Test, is_in_progress, TestAttempt}
use hamromentorback.Exams.Schedule.{is_attempt_expired}
use hamromentorback.Exams.Lifecycle.{
  Db, find_attempt, find_test, session_of, finalize_attempt, is_expired_in, sweep_one, Report,
  sweep_each, candidates, sweep_expired_attempts,
}
use hamromentorback.Exams.Lifecycle.Once.{
  SameExams, finalize_effect, Finalized-found_closed, Finalized-keeps, Finalized-same,
  exam_of_closed, finalize_done,
}
use hamromentorback.Base.{bind-eq-some}

abbrev HasTest : Db → TestAttempt → Type 0
HasTest db a = (t : Test) × (find_test a.test_id db.tests ≡ some t)

-- The test of a candidate is there, and so are its row and the test of that.
abbrev Ready : Db → TestAttempt → Type 0
Ready db c =
    HasTest db c × ((a : TestAttempt) × (find_attempt c.id db.attempts ≡ some a) × HasTest db a)

pub expired-same :
    (now : Time) (a : TestAttempt) (db out : Db)
    → SameExams db out
    → is_expired_in now a out ≡ is_expired_in now a db
unfolding is_expired_in
expired-same now a db out same = simp (same.0, same.1)

-- A finalization leaves every candidate ready.
still-Ready :
    (now : Time) (id : ℕ) (db : Db) {row : TestAttempt} {out : Db} (locked : TestAttempt)
    → find_attempt id db.attempts ≡ some locked
    → HasTest db locked
    → finalize_attempt now true id db ≡ some (row, out)
    → (c : TestAttempt) → Ready db c
    → Ready out c
still-Ready now id db {row} {out} locked here (t, exam) h c ((u, own), (a, found, has)) =
    let effect = finalize_effect now true id db h in
    let same = Finalized-same true id db row out effect in
    let tests : out.tests ≡ db.tests = same.0 in
    (
      (u, ap (find_test c.test_id) tests ∙ own),
      elim (Bool-cases (c.id == id)) [
        | inl hit ↦
            let e = ==→eq c.id id hit in
            (
              row,
              rw e (Finalized-found_closed true id db row out effect).0,
              (t, exam_of_closed true id db row out locked effect here exam),
            )
        | inr miss ↦ (
          a,
          Finalized-keeps true id c.id db row out effect (==→neq c.id id miss) ∙ found,
          (has.0, ap (find_test a.test_id) tests ∙ has.1),
        )
      ],
    )

-- After the sweep of a list of candidates, what an attempt's key finds is what it found before, or
-- is closed; and no expired candidate of the list is found open.
abbrev Swept : Time → List TestAttempt → Db → Db → Type 0
Swept now l db out =
    SameExams db out
    × ((k : ℕ) (a : TestAttempt)
        → find_attempt k out.attempts ≡ some a
        → is_in_progress a.status ≡ true
        → (find_attempt k db.attempts ≡ some a)
          × All (λ c. is_expired_in now c db ≡ some true → c.id ≢ k) l)

pub same_trans : (a b c : Db) → SameExams a b → SameExams b c → SameExams a c
same_trans a b c p q = (q.0 ∙ p.0, q.1 ∙ p.1, q.2 ∙ p.2, q.3 ∙ p.3, q.4 ∙ p.4, q.5 ∙ p.5)

Swept-finalized :
    (now : Time) (c : TestAttempt) (rest : List TestAttempt) (db : Db) (row : TestAttempt)
    (mid out : Db)
    → finalize_attempt now true c.id db ≡ some (row, mid)
    → Swept now rest mid out
    → Swept now (c ∷ rest) db out
Swept-finalized now c rest db row mid out h (same', after) =
    let effect = finalize_effect now true c.id db h in
    let same = Finalized-same true c.id db row mid effect in
    let (own, over) = Finalized-found_closed true c.id db row mid effect in
    (
      same_trans db mid out same same',
      λ k a found running.
          let (before, others) = after k a found running in
          let apart : c.id ≢ k = λ e.
            let there : find_attempt k mid.attempts ≡ some row =
              ap (λ i. find_attempt i mid.attempts) (sym e) ∙ own in
            let same_row : row ≡ a = some_inj.0 (sym there ∙ before) in
            cc (over, ap (λ r. is_in_progress r.status) same_row, running) in
          (
            sym (Finalized-keeps true c.id k db row mid effect (λ e. apart (sym e))) ∙ before,
            (
              (λ _. apart),
              All-map (λ d ne expired. ne (expired-same now d db mid same ∙ expired)) rest others,
            ),
          ),
    )

not_expired : {x : Option Bool} {k j : ℕ} → x ≡ some false → x ≡ some true → k ≢ j
not_expired fresh expired e = cc

Swept-skipped :
    (now : Time) (c : TestAttempt) (rest : List TestAttempt) (db out : Db)
    → is_expired_in now c db ≡ some false
    → Swept now rest db out
    → Swept now (c ∷ rest) db out
Swept-skipped now c rest db out fresh (same, after) = (
  same,
  λ k a found running.
      let (before, others) = after k a found running in (before, (not_expired fresh, others)),
)

-- The report with one more candidate.
abbrev pub with_candidate : Bool → ℕ → Report → Report
with_candidate expired id report = record {
  checked = suc report.checked;
  finalized_ids = if expired then id ∷ report.finalized_ids else report.finalized_ids;
}

step_expired :
    (now : Time) (c : TestAttempt) (rest : List TestAttempt) (db mid out : Db) (row : TestAttempt)
    (report : Report)
    → is_expired_in now c db ≡ some true
    → finalize_attempt now true c.id db ≡ some (row, mid)
    → sweep_each now false rest mid ≡ some (report, out)
    → sweep_each now false (c ∷ rest) db ≡ some (with_candidate true c.id report, out)
unfolding sweep_each sweep_one
step_expired now c rest db mid out row report e h r = simp (e, h, r)

step_fresh :
    (now : Time) (dry : Bool) (c : TestAttempt) (rest : List TestAttempt) (db out : Db)
    (report : Report)
    → is_expired_in now c db ≡ some false
    → sweep_each now dry rest db ≡ some (report, out)
    → sweep_each now dry (c ∷ rest) db ≡ some (with_candidate false c.id report, out)
unfolding sweep_each sweep_one
step_fresh now dry c rest db out report e r = simp (e, r)

expired-decided :
    (now : Time) (c : TestAttempt) (db : Db)
    → HasTest db c
    → (is_expired_in now c db ≡ some true) ⊎ (is_expired_in now c db ≡ some false)
unfolding is_expired_in
expired-decided now c db (t, own) =
    elim (Bool-cases
      (is_attempt_expired now c.status c.start_time t (session_of c.session_id db.sessions))) [
        | inl e ↦ inl (simp (own, e))
        | inr e ↦ inr (simp (own, e))
      ]

pub sweep_each_done :
    (now : Time) (l : List TestAttempt) (db : Db)
    → All (Ready db) l
    → (report : Report) × (out : Db) × (sweep_each now false l db ≡ some (report, out))
      × Swept now l db out
unfolding sweep_each
sweep_each_done now [] db ready =
    (_, _, refl, ((refl, refl, refl, refl, refl, refl), λ k a found running. (found, tt)))
sweep_each_done now (c ∷ rest) db (here, others) = elim (expired-decided now c db here.0) [
  | inl expired ↦
      let (a, found, has) = here.1 in
      let (row, mid, h) = finalize_done now true c.id db a has.0 found has.1 in
      let (report, out, r, swept) =
        sweep_each_done now rest mid
          (All-map (still-Ready now c.id db a found has h) rest others) in
      (
        with_candidate true c.id report,
        out,
        step_expired now c rest db mid out row report expired h r,
        Swept-finalized now c rest db row mid out h swept,
      )
  | inr fresh ↦
      let (report, out, r, swept) = sweep_each_done now rest db others in
      (
        with_candidate false c.id report,
        out,
        step_fresh now false c rest db out report fresh r,
        Swept-skipped now c rest db out fresh swept,
      )
]

candidates-Ready : (db : Db) → All (HasTest db) db.attempts → All (Ready db) (candidates db)
candidates-Ready db has =
    All-sorted_by (λ a. a.id) (Ready db) (select (λ a. is_in_progress a.status) db.attempts)
      (All-select (Ready db) (λ a. is_in_progress a.status) db.attempts
        (All-both (HasTest db)
          (λ c. (a : TestAttempt) × (find_attempt c.id db.attempts ≡ some a) × HasTest db a)
          db.attempts has (All-found (λ a. a.id) (HasTest db) db.attempts has)))

running_if : (running late : Bool) → (if running then late else false) ≡ true → running ≡ true
running_if running late h = ground arith

running_of_expired :
    (now : Time) (a : TestAttempt) (db : Db)
    → is_expired_in now a db ≡ some true
    → is_in_progress a.status ≡ true
unfolding is_expired_in is_attempt_expired
running_of_expired now a db h =
    let (t, _, e) = bind-eq-some (find_test a.test_id db.tests) _ h in
    running_if (is_in_progress a.status) _ (some_inj.0 e)

-- Where the test of every attempt is there, the sweep comes to its end without an exception, and
-- afterwards no attempt that a key finds is expired: it is closed, or its time is not over.
pub sweep_leaves_none_expired :
    (now : Time) (db : Db)
    → All (HasTest db) db.attempts
    → (report : Report) × (out : Db) × (sweep_expired_attempts now false db ≡ some (report, out))
      × ((k : ℕ) (a : TestAttempt)
          → find_attempt k out.attempts ≡ some a
          → is_expired_in now a out ≢ some true)
unfolding sweep_expired_attempts
sweep_leaves_none_expired now db has =
    let (report, out, done, (same, after)) =
      sweep_each_done now (candidates db) db (candidates-Ready db has) in
    (
      report,
      out,
      done,
      λ k a found expired.
          let running = running_of_expired now a out expired in
          let (before, apart) = after k a found running in
          let expired_before = sym (expired-same now a db out same) ∙ expired in
          All-selected (λ c. is_expired_in now c db ≡ some true → c.id ≢ k)
            (λ r. is_in_progress r.status) (λ r. r.id == k) db.attempts
            (All_of_sorted (λ r. r.id) (λ c. is_expired_in now c db ≡ some true → c.id ≢ k)
              (select (λ r. is_in_progress r.status) db.attempts) apart)
            before running expired_before
            (==→eq a.id k (find_first_sound (λ r. r.id == k) db.attempts before)),
    )
