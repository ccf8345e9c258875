-- ===== src/Exams/Lifecycle/Dry.antt =====
-- tests_app/lifecycle.py, `sweep_expired_attempts`: what a dry run says about the sweep.
use hamromentorback.Base.{
  ℕ, ◌≡◌, refl, sym, subst, ap, ◌∙◌, Bool, true, false, some, List, [], ◌∷◌, if◌then◌else◌,
}
use mathlib.Core.Option.{some_inj}
use hamromentorback.Time.{Time}
use hamromentorback.Exams.Models.{TestAttempt}
use hamromentorback.Exams.Lifecycle.{
  Db, finalize_attempt, is_expired_in, sweep_one, Report, sweep_each, candidates,
  sweep_expired_attempts,
}
use hamromentorback.Exams.Lifecycle.Once.{SameExams, finalize_effect, Finalized-same}
use hamromentorback.Base.{bind-eq-some}
use hamromentorback.Exams.Lifecycle.Sweep.{expired-same, same_trans, with_candidate}

step_dry :
    (now : Time) (expired : Bool) (c : TestAttempt) (rest : List TestAttempt) (db : Db)
    (report : Report)
    → is_expired_in now c db ≡ some expired
    → sweep_each now true rest db ≡ some (report, db)
    → sweep_each now true (c ∷ rest) db ≡ some (with_candidate expired c.id report, db)
unfolding sweep_each sweep_one
step_dry now true c rest db report e r = simp (e, r)
step_dry now false c rest db report e r = simp (e, r)

-- The tables that the sweep goes on with after one candidate.
kept_by_one :
    (now : Time) (expired : Bool) (id : ℕ) (db : Db) {mid : Db}
    → (if expired then sweep_one now false id db else some db) ≡ some mid
    → SameExams db mid
unfolding sweep_one
kept_by_one now true id db {mid} h =
    let ((row, out), finalized, e) = bind-eq-some (finalize_attempt now true id db) _ h in
    let same = Finalized-same true id db row out (finalize_effect now true id db finalized) in
    subst (SameExams db) (some_inj.0 e) same
kept_by_one now false id db h =
    subst (SameExams db) (some_inj.0 h) (refl, refl, refl, refl, refl, refl)

dry_each :
    (now : Time) (l : List TestAttempt) (db db0 : Db)
    → SameExams db0 db
    → {report : Report} {out : Db} → sweep_each now false l db ≡ some (report, out)
    → sweep_each now true l db0 ≡ some (report, db0)
unfolding sweep_each
dry_each now [] db db0 same h = ap (λ r. some (r, db0)) (ap (λ x. x.0) (some_inj.0 h))
dry_each now (c ∷ rest) db db0 same {report} {out} h =
    let (expired, e, h1) = bind-eq-some (is_expired_in now c db) _ h in
    let (mid, one, h2) =
      bind-eq-some (if expired then sweep_one now false c.id db else some db) _ h1 in
    let ((others, last), r, done) = bind-eq-some (sweep_each now false rest mid) _ h2 in
    let same' = same_trans db0 db mid same (kept_by_one now expired c.id db one) in
    let dry = dry_each now rest mid db0 same' r in
    step_dry now expired c rest db0 others (sym (expired-same now c db0 db same) ∙ e) dry
    ∙ ap (λ x. some (x, db0)) (ap (λ x. x.0) (some_inj.0 done))

-- A dry run changes nothing, and it reports what the sweep itself reports that is run instead of it
-- at the same time: as many candidates, and the same attempts in the same order.
pub dry_run_agrees :
    (now : Time) (db : Db) {report : Report} {out : Db}
    → sweep_expired_attempts now false db ≡ some (report, out)
    → sweep_expired_attempts now true db ≡ some (report, db)
unfolding sweep_expired_attempts
dry_run_agrees now db h = dry_each now (candidates db) db db (refl, refl, refl, refl, refl, refl) h
