-- ===== src/Academics/Batches/Applied.antt =====
-- tests_app/stats_tasks.py, `process_question_stats`: the changes of an attempt are applied once.
use hamromentorback.Base.{
  ℕ, ◌≡◌, refl, sym, ap, ◌∙◌, false, Option, none, some, List, [], ◌∷◌, ◌==◌, inl, inr, Bool-cases,
  contains,
}
use mathlib.Core.Option.{some_inj}
use hamromentorback.Academics.Models.{Db}
use hamromentorback.Academics.Statistics.{Delta}
use hamromentorback.Academics.Batches.{
  apply_question_stats_deltas, without, marked, Stats, process_question_stats,
}

contains-without : (id : ℕ) (ids : List ℕ) → contains id (without id ids) ≡ false
unfolding without
contains-without id [] = refl
contains-without id (i ∷ rest) = elim (Bool-cases (id == i)) [
  | inl own ↦ rw own (contains-without id rest)
  | inr other ↦ let later = contains-without id rest in simp (other, later)
]

marks :
    (attempt_id : ℕ) (unapplied : List ℕ) (bank : Option Db) {out : Stats}
    → marked attempt_id unapplied bank ≡ some out
    → contains attempt_id out.unapplied ≡ false
unfolding marked
marks attempt_id unapplied none h = cc
marks attempt_id unapplied (some bank) h =
    ap (λ s. contains attempt_id s.unapplied) (sym (some_inj.0 h))
    ∙ contains-without attempt_id unapplied

-- A batch of an attempt that the queue delivers again, whatever it holds the second time and
-- whatever the database would raise, changes nothing once the first delivery came through.
pub redelivery_changes_nothing :
    (raised raised' : ℕ → ℕ → Option ℕ) (attempt_id : ℕ) (deltas deltas' : List Delta)
    (stats : Stats) {out : Stats}
    → process_question_stats raised attempt_id deltas stats ≡ some out
    → process_question_stats raised' attempt_id deltas' out ≡ some out
unfolding process_question_stats
redelivery_changes_nothing raised raised' attempt_id deltas deltas' stats {out} h =
    let over : contains attempt_id out.unapplied ≡ false =
      elim (Bool-cases (contains attempt_id stats.unapplied)) [
        | inl first ↦
            marks attempt_id stats.unapplied (apply_question_stats_deltas raised deltas stats.bank)
              (rw first at h)
        | inr before ↦
            let same : some stats ≡ some out = rw before at h in
            ap (λ s. contains attempt_id s.unapplied) (sym (some_inj.0 same)) ∙ before
      ] in
    rw over refl
