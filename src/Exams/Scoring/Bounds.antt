-- ===== src/Exams/Scoring/Bounds.antt =====
-- tests_app/lifecycle.py, `_score_and_rank`: the ranges of accuracy, rank and percentile.
use hamromentorback.Base.{
  ℕ, ◌+◌, ◌-◌, ◌*◌, ◌≤◌, ◌≡◌, sym, Bool, some, List, [], ◌∷◌, arith, count_by, length, select, inl,
  inr, Bool-cases, ltb, ◌==◌,
}
use mathlib.Core.Option.{some_inj}
use hamromentorback.Base.Int.{ltb_ℤ, ℤ}
use hamromentorback.Base.Ratio.{rounded_bound}
use hamromentorback.Time.{Time}
use hamromentorback.Academics.Models as Bank
use hamromentorback.Exams.Models.{TestAttempt}
use hamromentorback.Exams.Frozen.{AttemptQuestion, Answer}
use hamromentorback.Exams.Scoring.{
  percent, rank_in, percentile_of, scored, score_and_rank, is_ranked_with,
}

scaled : (part whole : ℕ) → part ≤ whole → 10000 * part ≤ 10000 * whole
scaled part whole h = omega (arith, h)

pub percent_bound : (part whole : ℕ) → part ≤ whole → percent part whole ≤ 10000
unfolding percent
percent_bound part whole h = elim (Bool-cases (whole == 0)) [
  | inl nothing ↦ rw nothing (omega arith)
  | inr some_whole ↦
      rw some_whole (rounded_bound (10000 * part) whole 10000 (ground arith) (scaled part whole h))
]

count_by-le-length : (p : TestAttempt → Bool) (l : List TestAttempt) → count_by p l ≤ length l
count_by-le-length p [] = omega arith
count_by-le-length p (a ∷ l) = let rest = count_by-le-length p l in ground arith

rank_bound : (score : ℤ) (pool : List TestAttempt) → rank_in score pool ≤ length pool + 1
unfolding rank_in
rank_bound score pool = omega (arith, count_by-le-length (λ a. ltb_ℤ score a.score) pool)

percentile_bound : (rank total : ℕ) → percentile_of rank total ≤ 10000
unfolding percentile_of
percentile_bound rank total = elim (Bool-cases (ltb 1 total)) [
  | inl several ↦ rw several (percent_bound (total - rank) total (omega arith))
  | inr alone ↦ rw alone (omega arith)
]

-- However an attempt is scored, its accuracy and its percentile are at most a hundred percent, and
-- its rank is one more than the number of submitted attempts of the same test and session with a
-- strictly better score, so between one and the number of all of them with this one.
pub score_and_rank_bounds :
    (now : Time) (negative : Bool) (rows : List AttemptQuestion) (answers : List Answer)
    (attempts : List TestAttempt) (bank : Bank.Db) (a : TestAttempt)
    → let row = (score_and_rank now negative rows answers attempts bank a).0 in
      let pool = select (is_ranked_with a) attempts in
      (row.accuracy ≤ 10000)
      × ((p : ℕ) → row.percentile ≡ some p → p ≤ 10000)
      × ((r : ℕ)
          → row.rank ≡ some r
          → (r ≡ count_by (λ b. ltb_ℤ row.score b.score) pool + 1) × (r ≤ length pool + 1))
unfolding score_and_rank scored rank_in
score_and_rank_bounds now negative rows answers attempts bank a =
    let pool = select (is_ranked_with a) attempts in
    (
      percent_bound _ _ (omega arith),
      λ p h. rw (← some_inj.0 h) (percentile_bound _ (length pool + 1)),
      λ r h. (sym (some_inj.0 h), rw (← some_inj.0 h) (omega (arith, count_by-le-length _ pool))),
    )
