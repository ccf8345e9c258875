-- ===== src/Academics/Batches.antt =====
-- academics/services.py, `apply_question_stats_deltas`, and tests_app/stats_tasks.py: a batch of
-- changes in the counters, applied once per exam attempt, question by question in ascending order.
-- What the database raises at the nth try of a change is a parameter: the number of its error.
pub mod Applied
use hamromentorback.Base.{
  ℕ, zero, suc, Bool, true, false, ◌||◌, not, Option, none, some, List, [], ◌∷◌, ◌==◌, leb,
  if◌then◌else◌, is_some, contains, sorted_by,
}
use hamromentorback.Academics.Models.{Db}
use hamromentorback.Academics.Statistics.{Delta, apply_question_stat_delta}

-- `sorted(deltas, key=lambda d: d['question_id'])`
abbrev pub sorted_deltas : List Delta → List Delta
sorted_deltas deltas = sorted_by (λ d. d.question_id) deltas

-- The error numbers of a deadlock and of a wait for a lock that took too long.
abbrev pub is_retryable : ℕ → Bool
is_retryable errno = errno == 1213 || errno == 1205

-- `left` more tries; `raised n` is what the database raises at try n, if it raises.
try_delta : (ℕ → Option ℕ) → ℕ → ℕ → Delta → Db → Option Db
try_delta raised n zero d db = none
try_delta raised n (suc left) d db =
    let again = try_delta raised (suc n) left d db in
    elim (raised n) [
      | none ↦ apply_question_stat_delta d db
      | some errno ↦ if not (is_retryable errno) then none else again
    ]

-- `_apply_one_delta_with_retry`, with its three tries
unfoldable pub apply_one_delta_with_retry : (ℕ → Option ℕ) → Delta → Db → Option Db
unfolding try_delta
apply_one_delta_with_retry raised d db = try_delta raised 0 3 d db

apply_each : (ℕ → ℕ → Option ℕ) → List Delta → Db → Option Db
apply_each raised [] db = some db
apply_each raised (d ∷ rest) db = elim (apply_one_delta_with_retry (raised d.question_id) d db) [
  | none ↦ none
  | some db' ↦ apply_each raised rest db'
]

-- `raised q n` is what the database raises at the nth try of the change of question `q`.
unfoldable pub apply_question_stats_deltas : (ℕ → ℕ → Option ℕ) → List Delta → Db → Option Db
unfolding apply_each
apply_question_stats_deltas raised deltas db = apply_each raised (sorted_deltas deltas) db

-- The attempts whose changes are not applied yet (`stats_applied_at` is null), and the question bank.
pub record Stats : Type 0 where
  pub unapplied : List ℕ
  pub bank : Db

-- The keys without one.
without : ℕ → List ℕ → List ℕ
without id [] = []
without id (i ∷ rest) = let others = without id rest in if id == i then others else i ∷ others

-- The mark that the attempt's changes have been applied, where none of them raised.
marked : ℕ → List ℕ → Option Db → Option Stats
unfolding without
marked attempt_id unapplied none = none
marked attempt_id unapplied (some bank) =
    some (record { unapplied = without attempt_id unapplied; bank = bank })

-- The claim, the changes and the mark are one transaction: nothing where one raises.
unfoldable pub process_question_stats : (ℕ → ℕ → Option ℕ) → ℕ → List Delta → Stats → Option Stats
unfolding marked
process_question_stats raised attempt_id deltas stats =
    if contains attempt_id stats.unapplied
    then marked attempt_id stats.unapplied (apply_question_stats_deltas raised deltas stats.bank)
    else some stats
