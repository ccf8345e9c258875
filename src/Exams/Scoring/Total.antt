-- ===== src/Exams/Scoring/Total.antt =====
-- tests_app/lifecycle.py, `_score_and_rank`: the loop over the answers against the sum that it is to
-- compute.
use hamromentorback.Base.{
  ℕ, ◌≡◌, refl, Bool, Option, none, some, List, [], ◌∷◌, ◌∙◌, ap, sym, arith,
}
use hamromentorback.Base.Int.{ℤ, pos, ◌+ℤ◌, int_laws}
use hamromentorback.Time.{Time}
use hamromentorback.Academics.Models as Bank
use hamromentorback.Academics.Models.{Question}
use hamromentorback.Academics.Statistics
use hamromentorback.Academics.Statistics.{record_question_result}
use hamromentorback.Exams.Models.{TestAttempt}
use hamromentorback.Exams.Frozen.{AttemptQuestion, Answer, find_question, marks_of}
use hamromentorback.Exams.Scoring.{
  Tally, points, tally_answer, tally_choice, tally_answers, tally_selected, result_of,
}

-- The points of one answer; an answer without an option has none.
abbrev pub points_of : Option ℕ → Option Question → Bool → List AttemptQuestion → Bool → ℤ
points_of none question negative rows is_correct = pos 0
points_of (some chosen) none negative rows is_correct = pos 0
points_of (some chosen) (some q) negative rows is_correct =
    points negative (marks_of rows q) is_correct

abbrev pub answer_points : Bool → List AttemptQuestion → List Question → Answer → ℤ
answer_points negative rows questions a =
    points_of a.selected_option (find_question a.question_id questions) negative rows a.is_correct

abbrev pub sum_points : Bool → List AttemptQuestion → List Question → List Answer → ℤ
sum_points negative rows questions [] = pos 0
sum_points negative rows questions (a ∷ l) =
    answer_points negative rows questions a +ℤ sum_points negative rows questions l

add_zero : (x : ℤ) → x +ℤ pos 0 ≡ x
unfolding ◌+ℤ◌
add_zero x = grind int_laws

add_assoc : (x y z : ℤ) → (x +ℤ y) +ℤ z ≡ x +ℤ (y +ℤ z)
add_assoc x y z = grind int_laws

record-questions :
    (now : Time) (r : Statistics.Result) (db : Bank.Db)
    → (record_question_result now r db).1.questions ≡ db.questions
unfolding record_question_result
record-questions now r db = ground arith

selected-questions :
    (now : Time) (a : TestAttempt) (negative : Bool) (rows : List AttemptQuestion) (q : Question)
    (answer : Answer) (chosen : ℕ) (t : Tally)
    → (tally_selected now a negative rows q answer chosen t).bank.questions ≡ t.bank.questions
unfolding tally_selected
selected-questions now a negative rows q answer chosen t =
    record-questions now (result_of a q answer chosen) t.bank

pub choice-questions :
    (chosen : Option ℕ) (q : Option Question) (now : Time) (a : TestAttempt) (negative : Bool)
    (rows : List AttemptQuestion) (answer : Answer) (t : Tally)
    → (tally_choice chosen q now a negative rows answer t).bank.questions ≡ t.bank.questions
unfolding tally_choice
choice-questions none q now a negative rows answer t = refl
choice-questions (some chosen) none now a negative rows answer t = refl
choice-questions (some chosen) (some q) now a negative rows answer t =
    selected-questions now a negative rows q answer chosen t

choice-score :
    (chosen : Option ℕ) (q : Option Question) (now : Time) (a : TestAttempt) (negative : Bool)
    (rows : List AttemptQuestion) (answer : Answer) (t : Tally)
    → (tally_choice chosen q now a negative rows answer t).score
      ≡ t.score +ℤ points_of chosen q negative rows answer.is_correct
unfolding tally_choice tally_selected
choice-score none q now a negative rows answer t = sym (add_zero t.score)
choice-score (some chosen) none now a negative rows answer t = sym (add_zero t.score)
choice-score (some chosen) (some q) now a negative rows answer t = refl

-- The score of the loop is the score so far and the sum of the points of the answers: the marks of
-- a right one, less the negative marks of a wrong one where the test has negative marking, nothing
-- for an answer without an option. The counts and the statistics of the loop do not enter it.
pub tally-sum :
    (now : Time) (a : TestAttempt) (negative : Bool) (rows : List AttemptQuestion)
    (answers : List Answer) (t : Tally)
    → (tally_answers now a negative rows answers t).score
      ≡ t.score +ℤ sum_points negative rows t.bank.questions answers
unfolding tally_answers tally_answer
tally-sum now a negative rows [] t = sym (add_zero t.score)
tally-sum now a negative rows (x ∷ l) t =
    let t' = tally_answer now a negative rows x t in
    let rest = tally-sum now a negative rows l t' in
    let q = find_question x.question_id t.bank.questions in
    let here = choice-score x.selected_option q now a negative rows x t in
    let same = choice-questions x.selected_option q now a negative rows x t in
    rest
    ∙ ap (λ s. s +ℤ sum_points negative rows t'.bank.questions l) here
    ∙ ap
        (λ qs.
          (t.score +ℤ answer_points negative rows t.bank.questions x)
          +ℤ sum_points negative rows qs l)
        same
    ∙ add_assoc t.score (answer_points negative rows t.bank.questions x)
        (sum_points negative rows t.bank.questions l)
