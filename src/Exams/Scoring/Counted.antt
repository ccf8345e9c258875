-- ===== src/Exams/Scoring/Counted.antt =====
-- tests_app/lifecycle.py, `_score_and_rank`: the score and the counts of the loop against the
-- description in Described.
use hamromentorback.Base.{
  ℕ, ◌+◌, ◌≡◌, refl, sym, ap, ◌∙◌, Bool, true, false, ◌&&◌, not, Option, none, some, List, [], ◌∷◌,
  arith, inl, inr, Bool-cases, select, length, is_some, if◌then◌else◌,
}
use hamromentorback.Base.Int.{ℤ, pos, ◌+ℤ◌, ◌-ℤ◌, int_laws}
use hamromentorback.Time.{Time}
use hamromentorback.Academics.Models as Bank
use hamromentorback.Academics.Models.{Question}
use hamromentorback.Exams.Models.{TestAttempt}
use hamromentorback.Exams.Frozen.{AttemptQuestion, Answer, find_question, rows_of, answers_of}
use hamromentorback.Exams.Scoring.{
  Tally, points, tally_answer, tally_choice, tally_answers, tally_selected, empty_tally,
  score_and_rank, scored, percent,
}
use hamromentorback.Exams.Scoring.Total.{choice-questions, sum_points, points_of, tally-sum}
use hamromentorback.Exams.Scoring.Described.{
  value_or, frozen_column, marks_for, negative_marks_for, is_given, right_answers, wrong_answers,
  total, marks_of-columns,
}

zero_add : (x : ℤ) → x ≡ pos 0 +ℤ x
zero_add x = grind int_laws

gained : (x : ℤ) → x ≡ x -ℤ pos 0
gained x = grind int_laws

-- One answer, from its option and its question.
point :
    (chosen : Option ℕ) (q : Option Question) (negative : Bool) (rows : List AttemptQuestion)
    (right : Bool)
    → points_of chosen q negative rows right
      ≡ (if (is_some chosen && is_some q) && right
          then (elim q [
            | none ↦ pos 0
            | some q' ↦ value_or (frozen_column (λ r. r.marks_snapshot) q'.id rows) q'.marks
          ])
          else pos 0)
        -ℤ (if (is_some chosen && is_some q) && not right
            then (if negative
                then (elim q [
                  | none ↦ pos 0
                  | some q' ↦
                      value_or
                        (frozen_column (λ r. r.negative_marks_snapshot) q'.id rows)
                        q'.negative_marks
                ])
                else pos 0)
            else pos 0)
unfolding points
point none q negative rows right = gained (pos 0)
point (some c) none negative rows right = gained (pos 0)
point (some c) (some q) negative rows true = (marks_of-columns rows q).0 ∙ gained _
point (some c) (some q) true rows false = ap (λ n. pos 0 -ℤ n) (marks_of-columns rows q).1
point (some c) (some q) false rows false = gained (pos 0)

total-select :
    (f : Answer → ℤ) (p : Answer → Bool) (a : Answer) (l : List Answer)
    → total f (select p (a ∷ l)) ≡ (if p a then f a else pos 0) +ℤ total f (select p l)
total-select f p a l = elim (Bool-cases (p a)) [
  | inl kept ↦ rw kept refl
  | inr dropped ↦ rw dropped (zero_add _)
]

combined :
    (h x y r s t all_right all_wrong : ℤ)
    → h ≡ x -ℤ y
    → r ≡ s -ℤ t
    → all_right ≡ x +ℤ s
    → all_wrong ≡ y +ℤ t
    → h +ℤ r ≡ all_right -ℤ all_wrong
combined h x y r s t all_right all_wrong a b c d = grind int_laws

sum_points-columns :
    (negative : Bool) (rows : List AttemptQuestion) (qs : List Question) (l : List Answer)
    → sum_points negative rows qs l
      ≡ total (marks_for rows qs) (right_answers qs l)
        -ℤ total
            (λ a. if negative then negative_marks_for rows qs a else pos 0)
            (wrong_answers qs l)
sum_points-columns negative rows qs [] = gained (pos 0)
sum_points-columns negative rows qs (a ∷ l) =
    let here =
      point a.selected_option (find_question a.question_id qs) negative rows a.is_correct in
    let rest = sum_points-columns negative rows qs l in
    let rights = total-select (marks_for rows qs) (λ b. is_given qs b && b.is_correct) a l in
    let wrongs =
      total-select (λ b. if negative then negative_marks_for rows qs b else pos 0)
        (λ b. is_given qs b && not b.is_correct) a l in
    combined _ _ _ _ _ _ _ _ here rest rights wrongs

length-select :
    (p : Answer → Bool) (a : Answer) (l : List Answer)
    → length (select p (a ∷ l)) ≡ (if p a then 1 else 0) + length (select p l)
length-select p a l = elim (Bool-cases (p a)) [
  | inl kept ↦ rw kept (omega (arith))
  | inr dropped ↦ rw dropped (omega (arith))
]

choice-counts :
    (chosen : Option ℕ) (q : Option Question) (now : Time) (a : TestAttempt) (negative : Bool)
    (rows : List AttemptQuestion) (answer : Answer) (t : Tally)
    → ((tally_choice chosen q now a negative rows answer t).correct
        ≡ t.correct + (if (is_some chosen && is_some q) && answer.is_correct then 1 else 0))
      × ((tally_choice chosen q now a negative rows answer t).incorrect
          ≡ t.incorrect + (if (is_some chosen && is_some q) && not answer.is_correct then 1 else 0))
unfolding tally_choice tally_selected
choice-counts none q now a negative rows answer t = (omega (arith), omega (arith))
choice-counts (some c) none now a negative rows answer t = (omega (arith), omega (arith))
choice-counts (some c) (some q) now a negative rows answer t = (ground arith, ground arith)

counted :
    (final between before here rest both : ℕ)
    → final ≡ between + rest
    → between ≡ before + here
    → both ≡ here + rest
    → final ≡ before + both
counted final between before here rest both a b c = omega (arith, a, b, c)

-- The counts of the loop.
tally-counts :
    (now : Time) (a : TestAttempt) (negative : Bool) (rows : List AttemptQuestion)
    (answers : List Answer) (t : Tally)
    → ((tally_answers now a negative rows answers t).correct
        ≡ t.correct + length (right_answers t.bank.questions answers))
      × ((tally_answers now a negative rows answers t).incorrect
          ≡ t.incorrect + length (wrong_answers t.bank.questions answers))
unfolding tally_answers tally_answer
tally-counts now a negative rows [] t = (omega (arith), omega (arith))
tally-counts now a negative rows (x ∷ l) t =
    let qs = t.bank.questions in
    let q = find_question x.question_id qs in
    let t' = tally_choice x.selected_option q now a negative rows x t in
    let (rights, wrongs) = tally-counts now a negative rows l t' in
    let (right, wrong) = choice-counts x.selected_option q now a negative rows x t in
    let same : t'.bank.questions ≡ qs =
      choice-questions x.selected_option q now a negative rows x t in
    let more_right = length-select (λ b. is_given qs b && b.is_correct) x l in
    let more_wrong = length-select (λ b. is_given qs b && not b.is_correct) x l in
    (
      counted _ _ _ _ _ _ (rights ∙ ap (λ u. t'.correct + length (right_answers u l)) same) right
          more_right,
      counted _ _ _ _ _ _ (wrongs ∙ ap (λ u. t'.incorrect + length (wrong_answers u l)) same) wrong
          more_wrong,
    )

from_zero : (n m : ℕ) → n ≡ 0 + m → n ≡ m
from_zero n m h = omega (arith, h)

-- The score and the counts of an attempt that is scored: the sum of the marks of its right answers,
-- less the sum of the negative marks of its wrong ones where the test has negative marking, and how
-- many there are of each. Marks are those of the question's last frozen row where that row has them,
-- else the live ones; an answer without an option, or to a question that is gone, is in neither list.
-- The accuracy is the share of the right answers in both lists, in hundredths of a percent.
pub score_and_rank-counts :
    (now : Time) (negative : Bool) (rows : List AttemptQuestion) (answers : List Answer)
    (attempts : List TestAttempt) (bank : Bank.Db) (a : TestAttempt)
    → let (row, t) = score_and_rank now negative rows answers attempts bank a in
      let own_rows = rows_of a.id rows in
      let rights = right_answers bank.questions (answers_of a.id answers) in
      let wrongs = wrong_answers bank.questions (answers_of a.id answers) in
      (row.score
        ≡ total (marks_for own_rows bank.questions) rights
          -ℤ total
              (λ b. if negative then negative_marks_for own_rows bank.questions b else pos 0)
              wrongs)
      × (t.correct ≡ length rights)
      × (t.incorrect ≡ length wrongs)
      × (row.accuracy ≡ percent (length rights) (length rights + length wrongs))
unfolding score_and_rank scored empty_tally
score_and_rank-counts now negative rows answers attempts bank a =
    let own_rows = rows_of a.id rows in
    let l = answers_of a.id answers in
    let (more_rights, more_wrongs) = tally-counts now a negative own_rows l (empty_tally bank) in
    let rights = from_zero _ _ more_rights in
    let wrongs = from_zero _ _ more_wrongs in
    (
      tally-sum now a negative own_rows l (empty_tally bank)
          ∙ sym (zero_add _)
          ∙ sum_points-columns negative own_rows bank.questions l,
      rights,
      wrongs,
      ap
            (λ n.
              percent n
                (n + (tally_answers now a negative own_rows l (empty_tally bank)).incorrect))
            rights
          ∙ ap
              (λ n.
                percent (length (right_answers bank.questions l))
                  (length (right_answers bank.questions l) + n))
              wrongs,
    )
