-- ===== src/Exams/Scoring/Described.antt =====
-- tests_app/lifecycle.py, `_score_and_rank`: the marking of an attempt, described without the loop. The
-- right answers and the wrong ones are picked out, and each has the marks of its question: those of
-- the last frozen row whose column is filled, else the live ones.
use hamromentorback.Base.{
  ℕ, ◌≡◌, refl, sym, ap, ◌∙◌, Bool, ◌&&◌, not, Option, none, some, List, [], ◌∷◌, ◌++◌, inl, inr,
  Bool-cases, find_first, select, is_some, holds_id, if◌then◌else◌,
}
use hamromentorback.Base.Int.{ℤ, pos, ◌+ℤ◌}
use hamromentorback.Academics.Models.{Question}
use hamromentorback.Exams.Frozen.{
  AttemptQuestion, Answer, find_question, marks_of, last_row, worth, or_live,
}

-- The rows, the last one first.
abbrev pub backwards : List AttemptQuestion → List AttemptQuestion
backwards [] = []
backwards (r ∷ rest) = backwards rest ++ (r ∷ [])

abbrev pub value_or : Option ℤ → ℤ → ℤ
value_or none live = live
value_or (some frozen) live = frozen

-- A column of the last frozen row of a question, where there is the row and its column is filled.
abbrev pub frozen_column : (AttemptQuestion → Option ℤ) → ℕ → List AttemptQuestion → Option ℤ
frozen_column column id rows = elim (find_first (λ r. holds_id id r.question_id) (backwards rows)) [
  | none ↦ none
  | some r ↦ column r
]

-- Of an answer, what a column of its question is worth; nothing of a question that is not there.
abbrev pub column_of :
    (AttemptQuestion → Option ℤ)
    → (Question → ℤ)
    → List AttemptQuestion
    → List Question
    → Answer
    → ℤ
column_of frozen live rows questions a = elim (find_question a.question_id questions) [
  | none ↦ pos 0
  | some q ↦ value_or (frozen_column frozen q.id rows) (live q)
]

abbrev pub marks_for : List AttemptQuestion → List Question → Answer → ℤ
marks_for = column_of (λ r. r.marks_snapshot) (λ q. q.marks)

abbrev pub negative_marks_for : List AttemptQuestion → List Question → Answer → ℤ
negative_marks_for = column_of (λ r. r.negative_marks_snapshot) (λ q. q.negative_marks)

-- The answers with an option to a question of the bank.
abbrev pub is_given : List Question → Answer → Bool
is_given questions a = is_some a.selected_option && is_some (find_question a.question_id questions)

abbrev pub right_answers : List Question → List Answer → List Answer
right_answers questions = select (λ a. is_given questions a && a.is_correct)

abbrev pub wrong_answers : List Question → List Answer → List Answer
wrong_answers questions = select (λ a. is_given questions a && not a.is_correct)

abbrev pub total : (Answer → ℤ) → List Answer → ℤ
total f [] = pos 0
total f (a ∷ l) = f a +ℤ total f l

find-snoc :
    (p : AttemptQuestion → Bool) (l : List AttemptQuestion) (r : AttemptQuestion)
    → find_first p (l ++ (r ∷ []))
      ≡ (if is_some (find_first p l) then find_first p l else if p r then some r else none)
find-snoc p [] r = refl
find-snoc p (s ∷ l) r = elim (Bool-cases (p s)) [
  | inl hit ↦ rw hit refl
  | inr miss ↦ rw miss (find-snoc p l r)
]

last_row-backwards :
    (id : ℕ) (rows : List AttemptQuestion)
    → find_first (λ r. holds_id id r.question_id) (backwards rows) ≡ last_row id rows
unfolding last_row
last_row-backwards id [] = refl
last_row-backwards id (r ∷ rest) =
    let e = last_row-backwards id rest in
    find-snoc (λ s. holds_id id s.question_id) (backwards rest) r ∙ rw e refl

or_live-value : (frozen : Option ℤ) (live : ℤ) → or_live frozen live ≡ value_or frozen live
unfolding or_live
or_live-value none live = refl
or_live-value (some x) live = refl

worth-columns :
    (row : Option AttemptQuestion) (q : Question)
    → (((worth row q).0) ≡ value_or (elim row [ none ↦ none | some r ↦ r.marks_snapshot ]) q.marks)
      × ((worth row q).1
          ≡ value_or
              (elim row [ none ↦ none | some r ↦ r.negative_marks_snapshot ])
              q.negative_marks)
unfolding worth
worth-columns none q = (refl, refl)
worth-columns (some r) q = (
  or_live-value r.marks_snapshot q.marks,
  or_live-value r.negative_marks_snapshot q.negative_marks,
)

-- The marks that the loop reads are those of the description.
pub marks_of-columns :
    (rows : List AttemptQuestion) (q : Question)
    → ((marks_of rows q).0 ≡ value_or (frozen_column (λ r. r.marks_snapshot) q.id rows) q.marks)
      × ((marks_of rows q).1
          ≡ value_or (frozen_column (λ r. r.negative_marks_snapshot) q.id rows) q.negative_marks)
unfolding marks_of
marks_of-columns rows q =
    let (marks, negative_marks) = worth-columns (last_row q.id rows) q in
    let same = sym (last_row-backwards q.id rows) in
    (
      marks ∙ ap (λ o. value_or (elim o [ none ↦ none | some r ↦ r.marks_snapshot ]) q.marks) same,
      negative_marks
          ∙ ap
              (λ o.
                value_or (elim o [ none ↦ none | some r ↦ r.negative_marks_snapshot ])
                  q.negative_marks)
              same,
    )
