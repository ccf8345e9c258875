-- ===== src/Exams/Scoring/Edits.antt =====
-- tests_app/lifecycle.py, `_score_and_rank`: an attempt with frozen marks against later edits of the
-- questions.
use hamromentorback.Base.{
  ℕ, ◌≡◌, refl, Bool, Option, none, some, List, [], ◌∷◌, ◌∙◌, ap, sym, ◌==◌, map, ==→eq,
  find_first_sound, Bool-cases, inl, inr, All,
}
use hamromentorback.Base.Int.{ℤ, pos, ◌+ℤ◌}
use hamromentorback.Time.{Time}
use hamromentorback.Academics.Models as Bank
use hamromentorback.Academics.Models.{Question}
use hamromentorback.Exams.Models.{TestAttempt}
use hamromentorback.Exams.Frozen.{AttemptQuestion, Answer, find_question, marks_of, last_row, worth}
use hamromentorback.Exams.Scoring.{points, tally_answers, empty_tally}
use hamromentorback.Exams.Scoring.Total.{sum_points, points_of, tally-sum}

-- The marks of a question are frozen in these rows.
abbrev pub IsFrozen : List AttemptQuestion → ℕ → Type 0
IsFrozen rows id =
    (r : AttemptQuestion) × (m : ℤ) × (n : ℤ) × (last_row id rows ≡ some r)
    × (r.marks_snapshot ≡ some m)
    × (r.negative_marks_snapshot ≡ some n)

option_map : {A B : Type 0} → (A → B) → Option A → Option B
option_map f none = none
option_map f (some a) = some (f a)

find-map :
    (f : Question → Question) (id : ℕ) (l : List Question)
    → ((q : Question) → (f q).id ≡ q.id)
    → find_question id (map f l) ≡ option_map f (find_question id l)
unfolding option_map
find-map f id [] same = refl
find-map f id (q ∷ l) same = elim (Bool-cases (q.id == id)) [
  | inl here ↦ simp (same q, here)
  | inr later ↦ simp (same q, later, find-map f id l same)
]

found_id : (id : ℕ) (l : List Question) {q : Question} → find_question id l ≡ some q → q.id ≡ id
found_id id l h = ==→eq _ id (find_first_sound (λ q. q.id == id) l h)

worth_frozen :
    (r : AttemptQuestion) (m n : ℤ) (q : Question)
    → r.marks_snapshot ≡ some m
    → r.negative_marks_snapshot ≡ some n
    → worth (some r) q ≡ (m, n)
unfolding worth
worth_frozen r m n q hm hn = rw (hm, hn) refl

marks_as_frozen :
    (rows : List AttemptQuestion) (id : ℕ) (q : Question) (frozen : IsFrozen rows id)
    → q.id ≡ id
    → marks_of rows q ≡ (frozen.1, frozen.2)
unfolding marks_of
marks_as_frozen rows id q (r, m, n, row, hm, hn) e =
    let last : last_row q.id rows ≡ some r = ap (λ i. last_row i rows) e ∙ row in
    ap (λ o. worth o q) last ∙ worth_frozen r m n q hm hn

marks_frozen :
    (rows : List AttemptQuestion) (id : ℕ) (q q' : Question)
    → IsFrozen rows id
    → q.id ≡ id
    → q'.id ≡ id
    → marks_of rows q' ≡ marks_of rows q
marks_frozen rows id q q' frozen e e' =
    marks_as_frozen rows id q' frozen e' ∙ sym (marks_as_frozen rows id q frozen e)

points_frozen :
    (f : Question → Question) (negative : Bool) (rows : List AttemptQuestion) (chosen : Option ℕ)
    (id : ℕ) (o : Option Question) (right : Bool)
    → ((q : Question) → (f q).id ≡ q.id)
    → IsFrozen rows id
    → ((q : Question) → o ≡ some q → q.id ≡ id)
    → points_of chosen (option_map f o) negative rows right ≡ points_of chosen o negative rows right
unfolding option_map
points_frozen f negative rows none id o right same frozen key = refl
points_frozen f negative rows (some chosen) id none right same frozen key = refl
points_frozen f negative rows (some chosen) id (some q) right same frozen key =
    ap (λ m. points negative m right)
      (marks_frozen rows id q (f q) frozen (key q refl) (same q ∙ key q refl))

sum_frozen :
    (f : Question → Question) (negative : Bool) (rows : List AttemptQuestion) (qs : List Question)
    (answers : List Answer)
    → ((q : Question) → (f q).id ≡ q.id)
    → All (λ a. IsFrozen rows a.question_id) answers
    → sum_points negative rows (map f qs) answers ≡ sum_points negative rows qs answers
sum_frozen f negative rows qs [] same frozen = refl
sum_frozen f negative rows qs (a ∷ l) same frozen =
    let here =
      points_frozen f negative rows a.selected_option a.question_id (find_question a.question_id qs)
        a.is_correct same frozen.0 (λ q h. found_id a.question_id qs h) in
    rw (find-map f a.question_id qs same, here, sum_frozen f negative rows qs l same frozen.1) refl

-- Where the rows of an attempt have frozen the marks of every question that it answers, its score is
-- the same after any edit of the questions in the bank, whatever marks the edit gives them.
pub score_ignores_edits :
    (f : Question → Question) (now : Time) (a : TestAttempt) (negative : Bool)
    (rows : List AttemptQuestion) (answers : List Answer) (bank : Bank.Db)
    → ((q : Question) → (f q).id ≡ q.id)
    → All (λ x. IsFrozen rows x.question_id) answers
    → (tally_answers now a negative rows answers
        (empty_tally (record bank { questions = map f bank.questions }))).score
      ≡ (tally_answers now a negative rows answers (empty_tally bank)).score
unfolding empty_tally
score_ignores_edits f now a negative rows answers bank same frozen =
    let edited = record bank { questions = map f bank.questions } in
    tally-sum now a negative rows answers (empty_tally edited)
    ∙ ap (λ s. pos 0 +ℤ s) (sum_frozen f negative rows bank.questions answers same frozen)
    ∙ sym (tally-sum now a negative rows answers (empty_tally bank))
