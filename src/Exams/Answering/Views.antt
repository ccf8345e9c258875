-- ===== src/Exams/Answering/Views.antt =====
-- tests_app/views.py: what the views that are handed an open attempt leave of closed ones.
use hamromentorback.Base.{
  ℕ, ◌≡◌, refl, ap, subst, Bool, true, false, ◌&&◌, not, Option, none, some, List, ◌==◌, arith, inl,
  inr, find_first_sound, contains, if-either,
}
use mathlib.Core.Option.{some_inj}
use hamromentorback.Time.{Time}
use hamromentorback.Accounts.{User}
use hamromentorback.Academics.Models.{Choice}
use hamromentorback.Exams.Models.{is_in_progress, TestAttempt}
use hamromentorback.Exams.Frozen.{Answer, find_question, attempt_preview_question_ids}
use hamromentorback.Exams.Lifecycle.{Db, find_attempt, find_test, is_expired_in, finalize_attempt}
use hamromentorback.Base.{bind-eq-some}
use hamromentorback.Exams.Answering.{
  Response, not_found, purchase_required, question_id_required, hand_to, with_open, unless_expired,
  own_open_attempt, AnswerData, find_choice, is_preview_attempt, write_answer, store_answer,
  store_found, choose, answer_open, mark_open, submit_open,
}
use hamromentorback.Exams.Answering.Late.{own_open-found}
use hamromentorback.Exams.Answering.Closed.{
  IsKeyed, Preserves, Preserves-refl, finalize-Preserves, write-Preserves,
}

-- What a view that is handed an open attempt may do to the tables.
abbrev pub Keeps : (TestAttempt → Db → Option (Response × Db)) → Type 0
Keeps view =
    (a : TestAttempt) (db : Db) (r : Response) (out : Db)
    → IsKeyed db
    → find_attempt a.id db.attempts ≡ some a
    → is_in_progress a.status ≡ true
    → view a db ≡ some (r, out)
    → Preserves db out

pub unchanged :
    (db : Db) (r r' : Response) (out : Db)
    → IsKeyed db
    → Path (Option (Response × Db)) (some (r', db)) (some (r, out))
    → Preserves db out
unchanged db r r' out u h =
    subst (Preserves db) (ap (λ x. x.1) (some_inj.0 h)) (Preserves-refl db u)

running_of_open :
    (id : ℕ) (user : User) (l : List TestAttempt) {a : TestAttempt}
    → own_open_attempt id user l ≡ some a
    → is_in_progress a.status ≡ true
unfolding own_open_attempt
running_of_open id user l {a} h =
    last (a.id == id) (a.user_id == user.id) (is_in_progress a.status) (
      find_first_sound (λ r. (r.id == id) && (r.user_id == user.id) && is_in_progress r.status) l h)
  where
    last : (b c d : Bool) → (b && c && d) ≡ true → d ≡ true
    last b c d h = ground arith

handed-Preserves :
    (view : TestAttempt → Db → Option (Response × Db)) (o : Option TestAttempt) (db : Db)
    (r : Response) (out : Db)
    → Keeps view
    → IsKeyed db
    → ((a : TestAttempt)
        → o ≡ some a
        → (find_attempt a.id db.attempts ≡ some a) × (is_in_progress a.status ≡ true))
    → hand_to o view db ≡ some (r, out)
    → Preserves db out
unfolding hand_to
handed-Preserves view none db r out keeps u open_row h = unchanged db r not_found out u h
handed-Preserves view (some a) db r out keeps u open_row h =
    let (found, running) = open_row a refl in keeps a db r out u found running h

pub open-Preserves :
    (view : TestAttempt → Db → Option (Response × Db)) (id : ℕ) (user : User) (db : Db)
    (r : Response) (out : Db)
    → Keeps view
    → IsKeyed db
    → with_open id user view db ≡ some (r, out)
    → Preserves db out
unfolding with_open
open-Preserves view id user db r out keeps u h =
    handed-Preserves view (own_open_attempt id user db.attempts) db r out keeps u
      (λ a mine. (own_open-found id user db u mine, running_of_open id user db.attempts mine)) h

pub unless_expired-Keeps :
    (now : Time) (view : TestAttempt → Db → Option (Response × Db))
    → Keeps view
    → Keeps (unless_expired now view)
unfolding unless_expired
unless_expired-Keeps now view keeps a db r out u found running h =
    let (expired, _, h1) = bind-eq-some (is_expired_in now a db) _ h in
    elim (if-either expired _ (view a db) h1) [
      | inl late ↦
          let ((row, mid), finalized, e) =
            bind-eq-some (finalize_attempt now true a.id db) _ late in
          subst (Preserves db) (ap (λ x. x.1) (some_inj.0 e))
            (finalize-Preserves now true a.id db u finalized)
      | inr in_time ↦ keeps a db r out u found running in_time
    ]

write-attempt_id :
    (data_in : AnswerData) (c : Option Choice) (s : Answer)
    → (write_answer data_in c s).attempt_id ≡ s.attempt_id
unfolding write_answer
write-attempt_id data_in none s = refl
write-attempt_id data_in (some c) s = refl

store-Keeps : (data_in : AnswerData) (choice : Option Choice) → Keeps (store_answer data_in choice)
unfolding store_answer
store-Keeps data_in choice a db r out u found running h =
    let (q, _, e) = bind-eq-some (find_question data_in.question_id db.bank.questions) _ h in
    subst (Preserves db) (ap (λ x. x.1) (some_inj.0 e)) (
      write-Preserves a data_in.question_id (write_answer data_in choice) db u found running
        (write-attempt_id data_in choice))

found-Keeps : (data_in : AnswerData) (choice : Option Choice) → Keeps (store_found data_in choice)
unfolding store_found
found-Keeps data_in none a db r out u found running h = unchanged db r not_found out u h
found-Keeps data_in (some c) a db r out u found running h =
    store-Keeps data_in (some c) a db r out u found running h

choose-Keeps : (data_in : AnswerData) (option_id : Option ℕ) → Keeps (choose data_in option_id)
unfolding choose
choose-Keeps data_in none a db r out u found running h =
    store-Keeps data_in none a db r out u found running h
choose-Keeps data_in (some id) a db r out u found running h =
    found-Keeps data_in (find_choice id data_in.question_id db.bank.options) a db r out u found
      running h

pub answer-Keeps :
    (now : Time) (user : User) (data_in : AnswerData) → Keeps (answer_open now user data_in)
unfolding answer_open
answer-Keeps now user data_in a db r out u found running h =
    let (test, _, h1) = bind-eq-some (find_test a.test_id db.tests) _ h in
    elim (if-either
      (is_preview_attempt now user a test db
        && not (
            contains data_in.question_id
              (attempt_preview_question_ids a.id db.attempt_questions test)))
      _ _ h1) [
        | inl e ↦ unchanged db r purchase_required out u e
        | inr e ↦ choose-Keeps data_in data_in.option_id a db r out u found running e
      ]

pub mark-Keeps : (question_id : Option ℕ) (marked : Bool) → Keeps (mark_open question_id marked)
unfolding mark_open
mark-Keeps none marked a db r out u found running h = unchanged db r question_id_required out u h
mark-Keeps (some q) marked a db r out u found running h =
    let (test, _, h1) = bind-eq-some (find_test a.test_id db.tests) _ h in
    elim (if-either (contains q test.questions) _ _ h1) [
      | inl e ↦ subst (Preserves db) (ap (λ x. x.1) (some_inj.0 e)) (
          write-Preserves a q (λ r. record r { is_marked_for_review = marked }) db u found running
            (λ s. refl))
      | inr e ↦ unchanged db r not_found out u e
    ]

pub submit-Keeps : (now : Time) (user : User) → Keeps (submit_open now user)
unfolding submit_open
submit-Keeps now user a db r out u found running h =
    let (test, _, h1) = bind-eq-some (find_test a.test_id db.tests) _ h in
    elim (if-either (is_preview_attempt now user a test db) _ _ h1) [
      | inl e ↦ unchanged db r purchase_required out u e
      | inr e ↦
          let ((row, mid), finalized, e') = bind-eq-some (finalize_attempt now false a.id db) _ e in
          subst (Preserves db) (ap (λ x. x.1) (some_inj.0 e'))
            (finalize-Preserves now false a.id db u finalized)
    ]
