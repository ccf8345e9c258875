-- ===== src/Exams/Answering/Saved.antt =====
-- tests_app/views.py, SubmitAnswerView: what is read back of an answer that was saved.
use hamromentorback.Base.{
  ℕ, ◌≡◌, refl, sym, ap, ◌∙◌, Bool, true, false, ◌&&◌, not, Option, none, some, List, [], ◌∷◌, ◌==◌,
  arith, inl, inr, Bool-cases, eq→==, find_first, find_first_sound, update_by, any, contains,
  if-either,
}
use mathlib.Core.Option.{some_inj}
use hamromentorback.Time.{Time}
use hamromentorback.Accounts.{User}
use hamromentorback.Academics.Models.{Choice}
use hamromentorback.Exams.Models.{TestAttempt}
use hamromentorback.Exams.Frozen.{Answer, find_question, attempt_preview_question_ids}
use hamromentorback.Exams.Lifecycle.{Db, find_test, is_expired_in, finalize_attempt}
use hamromentorback.Base.{bind-eq-some}
use hamromentorback.Exams.Answering.{
  Response, saved, hand_to, with_open, unless_expired, own_open_attempt, AnswerData, find_choice,
  is_preview_attempt, write_answer, store_answer, store_found, choose, answer_open, submit_answer,
  is_answer, blank_answer, update_or_create,
}

find-write_any :
    (p : Answer → Bool) (f : Answer → Answer) (l : List Answer)
    → ((s : Answer) → p s ≡ true → p (f s) ≡ true)
    → any p l ≡ true
    → (s : Answer) × (find_first p (update_by p f l) ≡ some (f s))
find-write_any p f [] keeps h = cc
find-write_any p f (x ∷ l) keeps h = elim (Bool-cases (p x)) [
  | inl hit ↦ (x, simp (hit, keeps x hit))
  | inr miss ↦ let (s, e) = find-write_any p f l keeps (rw miss at h) in (s, simp (miss, e))
]

-- The answer that is read back is the one that was written, whether its row was there or not.
find-write :
    (i q : ℕ) (f : Answer → Answer) (l : List Answer)
    → ((s : Answer) → is_answer i q s ≡ true → is_answer i q (f s) ≡ true)
    → (s : Answer) × (find_first (is_answer i q) (update_or_create i q f l) ≡ some (f s))
unfolding update_or_create blank_answer
find-write i q f l keeps = elim (Bool-cases (any (is_answer i q) l)) [
  | inl there ↦ let (s, e) = find-write_any (is_answer i q) f l keeps there in (s, rw there e)
  | inr missing ↦
      let new = blank_answer i q in
      let own : is_answer i q new ≡ true = simp (eq→== i, eq→== q) in
      let hit = keeps new own in (new, simp (missing, hit))
]

-- The option of the answer, with the verdict of the question bank on it.
pub data Chosen (question_id : ℕ) (options : List Choice) : Option ℕ → Option Choice → Type 0 where
  no_option : Chosen question_id options none none
  an_option :
      (id : ℕ) (c : Choice)
      → find_choice id question_id options ≡ some c
      → Chosen question_id options (some id) (some c)

-- The verdict of the question bank on an answer.
abbrev verdict : Option Choice → Bool
verdict none = false
verdict (some c) = c.is_correct

choice_id :
    (id question_id : ℕ) (options : List Choice) (c : Choice)
    → find_choice id question_id options ≡ some c
    → c.id ≡ id
unfolding find_choice
choice_id id question_id options c h =
    first_key (find_first_sound (λ r. (r.id == id) && (r.question_id == question_id)) options h)
  where
    first_key : ((c.id == id) && (c.question_id == question_id)) ≡ true → c.id ≡ id
    first_key both = ground arith

Wrote : AnswerData → TestAttempt → Db → Db → Type 0
Wrote data_in a db out =
    (c : Option Choice) × Chosen data_in.question_id db.bank.options data_in.option_id c
    × (out.answers ≡ update_or_create a.id data_in.question_id (write_answer data_in c) db.answers)

store_wrote :
    (data_in : AnswerData) (c : Option Choice) (a : TestAttempt) (db : Db) {r : Response} {out : Db}
    → store_answer data_in c a db ≡ some (r, out)
    → out.answers ≡ update_or_create a.id data_in.question_id (write_answer data_in c) db.answers
unfolding store_answer
store_wrote data_in c a db h =
    let (q, _, e) = bind-eq-some (find_question data_in.question_id db.bank.questions) _ h in
    sym (ap (λ x. x.1.answers) (some_inj.0 e))

found-Wrote :
    (data_in : AnswerData) (id : ℕ) (o : Option Choice) (a : TestAttempt) (db : Db) {out : Db}
    → data_in.option_id ≡ some id
    → find_choice id data_in.question_id db.bank.options ≡ o
    → store_found data_in o a db ≡ some (saved, out)
    → Wrote data_in a db out
unfolding store_found Wrote
found-Wrote data_in id none a db key e h = let no = ap (λ x. x.0) (some_inj.0 h) in cc
found-Wrote data_in id (some c) a db key e h =
    (some c, rw key (an_option id c e), store_wrote data_in (some c) a db h)

choose-Wrote :
    (data_in : AnswerData) (option_id : Option ℕ) (a : TestAttempt) (db : Db) {out : Db}
    → data_in.option_id ≡ option_id
    → choose data_in option_id a db ≡ some (saved, out)
    → Wrote data_in a db out
unfolding choose Wrote
choose-Wrote data_in none a db key h = (none, rw key no_option, store_wrote data_in none a db h)
choose-Wrote data_in (some id) a db key h =
    found-Wrote data_in id (find_choice id data_in.question_id db.bank.options) a db key refl h

open-Wrote :
    (now : Time) (user : User) (data_in : AnswerData) (a : TestAttempt) (db : Db) {out : Db}
    → answer_open now user data_in a db ≡ some (saved, out)
    → Wrote data_in a db out
unfolding answer_open
open-Wrote now user data_in a db h =
    let (test, _, h1) = bind-eq-some (find_test a.test_id db.tests) _ h in
    elim (if-either
      (is_preview_attempt now user a test db
        && not (
            contains data_in.question_id
              (attempt_preview_question_ids a.id db.attempt_questions test)))
      _ _ h1) [
        | inl e ↦ let no = ap (λ x. x.0) (some_inj.0 e) in cc
        | inr e ↦ choose-Wrote data_in data_in.option_id a db refl e
      ]

in_time-Wrote :
    (now : Time) (user : User) (data_in : AnswerData) (a : TestAttempt) (db : Db) {out : Db}
    → unless_expired now (answer_open now user data_in) a db ≡ some (saved, out)
    → Wrote data_in a db out
unfolding unless_expired
in_time-Wrote now user data_in a db h =
    let (expired, _, h1) = bind-eq-some (is_expired_in now a db) _ h in
    elim (if-either expired _ (answer_open now user data_in a db) h1) [
      | inl late ↦
          let ((row, mid), _, e) = bind-eq-some (finalize_attempt now true a.id db) _ late in
          let no = ap (λ x. x.0) (some_inj.0 e) in cc
      | inr in_time ↦ open-Wrote now user data_in a db in_time
    ]

handed-Wrote :
    (now : Time) (user : User) (data_in : AnswerData) (o : Option TestAttempt) (db : Db) {out : Db}
    → hand_to o (unless_expired now (answer_open now user data_in)) db ≡ some (saved, out)
    → (a : TestAttempt) × (o ≡ some a) × Wrote data_in a db out
unfolding hand_to
handed-Wrote now user data_in none db h = let no = ap (λ x. x.0) (some_inj.0 h) in cc
handed-Wrote now user data_in (some a) db h = (a, refl, in_time-Wrote now user data_in a db h)

write-is_answer :
    (data_in : AnswerData) (c : Option Choice) (i q : ℕ) (s : Answer)
    → is_answer i q s ≡ true
    → is_answer i q (write_answer data_in c s) ≡ true
unfolding write_answer
write-is_answer data_in none i q s h = h
write-is_answer data_in (some c) i q s h = h

-- What is read: the option of the request, the mark and the time, and the verdict on the option.
abbrev pub ReadsBack : AnswerData → List Choice → Answer → Type 0
ReadsBack data_in options r =
    (r.selected_option ≡ data_in.option_id)
    × (r.is_marked_for_review ≡ data_in.mark_for_review)
    × (r.time_taken_seconds ≡ data_in.time_taken_seconds)
    × ((c : Option Choice) × Chosen data_in.question_id options data_in.option_id c
        × (r.is_correct ≡ verdict c))

reads_back :
    (data_in : AnswerData) (options : List Choice) (option_id : Option ℕ) (c : Option Choice)
    (s : Answer)
    → data_in.option_id ≡ option_id
    → Chosen data_in.question_id options option_id c
    → ReadsBack data_in options (write_answer data_in c s)
unfolding write_answer
reads_back data_in options _ _ s key no_option =
    (sym key, refl, refl, (none, rw key no_option, refl))
reads_back data_in options _ _ s key (an_option id c found) =
    let own = choice_id id data_in.question_id options c found in
    (ap some own ∙ sym key, refl, refl, (some c, rw key (an_option id c found), refl))

-- An answer that the request reports as saved is there afterwards: in the student's open attempt the
-- question's answer has the option, the mark and the time of the request, whether or not it had
-- been answered before; it is right where the question bank has the option as a right one of that
-- question, and without an option it is wrong.
pub submit_answer_read_back :
    (now : Time) (user : User) (id : ℕ) (data_in : AnswerData) (db : Db) {out : Db}
    → submit_answer now user id data_in db ≡ some (saved, out)
    → (a : TestAttempt) × (own_open_attempt id user db.attempts ≡ some a)
      × ((r : Answer) × (find_first (is_answer a.id data_in.question_id) out.answers ≡ some r)
          × ReadsBack data_in db.bank.options r)
unfolding submit_answer with_open Wrote
submit_answer_read_back now user id data_in db h =
    let (a, mine, (c, chosen, written)) =
      handed-Wrote now user data_in (own_open_attempt id user db.attempts) db h in
    let (s, e) =
      find-write a.id data_in.question_id (write_answer data_in c) db.answers
        (write-is_answer data_in c a.id data_in.question_id) in
    (
      a,
      mine,
      (
        write_answer data_in c s,
        ap (find_first (is_answer a.id data_in.question_id)) written ∙ e,
        reads_back data_in db.bank.options data_in.option_id c s refl chosen,
      ),
    )
